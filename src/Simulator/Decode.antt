-- ===== src/Simulator/Decode.antt =====
-- project_2/main.c, lines 9-11 and 66-77: the fields and the immediates of an instruction word.
use f_ca.Base.{ℕ, ◌-◌, bit_and, bit_or}
use f_ca.Word.{shl, shr, sar}

-- `(val << (32 - bit)) >> (32 - bit)` on `int`.
unfoldable pub sign : ℕ → ℕ → ℕ
sign val bit = sar (shl val (32 - bit)) (32 - bit)

pub record Fields : Type 0 where
  pub opcode : ℕ
  pub rd : ℕ
  pub func3 : ℕ
  pub rs1 : ℕ
  pub rs2 : ℕ
  pub func7 : ℕ
  pub imm_i : ℕ
  pub imm_s : ℕ
  pub imm_b : ℕ
  pub imm_j : ℕ
  pub imm_u : ℕ

unfoldable pub decode : ℕ → Fields
decode inst = record {
  opcode = bit_and inst 0x7F;
  rd = shr (bit_and inst 0xF80) 7;
  func3 = shr (bit_and inst 0x7000) 12;
  rs1 = shr (bit_and inst 0xF8000) 15;
  rs2 = shr (bit_and inst 0x1F00000) 20;
  func7 = shr (bit_and inst 0xFE000000) 25;
  imm_i = sign (shr inst 20) 12;
  imm_s = sign (bit_or (shr (bit_and inst 0xFE000000) 20) (bit_and (shr inst 7) 0x1F)) 12;
  imm_b =
      sign
        (bit_or
          (bit_or (bit_or (shr (bit_and inst 0x80000000) 19) (shr (bit_and inst 0x7E000000) 20))
            (shr (bit_and inst 0x00000F00) 7))
          (shl (bit_and inst 0x00000080) 4))
        13;
  imm_j =
      sign
        (bit_or
          (bit_or (bit_or (shr (bit_and inst 0x80000000) 11) (shr (bit_and inst 0x7FE00000) 20))
            (shr (bit_and inst 0x00100000) 9))
          (bit_and inst 0x000FF000))
        21;
  imm_u = bit_and inst 0xFFFFF000;
}
