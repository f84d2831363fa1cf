-- ===== src/Disassembler/Decode.antt =====
-- project_1/main.c, lines 37-48: the parts of a word. `buf` holds values of type `int`, so `>>`
-- copies the sign bit, but for the masks that are `unsigned int`.
use f_ca.Base.{ℕ, bit_and}
use f_ca.Word.{add32, shl, sar}

pub record Parts : Type 0 where
  pub opcode : ℕ
  pub rd : ℕ
  pub func3 : ℕ
  pub rs1 : ℕ
  pub rs2 : ℕ
  pub func7 : ℕ
  pub msb : ℕ
  pub imm : ℕ
  pub imm_s : ℕ
  pub imm_uj : ℕ
  pub imm_sb : ℕ
  pub upper : ℕ

-- `upper` is the `buf[id] & 0xFFFFF000` of the lines that print `auipc` and `lui`.
unfoldable pub parts : ℕ → Parts
parts word = record {
  opcode = bit_and word 0x7F;
  rd = bit_and (sar word 7) 0x1F;
  func3 = bit_and (sar word 12) 0x7;
  rs1 = bit_and (sar word 15) 0x1F;
  rs2 = bit_and (sar word 20) 0x1F;
  func7 = bit_and (sar word 25) 0x7F;
  msb = sar word 30;
  imm = sar word 20;
  imm_s = add32 (sar (bit_and word 0xFE000000) 20) (sar (bit_and word 0xF80) 7);
  imm_uj =
      add32
        (add32 (add32 (sar (bit_and word 0x80000000) 11) (bit_and word 0xFF000))
          (sar (bit_and word 0x100000) 9))
        (sar (bit_and word 0x7FE00000) 20);
  imm_sb =
      add32
        (add32 (add32 (sar (bit_and word 0x80000000) 19) (shl (bit_and word 0x80) 4))
          (sar (bit_and word 0x7E000000) 20))
        (sar (bit_and word 0xF00) 7);
  upper = bit_and word 0xFFFFF000;
}
