-- ===== src/Handlers/Decode.antt =====
-- proj2/my_project/dbswl.c, lines 26-29 and 348-361: the fields and the immediates of a word.
use f_ca.Base.{ℕ, ◌-◌, bit_and, bit_or}
use f_ca.Word.{shl, shr, sar}
use f_ca.Simulator.Decode.{Fields}

-- `(value << shift) >> shift` on `int`, with `shift` for `32 - bits`.
unfoldable pub sign_extend : ℕ → ℕ → ℕ
sign_extend value bits = let shift : ℕ = 32 - bits in sar (shl value shift) shift

-- The masks and shifts are the constants that lines 6-17 name.
unfoldable pub decode : ℕ → Fields
decode instruction = record {
  opcode = bit_and instruction 0x7F;
  rd = shr (bit_and instruction 0xF80) 7;
  func3 = shr (bit_and instruction 0x7000) 12;
  rs1 = shr (bit_and instruction 0xF8000) 15;
  rs2 = shr (bit_and instruction 0x1F00000) 20;
  func7 = shr (bit_and instruction 0xFE000000) 25;
  imm_i = sign_extend (shr instruction 20) 12;
  imm_s =
      sign_extend
        (bit_or (shr (bit_and instruction 0xFE000000) 20) (bit_and (shr instruction 7) 0x1F)) 12;
  imm_b =
      sign_extend
        (bit_or
          (bit_or
            (bit_or (shr (bit_and instruction 0x80000000) 19)
              (shr (bit_and instruction 0x7E000000) 20))
            (shr (bit_and instruction 0x00000F00) 7))
          (shl (bit_and instruction 0x00000080) 4))
        13;
  imm_j =
      sign_extend
        (bit_or
          (bit_or
            (bit_or (shr (bit_and instruction 0x80000000) 11)
              (shr (bit_and instruction 0x7FE00000) 20))
            (shr (bit_and instruction 0x00100000) 9))
          (bit_and instruction 0x000FF000))
        21;
  imm_u = bit_and instruction 0xFFFFF000;
}
