-- ===== src/Tracer/Fields.antt =====
-- proj1/icaproj1.c, lines 59-70: the fields of a word. `buffer` holds values of type `int`.
use f_ca.Base.{ℕ, ◌-◌, ◌/◌, ◌%◌, ◌^◌, bit_and, ltb, if◌then◌else◌}
use f_ca.Word.{add32, shl, sar}

-- `/ 4` on `int`: rounded towards zero.
unfoldable pub quarter : ℕ → ℕ
quarter v = if ltb v (2 ^ 31) then v / 4 else (2 ^ 32 - (2 ^ 32 - v) / 4) % 2 ^ 32

pub record Fields : Type 0 where
  pub word : ℕ
  pub opcode : ℕ
  pub rd : ℕ
  pub funct3 : ℕ
  pub rs1 : ℕ
  pub rs2 : ℕ
  pub funct7 : ℕ
  pub imm1 : ℕ
  pub imm2 : ℕ
  pub imm3 : ℕ
  pub b_n : ℕ
  pub imm4 : ℕ

-- `imm3`, which `b_n` divides.
abbrev pub branch_offset : ℕ → ℕ
branch_offset word =
    add32
      (add32 (add32 (sar (bit_and word 0x80000000) 19) (shl (bit_and word 0x80) 4))
        (sar (bit_and word 0x7E000000) 20))
      (sar (bit_and word 0xF00) 7)

unfoldable pub fields : ℕ → Fields
fields word = record {
  word = word;
  opcode = bit_and word 0x7F;
  rd = bit_and (sar word 7) 0x1F;
  funct3 = bit_and (sar word 12) 0x7;
  rs1 = bit_and (sar word 15) 0x1F;
  rs2 = bit_and (sar word 20) 0x1F;
  funct7 = bit_and (sar word 25) 0x7F;
  imm1 = add32 (sar (bit_and word 0xFE000000) 20) (sar (bit_and word 0xF80) 7);
  imm2 =
      add32
        (add32 (add32 (sar (bit_and word 0x80000000) 11) (bit_and word 0xFF000))
          (sar (bit_and word 0x100000) 9))
        (sar (bit_and word 0x7FE00000) 20);
  imm3 = branch_offset word;
  b_n = quarter (branch_offset word);
  imm4 = sar word 20;
}
