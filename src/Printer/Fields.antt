-- ===== src/Printer/Fields.antt =====
-- proj1/main.cc: the fields of a word, cut out by two shifts, and the immediates of its `case`s.
-- `buffer_` is `unsigned`, `imm1` an `int`.
use f_ca.Base.{ℕ, bit_and, bit_or, ◌==◌, if◌then◌else◌}
use f_ca.Word.{shl, shr}

pub record Fields : Type 0 where
  pub buffer_ : ℕ
  pub opcode : ℕ
  pub rd : ℕ
  pub funct3 : ℕ
  pub rs1 : ℕ
  pub rs2 : ℕ
  pub funct7 : ℕ

unfoldable pub fields : ℕ → Fields
fields word = record {
  buffer_ = word;
  opcode = shr (shl word 25) 25;
  rd = shr (shl word 20) 27;
  funct3 = shr (shl word 17) 29;
  rs1 = shr (shl word 12) 27;
  rs2 = shr (shl word 7) 27;
  funct7 = shr word 25;
}

-- `if (imm1 & digit) imm1 = imm1 | ones;`
unfoldable pub extend : ℕ → ℕ → ℕ → ℕ
extend digit ones imm1 = if bit_and imm1 digit == 0 then imm1 else bit_or imm1 ones

-- `case 0x37` and `case 0x17`
abbrev pub upper_imm : ℕ → ℕ
upper_imm word = shl (shr word 12) 12

-- `case 0x6f`
abbrev pub jal_imm : ℕ → ℕ
jal_imm word = extend 0x80000 0xFFFF0000 (
    bit_or
      (bit_or (bit_or (shr (bit_and word 0x80000000) 11) (shr (bit_and word 0x7FE00000) 20))
        (shr (bit_and word 0x100000) 9))
      (bit_and word 0xFF000))

-- `case 0x67`
abbrev pub jalr_imm : ℕ → ℕ
jalr_imm word = shr (bit_and word 0xFFF00000) 20

-- `case 0x63`
abbrev pub branch_imm : ℕ → ℕ
branch_imm word = extend 0x800 0xFFFFF000 (
    bit_or
      (bit_or (bit_or (shr (bit_and word 0x80000000) 19) (shr (bit_and word 0x7E000000) 20))
        (shr (bit_and word 0xF00) 7))
      (shl (bit_and word 0x80) 4))

-- `case 0x3`, by `funct3`
abbrev pub lb_imm : ℕ → ℕ
lb_imm word = extend 0x8 0xFFFFFFF0 (bit_and (shr word 20) 0xF)

abbrev pub lh_imm : ℕ → ℕ
lh_imm word = extend 0x80 0xFFFFFF00 (bit_and (shr word 20) 0xFF)

abbrev pub lw_imm : ℕ → ℕ
lw_imm word = extend 0x800 0xFFFFF000 (shr word 20)

abbrev pub lbu_imm : ℕ → ℕ
lbu_imm word = bit_and (shr word 20) 0xF

abbrev pub lhu_imm : ℕ → ℕ
lhu_imm word = bit_and (shr word 20) 0xFF

-- `case 0x23`, before `funct3` and by `funct3`
abbrev pub store_imm : Fields → ℕ
store_imm f = bit_or (shl f.funct7 5) f.rd

abbrev pub sb_imm : Fields → ℕ
sb_imm f = extend 0x8 0xFFFFFFF0 (bit_and (store_imm f) 0xF)

abbrev pub sh_imm : Fields → ℕ
sh_imm f = extend 0x80 0xFFFFFF00 (bit_and (store_imm f) 0xFF)

abbrev pub sw_imm : Fields → ℕ
sw_imm f = extend 0x800 0xFFFFF000 (store_imm f)

-- `case 0x13`
abbrev pub low_imm : ℕ → ℕ
low_imm word = extend 0x800 0xFFFFF000 (shr (bit_and word 0xFFF00000) 20)
