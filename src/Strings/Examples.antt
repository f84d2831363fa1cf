-- ===== src/Strings/Examples.antt =====
-- The laws of the simulator on strings of digits, at concrete numbers, files and machines.
use f_ca.Base.{ℕ, ◌≡◌, refl, arith, List, [], ◌∷◌, false, update}
use f_ca.Word.{sext, slt}
use f_ca.Machine.{Machine, put_char, initial, write_reg, IsValid}
use f_ca.Isa.{Instr, ImmOp, LoadOp, StoreOp, RegOp, imm, lui, jal, jalr, load, store, reg, encode}
use f_ca.Isa.Meaning.{meaning}
use f_ca.Strings.Blocks.{string, spelled, signedbintodec, unsignedbintodec}
use f_ca.Strings.Binary.{Divided, divide, dectobin32, dectobin8}
use f_ca.Strings.Roundtrip.{
  signedbintodec-dectobin32, bintodec-dectobin8, dectobin32-IsWritten, IsWritten, divide-ends,
}
use f_ca.Strings.Exec.{round}
use f_ca.Strings.Whole.{round-meaning}

-- A block of zeros.
abbrev zeros : ℕ → ℕ
zeros _ = 0

-- -6 and its digits.
signedbintodec-dectobin32_example :
    signedbintodec (string 33 0 (dectobin32 zeros 0xFFFFFFFA)) ≡ 0xFFFFFFFA
signedbintodec-dectobin32_example =
    signedbintodec-dectobin32 0xFFFFFFFA zeros (omega arith) (omega arith) refl

bintodec-dectobin8_example :
    (signedbintodec (string 33 0 (dectobin8 zeros (sext 8 0x80))) ≡ sext 8 0x80)
    × (unsignedbintodec (string 33 0 (dectobin8 zeros (sext 8 0x80))) ≡ 0x80)
bintodec-dectobin8_example = bintodec-dectobin8 0x80 zeros (omega arith) refl

dectobin32-IsWritten_example : IsWritten zeros (dectobin32 zeros 0x80000000)
dectobin32-IsWritten_example = dectobin32-IsWritten 0x80000000 zeros (omega arith)

abbrev thirteen : Divided
thirteen = record { binary_array = λ _. 2; i = 0; quotient = 13 }

divide-ends_example :
    (slt 0 (divide 40 thirteen).quotient ≡ false) × (divide 40 thirteen ≡ divide 32 thirteen)
divide-ends_example = divide-ends 40 thirteen (omega arith) (omega arith)

-- x1 is 0x20000000, and x2 the character A.
abbrev pointing : Machine
pointing = record (initial []) { reg = update (update (λ _. 0) 1 0x20000000) 2 65 }

pointing-IsValid : IsValid pointing
pointing-IsValid = record {
  pc_word = omega arith;
  reg_word = λ i. ground arith;
  mem_byte = λ i. omega arith;
  zero_reg = refl;
  input_word = tt;
}

-- A block of fives.
abbrev fives : ℕ → ℕ
fives _ = 5

round-meaning_example :
    round fives (spelled 32 (encode (jalr 5 2 0xFFF))) pointing ≡ meaning (jalr 5 2 0xFFF) pointing
unfolding sext
round-meaning_example =
    round-meaning fives pointing pointing-IsValid (omega arith) (jalr 5 2 0xFFF) (ground arith)
      (omega arith, refl)

-- It prints A, and jumps over one instruction to the end of the program.
abbrev sample : List Instr
sample = store StoreOp.sw 2 1 0 ∷ jal 3 4 ∷ lui 2 3 ∷ []

abbrev after : Machine
after = record (write_reg 3 8 (record (put_char 65 pointing) { pc = 4 })) { pc = 12 }
