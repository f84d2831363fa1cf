-- ===== src/Tracer/Cut.antt =====
-- The parts of a word that the `case`s of proj1/icaproj1.c cut out of it themselves.
use f_ca.Base.{ℕ, ◌+◌, ◌*◌, ◌/◌, ◌%◌, ◌^◌, ◌<◌, ◌≡◌, refl, arith, bit_and}
use f_ca.Bits.{bit_and_low, bit_and_field}
use f_ca.Word.{IsWord, sar, sext}
use f_ca.Isa.{Instr, encode, IsInstr}
use f_ca.Isa.Bounds.{encode-IsWord}
use f_ca.Disassembler.Agree.{rs2_lem, func7_lem, msb_lem}
use f_ca.Tracer.Fields.{Fields, fields}

-- The parts of `f` that the shifts and `sltiu` cut out of the word themselves.
pub record IsCut (f : Fields) : Type 0 where
  pub word : IsWord f.word
  pub imm : sar f.word 20 ≡ f.imm4
  pub digits : f.word / 2 ^ 20 ≡ f.funct7 * 32 + f.rs2
  pub digit : bit_and (sar f.word 30) 1 ≡ f.funct7 / 32 % 2
  pub upper : bit_and f.word 0xFFFFF000 ≡ f.word / 2 ^ 12 * 2 ^ 12

fields-IsCut : (w : ℕ) → IsWord w → IsCut (fields w)
unfolding fields
fields-IsCut w h = record {
  word = h;
  imm = refl;
  digits =
      omega (arith, bit_and_low 7 (sar w 25), bit_and_low 5 (sar w 20), rs2_lem w h, func7_lem w h);
  digit =
      omega (arith, bit_and_low 7 (sar w 25), bit_and_low 1 (sar w 30), func7_lem w h, msb_lem w h);
  upper = omega (arith, bit_and_field 20 12 w);
}

-- A small immediate is the top of the word also without its sign.
pub sar_small : (w : ℕ) → IsWord w → sar w 20 < 2 ^ 11 → w / 2 ^ 20 ≡ sar w 20
unfolding sar
sar_small w h small = ground arith

pub sext_small : (n : ℕ) → n < 2 ^ 11 → sext 12 n ≡ n
unfolding sext
sext_small n h = ground arith

pub cut : (i : Instr) → IsInstr i → IsCut (fields (encode i))
cut i h = fields-IsCut (encode i) (encode-IsWord i h)
