-- ===== src/Strings/Roundtrip.antt =====
-- proj2/pa2/태환.c: numbers to digits and back.
use native.Mathlib.Decide.{dec_lt}
use f_ca.Base.{
  ℕ, ◌-◌, ◌%◌, ◌^◌, ◌≤◌, ◌<◌, zero, suc, ◌≡◌, ◌≢◌, ◌⊎◌, inl, inr, refl, ap, ◌∙◌, arith, false,
}
use f_ca.Word.{IsWord, slt, sext}
use f_ca.Strings.Blocks.{string, spelled, signedbintodec, unsignedbintodec}
use f_ca.Strings.Binary.{Divided, divide, dectobin, dectobin32, dectobin8}
use f_ca.Strings.Digits.{digit-lt}
use f_ca.Strings.Converted.{Spells, dectobin-positive, dectobin-negative, dectobin-lowest}
use f_ca.Strings.Arrays.{same_or}
use f_ca.Strings.Halving.{divide-Halved, round}
use f_ca.Strings.Values.{string-Spells, signedbintodec-spelled, unsignedbintodec-spelled}

word_sign : (w : ℕ) → w ≢ 2 ^ 31 → (w < 2 ^ 31) ⊎ (2 ^ 31 < w)
word_sign w other = ground arith

char_sign :
    (v : ℕ) → v < 2 ^ 8 → (sext 8 v < 2 ^ 7) ⊎ ((2 ^ 32 - 2 ^ 7 ≤ sext 8 v) × (sext 8 v < 2 ^ 32))
unfolding sext
char_sign v h = ground arith

-- The characters that `dectobin32` writes.
pub dectobin32-Spells :
    (w : ℕ) (fresh : ℕ → ℕ) → IsWord w → w ≢ 2 ^ 31 → Spells 32 w fresh (dectobin32 fresh w)
unfolding dectobin32
dectobin32-Spells w fresh word other = elim (word_sign w other) [
  | inl low ↦ dectobin-positive 32 w fresh (inl refl) low (omega arith)
  | inr high ↦ dectobin-negative 32 w fresh (inl refl) high word (omega arith)
]

pub dectobin8-Spells :
    (v : ℕ) (fresh : ℕ → ℕ) → v < 2 ^ 8 → Spells 8 (sext 8 v) fresh (dectobin8 fresh (sext 8 v))
unfolding dectobin8
dectobin8-Spells v fresh h = elim (char_sign v h) [
  | inl low ↦ dectobin-positive 8 (sext 8 v) fresh (inr refl) (omega arith) (omega arith)
  | inr high ↦
      dectobin-negative 8 (sext 8 v) fresh (inr refl) (omega arith) (omega arith) (omega arith)
]

pub sext_whole : (w : ℕ) → IsWord w → sext 32 (w % 2 ^ 32) ≡ w
unfolding sext
sext_whole w h = ground arith

pub sext_low : (v : ℕ) → v < 2 ^ 8 → sext 8 v % 2 ^ 8 ≡ v
unfolding sext
sext_low v h = ground arith

-- `dectobin32`, read back by `signedbintodec`, is the number, for every `int` but -2 ^ 31, if the
-- byte behind the digits is a NUL.
pub signedbintodec-dectobin32 :
    (w : ℕ) (fresh : ℕ → ℕ)
    → IsWord w
    → w ≢ 2 ^ 31
    → fresh 32 ≡ 0
    → signedbintodec (string 33 0 (dectobin32 fresh w)) ≡ w
signedbintodec-dectobin32 w fresh word other end =
    ap signedbintodec
      (string-Spells 32 0 w fresh (dectobin32 fresh w) (dectobin32-Spells w fresh word other) end)
    ∙ signedbintodec-spelled 31 w (omega arith)
    ∙ sext_whole w word

-- `dectobin8` of a `char`, read back by `signedbintodec`, is that `char`, and by `unsignedbintodec`
-- its byte, if the byte behind the digits is a NUL.
pub bintodec-dectobin8 :
    (v : ℕ) (fresh : ℕ → ℕ)
    → v < 2 ^ 8
    → fresh 8 ≡ 0
    → (signedbintodec (string 33 0 (dectobin8 fresh (sext 8 v))) ≡ sext 8 v)
      × (unsignedbintodec (string 33 0 (dectobin8 fresh (sext 8 v))) ≡ v)
bintodec-dectobin8 v fresh h end =
    let low : sext 8 v % 2 ^ 8 ≡ v = sext_low v h in
    let spells : string 33 0 (dectobin8 fresh (sext 8 v)) ≡ spelled 8 (sext 8 v) =
      string-Spells 8 24 (sext 8 v) fresh (dectobin8 fresh (sext 8 v)) (dectobin8-Spells v fresh h)
        end in
    (
      ap signedbintodec spells
          ∙ signedbintodec-spelled 7 (sext 8 v) (omega arith)
          ∙ ap (sext 8) low,
      ap unsignedbintodec spells ∙ unsignedbintodec-spelled 8 (sext 8 v) (omega arith) ∙ low,
    )

-- A block that begins with 32 digits, and keeps what is behind them.
abbrev pub IsWritten : (ℕ → ℕ) → (ℕ → ℕ) → Type 0
IsWritten fresh block =
    ((j : ℕ) → j < 32 → (block j ≡ 48) ⊎ (block j ≡ 49)) × ((j : ℕ) → 32 ≤ j → block j ≡ fresh j)

Spells-IsWritten : (w : ℕ) (fresh block : ℕ → ℕ) → Spells 32 w fresh block → IsWritten fresh block
Spells-IsWritten w fresh block spells =
    ((λ j lt. ground (arith, spells j, digit-lt (32 - 1 - j) w)), λ j le. ground (arith, spells j))

-- For every `int`, -2 ^ 31 included, `dectobin32` writes 0s and 1s to the first 32 bytes of the
-- block of 33, and leaves what is behind them, the last byte of the block included.
pub dectobin32-IsWritten : (w : ℕ) (fresh : ℕ → ℕ) → IsWord w → IsWritten fresh (dectobin32 fresh w)
unfolding dectobin32
dectobin32-IsWritten w fresh word = elim (same_or w (2 ^ 31)) [
  | inl e ↦
      rw e
        (Spells-IsWritten (2 ^ 32 - 1) fresh (dectobin 32 fresh (2 ^ 31)) (dectobin-lowest fresh))
  | inr other ↦ Spells-IsWritten w fresh (dectobin32 fresh w) (dectobin32-Spells w fresh word other)
]

divide-stays : (fuel : ℕ) (s : Divided) → slt 0 s.quotient ≡ false → divide fuel s ≡ s
unfolding divide
divide-stays zero s h = refl
divide-stays (suc fuel) s h = rw (h, divide) refl

divide-enough :
    (a b : ℕ) (s : Divided) → slt 0 (divide a s).quotient ≡ false → a ≤ b → divide b s ≡ divide a s
unfolding divide
divide-enough zero b s h le = divide-stays b s h
divide-enough (suc a) zero s h le = absurd (omega arith)
divide-enough (suc a) (suc b) s h le = ground (arith, divide-enough a b (round s))

slt-zero : (q : ℕ) → q ≡ 0 → slt 0 q ≡ false
unfolding slt
slt-zero q e = ground arith

slt-high : (q : ℕ) → 2 ^ 31 ≤ q → IsWord q → slt 0 q ≡ false
unfolding slt
slt-high q h word = ground arith

divide-stops : (s : Divided) → IsWord s.quotient → slt 0 (divide 32 s).quotient ≡ false
divide-stops s word = elim (dec_lt s.quotient (2 ^ 31)) [
  | yes low ↦ slt-zero (divide 32 s).quotient (divide-Halved 32 s (omega arith) (omega arith)).stops
  | no high ↦
      let stops : slt 0 s.quotient ≡ false = slt-high s.quotient (omega arith) word in
      rw (divide-stays 32 s stops) stops
]

-- After 32 rounds, or any larger number of them, the quotient of an `int` is not positive, and the
-- state is the same: the loop of `dectobin32` and `dectobin8` ends.
pub divide-ends :
    (fuel : ℕ) (s : Divided)
    → IsWord s.quotient
    → 32 ≤ fuel
    → (slt 0 (divide fuel s).quotient ≡ false) × (divide fuel s ≡ divide 32 s)
divide-ends fuel s word h =
    let same : divide fuel s ≡ divide 32 s = divide-enough 32 fuel s (divide-stops s word) h in
    (rw same (divide-stops s word), same)
