-- ===== src/Strings/Values.antt =====
-- proj2/pa2/태환.c: the values of strings of binary digits, and the strings that blocks hold.
use native.Mathlib.Nat.{one-le-pow, mul_comm, pow-suc, pow-le-pow_right}
use f_ca.Base.{
  ℕ, zero, suc, ◌+◌, ◌-◌, ◌*◌, ◌/◌, ◌%◌, ◌^◌, ◌≤◌, ◌<◌, ◌≡◌, ◌≢◌, refl, ap, ◌∙◌, arith,
  if◌then◌else◌, ltb, length, ne→==,
}
use f_ca.Bits.{halves}
use f_ca.Word.{IsWord, add32, sub32, sext}
use f_ca.Strings.Blocks.{
  nibble_digit, pow, string, spelled, add_digits, signedbintodec, unsignedbintodec,
}
use f_ca.Strings.Digits.{pow_lem, digit-lt}
use f_ca.Strings.Converted.{Spells}

pub length-spelled : (n w : ℕ) → length (spelled n w) ≡ n
unfolding spelled
length-spelled zero w = refl
length-spelled (suc n) w = ap suc (length-spelled n w)

-- The digit on top of the `n` lowest ones.
pub digit_top : (n w : ℕ) → w % 2 ^ suc n ≡ nibble_digit n w * 2 ^ n + w % 2 ^ n
unfolding nibble_digit
digit_top zero w = omega arith
digit_top (suc n) w = omega (
  arith,
  digit_top n (w / 2),
  halves w (2 ^ suc n),
  halves w (2 ^ n),
  ap (λ (t : ℕ). w % t) (pow-suc 2 (suc n)),
  ap (λ (t : ℕ). w % t) (pow-suc 2 n),
  pow-suc 2 n,
  ap (λ (t : ℕ). nibble_digit n (w / 2) * t) (pow-suc 2 n),
)

char_value : (d : ℕ) → d < 2 → sub32 (d + 48) 48 ≡ d
char_value d h = omega arith

-- What a digit adds.
pub weight :
    (n w : ℕ)
    → pow 2 (length (spelled n w)) * sub32 (nibble_digit n w + 48) 48 ≡ 2 ^ n * nibble_digit n w
weight n w = rw (length-spelled n w, pow_lem n, char_value (nibble_digit n w) (digit-lt n w)) refl

pub add_digits-spelled :
    (n w dec : ℕ) → IsWord dec → add_digits (spelled n w) dec ≡ (dec + w % 2 ^ n) % 2 ^ 32
unfolding spelled add_digits
add_digits-spelled zero w dec h = omega (arith, h)
add_digits-spelled (suc n) w dec h =
    ap (λ (v : ℕ). add_digits (spelled n w) (add32 dec v)) (weight n w)
    ∙ (omega (
      arith,
      add_digits-spelled n w (add32 dec (2 ^ n * nibble_digit n w)) (omega arith),
      digit_top n w,
      mul_comm (2 ^ n) (nibble_digit n w),
    ))

pub unsignedbintodec-spelled : (n w : ℕ) → n ≤ 32 → unsignedbintodec (spelled n w) ≡ w % 2 ^ n
unfolding unsignedbintodec
unsignedbintodec-spelled n w h = omega (arith, add_digits-spelled n w 0 (omega arith), below)
  where
    below : w % 2 ^ n < 2 ^ 32
    below = omega (arith, pow-le-pow_right {n = 2} (omega arith) h, one-le-pow n 2)

signed_cases :
    (p d r v : ℕ)
    → d < 2
    → r < p
    → p ≤ 2 ^ 31
    → v ≡ d * p + r
    → (sub32 0 (p * d % 2 ^ 32) + r) % 2 ^ 32 ≡ (if ltb v p then v else v + 2 ^ 32 - p * 2)
signed_cases p zero r v h lt le e = ground arith
signed_cases p (suc zero) r v h lt le e = ground arith
signed_cases p (suc (suc d)) r v h lt le e = absurd (omega arith)

pub signedbintodec-spelled :
    (n w : ℕ) → n < 32 → signedbintodec (spelled (suc n) w) ≡ sext (suc n) (w % 2 ^ suc n)
unfolding spelled signedbintodec sext
signedbintodec-spelled n w h =
    let d : ℕ = nibble_digit n w in
    let back : suc n - 1 ≡ n = omega arith in
    ap (λ (v : ℕ). add_digits (spelled n w) (sub32 0 (v % 2 ^ 32))) (weight n w)
    ∙ add_digits-spelled n w (sub32 0 (2 ^ n * d % 2 ^ 32)) (omega arith)
    ∙ signed_cases (2 ^ n) d (w % 2 ^ n) (w % 2 ^ suc n) (digit-lt n w)
        (omega (arith, one-le-pow n 2))
        (pow-le-pow_right {n = 2} (omega arith) {i = n} {j = 31} (omega arith)) (digit_top n w)
    ∙ ground (arith, pow-suc 2 n, ap (λ (k : ℕ). 2 ^ k) back)

-- A block's string, where digits are followed by a NUL.
pub string_lem :
    (n extra p w : ℕ) (block : ℕ → ℕ)
    → ((j : ℕ) → j < n → block (p + j) ≡ nibble_digit (n - 1 - j) w + 48)
    → block (p + n) ≡ 0
    → string (suc (n + extra)) p block ≡ spelled n w
unfolding string spelled
string_lem zero extra p w block chars end =
    let here : block p ≡ 0 = ap block (omega arith) ∙ end in rw here refl
string_lem (suc n) extra p w block chars end =
    let here : block p ≡ nibble_digit n w + 48 =
      ap block (omega arith)
      ∙ chars 0 (omega arith)
      ∙ ap (λ (j : ℕ). nibble_digit j w + 48) (omega arith) in
    let stays : block p ≢ 0 = omega arith in
    let room : suc n + extra ≡ suc (n + extra) = omega arith in
    let rest : string (suc n + extra) (p + 1) block ≡ spelled n w =
      ap (λ (m : ℕ). string m (p + 1) block) room
      ∙ string_lem n extra (p + 1) w block
          (λ j lt.
            ap block (omega arith)
            ∙ chars (suc j) (omega arith)
            ∙ ap (λ (k : ℕ). nibble_digit k w + 48) (omega arith))
          (ap block (omega arith) ∙ end) in
    rw (ne→== (block p) 0 stays, here, rest) refl

pub string-Spells :
    (width extra w : ℕ) (fresh block : ℕ → ℕ)
    → Spells width w fresh block
    → fresh width ≡ 0
    → string (suc (width + extra)) 0 block ≡ spelled width w
string-Spells width extra w fresh block spells end =
    let here : (j : ℕ) → 0 + j ≡ j = λ j. omega arith in
    string_lem width extra 0 w block (λ j lt. ap block (here j) ∙ ground (arith, spells j))
      (ap block (here width) ∙ ground (arith, spells width, end))
