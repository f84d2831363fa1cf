-- ===== src/Strings/Fields.antt =====
-- proj2/pa2/태환.c: the parts that `cut` takes out of the digits of a word.
use native.Mathlib.Nat.{pow-suc, mul_comm}
use f_ca.Base.{
  ℕ, zero, suc, ◌+◌, ◌*◌, ◌/◌, ◌^◌, ◌<◌, ◌≡◌, refl, sym, ap, ◌∙◌, arith, List, [], ◌∷◌, ◌++◌,
}
use f_ca.Simulator.Refines.Values.{quotient}
use f_ca.Strings.Blocks.{nibble_digit, spelled}
use f_ca.Strings.Cut.{part}
use f_ca.Strings.Digits.{digit_add, div_pow}

-- The digits from `r` on are those of the quotient.
pub digit_shift : (r j w : ℕ) → nibble_digit (r + j) w ≡ nibble_digit j (w / 2 ^ r)
unfolding nibble_digit
digit_shift zero j w =
    let here : 0 + j ≡ j = omega arith in
    let whole : w ≡ w / 2 ^ 0 = omega arith in rw here (ap (nibble_digit j) whole)
digit_shift (suc r) j w =
    let next_ : suc r + j ≡ suc (r + j) = omega arith in
    rw next_ (digit_shift r j (w / 2) ∙ ap (nibble_digit j) (div_pow r w))

-- Only the last `n` digits of the number count.
pub spelled_mod : (n x y q : ℕ) → x ≡ y + q * 2 ^ n → spelled n x ≡ spelled n y
unfolding spelled
spelled_mod zero x y q e = refl
spelled_mod (suc n) x y q e =
    let first : nibble_digit n x ≡ nibble_digit n y =
      rw e (digit_add (suc n) n y q (omega arith)) in
    let rest : spelled n x ≡ spelled n y =
      spelled_mod n x y (q * 2) (omega (arith, e, ap (λ (t : ℕ). q * t) (pow-suc 2 n))) in
    rw (first, rest) refl

part_none : (cs : List ℕ) → part 0 0 cs ≡ []
unfolding part
part_none [] = refl
part_none (c ∷ cs) = refl

part_first : (n r w : ℕ) → part 0 n (spelled (r + n) w) ≡ spelled n (w / 2 ^ r)
unfolding part spelled
part_first zero r w = part_none (spelled (r + 0) w)
part_first (suc n) r w =
    let next_ : r + suc n ≡ suc (r + n) = omega arith in
    rw (next_, digit_shift r n w, part_first n r w) refl

pub part_lem : (skip n r w : ℕ) → part skip n (spelled (r + n + skip) w) ≡ spelled n (w / 2 ^ r)
unfolding part spelled
part_lem zero n r w = let here : r + n + 0 ≡ r + n = omega arith in rw here (part_first n r w)
part_lem (suc skip) n r w =
    let next_ : r + n + suc skip ≡ suc (r + n + skip) = omega arith in
    rw next_ (part_lem skip n r w)

-- Digits in front of digits.
pub spelled_append :
    (a b x y : ℕ) → y < 2 ^ b → spelled a x ++ spelled b y ≡ spelled (b + a) (y + x * 2 ^ b)
unfolding spelled
spelled_append zero b x y h =
    let here : b + 0 ≡ b = omega arith in rw here (sym (spelled_mod b (y + x * 2 ^ b) y x refl))
spelled_append (suc a) b x y h =
    let next_ : b + suc a ≡ suc (b + a) = omega arith in
    let turned : y + x * 2 ^ b ≡ 2 ^ b * x + y = omega (arith, mul_comm x (2 ^ b)) in
    let above : (y + x * 2 ^ b) / 2 ^ b ≡ x =
      ap (λ (t : ℕ). t / 2 ^ b) turned ∙ quotient (2 ^ b) x y h in
    rw (next_, digit_shift b a (y + x * 2 ^ b), above, spelled_append a b x y h) refl

-- A part of a word's digits, named by what it stands for.
pub part-is :
    (skip n r v w q : ℕ)
    → w / 2 ^ r ≡ v + q * 2 ^ n
    → part skip n (spelled (r + n + skip) w) ≡ spelled n v
part-is skip n r v w q e = part_lem skip n r w ∙ spelled_mod n (w / 2 ^ r) v q e
