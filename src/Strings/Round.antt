-- ===== src/Strings/Round.antt =====
-- proj2/pa2/태환.c: a round on the digits of a word.
use native.Mathlib.Nat.{div-add-mod, mul_comm}
use mathlib.Core.Bool.{true≢false}
use f_ca.Base.{
  ℕ, zero, suc, ◌+◌, ◌*◌, ◌/◌, ◌%◌, ◌^◌, ◌≤◌, ◌<◌, ◌≡◌, ◌≢◌, refl, sym, ap, ◌∙◌, arith, ◌∷◌, [],
  ◌++◌, Bool, true, false, ◌==◌, ◌&&◌, Bool-cases, inl, inr, ◌||◌,
}
use f_ca.Word.{slt, sext}
use f_ca.Machine.{Machine, ◌>>=◌}
use f_ca.Strings.Blocks.{nibble_digit, spelled, signedbintodec, unsignedbintodec}
use f_ca.Strings.Values.{digit_top, signedbintodec-spelled, unsignedbintodec-spelled}
use f_ca.Strings.Cut.{cut, part, equal}
use f_ca.Strings.Fields.{part-is, part_lem, spelled_append}
use f_ca.Strings.Exec.{execute, finish, round}

-- A part of a word's digits, named by its value.
pub part-at :
    (skip n r v w : ℕ)
    → w / 2 ^ r % 2 ^ n ≡ v
    → part skip n (spelled (r + n + skip) w) ≡ spelled n v
part-at skip n r v w e =
    part-is skip n r v w (w / 2 ^ r / 2 ^ n)
      (omega (arith, div-add-mod (w / 2 ^ r) (2 ^ n), mul_comm (2 ^ n) (w / 2 ^ r / 2 ^ n), e))

pub unsigned_part :
    (skip n r w : ℕ)
    → n ≤ 32
    → unsignedbintodec (part skip n (spelled (r + n + skip) w)) ≡ w / 2 ^ r % 2 ^ n
unsigned_part skip n r w h =
    ap unsignedbintodec (part_lem skip n r w) ∙ unsignedbintodec-spelled n (w / 2 ^ r) h

pub signed_part :
    (skip n r w : ℕ)
    → n < 32
    → signedbintodec (part skip (suc n) (spelled (r + suc n + skip) w))
      ≡ sext (suc n) (w / 2 ^ r % 2 ^ suc n)
signed_part skip n r w h =
    ap signedbintodec (part_lem skip (suc n) r w) ∙ signedbintodec-spelled n (w / 2 ^ r) h

and_true : (a b : Bool) → (a && b) ≡ true → (a ≡ true) × (b ≡ true)
and_true true b e = (refl, e)
and_true false b e = absurd (true≢false (sym e))

equal-spelled : (n x y : ℕ) → equal (spelled n x) (spelled n y) ≡ true → x % 2 ^ n ≡ y % 2 ^ n
unfolding equal spelled
equal-spelled zero x y e = omega arith
equal-spelled (suc n) x y e =
    let both =
      and_true (nibble_digit n x + 48 == nibble_digit n y + 48) (equal (spelled n x) (spelled n y))
        e in
    let first : nibble_digit n x ≡ nibble_digit n y = ground (arith, both.0) in
    omega (
      arith,
      digit_top n x,
      digit_top n y,
      equal-spelled n x y both.1,
      ap (λ (d : ℕ). d * 2 ^ n) first,
    )

other_word : (w : ℕ) → w % 128 ≢ 127 → equal (spelled 32 w) (spelled 32 0xFFFFFFFF) ≡ false
other_word w h = elim (Bool-cases (equal (spelled 32 w) (spelled 32 0xFFFFFFFF))) [
  | inl e ↦ absurd (omega (arith, equal-spelled 32 w 0xFFFFFFFF e))
  | inr e ↦ e
]

pub inside : (pc : ℕ) → pc ≤ 16384 → (slt pc 0 || slt 16384 pc) ≡ false
unfolding slt
inside pc h = ground arith

-- A round on a word whose opcode is not all ones.
pub round-at :
    (fresh : ℕ → ℕ) (w : ℕ) (m : Machine)
    → m.pc ≤ 16384
    → w % 128 ≢ 127
    → round fresh (spelled 32 w) m ≡ (
        execute fresh (cut (spelled 32 w)) (w / 2 ^ 15 % 32) (w / 2 ^ 20 % 32) (w / 2 ^ 7 % 32) m
        >>= finish (w / 2 ^ 15 % 32) (w / 2 ^ 20 % 32) (w / 2 ^ 7 % 32))
unfolding round cut
round-at fresh w m h other =
    rw
      (
        inside m.pc h,
        other_word w other,
        unsigned_part 12 5 15 w (omega arith),
        unsigned_part 7 5 20 w (omega arith),
        unsigned_part 20 5 7 w (omega arith),
      )
      refl

-- The character '0' that ends an offset.
last_zero : 48 ∷ [] ≡ spelled 1 0
unfolding spelled nibble_digit
last_zero = refl

-- The offset of a branch.
pub branch_offset :
    (w : ℕ)
    → signedbintodec (
        part 0 1 (spelled 32 w)
        ++ part 24 1 (spelled 32 w)
        ++ part 1 6 (spelled 32 w)
        ++ part 20 4 (spelled 32 w)
        ++ 48 ∷ [])
      ≡ sext 13 (
          w / 2 ^ 31 % 2 * 2 ^ 12
          + w / 2 ^ 7 % 2 * 2 ^ 11
          + w / 2 ^ 25 % 64 * 2 ^ 5
          + w / 2 ^ 8 % 16 * 2)
branch_offset w =
    let a : ℕ = w / 2 ^ 31 % 2 in
    let b : ℕ = w / 2 ^ 7 % 2 in
    let c : ℕ = w / 2 ^ 25 % 64 in
    let d : ℕ = w / 2 ^ 8 % 16 in
    let v0 : ℕ = b + a * 2 ^ 1 in
    let v1 : ℕ = c + v0 * 2 ^ 6 in
    let v2 : ℕ = d + v1 * 2 ^ 4 in
    let v3 : ℕ = 0 + v2 * 2 ^ 1 in
    let value : v3 % 2 ^ 13 ≡ a * 2 ^ 12 + b * 2 ^ 11 + c * 2 ^ 5 + d * 2 = omega arith in
    rw
      (
        part-at 0 1 31 a w refl,
        part-at 24 1 7 b w refl,
        part-at 1 6 25 c w refl,
        part-at 20 4 8 d w refl,
        last_zero,
        spelled_append 1 1 a b (omega arith),
        spelled_append 2 6 v0 c (omega arith),
        spelled_append 8 4 v1 d (omega arith),
        spelled_append 12 1 v2 0 (omega arith),
      )
      (signedbintodec-spelled 12 v3 (omega arith) ∙ ap (sext 13) value)

-- The offset of `jal`.
pub jal_offset :
    (w : ℕ)
    → signedbintodec (
        part 0 1 (spelled 32 w)
        ++ part 12 8 (spelled 32 w)
        ++ part 11 1 (spelled 32 w)
        ++ part 1 10 (spelled 32 w)
        ++ 48 ∷ [])
      ≡ sext 21 (
          w / 2 ^ 31 % 2 * 2 ^ 20
          + w / 2 ^ 12 % 256 * 2 ^ 12
          + w / 2 ^ 20 % 2 * 2 ^ 11
          + w / 2 ^ 21 % 1024 * 2)
jal_offset w =
    let a : ℕ = w / 2 ^ 31 % 2 in
    let b : ℕ = w / 2 ^ 12 % 256 in
    let c : ℕ = w / 2 ^ 20 % 2 in
    let d : ℕ = w / 2 ^ 21 % 1024 in
    let v0 : ℕ = b + a * 2 ^ 8 in
    let v1 : ℕ = c + v0 * 2 ^ 1 in
    let v2 : ℕ = d + v1 * 2 ^ 10 in
    let v3 : ℕ = 0 + v2 * 2 ^ 1 in
    let value : v3 % 2 ^ 21 ≡ a * 2 ^ 20 + b * 2 ^ 12 + c * 2 ^ 11 + d * 2 = omega arith in
    rw
      (
        part-at 0 1 31 a w refl,
        part-at 12 8 12 b w refl,
        part-at 11 1 20 c w refl,
        part-at 1 10 21 d w refl,
        last_zero,
        spelled_append 1 8 a b (omega arith),
        spelled_append 9 1 v0 c (omega arith),
        spelled_append 10 10 v1 d (omega arith),
        spelled_append 20 1 v2 0 (omega arith),
      )
      (signedbintodec-spelled 20 v3 (omega arith) ∙ ap (sext 21) value)

-- The offset of a store.
pub store_offset :
    (w : ℕ)
    → signedbintodec (part 0 7 (spelled 32 w) ++ part 20 5 (spelled 32 w))
      ≡ sext 12 (w / 2 ^ 25 % 128 * 2 ^ 5 + w / 2 ^ 7 % 32)
store_offset w =
    let a : ℕ = w / 2 ^ 25 % 128 in
    let b : ℕ = w / 2 ^ 7 % 32 in
    let value : (b + a * 2 ^ 5) % 2 ^ 12 ≡ a * 2 ^ 5 + b = omega arith in
    rw (part-at 0 7 25 a w refl, part-at 20 5 7 b w refl, spelled_append 7 5 a b (omega arith))
      (signedbintodec-spelled 11 (b + a * 2 ^ 5) (omega arith) ∙ ap (sext 12) value)
