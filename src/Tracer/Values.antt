-- ===== src/Tracer/Values.antt =====
-- What the program computes for an encoded instruction, against the manual.
use native.Mathlib.Nat.{
  one-le-pow, mul_comm, mod-eq_of_lt, add-mul-mod_self_right, div-lt_iff_lt-mul,
}
use f_ca.Base.{
  ℕ, zero, suc, ◌+◌, ◌-◌, ◌*◌, ◌/◌, ◌%◌, ◌^◌, ◌≤◌, ◌<◌, ◌≡◌, ap, ◌∙◌, arith, ltb, Bool-cases, inl,
  inr,
}
use f_ca.Bits.{bit_and_low}
use f_ca.Word.{IsWord, sar}
use f_ca.Isa.Meaning.{shift_signed}
use f_ca.Tracer.Effect.{masked_shift}
use f_ca.Simulator.Refines.Values.{two_pow_add, pow_split, quotient, sar-eq-shift_signed}

-- The mask has as many ones as the shift leaves digits.
pub ones_lem : (k : ℕ) → 0 < k → k < 32 → sar 0x7FFFFFFF (k - 1) ≡ 2 ^ (32 - k) - 1
unfolding sar
ones_lem zero lo hi = absurd (omega arith)
ones_lem (suc j) lo hi =
    let q : ℕ = 2 ^ (32 - suc j) in
    let whole : 2 ^ j * q ≡ 2 ^ 31 = ground (arith, two_pow_add j (32 - suc j)) in
    let positive : 1 ≤ q = one-le-pow (32 - suc j) 2 (omega arith) in
    let ones : 2 ^ j * q ≡ 2 ^ j * (q - 1 + 1) = ap (λ (n : ℕ). 2 ^ j * n) (omega arith) in
    let split : 0x7FFFFFFF ≡ 2 ^ j * (q - 1) + (2 ^ j - 1) = omega (arith, one-le-pow j 2) in
    let same : suc j - 1 ≡ j = omega arith in
    rw (same, split) (quotient (2 ^ j) (q - 1) (2 ^ j - 1) (omega (arith, one-le-pow j 2)))

shift_signed_mod : (a k : ℕ) → IsWord a → k < 32 → shift_signed a k % 2 ^ (32 - k) ≡ a / 2 ^ k
unfolding shift_signed
shift_signed_mod a k h hi =
    let p : ℕ = 2 ^ k in
    let q : ℕ = 2 ^ (32 - k) in
    let whole = pow_split k hi in
    let positive : 0 < p = one-le-pow k 2 (omega arith) in
    let below : a / p < q = (div-lt_iff_lt-mul positive).1 (omega (arith, mul_comm q p)) in
    let signs : 2 ^ 32 - q ≡ (p - 1) * q =
      omega (arith, ap (λ (t : ℕ). t * q) {x = p} {y = 1 + (p - 1)} (omega arith)) in
    elim (Bool-cases (ltb a (2 ^ 31))) [
      | inl e ↦ rw e (mod-eq_of_lt below)
      | inr e ↦ rw (e, signs) (add-mul-mod_self_right (a / p) (p - 1) q ∙ mod-eq_of_lt below)
    ]

-- The mask leaves the digits that a logical shift leaves.
pub masked_lem : (a k : ℕ) → IsWord a → 0 < k → k < 32 → masked_shift a k ≡ a / 2 ^ k
masked_lem a k h lo hi =
    rw (ones_lem k lo hi, sar-eq-shift_signed a k h hi)
      (bit_and_low (32 - k) (shift_signed a k) ∙ shift_signed_mod a k h hi)
