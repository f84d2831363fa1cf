-- ===== src/Strings/Halving.antt =====
-- proj2/pa2/태환.c: the loop of `dectobin32` and `dectobin8` that divides by 2.
use native.Mathlib.Nat.{one-le-pow, pow-suc}
use f_ca.Base.{
  ℕ, zero, suc, ◌+◌, ◌-◌, ◌/◌, ◌%◌, ◌^◌, ◌≤◌, ◌<◌, ◌≡◌, refl, ap, arith, false, true, update, ◌⊎◌,
  inl, inr,
}
use f_ca.Word.{slt}
use f_ca.Strings.Blocks.{nibble_digit}
use f_ca.Strings.Binary.{Divided, divide}

-- What the rounds of the loop from `s` leave at `t`.
pub record Halved (s t : Divided) : Type 0 where
  pub from : s.i ≤ t.i
  pub below : (j : ℕ) → j < s.i → t.binary_array j ≡ s.binary_array j
  pub digits : (j : ℕ) → s.i + j < t.i → t.binary_array (s.i + j) ≡ nibble_digit j s.quotient
  pub above : (j : ℕ) → t.i ≤ j → t.binary_array j ≡ s.binary_array j
  pub fits : s.quotient < 2 ^ (t.i - s.i)
  pub least : (k : ℕ) → s.quotient < 2 ^ k → t.i ≤ s.i + k
  pub stops : t.quotient ≡ 0

-- One round.
abbrev pub round : Divided → Divided
round s = record {
  binary_array = update s.binary_array s.i (s.quotient % 2);
  i = s.i + 1;
  quotient = s.quotient / 2;
}

slt-zero : (q : ℕ) → q < 2 ^ 31 → (slt 0 q ≡ true) × (0 < q) ⊎ (slt 0 q ≡ false) × (q ≡ 0)
unfolding slt
slt-zero q h = ground arith

least_round :
    (s t : Divided)
    → ((k : ℕ) → (round s).quotient < 2 ^ k → t.i ≤ (round s).i + k)
    → 0 < s.quotient
    → (k : ℕ) → s.quotient < 2 ^ k
    → t.i ≤ s.i + k
least_round s t h some_ zero small = absurd (omega (arith, small))
least_round s t h some_ (suc k) small = omega (arith, h k (omega (arith, pow-suc 2 k)))

digits_round :
    (s t : Divided)
    → Halved (round s) t
    → (j : ℕ) → s.i + j < t.i
    → t.binary_array (s.i + j) ≡ nibble_digit j s.quotient
unfolding nibble_digit
digits_round s t h zero lt = ground (arith, h.below (s.i) (omega arith))
digits_round s t h (suc j) lt =
    let e : s.i + suc j ≡ s.i + 1 + j = omega arith in rw e (h.digits j (omega arith))

round-Halved : (s t : Divided) → 0 < s.quotient → Halved (round s) t → Halved s t
round-Halved s t some_ h = record {
  from = omega (arith, h.from);
  below = λ j lt. ground (arith, h.below j (omega arith));
  digits = digits_round s t h;
  above = λ j le. ground (arith, h.above j le, h.from);
  fits = fits_round;
  least = least_round s t h.least some_;
  stops = h.stops;
}
  where
    rounds : t.i - s.i ≡ suc (t.i - (s.i + 1))
    rounds = omega (arith, h.from)

    fits_round : s.quotient < 2 ^ (t.i - s.i)
    fits_round = omega (arith, h.fits, ap (λ (k : ℕ). 2 ^ k) rounds, pow-suc 2 (t.i - (s.i + 1)))

stay-Halved : (s : Divided) → s.quotient ≡ 0 → Halved s s
unfolding nibble_digit
stay-Halved s none_ = record {
  from = omega arith;
  below = λ j lt. refl;
  digits = λ j lt. absurd (omega arith);
  above = λ j le. refl;
  fits = omega (arith, none_, one-le-pow (s.i - s.i) 2);
  least = λ k small. omega arith;
  stops = none_;
}

-- Enough fuel ends the loop.
pub divide-Halved :
    (fuel : ℕ) (s : Divided)
    → s.quotient < 2 ^ fuel
    → s.quotient < 2 ^ 31
    → Halved s (divide fuel s)
unfolding divide
divide-Halved zero s h small = stay-Halved s (omega (arith, h))
divide-Halved (suc fuel) s h small = elim (slt-zero s.quotient small) [
  | inl (e, some_) ↦
      rw (e, divide)
        (round-Halved s _ some_
          (divide-Halved fuel (round s) (omega (arith, h, pow-suc 2 fuel)) (omega arith)))
  | inr (e, none_) ↦ rw (e, divide) (stay-Halved s none_)
]
