-- ===== src/Bits/Step.antt =====
-- The native operations stand for `bitwise`, a recursion with fuel on binary digits. Here is the
-- equation for the lowest digit, free of fuel, and the bound by a power of two.
use Prim.Native.Nat.{min, max, differ, digits, bitwise}
use Prim.Native.Nat.{bit_and-bitwise, bit_or-bitwise, bit_xor-bitwise}
use native.Mathlib.Nat.{pow-suc}
use Prim.Native.Nat.add
use f_ca.Base.{◌-◌, ◌∙◌, ℕ, zero, suc, ◌+◌, ◌*◌, ◌/◌, ◌%◌, ◌^◌, ◌≤◌, ◌<◌}
use f_ca.Base.{bit_and, bit_or, bit_xor, ◌≡◌, refl, arith}

module _ (z : ℕ → ℕ) (f : ℕ → ℕ → ℕ) where
  -- Above the first number, one more unit of fuel changes nothing; so nor do `extra` more.
  digits_one_more : (n a b : ℕ) → a ≤ n → digits z f (suc n) a b ≡ digits z f n a b
  digits_one_more zero zero b h = refl
  digits_one_more zero (suc a) b h = absurd (omega arith)
  digits_one_more (suc n) zero b h = refl
  digits_one_more (suc n) (suc a) b h =
      omega (arith, digits_one_more n (suc a / 2) (b / 2) (omega arith))

  digits_more : (extra n a b : ℕ) → a ≤ n → digits z f (extra + n) a b ≡ digits z f n a b
  digits_more zero n a b h = rw add.zero
  digits_more (suc extra) n a b h =
      rw add.suc (digits_one_more (extra + n) a b (omega arith) ∙ digits_more extra n a b h)

  digits_half : (a b : ℕ) → digits z f a (suc a / 2) b ≡ digits z f (suc a / 2) (suc a / 2) b
  digits_half a b =
      let split : a - suc a / 2 + suc a / 2 ≡ a = omega arith in
      rw split at (digits_more (a - suc a / 2) (suc a / 2) (suc a / 2) b (omega arith))

module _ (z : ℕ → ℕ) (f : ℕ → ℕ → ℕ) (rest : (b : ℕ) → z b ≡ z (b / 2) * 2 + f 0 (b % 2)) where
  bitwise_step : (a b : ℕ) → bitwise z f a b ≡ bitwise z f (a / 2) (b / 2) * 2 + f (a % 2) (b % 2)
  bitwise_step zero b = rest b
  bitwise_step (suc a) b = omega (arith, digits_half z f a (b / 2))

  module _ (bit : (x y : ℕ) → x < 2 → y < 2 → f x y < 2) (none : z 0 ≡ 0) where
    bitwise-lt : (k a b : ℕ) → a < 2 ^ k → b < 2 ^ k → bitwise z f a b < 2 ^ k
    bitwise-lt zero zero zero ha hb = omega (arith, none)
    bitwise-lt zero zero (suc b) ha hb = absurd (omega arith)
    bitwise-lt zero (suc a) b ha hb = absurd (omega arith)
    bitwise-lt (suc k) a b ha hb = omega (
      arith,
      bitwise_step a b,
      pow-suc 2 k,
      bit (a % 2) (b % 2) (omega arith) (omega arith),
      bitwise-lt k (a / 2) (b / 2) (omega (arith, pow-suc 2 k)) (omega (arith, pow-suc 2 k)),
    )

pub bit_and_step : (a b : ℕ) → bit_and a b ≡ bit_and (a / 2) (b / 2) * 2 + min (a % 2) (b % 2)
bit_and_step a b =
    rw (bit_and-bitwise a b, bit_and-bitwise (a / 2) (b / 2))
      (bitwise_step (λ y. zero) min (λ y. omega arith) a b)

pub bit_or_step : (a b : ℕ) → bit_or a b ≡ bit_or (a / 2) (b / 2) * 2 + max (a % 2) (b % 2)
bit_or_step a b =
    rw (bit_or-bitwise a b, bit_or-bitwise (a / 2) (b / 2))
      (bitwise_step (λ y. y) max (λ y. omega arith) a b)

differ-zero : (b : ℕ) → b < 2 → differ 0 b ≡ b
differ-zero zero h = refl
differ-zero (suc zero) h = refl
differ-zero (suc (suc b)) h = absurd (omega arith)

differ-lt : (x y : ℕ) → x < 2 → y < 2 → differ x y < 2
differ-lt zero zero hx hy = omega arith
differ-lt zero (suc y) hx hy = omega (arith, differ-zero (suc y) hy)
differ-lt (suc zero) zero hx hy = omega arith
differ-lt (suc zero) (suc zero) hx hy = omega arith
differ-lt (suc zero) (suc (suc y)) hx hy = absurd (omega arith)
differ-lt (suc (suc x)) y hx hy = absurd (omega arith)

differ_rest : (b : ℕ) → b ≡ b / 2 * 2 + differ 0 (b % 2)
differ_rest b = omega (arith, differ-zero (b % 2) (omega arith))

pub bit_xor_step : (a b : ℕ) → bit_xor a b ≡ bit_xor (a / 2) (b / 2) * 2 + differ (a % 2) (b % 2)
bit_xor_step a b =
    rw (bit_xor-bitwise a b, bit_xor-bitwise (a / 2) (b / 2))
      (bitwise_step (λ y. y) differ differ_rest a b)

pub bit_and-lt : (k a b : ℕ) → a < 2 ^ k → b < 2 ^ k → bit_and a b < 2 ^ k
bit_and-lt k a b ha hb =
    rw (bit_and-bitwise a b)
      (bitwise-lt (λ y. zero) min (λ y. omega arith) (λ x y hx hy. omega arith) refl k a b ha hb)

pub bit_or-lt : (k a b : ℕ) → a < 2 ^ k → b < 2 ^ k → bit_or a b < 2 ^ k
bit_or-lt k a b ha hb =
    rw (bit_or-bitwise a b)
      (bitwise-lt (λ y. y) max (λ y. omega arith) (λ x y hx hy. omega arith) refl k a b ha hb)

pub bit_xor-lt : (k a b : ℕ) → a < 2 ^ k → b < 2 ^ k → bit_xor a b < 2 ^ k
bit_xor-lt k a b ha hb =
    rw (bit_xor-bitwise a b) (bitwise-lt (λ y. y) differ differ_rest differ-lt refl k a b ha hb)
