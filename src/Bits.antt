-- ===== src/Bits.antt =====
-- Laws of `&`, `|` and `^` at variables: fields cut out by a mask, fields put together, and the
-- bound that both operands share. The operations are recursions on binary digits.
mod Step
pub mod Ones
pub use Step.{bit_and_step, bit_or_step, bit_xor_step, bit_and-lt, bit_or-lt, bit_xor-lt}
use native.Mathlib.Nat.{one-le-pow, pow-suc, mul_comm, div-div-eq-div-mul, div-add-mod}
use f_ca.Base.{ℕ, zero, suc, ◌+◌, ◌-◌, ◌*◌, ◌/◌, ◌%◌, ◌^◌, ◌≤◌, ◌<◌, bit_and, bit_or}
use f_ca.Base.{◌≡◌, refl, ap, sym, arith}

-- One doubling of a product with a power of two.
double : (q k : ℕ) → q * 2 ^ suc k ≡ q * 2 ^ k * 2
double q k = omega (arith, ap (λ (t : ℕ). q * t) (pow-suc 2 k))

pub halves : (a m : ℕ) → a % (m * 2) ≡ a / 2 % m * 2 + a % 2
halves a m =
    let e : a / (m * 2) ≡ a / 2 / m = rw (mul_comm m 2) (sym (div-div-eq-div-mul a 2 m)) in
    let whole : m * 2 * (a / 2 / m) + a % (m * 2) ≡ a = rw e at (div-add-mod a (m * 2)) in
    omega (arith, whole, div-add-mod (a / 2) m)

-- Induction that takes off the lowest digit: what holds of 0, and of a number when it holds of its
-- half, holds of every number below any bound.
halving {ℓ} : (P : ℕ → Type ℓ) → P 0 → ((x : ℕ) → P (x / 2) → P x) → (bound x : ℕ) → x < bound → P x
halving P base step zero x h = absurd (omega arith)
halving P base step (suc bound) zero h = base
halving P base step (suc bound) (suc y) h =
    step (suc y) (halving P base step bound (suc y / 2) (omega arith))

bit_and-zero : (a : ℕ) → bit_and a 0 ≡ 0
bit_and-zero a =
    halving (λ x. bit_and x 0 ≡ 0) refl (λ x half. omega (arith, half, bit_and_step x 0)) (suc a) a
      (omega arith)

pub bit_or-zero : (a : ℕ) → bit_or a 0 ≡ a
bit_or-zero a =
    halving (λ x. bit_or x 0 ≡ x) refl (λ x half. omega (arith, half, bit_or_step x 0)) (suc a) a
      (omega arith)

-- A mask of `k` low ones is the remainder by `2 ^ k`.
pub bit_and_low : (k a : ℕ) → bit_and a (2 ^ k - 1) ≡ a % 2 ^ k
bit_and_low zero a = omega (arith, bit_and-zero a)
bit_and_low (suc k) a =
    let half : (2 ^ suc k - 1) / 2 ≡ 2 ^ k - 1 = omega (arith, pow-suc 2 k, one-le-pow k 2) in
    ground (
      arith,
      bit_and_step a (2 ^ suc k - 1),
      half,
      bit_and_low k (a / 2),
      pow-suc 2 k,
      one-le-pow k 2,
      halves a (2 ^ k),
    )

quarter : (a k : ℕ) → a / 2 / 2 ^ k ≡ a / 2 ^ suc k
quarter a k = rw (pow-suc 2 k, mul_comm (2 ^ k) 2) (div-div-eq-div-mul a 2 (2 ^ k))

-- A mask that ends in `k` zeros selects in the number above them.
pub bit_and_shifted : (k a b : ℕ) → bit_and a (b * 2 ^ k) ≡ bit_and (a / 2 ^ k) b * 2 ^ k
bit_and_shifted zero a b = ground arith
bit_and_shifted (suc k) a b =
    let e : a / 2 / 2 ^ k ≡ a / 2 ^ suc k = quarter a k in
    ground (
      arith,
      bit_and_step a (b * 2 ^ suc k),
      double b k,
      double (bit_and (a / 2 ^ suc k) b) k,
      e,
      bit_and_shifted k (a / 2) b,
    )

-- A number with `k` low zeros, put together with a number of `k` digits, is their sum.
pub bit_or_disjoint : (k q r : ℕ) → r < 2 ^ k → bit_or (q * 2 ^ k) r ≡ q * 2 ^ k + r
bit_or_disjoint zero q r h = ground (arith, bit_or-zero q)
bit_or_disjoint (suc k) q r h = ground (
  arith,
  bit_or_step (q * 2 ^ suc k) r,
  double q k,
  pow-suc 2 k,
  bit_or_disjoint k q (r / 2) (omega (arith, pow-suc 2 k)),
)

-- Two numbers cut at the same digit are put together part by part.
pub bit_or_split :
    (k q q' r r' : ℕ)
    → r < 2 ^ k
    → r' < 2 ^ k
    → bit_or (q * 2 ^ k + r) (q' * 2 ^ k + r') ≡ bit_or q q' * 2 ^ k + bit_or r r'
bit_or_split zero q q' zero zero h h' = ground arith
bit_or_split zero q q' zero (suc r') h h' = absurd (omega arith)
bit_or_split zero q q' (suc r) r' h h' = absurd (omega arith)
bit_or_split (suc k) q q' r r' h h' = ground (
  arith,
  bit_or_step (q * 2 ^ suc k + r) (q' * 2 ^ suc k + r'),
  bit_or_step r r',
  double q k,
  double q' k,
  double (bit_or q q') k,
  pow-suc 2 k,
  bit_or_split k q q' (r / 2) (r' / 2),
)

-- A field of `w` digits, cut out at digit `s` by its mask.
pub bit_and_field : (w s a : ℕ) → bit_and a ((2 ^ w - 1) * 2 ^ s) ≡ a / 2 ^ s % 2 ^ w * 2 ^ s
bit_and_field w s a = rw (bit_and_shifted s a (2 ^ w - 1), bit_and_low w (a / 2 ^ s))

-- A field of `w` digits at digit `s`, put into a number that has zeros there.
pub bit_or_field :
    (w s h b l : ℕ)
    → b < 2 ^ w
    → l < 2 ^ s
    → bit_or (h * 2 ^ w * 2 ^ s + l) (b * 2 ^ s) ≡ (h * 2 ^ w + b) * 2 ^ s + l
bit_or_field w s h b l hb hl =
    let split = bit_or_split s (h * 2 ^ w) b l 0 hl (omega (arith, one-le-pow s 2)) in
    ground (arith, split, bit_or_disjoint w h b hb, bit_or-zero l)
