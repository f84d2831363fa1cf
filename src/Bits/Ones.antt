-- ===== src/Bits/Ones.antt =====
-- Ones put above a number by `|`, as sign extension by a mask does.
use native.Mathlib.Nat.{one-le-pow, pow-suc, mul_comm, div-add-mod, div-lt_iff_lt-mul, mod-lt}
use f_ca.Base.{ℕ, zero, suc, ◌+◌, ◌-◌, ◌*◌, ◌/◌, ◌%◌, ◌^◌, ◌<◌, ◌≡◌, arith, bit_or}
use f_ca.Bits.{bit_or_split, bit_or-zero}
use f_ca.Bits.{bit_or_step}

-- Ones swallow a number that is no longer than they are.
bit_or_ones : (k q : ℕ) → q < 2 ^ k → bit_or q (2 ^ k - 1) ≡ 2 ^ k - 1
bit_or_ones zero q h = ground (arith, bit_or-zero q)
bit_or_ones (suc k) q h =
    let half : (2 ^ suc k - 1) / 2 ≡ 2 ^ k - 1 = omega (arith, pow-suc 2 k, one-le-pow k 2) in
    ground (
      arith,
      bit_or_step q (2 ^ suc k - 1),
      half,
      bit_or_ones k (q / 2) (omega (arith, pow-suc 2 k)),
      pow-suc 2 k,
      one-le-pow k 2,
    )

-- Ones above the low `k` digits, put on a number that may reach into them.
pub bit_or_above :
    (k m v : ℕ)
    → v < 2 ^ k * 2 ^ m
    → bit_or v ((2 ^ m - 1) * 2 ^ k) ≡ (2 ^ m - 1) * 2 ^ k + v % 2 ^ k
bit_or_above k m v h =
    let positive : 0 < 2 ^ k = one-le-pow k 2 (omega arith) in
    let whole : v / 2 ^ k * 2 ^ k + v % 2 ^ k ≡ v =
      omega (arith, div-add-mod v (2 ^ k), mul_comm (2 ^ k) (v / 2 ^ k)) in
    let below : v / 2 ^ k < 2 ^ m =
      (div-lt_iff_lt-mul positive).1 (omega (arith, mul_comm (2 ^ m) (2 ^ k))) in
    let parts = bit_or_split k (v / 2 ^ k) (2 ^ m - 1) (v % 2 ^ k) 0 (mod-lt v positive) positive in
    ground (arith, parts, whole, bit_or_ones m (v / 2 ^ k) below, bit_or-zero (v % 2 ^ k))
