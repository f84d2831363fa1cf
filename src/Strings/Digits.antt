-- ===== src/Strings/Digits.antt =====
-- proj2/pa2/태환.c: laws of binary digits.
use native.Mathlib.Nat.{one-le-pow, pow-suc, mul_comm, div-div-eq-div-mul}
use f_ca.Base.{ℕ, zero, suc, ◌+◌, ◌-◌, ◌*◌, ◌/◌, ◌%◌, ◌^◌, ◌≤◌, ◌<◌, ◌≡◌, refl, ap, arith}
use f_ca.Strings.Blocks.{nibble_digit, pow}

pub pow_lem : (k : ℕ) → pow 2 k ≡ 2 ^ k
unfolding pow
pow_lem zero = refl
pow_lem (suc zero) = refl
pow_lem (suc (suc k)) = omega (arith, pow_lem (suc k), pow-suc 2 (suc k))

pub div_pow : (k x : ℕ) → x / 2 / 2 ^ k ≡ x / 2 ^ suc k
div_pow k x = rw (pow-suc 2 k, mul_comm (2 ^ k) 2) (div-div-eq-div-mul x 2 (2 ^ k))

pub digit_lem : (j x : ℕ) → nibble_digit j x ≡ x / 2 ^ j % 2
unfolding nibble_digit
digit_lem zero x = omega arith
digit_lem (suc j) x = omega (arith, digit_lem j (x / 2), ap (λ (y : ℕ). y % 2) (div_pow j x))

pub digit-lt : (j x : ℕ) → nibble_digit j x < 2
digit-lt j x = omega (arith, digit_lem j x)

-- Above the digits of a number are zeros.
pub digit_above : (n j x : ℕ) → x < 2 ^ n → n ≤ j → nibble_digit j x ≡ 0
unfolding nibble_digit
digit_above zero zero x small h = omega (arith, small)
digit_above zero (suc j) x small h = digit_above zero j (x / 2) (omega (arith, small)) (omega arith)
digit_above (suc n) zero x small h = absurd (omega arith)
digit_above (suc n) (suc j) x small h =
    digit_above n j (x / 2) (omega (arith, pow-suc 2 n)) (omega arith)

-- The digits of the complement.
pub digit_not :
    (n j x : ℕ) → x < 2 ^ n → j < n → nibble_digit j (2 ^ n - 1 - x) + nibble_digit j x ≡ 1
unfolding nibble_digit
digit_not zero j x small h = absurd (omega arith)
digit_not (suc n) zero x small h = omega (arith, pow-suc 2 n)
digit_not (suc n) (suc j) x small h =
    let half : (2 ^ suc n - 1 - x) / 2 ≡ 2 ^ n - 1 - x / 2 = omega (arith, pow-suc 2 n) in
    rw half (digit_not n j (x / 2) (omega (arith, pow-suc 2 n)) (omega arith))

-- The digits below `2 ^ n` do not depend on what is above.
pub digit_add : (n j x y : ℕ) → j < n → nibble_digit j (x + y * 2 ^ n) ≡ nibble_digit j x
unfolding nibble_digit
digit_add zero j x y h = absurd (omega arith)
digit_add (suc n) zero x y h = omega (arith, ap (λ (t : ℕ). y * t) (pow-suc 2 n))
digit_add (suc n) (suc j) x y h =
    let half : (x + y * 2 ^ suc n) / 2 ≡ x / 2 + y * 2 ^ n =
      omega (arith, ap (λ (t : ℕ). y * t) (pow-suc 2 n)) in
    rw half (digit_add n j (x / 2) y (omega arith))

-- The high digits of a negative number are ones.
pub digit_high : (w n j q : ℕ) → 0 < q → q ≤ 2 ^ n → n ≤ j → j < w → nibble_digit j (2 ^ w - q) ≡ 1
unfolding nibble_digit
digit_high zero n j q some_ small lo hi = absurd (omega arith)
digit_high (suc w) zero zero q some_ small lo hi = omega (arith, pow-suc 2 w, one-le-pow w 2, small)
digit_high (suc w) zero (suc j) q some_ small lo hi =
    let half : (2 ^ suc w - q) / 2 ≡ 2 ^ w - 1 = omega (arith, pow-suc 2 w, small) in
    rw half (digit_high w zero j 1 (omega arith) (omega arith) (omega arith) (omega arith))
digit_high (suc w) (suc n) zero q some_ small lo hi = absurd (omega arith)
digit_high (suc w) (suc n) (suc j) q some_ small lo hi =
    let half : (2 ^ suc w - q) / 2 ≡ 2 ^ w - (q + 1) / 2 = omega (arith, pow-suc 2 w) in
    rw half (
      digit_high w n j ((q + 1) / 2) (omega arith) (omega (arith, pow-suc 2 n)) (omega arith)
        (omega arith))
