-- ===== src/Word/Laws.antt =====
-- Bounds of the 32-bit operations, and the signed comparison as an unsigned one.
use native.Mathlib.Nat.{div-le_self}
use f_ca.Base.{
  ℕ, ◌+◌, ◌-◌, ◌%◌, ◌^◌, ◌*◌, ◌/◌, ◌≤◌, bit_and, ◌<◌, ◌≡◌, arith, ltb, not, leb, ◌||◌, ◌&&◌,
}
use f_ca.Bits.{bit_and_field}
use f_ca.Word.{add32, not32, sar, slt, shl, sext, IsWord}

pub sar-IsWord : (a k : ℕ) → IsWord a → IsWord (sar a k)
unfolding sar
sar-IsWord a k h = ground (arith, div-le_self a (2 ^ k), div-le_self (2 ^ 32 - 1 - a) (2 ^ k))

-- Two's complement order is the order of the patterns with the sign bit turned over.
pub slt_flip :
    (a b : ℕ) → IsWord a → IsWord b → slt a b ≡ ltb ((a + 2 ^ 31) % 2 ^ 32) ((b + 2 ^ 31) % 2 ^ 32)
unfolding slt
slt_flip a b ha hb = ground arith

-- Outside `0 ≤ a < 65535` one of the two signed tests of the memory guard holds.
pub guard_lem : (a : ℕ) → IsWord a → (not (slt a 0xFFFF) || slt a 0) ≡ leb 0xFFFF a
unfolding slt
guard_lem a h = ground arith

-- Shifting a field up to the sign bit and back down extends its sign.
pub sign12 : (v : ℕ) → v < 2 ^ 12 → sar (shl v 20) 20 ≡ sext 12 v
unfolding sar sext
sign12 v h = ground arith

pub sign13 : (v : ℕ) → v < 2 ^ 13 → sar (shl v 19) 19 ≡ sext 13 v
unfolding sar sext
sign13 v h = ground arith

pub sign21 : (v : ℕ) → v < 2 ^ 21 → sar (shl v 11) 11 ≡ sext 21 v
unfolding sar sext
sign21 v h = ground arith

pub guard_lem' : (a : ℕ) → IsWord a → (not (slt a 0) && slt a 0xFFFF) ≡ ltb a 0xFFFF
unfolding slt
guard_lem' a h = ground arith

pub sext-IsWord : (bits v : ℕ) → 2 ^ bits ≤ 2 ^ 32 → v < 2 ^ bits → IsWord (sext bits v)
unfolding sext
sext-IsWord bits v h lt = ground arith

-- `& ~1` clears the lowest digit.
pub clear_low : (a : ℕ) → IsWord a → bit_and a (not32 1) ≡ a / 2 * 2
clear_low a h = omega (arith, bit_and_field 31 1 a)

pub add32-IsWord : (a b : ℕ) → IsWord (add32 a b)
add32-IsWord a b = omega arith

pub sign8 : (v : ℕ) → v < 2 ^ 8 → sar (shl v 24) 24 ≡ sext 8 v
unfolding sar sext
sign8 v h = ground arith

pub sign16 : (v : ℕ) → v < 2 ^ 16 → sar (shl v 16) 16 ≡ sext 16 v
unfolding sar sext
sign16 v h = ground arith
