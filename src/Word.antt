-- ===== src/Word.antt =====
-- The 32-bit integers of the C programs, as bit patterns below 2 ^ 32: what `+`, `-`, `<<`, `>>`,
-- `~` and `<` do on `unsigned int`, and on `int` with two's complement and an arithmetic `>>`,
-- as gcc compiles them.
pub mod Laws
use f_ca.Base.{ℕ, ◌+◌, ◌-◌, ◌*◌, ◌/◌, ◌%◌, ◌^◌, ◌<◌, Bool, ltb, if◌then◌else◌}
use f_ca.Base.Int.{ℤ, pos, negsuc, ltb_ℤ}

abbrev pub add32 : ℕ → ℕ → ℕ
add32 a b = (a + b) % 2 ^ 32

-- 2 ^ 32 is added first, since `-` on ℕ stops at 0.
abbrev pub sub32 : ℕ → ℕ → ℕ
sub32 a b = (a + 2 ^ 32 - b) % 2 ^ 32

abbrev pub not32 : ℕ → ℕ
not32 a = 2 ^ 32 - 1 - a

abbrev pub shl : ℕ → ℕ → ℕ
shl a k = a * 2 ^ k % 2 ^ 32

-- `>>` on `unsigned int`.
abbrev pub shr : ℕ → ℕ → ℕ
shr a k = a / 2 ^ k

-- `>>` on `int`: the sign bit is copied in from the left.
unfoldable pub sar : ℕ → ℕ → ℕ
sar a k = if ltb a (2 ^ 31) then a / 2 ^ k else not32 (not32 a / 2 ^ k)

-- The number that an `int` with this pattern stands for.
abbrev pub to_int : ℕ → ℤ
to_int a = if ltb a (2 ^ 31) then pos a else negsuc (not32 a)

-- `<` on `int`.
unfoldable pub slt : ℕ → ℕ → Bool
slt a b = ltb_ℤ (to_int a) (to_int b)

-- A field of `bits` binary digits, read as a signed number: the specification of sign extension.
unfoldable pub sext : ℕ → ℕ → ℕ
sext bits v = if ltb v (2 ^ (bits - 1)) then v else v + 2 ^ 32 - 2 ^ bits

abbrev pub IsWord : ℕ → Type 0
IsWord a = a < 2 ^ 32
