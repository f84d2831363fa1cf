-- ===== src/Strings/Binary.antt =====
-- proj2/pa2/태환.c: `dectobin32` and `dectobin8`.
use f_ca.Base.{ℕ, zero, suc, ◌+◌, ◌-◌, ◌*◌, ◌/◌, ◌%◌, true, false, leb, ◌==◌, if◌then◌else◌, update}
use f_ca.Word.{sub32, slt}
use f_ca.Strings.Blocks.{turn_round}

-- `biNaryArray`, `i` and `qUotiEnt` in the loop that divides.
pub record Divided : Type 0 where
  pub binary_array : ℕ → ℕ
  pub i : ℕ
  pub quotient : ℕ

-- for (i = 0; qUotiEnt > 0; i++)
unfoldable pub divide : ℕ → Divided → Divided
divide zero s = s
divide (suc fuel) s = elim (slt 0 s.quotient) [
  | true ↦ divide fuel (record {
    binary_array = update s.binary_array s.i (s.quotient % 2);
    i = s.i + 1;
    quotient = s.quotient / 2;
  })
  | false ↦ s
]

-- How many of the first `n` elements are not 2, and `nUmberCheck`.
unfoldable pub count_used : ℕ → (ℕ → ℕ) → ℕ
count_used zero arr = 0
count_used (suc n) arr = let count = count_used n arr in if arr n == 2 then count else count + 1

unfoldable pub number_check : (ℕ → ℕ) → ℕ
number_check arr = count_used 9999 arr

-- The loop that doubles `oCta` until the digits fit.
unfoldable pub octets : ℕ → ℕ → ℕ → ℕ
octets zero count octa = octa
octets (suc fuel) count octa = elim (leb count octa) [
  | true ↦ octa
  | false ↦ octets fuel count (octa * 2)
]

-- `n` elements, from index `i` on, get the value `v`.
unfoldable pub fill : ℕ → ℕ → ℕ → (ℕ → ℕ) → ℕ → ℕ
fill zero i v arr = arr
fill (suc n) i v arr = fill n (i + 1) v (update arr i v)

-- bin[k++] = biNaryArray[u] + 48, for the first `n`
unfoldable pub to_characters : ℕ → (ℕ → ℕ) → (ℕ → ℕ) → ℕ → ℕ
to_characters zero arr bin = bin
to_characters (suc n) arr bin = update (to_characters n arr bin) n (arr n + 48)

-- 0 becomes 1 and 1 becomes 0, in the first `n` elements.
unfoldable pub invert : ℕ → (ℕ → ℕ) → ℕ → ℕ
invert zero arr = arr
invert (suc n) arr =
    let done = invert n arr in
    if done n == 0 then update done n 1 else if done n == 1 then update done n 0 else done

-- 1 is added to the `n` digits from index `u` on.
unfoldable pub add_one : ℕ → ℕ → (ℕ → ℕ) → ℕ → ℕ
add_one zero u arr = arr
add_one (suc n) u arr = elim (arr u == 1) [
  | true ↦ add_one n (u + 1) (update arr u 0)
  | false ↦ let rest = add_one n (u + 1) arr in if arr u == 0 then update arr u 1 else rest
]

-- The digits in the first `i` elements, filled up with the digit `sign`, and written with the
-- highest first: what both branches do when `biNaryCount` is known.
unfoldable pub write_digits : ℕ → ℕ → ℕ → ℕ → (ℕ → ℕ) → (ℕ → ℕ) → ℕ → ℕ
write_digits width sign count i arr fresh =
    let zero_count = octets 32 count 8 - count in
    let k = i + zero_count in
    let bin = to_characters k (fill zero_count i sign arr) fresh in
    turn_round (k + (width - k)) (fill (width - k) k (sign + 48) bin)

-- The digits of a number that is not negative, the lowest first, in an array of 2s.
unfoldable pub divide_all : ℕ → Divided
divide_all q = divide 32 (record { binary_array = λ _. 2; i = 0; quotient = q })

-- The two functions, which differ in the number of digits that they fill up to. `fresh` is what the
-- block that `malloc` returns holds.
unfoldable pub dectobin : ℕ → (ℕ → ℕ) → ℕ → ℕ → ℕ
dectobin width fresh dec =
    let s = divide_all (if slt dec 0 then sub32 0 dec else dec) in
    let count = number_check s.binary_array in
    if slt dec 0
    then write_digits width 1 count s.i (add_one count 0 (invert count s.binary_array)) fresh
    else write_digits width 0 count s.i s.binary_array fresh

unfoldable pub dectobin32 : (ℕ → ℕ) → ℕ → ℕ → ℕ
dectobin32 = dectobin 32

unfoldable pub dectobin8 : (ℕ → ℕ) → ℕ → ℕ → ℕ
dectobin8 = dectobin 8
