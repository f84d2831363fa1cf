-- ===== src/Strings/Converted.antt =====
-- proj2/pa2/태환.c: the characters that `dectobin32` and `dectobin8` write.
use native.Mathlib.Nat.{one-le-pow, mul_comm}
use f_ca.Base.{
  ℕ, ◌+◌, ◌-◌, ◌*◌, ◌^◌, ◌≤◌, ◌<◌, ◌≡◌, ◌⊎◌, refl, sym, ap, ◌∙◌, arith, false, true, if◌then◌else◌,
  ltb, inl, ltb,
}
use f_ca.Word.{IsWord, sub32, slt}
use f_ca.Simulator.Refines.Values.{pow_split}
use f_ca.Strings.Blocks.{nibble_digit}
use f_ca.Strings.Binary.{
  Divided, divide, divide_all, octets, fill, to_characters, number_check, invert, add_one,
  write_digits, dectobin,
}
use f_ca.Strings.Digits.{digit-lt, digit_above, digit_not, digit_add, digit_high}
use f_ca.Strings.Halving.{Halved, divide-Halved}
use f_ca.Strings.Arrays.{
  count_used_lem, fill_lem, to_characters_lem, turn_round_lem, invert_lem, add_one_digits,
  octets_lem,
}

-- The two widths that are used.
abbrev pub IsWidth : ℕ → Type 0
IsWidth width = (width ≡ 32) ⊎ (width ≡ 8)

-- A block that begins with the `width` digits of `w`, the highest first.
abbrev pub Spells : ℕ → ℕ → (ℕ → ℕ) → (ℕ → ℕ) → Type 0
Spells width w fresh block =
    (j : ℕ) → block j ≡ (if ltb j width then nibble_digit (width - 1 - j) w + 48 else fresh j)

octets-width :
    (width count : ℕ)
    → IsWidth width
    → count ≤ width
    → (count ≤ octets 32 count 8) × (octets 32 count 8 ≤ width)
octets-width width count w h = ground (arith, octets_lem count (omega arith))

write_digits-Spells :
    (width sign count w : ℕ) (arr fresh : ℕ → ℕ)
    → IsWidth width
    → count ≤ width
    → ((j : ℕ) → j < count → arr j ≡ nibble_digit j w)
    → ((j : ℕ) → count ≤ j → j < width → nibble_digit j w ≡ sign)
    → Spells width w fresh (write_digits width sign count count arr fresh)
unfolding write_digits
write_digits-Spells width sign count w arr fresh wide small low high j =
    let o = octets-width width count wide small in
    let zeros = octets 32 count 8 - count in
    let k : ℕ = count + zeros in
    let bin = to_characters k (fill zeros count sign arr) fresh in
    let whole : k + (width - k) ≡ width = omega (arith, o) in
    let t : ℕ = width - 1 - j in
    rw whole (
      ground (
        arith,
        o,
        turn_round_lem width (fill (width - k) k (sign + 48) bin) j,
        fill_lem (width - k) k (sign + 48) bin t,
        fill_lem (width - k) k (sign + 48) bin j,
        to_characters_lem k (fill zeros count sign arr) fresh t,
        to_characters_lem k (fill zeros count sign arr) fresh j,
        fill_lem zeros count sign arr t,
        low t,
        high t,
      ))

-- The start of the division.
abbrev start : ℕ → Divided
start q = record { binary_array = λ _. 2; i = 0; quotient = q }

divide_all-Halved : (q : ℕ) → q < 2 ^ 31 → Halved (start q) (divide_all q)
unfolding divide_all
divide_all-Halved q h = divide-Halved 32 (start q) (omega arith) h

digits_of :
    (q j : ℕ) → q < 2 ^ 31 → j < (divide_all q).i → (divide_all q).binary_array j ≡ nibble_digit j q
digits_of q j h lt =
    let here : 0 + j ≡ j = omega arith in
    ap (divide_all q).binary_array (sym here) ∙ (divide_all-Halved q h).digits j (omega arith)

count-le : (q k : ℕ) → q < 2 ^ 31 → q < 2 ^ k → (divide_all q).i ≤ k
count-le q k h small = omega (arith, (divide_all-Halved q h).least k small)

count-fits : (q : ℕ) → q < 2 ^ 31 → q < 2 ^ (divide_all q).i
count-fits q h =
    let whole : (divide_all q).i - 0 ≡ (divide_all q).i = omega arith in
    omega (arith, (divide_all-Halved q h).fits, ap (λ (k : ℕ). 2 ^ k) whole)

slt-positive : (w : ℕ) → w < 2 ^ 31 → slt w 0 ≡ false
unfolding slt
slt-positive w h = ground arith

slt-negative : (w : ℕ) → 2 ^ 31 ≤ w → IsWord w → slt w 0 ≡ true
unfolding slt
slt-negative w h word = ground arith

number_check-divide_all :
    (q : ℕ) → q < 2 ^ 31 → number_check (divide_all q).binary_array ≡ (divide_all q).i
unfolding number_check
number_check-divide_all q h =
    let halved = divide_all-Halved q h in
    count_used_lem 9999 (divide_all q).i (divide_all q).binary_array
      (λ j lt. omega (arith, digits_of q j h lt, digit-lt j q)) (λ j le. halved.above j le)
      (omega (arith, halved.least 31 h))

pub dectobin-positive :
    (width w : ℕ) (fresh : ℕ → ℕ)
    → IsWidth width
    → w < 2 ^ 31
    → w < 2 ^ width
    → Spells width w fresh (dectobin width fresh w)
unfolding dectobin
dectobin-positive width w fresh wide h small =
    rw (slt-positive w h, number_check-divide_all w h)
      (write_digits-Spells width 0 (divide_all w).i w (divide_all w).binary_array fresh wide
        (count-le w width h small) (λ j lt. digits_of w j h lt)
        (λ j le _. digit_above (divide_all w).i j w (count-fits w h) le))

-- The digits of a negative number below those of its amount.
negative_low :
    (c j q : ℕ)
    → c < 32
    → 0 < q
    → q < 2 ^ c
    → j < c
    → nibble_digit j (2 ^ c - 1 - q + 1) ≡ nibble_digit j (2 ^ 32 - q)
negative_low c j q small some_ fits lt =
    let r : ℕ = 2 ^ (32 - c) - 1 in
    let next_ : 2 ^ (32 - c) ≡ r + 1 = omega (arith, one-le-pow (32 - c) 2) in
    let split : 2 ^ 32 - q ≡ 2 ^ c - 1 - q + 1 + r * 2 ^ c = omega (
      arith,
      pow_split c small,
      mul_comm (2 ^ c) (2 ^ (32 - c)),
      ap (λ (t : ℕ). t * 2 ^ c) next_,
    ) in
    rw split (sym (digit_add c j (2 ^ c - 1 - q + 1) r lt))

inverted :
    (c q : ℕ) (arr : ℕ → ℕ)
    → q < 2 ^ c
    → ((j : ℕ) → j < c → arr j ≡ nibble_digit j q)
    → (j : ℕ) → j < c
    → invert c arr j ≡ nibble_digit j (2 ^ c - 1 - q)
inverted c q arr fits low j lt = ground (
  arith,
  low j lt,
  digit_not c j q fits lt,
  invert_lem c arr j (λ u below. omega (arith, low u below, digit-lt u q)),
)

negated :
    (c q : ℕ) (arr : ℕ → ℕ)
    → c < 32
    → 0 < q
    → q < 2 ^ c
    → ((j : ℕ) → j < c → arr j ≡ nibble_digit j q)
    → (j : ℕ) → j < c
    → add_one c 0 (invert c arr) j ≡ nibble_digit j (2 ^ 32 - q)
negated c q arr small some_ fits low j lt =
    let here : (l : ℕ) → 0 + l ≡ l = λ l. omega arith in
    ap (add_one c 0 (invert c arr)) (sym (here j))
    ∙ add_one_digits c 0 (2 ^ c - 1 - q) (invert c arr)
        (λ l below. ap (invert c arr) (here l) ∙ inverted c q arr fits low l below) j lt
    ∙ negative_low c j q small some_ fits lt

pub dectobin-negative :
    (width w : ℕ) (fresh : ℕ → ℕ)
    → IsWidth width
    → 2 ^ 31 < w
    → IsWord w
    → 2 ^ 32 - w < 2 ^ width
    → Spells width w fresh (dectobin width fresh w)
unfolding dectobin
dectobin-negative width w fresh wide h word small =
    let q : ℕ = 2 ^ 32 - w in
    let amount : sub32 0 w ≡ q = omega arith in
    let back : 2 ^ 32 - q ≡ w = omega arith in
    let low : q < 2 ^ 31 = omega arith in
    let c = (divide_all q).i in
    let fits : q < 2 ^ c = count-fits q low in
    let few : c < 32 = omega (arith, count-le q 31 low low) in
    rw (slt-negative w (omega arith) word, amount, number_check-divide_all q low)
      (write_digits-Spells width 1 c w (add_one c 0 (invert c (divide_all q).binary_array)) fresh
        wide (count-le q width low small)
        (λ j lt.
          negated c q (divide_all q).binary_array few (omega arith) fits
            (λ l below. digits_of q l low below) j lt
          ∙ ap (nibble_digit j) back)
        (λ j le lt.
          sym (ap (nibble_digit j) back)
          ∙ (digit_high 32 c j q (omega arith) (omega (arith, fits)) le (omega arith))))

no_digits : number_check (λ _. 2) ≡ 0
unfolding number_check
no_digits =
    count_used_lem 9999 0 (λ _. 2) (λ j lt. absurd (omega arith)) (λ j le. refl) (omega arith)

-- -2 ^ 31, of which `* -1` makes -2 ^ 31 again: no digit is found, and the ones that fill up a
-- negative number are all that is written.
pub dectobin-lowest : (fresh : ℕ → ℕ) → Spells 32 (2 ^ 32 - 1) fresh (dectobin 32 fresh (2 ^ 31))
unfolding dectobin divide_all divide slt invert add_one
dectobin-lowest fresh = rw no_digits (
    write_digits-Spells 32 1 0 (2 ^ 32 - 1) (λ _. 2) fresh (inl refl) (omega arith)
      (λ j lt. absurd (omega arith))
      (λ j le lt. digit_high 32 0 j 1 (omega arith) (omega arith) (omega arith) lt))
