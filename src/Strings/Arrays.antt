-- ===== src/Strings/Arrays.antt =====
-- proj2/pa2/태환.c: what the loops over arrays leave, element by element.
use native.Mathlib.Decide.{dec_lt}
use f_ca.Base.{
  ℕ, zero, suc, ◌+◌, ◌-◌, ◌*◌, ◌/◌, ◌%◌, ◌≤◌, ◌<◌, ◌≡◌, ◌≢◌, ◌⊎◌, refl, sym, ap, ◌∙◌, arith,
  if◌then◌else◌, leb, ltb, update, ◌&&◌, ◌||◌, inl, inr,
}
use f_ca.Strings.Blocks.{nibble_digit, swaps, turn_round}
use f_ca.Strings.Binary.{count_used, octets, fill, to_characters, invert, add_one}

count_all : (n : ℕ) (arr : ℕ → ℕ) → ((j : ℕ) → j < n → arr j ≢ 2) → count_used n arr ≡ n
unfolding count_used
count_all zero arr used = refl
count_all (suc n) arr used =
    ground (arith, used n (omega arith), count_all n arr (λ j lt. used j (omega arith)))

pub same_or : (a b : ℕ) → (a ≡ b) ⊎ (a ≢ b)
same_or a b = ground arith

pub count_used_lem :
    (n m : ℕ) (arr : ℕ → ℕ)
    → ((j : ℕ) → j < m → arr j ≢ 2)
    → ((j : ℕ) → m ≤ j → arr j ≡ 2)
    → m ≤ n
    → count_used n arr ≡ m
unfolding count_used
count_used_lem zero m arr used free h = omega (arith, h)
count_used_lem (suc n) m arr used free h = elim (dec_lt n m) [
  | yes lt ↦
      let e : m ≡ suc n = omega arith in
      rw e (count_all (suc n) arr (λ j below. used j (omega arith)))
  | no ge ↦ ground (arith, free n (omega arith), count_used_lem n m arr used free (omega arith))
]

pub fill_lem :
    (n i v : ℕ) (arr : ℕ → ℕ) (j : ℕ)
    → fill n i v arr j ≡ (if leb i j && ltb j (i + n) then v else arr j)
unfolding fill
fill_lem zero i v arr j = ground arith
fill_lem (suc n) i v arr j = ground (arith, fill_lem n (i + 1) v (update arr i v) j)

pub to_characters_lem :
    (n : ℕ) (arr bin : ℕ → ℕ) (j : ℕ)
    → to_characters n arr bin j ≡ (if ltb j n then arr j + 48 else bin j)
unfolding to_characters
to_characters_lem zero arr bin j = ground arith
to_characters_lem (suc n) arr bin j = ground (arith, to_characters_lem n arr bin j)

-- What the first `n` exchanges among `k` characters leave at `j`.
unfoldable swapped : ℕ → ℕ → (ℕ → ℕ) → ℕ → ℕ
swapped n k block j = if ltb j n || leb (k - n) j && ltb j k then block (k - 1 - j) else block j

swapped_inside :
    (n k : ℕ) (block : ℕ → ℕ) (j : ℕ) → n ≤ j → j < k - n → swapped n k block j ≡ block j
unfolding swapped
swapped_inside n k block j lo hi = ground arith

swapped-suc :
    (n k : ℕ) (block : ℕ → ℕ) (j : ℕ)
    → j ≢ n
    → j ≢ k - 1 - n
    → swapped (suc n) k block j ≡ swapped n k block j
unfolding swapped
swapped-suc n k block j a b = ground arith

swapped_low :
    (n k : ℕ) (block : ℕ → ℕ) (j : ℕ) → j ≡ n → swapped (suc n) k block j ≡ block (k - 1 - n)
unfolding swapped
swapped_low n k block j e = rw e (ground arith)

swapped_high :
    (n k : ℕ) (block : ℕ → ℕ) (j : ℕ)
    → j ≡ k - 1 - n
    → suc n * 2 ≤ k
    → swapped (suc n) k block j ≡ block n
unfolding swapped
swapped_high n k block j e h =
    let back : k - 1 - j ≡ n = omega arith in ground (arith, ap block back)

swaps_lem : (n k : ℕ) (block : ℕ → ℕ) (j : ℕ) → n * 2 ≤ k → swaps n k block j ≡ swapped n k block j
unfolding swaps swapped
swaps_lem zero k block j h = ground arith
swaps_lem (suc n) k block j h =
    let high : swaps n k block (k - 1 - n) ≡ block (k - 1 - n) =
      swaps_lem n k block (k - 1 - n) (omega arith)
      ∙ swapped_inside n k block (k - 1 - n) (omega arith) (omega arith) in
    let low : swaps n k block n ≡ block n =
      swaps_lem n k block n (omega arith)
      ∙ swapped_inside n k block n (omega arith) (omega arith) in
    elim (same_or j (k - 1 - n)) [
      | inl e ↦ ground (arith, e, low, swapped_high n k block j e h)
      | inr apart ↦ elim (same_or j n) [
        | inl e ↦ ground (arith, e, high, swapped_low n k block j e)
        | inr other ↦
            ground (arith, swapped-suc n k block j other apart, swaps_lem n k block j (omega arith))
      ]
    ]

pub turn_round_lem :
    (k : ℕ) (block : ℕ → ℕ) (j : ℕ)
    → turn_round k block j ≡ (if ltb j k then block (k - 1 - j) else block j)
unfolding turn_round swapped
turn_round_lem k block j =
    ground (arith, swaps_lem (k / 2) k block j (omega arith), λ (e : k - 1 - j ≡ j). ap block e)

pub invert_lem :
    (n : ℕ) (arr : ℕ → ℕ) (j : ℕ)
    → ((j : ℕ) → j < n → arr j < 2)
    → invert n arr j ≡ (if ltb j n then 1 - arr j else arr j)
unfolding invert
invert_lem zero arr j h = ground arith
invert_lem (suc n) arr j h = ground (
  arith,
  h n (omega arith),
  invert_lem n arr j (λ u lt. h u (omega arith)),
  invert_lem n arr n (λ u lt. h u (omega arith)),
)

add_one_outside : (n u : ℕ) (arr : ℕ → ℕ) (j : ℕ) → j < u ⊎ u + n ≤ j → add_one n u arr j ≡ arr j
unfolding add_one
add_one_outside zero u arr j h = refl
add_one_outside (suc n) u arr j h = ground (
  arith,
  add_one_outside n (u + 1) (update arr u 0) j (omega arith),
  add_one_outside n (u + 1) arr j (omega arith),
)

-- The digits of `x`, from index `u` on, become those of `x + 1`.
pub add_one_digits :
    (n u x : ℕ) (arr : ℕ → ℕ)
    → ((j : ℕ) → j < n → arr (u + j) ≡ nibble_digit j x)
    → (j : ℕ) → j < n
    → add_one n u arr (u + j) ≡ nibble_digit j (x + 1)
unfolding add_one nibble_digit
add_one_digits zero u x arr h j lt = absurd (omega arith)
add_one_digits (suc n) u x arr h zero lt =
    let here : u + 0 ≡ u = omega arith in
    let first : arr u ≡ x % 2 = ap arr (sym here) ∙ h 0 (omega arith) in
    ground (arith, first, add_one_outside n (u + 1) (update arr u 0) u (inl (omega arith)))
add_one_digits (suc n) u x arr h (suc j) lt =
    let here : u + 0 ≡ u = omega arith in
    let next_ : u + suc j ≡ u + 1 + j = omega arith in
    let first : arr u ≡ x % 2 = ap arr (sym here) ∙ h 0 (omega arith) in
    let later : (l : ℕ) → l < n → arr (u + 1 + l) ≡ nibble_digit l (x / 2) =
      λ l below. ap arr (omega arith) ∙ h (suc l) (omega arith) in
    let cleared : (l : ℕ) → l < n → update arr u 0 (u + 1 + l) ≡ nibble_digit l (x / 2) =
      λ l below. ground (arith, later l below) in
    let odd : x % 2 ≡ 1 → (x + 1) / 2 ≡ x / 2 + 1 = λ e. omega arith in
    let even : x % 2 ≡ 0 → (x + 1) / 2 ≡ x / 2 = λ e. omega arith in
    ground (
      arith,
      first,
      ap arr next_,
      later j (omega arith),
      odd,
      even,
      λ (e : x % 2 ≡ 1). ap (nibble_digit j) (odd e),
      λ (e : x % 2 ≡ 0). ap (nibble_digit j) (even e),
      ap (add_one n (u + 1) (update arr u 0)) next_,
      add_one_digits n (u + 1) (x / 2) (update arr u 0) cleared j (omega arith),
    )

octets_done : (fuel count octa : ℕ) → count ≤ octa → octets (suc fuel) count octa ≡ octa
unfolding octets
octets_done fuel count octa h = ground arith

octets_more :
    (fuel count octa : ℕ)
    → octa < count
    → octets (suc fuel) count octa ≡ octets fuel count (octa * 2)
unfolding octets
octets_more fuel count octa h = ground arith

pub octets_lem :
    (count : ℕ)
    → count ≤ 32
    → (count ≤ octets 32 count 8) × (octets 32 count 8 ≤ 32) × (count ≤ 8 → octets 32 count 8 ≡ 8)
octets_lem count h = ground (
  arith,
  octets_done 31 count 8,
  octets_more 31 count 8,
  octets_done 30 count 16,
  octets_more 30 count 16,
  octets_done 29 count 32,
)
