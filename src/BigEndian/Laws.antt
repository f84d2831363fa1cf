-- ===== src/BigEndian/Laws.antt =====
-- Words in memory, highest byte first, and the immediates of this simulator.
use f_ca.Base.{
  ℕ, zero, suc, ◌+◌, ◌-◌, ◌*◌, ◌/◌, ◌%◌, ◌^◌, ◌≤◌, ◌<◌, ◌≡◌, ◌⊎◌, ◌↔◌, inl, refl, ◌∙◌, arith, List,
  [], ◌∷◌, All, bit_or, get_or, length,
}
use native.Mathlib.Nat.{one-le-pow}
use f_ca.Bits.{bit_and_low, bit_and_field, bit_or_disjoint, bit_or_split, bit_or-zero}
use f_ca.Word.{IsWord, shl, sext}
use f_ca.Simulator.Refines.Memory.{join_bytes}
use f_ca.BigEndian.Store.{inst_to_mem, mem_to_inst, sign}
use f_ca.BigEndian.Run.{copy_program}

split_word :
    (v : ℕ)
    → IsWord v
    → v % 256 + v / 2 ^ 8 % 256 * 2 ^ 8 + v / 2 ^ 16 % 256 * 2 ^ 16 + v / 2 ^ 24 % 256 * 2 ^ 24 ≡ v
split_word v h = omega arith

zero-bit_or : (a : ℕ) → IsWord a → bit_or 0 a ≡ a
zero-bit_or a h = omega (arith, bit_or_disjoint 32 0 a)

-- A word that `instTOmem` has put at an address is what `memTOinst` finds there.
pub mem_to_inst-inst_to_mem :
    (address word : ℕ) (memory : ℕ → ℕ)
    → IsWord word
    → mem_to_inst address (inst_to_mem address word memory) ≡ word
unfolding mem_to_inst inst_to_mem
mem_to_inst-inst_to_mem address word memory h = ground (
  arith,
  bit_and_low 8 word,
  bit_and_low 8 (word / 2 ^ 8),
  bit_and_low 8 (word / 2 ^ 16),
  bit_and_low 8 (word / 2 ^ 24),
  zero-bit_or (shl (word / 2 ^ 24 % 256) 24) (omega arith),
  split_word word h,
  join_bytes (word % 256) (word / 2 ^ 8 % 256) (word / 2 ^ 16 % 256) (word / 2 ^ 24 % 256),
)

-- A word elsewhere is not changed.
mem_to_inst-frame :
    (address address' word : ℕ) (memory : ℕ → ℕ)
    → (address' + 4 ≤ address) ⊎ (address + 4 ≤ address')
    → mem_to_inst address' (inst_to_mem address word memory) ≡ mem_to_inst address' memory
unfolding mem_to_inst inst_to_mem
mem_to_inst-frame address address' word memory h = ground arith

copy_program-frame :
    (words : List ℕ) (pc address : ℕ) (memory : ℕ → ℕ)
    → address + 4 ≤ pc
    → mem_to_inst address (copy_program pc words memory) ≡ mem_to_inst address memory
unfolding copy_program
copy_program-frame [] pc address memory h = refl
copy_program-frame (word ∷ words) pc address memory h =
    copy_program-frame words (pc + 4) address (inst_to_mem pc word memory) (omega arith)
    ∙ mem_to_inst-frame pc address word memory (inl h)

-- After the program has been copied into memory from `pc` on, each of its words is found at its
-- place: word `k` four bytes times `k` further.
pub mem_to_inst-copy_program :
    (words : List ℕ) (k pc : ℕ) (memory : ℕ → ℕ)
    → All IsWord words
    → k < length words
    → mem_to_inst (pc + 4 * k) (copy_program pc words memory) ≡ get_or words k 0
unfolding copy_program
mem_to_inst-copy_program [] k pc memory fits h = absurd (omega arith)
mem_to_inst-copy_program (word ∷ words) zero pc memory fits h =
    let here : pc + 4 * 0 ≡ pc = omega arith in
    rw here (
      copy_program-frame words (pc + 4) pc (inst_to_mem pc word memory) (omega arith)
      ∙ mem_to_inst-inst_to_mem pc word memory fits.0)
mem_to_inst-copy_program (word ∷ words) (suc k) pc memory fits h =
    let there : pc + 4 * suc k ≡ pc + 4 + 4 * k = omega arith in
    rw there
      (mem_to_inst-copy_program words k (pc + 4) (inst_to_mem pc word memory) fits.1 (omega arith))

-- Ones above a number of `k` digits, put on by `|` from the right.
bit_or-high : (k v high : ℕ) → v < 2 ^ k → IsWord high → bit_or v (high * 2 ^ k) ≡ high * 2 ^ k + v
bit_or-high k v high h small =
    let parts = bit_or_split k 0 high v 0 h (omega (arith, one-le-pow k 2)) in
    ground (arith, parts, bit_or-zero v, zero-bit_or high small)

-- The mask finds the sign of a field of 12 digits, and extends it.
pub sign_12 : (v : ℕ) → v < 2 ^ 12 → sign v 12 ≡ sext 12 v
unfolding sign sext
sign_12 v h = ground (arith, bit_and_field 1 11 v, bit_or-high 12 v (2 ^ 20 - 1))

-- The same where the number reaches one digit into the ones.
bit_or-wide :
    (v : ℕ) → v < 2 ^ 13 → bit_or v ((2 ^ 20 - 1) * 2 ^ 12) ≡ (2 ^ 20 - 1) * 2 ^ 12 + v % 2 ^ 12
bit_or-wide v h =
    let parts =
      bit_or_split 12 (v / 2 ^ 12) (2 ^ 20 - 1) (v % 2 ^ 12) 0 (omega arith) (omega arith) in
    let top : bit_or (v / 2 ^ 12) (2 ^ 20 - 1) ≡ 2 ^ 20 - 1 = digit (v / 2 ^ 12) (omega arith) in
    ground (arith, parts, top, bit_or-zero (v % 2 ^ 12))
  where
    digit : (d : ℕ) → d < 2 → bit_or d (2 ^ 20 - 1) ≡ 2 ^ 20 - 1
    digit zero h = refl
    digit (suc zero) h = refl
    digit (suc (suc d)) h = absurd (omega arith)

pub sign_branch_iff :
    (v : ℕ) → v < 2 ^ 13 → (sign v 12 ≡ sext 13 v) ↔ ((v < 2 ^ 11) ⊎ (2 ^ 13 ≤ v + 2 ^ 11))
unfolding sign sext
sign_branch_iff v h =
    ground (arith, bit_and_field 1 11 v, bit_or-high 12 v (2 ^ 20 - 1), bit_or-wide v)
