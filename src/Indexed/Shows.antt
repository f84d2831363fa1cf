-- ===== src/Indexed/Shows.antt =====
-- The machine of the manual that a state of proj2/pa2/제출1.cc stands for: four bytes for a word.
use f_ca.Base.{
  ℕ, ◌+◌, ◌*◌, ◌/◌, ◌%◌, ◌^◌, ◌<◌, ◌≡◌, ◌≢◌, ◌==◌, ◌⊎◌, inl, inr, refl, ◌∙◌, arith, update, true,
}
use f_ca.Bits.{bit_and_low}
use f_ca.Word.{IsWord}
use f_ca.Machine.{Machine}
use f_ca.Isa.Meaning.{word_at, put_word}
use f_ca.Indexed.State.{State}
use f_ca.Indexed.Exec.{cell}

-- Byte `a` of memory whose words are `data_`, the lowest byte first.
abbrev pub byte_of : (ℕ → ℕ) → ℕ → ℕ
byte_of data_ a = data_ (a / 4) / 2 ^ (a % 4 * 8) % 256

pub record Shows (s : State) (m : Machine) : Type 0 where
  pub pc : m.pc ≡ s.curr_i * 4
  pub reg : (i : ℕ) → m.reg i ≡ update s.reg 0 0 i
  pub mem : (a : ℕ) → a < 65536 → m.mem a ≡ byte_of s.data_ a
  pub input : m.input ≡ s.input
  pub output : m.output ≡ s.output

pub cell-eq : (a : ℕ) → cell a ≡ a % 2 ^ 16 / 4
cell-eq a = omega (arith, bit_and_low 16 a)

byte_lem :
    (data_ : ℕ → ℕ) (a k : ℕ)
    → a % 4 ≡ 0
    → k < 4
    → byte_of data_ (a + k) ≡ data_ (a / 4) / 2 ^ (k * 8) % 256
byte_lem data_ a k four h =
    let same : (a + k) / 4 ≡ a / 4 = omega arith in
    let place : (a + k) % 4 ≡ k = omega arith in rw (same, place) refl

-- The four bytes of a word make the word.
pub word_at-eq :
    (data_ mem : ℕ → ℕ) (a : ℕ)
    → a % 4 ≡ 0
    → IsWord (data_ (a / 4))
    → ((k : ℕ) → k < 4 → mem (a + k) ≡ byte_of data_ (a + k))
    → word_at mem a ≡ data_ (a / 4)
word_at-eq data_ mem a four word h =
    let start : a + 0 ≡ a = omega arith in
    let b0 : mem (a + 0) ≡ data_ (a / 4) % 256 =
      omega (arith, h 0 (omega arith) ∙ byte_lem data_ a 0 four (omega arith)) in
    let b1 = h 1 (omega arith) ∙ byte_lem data_ a 1 four (omega arith) in
    let b2 = h 2 (omega arith) ∙ byte_lem data_ a 2 four (omega arith) in
    let b3 = h 3 (omega arith) ∙ byte_lem data_ a 3 four (omega arith) in
    omega (arith, rw start at b0, b1, b2, b3, word)

written_lem :
    (data_ : ℕ → ℕ) (a v k b : ℕ)
    → a % 4 ≡ 0
    → k < 4
    → b ≡ a + k
    → byte_of (update data_ (a / 4) v) b ≡ v / 2 ^ (k * 8) % 256
written_lem data_ a v k b four h e = rw e (
    byte_lem (update data_ (a / 4) v) a k four h
    ∙ (let here : (a / 4 == a / 4) ≡ true = ground arith in rw here refl))

places :
    (a b : ℕ)
    → a % 4 ≡ 0
    → (b ≡ a + 0) ⊎ ((b ≡ a + 1) ⊎ ((b ≡ a + 2) ⊎ ((b ≡ a + 3) ⊎ (b / 4 ≢ a / 4))))
places a b four = ground arith

-- Writing a word writes its four bytes.
pub put_word-eq :
    (data_ mem : ℕ → ℕ) (a v b : ℕ)
    → a % 4 ≡ 0
    → mem b ≡ byte_of data_ b
    → put_word mem a v b ≡ byte_of (update data_ (a / 4) v) b
put_word-eq data_ mem a v b four h = elim (places a b four) [
  | inl e ↦ ground (arith, written_lem data_ a v 0 b four (omega arith) e)
  | inr (inl e) ↦ ground (arith, written_lem data_ a v 1 b four (omega arith) e)
  | inr (inr (inl e)) ↦ ground (arith, written_lem data_ a v 2 b four (omega arith) e)
  | inr (inr (inr (inl e))) ↦ ground (arith, written_lem data_ a v 3 b four (omega arith) e)
  | inr (inr (inr (inr e))) ↦ ground arith
]
