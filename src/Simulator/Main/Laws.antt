-- ===== src/Simulator/Main/Laws.antt =====
-- `main` from the bytes of a program file to the registers that it prints.
use mathlib.Core.List.{map}
use f_ca.Base.{
  ℕ, zero, suc, ◌+◌, ◌*◌, ◌/◌, ◌%◌, ◌^◌, ◌≤◌, ◌<◌, ◌≡◌, refl, ap, true, List, [], ◌∷◌, ◌++◌, All,
  length, get_or, le→leb, arith,
}
use f_ca.Base.Int.{ℤ, pos}
use f_ca.Word.{IsWord}
use f_ca.Machine.{initial, IsValid}
use f_ca.Isa.{Instr, encode}
use f_ca.Isa.Bounds.{encode-words}
use f_ca.Isa.Program.{IsProgram, IsProgram-IsInstr, manual}
use f_ca.Simulator.Run.Laws.{run-refines}
use f_ca.Simulator.Main.{bytes, read_words, finish, with_data, load_data, start, main}

-- The bytes of a file of words, lowest first.
abbrev pub write_words : List ℕ → List ℕ
write_words [] = []
write_words (w ∷ ws) =
    w % 256 ∷ w / 2 ^ 8 % 256 ∷ w / 2 ^ 16 % 256 ∷ w / 2 ^ 24 % 256 ∷ write_words ws

read_words-short : (tail : List ℕ) → length tail < 4 → read_words tail ≡ []
unfolding read_words
read_words-short [] h = refl
read_words-short (a ∷ []) h = refl
read_words-short (a ∷ b ∷ []) h = refl
read_words-short (a ∷ b ∷ c ∷ []) h = refl
read_words-short (a ∷ b ∷ c ∷ d ∷ rest) h = absurd (omega arith)

-- Reading a file gives back the words that were written to it, and leaves out up to three bytes
-- behind the last of them.
pub read-write_words :
    (ws tail : List ℕ) → All IsWord ws → length tail < 4 → read_words (write_words ws ++ tail) ≡ ws
unfolding read_words
read-write_words [] tail words h = read_words-short tail h
read-write_words (w ∷ ws) tail words h =
    let whole : w % 256
          + w / 2 ^ 8 % 256 * 2 ^ 8
          + w / 2 ^ 16 % 256 * 2 ^ 16
          + w / 2 ^ 24 % 256 * 2 ^ 24
        ≡ w =
      omega arith in
    rw (whole, read-write_words ws tail words.1 h)

All-byte-get_or :
    (content : List ℕ) (i : ℕ) → All (λ b. b < 2 ^ 8) content → get_or content i 0 < 2 ^ 8
All-byte-get_or [] i h = omega arith
All-byte-get_or (b ∷ content) zero h = h.0
All-byte-get_or (b ∷ content) (suc i) h = All-byte-get_or content i h.1

pub initial-IsValid :
    (content typed : List ℕ)
    → All (λ b. b < 2 ^ 8) content
    → All IsWord typed
    → IsValid (with_data content (initial typed))
unfolding with_data
initial-IsValid content typed h words = record {
  pc_word = omega arith;
  reg_word = λ i. omega arith;
  mem_byte = λ i. All-byte-get_or content i h;
  zero_reg = refl;
  input_word = words;
}

-- `riscv-sim program data n`, on the file of a program of supported instructions and a data file of
-- at most 65536 bytes, ends as `n` rounds of the manual's reading of the program do, from registers
-- of 0 and the data at the start of the data memory: with the same characters and the same
-- registers, or the same failure.
pub main-refines :
    (program : List Instr) (content typed tail : List ℕ) (n : ℕ) (inst2 : ℤ)
    → IsProgram program
    → All (λ b. b < 2 ^ 8) content
    → All IsWord typed
    → length tail < 4
    → length content ≤ 65536
    → main 4
        (bytes (write_words (map encode program) ++ tail))
        (bytes content)
        inst2
        (pos n)
        true
        typed
      ≡ finish (manual n program (with_data content (initial typed)))
unfolding main start load_data
main-refines program content typed tail n inst2 ok bytes_ok words short_tail fits =
    rw
      (
        read-write_words (map encode program) tail
            (encode-words program (IsProgram-IsInstr program ok)) short_tail,
        le→leb (length content) 65536 fits,
      )
      (ap finish (
        run-refines n program (with_data content (initial typed)) ok
          (initial-IsValid content typed bytes_ok words)))
