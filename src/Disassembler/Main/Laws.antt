-- ===== src/Disassembler/Main/Laws.antt =====
-- `main` of the disassembler: the listing of a file, and the files that it refuses.
use mathlib.Core.List.{append-nil}
use f_ca.Base.{ℕ, suc, ◌*◌, ◌/◌, ◌%◌, ◌≡◌, ◌≢◌, ◌⊎◌, refl, true, List, [], ◌∷◌, All, length, arith}
use f_ca.Word.{IsWord}
use f_ca.Isa.{Instr, encode}
use f_ca.Simulator.Main.{bytes, read_words}
use f_ca.Simulator.Main.Laws.{write_words, read-write_words}
use f_ca.Disassembler.Listing.{assembly}
use f_ca.Disassembler.Main.{Line, failed, list_file, main}

-- The lines of a program, numbered from `id` on.
abbrev pub listing : ℕ → List Instr → List Line
listing id [] = []
listing id (i ∷ program) =
    record { id = id; word = encode i; shown = assembly i } ∷ listing (suc id) program

pub length-write_words : (ws : List ℕ) → length (write_words ws) ≡ length ws * 4
length-write_words [] = refl
length-write_words (w ∷ ws) = omega (arith, length-write_words ws)

pub read_written : (ws : List ℕ) → All IsWord ws → read_words (write_words ws) ≡ ws
read_written ws h = rw (append-nil (write_words ws)) at (read-write_words ws [] h (omega arith))

length-read_words : (content : List ℕ) → length (read_words content) ≡ length content / 4
unfolding read_words
length-read_words [] = refl
length-read_words (a ∷ []) = refl
length-read_words (a ∷ b ∷ []) = refl
length-read_words (a ∷ b ∷ c ∷ []) = refl
length-read_words (a ∷ b ∷ c ∷ d ∷ rest) = omega (arith, length-read_words rest)

-- With three or four arguments, a file that ends inside a word is refused: the count of words is
-- rounded up, and `fread` finds one less. Nothing is printed.
pub main_partial_word :
    (content : List ℕ) (argc : ℕ)
    → (argc ≡ 3) ⊎ (argc ≡ 4)
    → length content % 4 ≢ 0
    → main argc (bytes content) true ≡ failed
unfolding main list_file
main_partial_word content argc args partial = ground (arith, length-read_words content)
