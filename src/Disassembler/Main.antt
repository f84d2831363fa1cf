-- ===== src/Disassembler/Main.antt =====
-- project_1/main.c: `main`, and its loop over the words of the file.
pub mod Laws
use f_ca.Base.{
  ℕ, zero, suc, ◌+◌, ◌/◌, Bool, List, [], ◌∷◌, ◌||◌, ◌==◌, if◌then◌else◌, get_or, length,
}
use f_ca.Simulator.Main.{File, missing, short, bytes, read_words}
use f_ca.Disassembler.Decode.{parts}
use f_ca.Disassembler.Text.{Text, text}

-- One line: `printf("inst %d: %08x ", id, buf[id]);` and the text.
pub record Line : Type 0 where
  pub id : ℕ
  pub word : ℕ
  pub shown : Text

-- How `main` ends: it returns -1 with nothing printed, or 0 after these lines, or its behaviour is
-- undefined in C.
pub data Ending : Type 0 where
  failed : Ending
  printed : List Line → Ending
  undefined : Ending

-- The body of the loop.
unfoldable pub line : List ℕ → ℕ → Line
line buf id = record { id = id; word = get_or buf id 0; shown = text (parts (get_or buf id 0)) }

-- `for (int i = 0; i < total_inst; i++) { … id++; }`, with the rounds that are left.
unfoldable pub lines : ℕ → ℕ → List ℕ → List Line
lines zero id buf = []
lines (suc left) id buf = line buf id ∷ lines left (id + 1) buf

-- `if (cnt != num) { … return -1; }` and the loop. `fread` reads whole words.
unfoldable pub list_file : List ℕ → Ending
list_file content =
    if length (read_words content) == (length content + 3) / 4
    then printed (lines (length content / 4) 0 (read_words content))
    else failed

-- The variable `inst` is set with three or four arguments only; with another number of them, the
-- comparison `inst > num` reads a variable that was never set. What `inst` holds is not used after
-- that. `alloc` tells whether `malloc` succeeds, which the source does not ask.
unfoldable pub main : ℕ → File → Bool → Ending
main argc missing alloc = failed
main argc short alloc =
    if argc == 3 || argc == 4 then if alloc then failed else undefined else undefined
main argc (bytes content) alloc =
    if argc == 3 || argc == 4 then if alloc then list_file content else undefined else undefined
