-- ===== src/Printer/Main.antt =====
-- proj1/main.cc, lines 9-64: `main`, and its loop over the words of the file.
use f_ca.Base.{ℕ, ◌+◌, Option, none, some, List, [], ◌∷◌, ltb, if◌then◌else◌}
use f_ca.Simulator.Main.{read_words}
use f_ca.Disassembler.Text.{Text, unknown}
use f_ca.Printer.Fields.{fields}
use f_ca.Printer.Text.{text}

-- The base in which `cout` prints numbers.
pub data Radix : Type 0 where
  decimal hexadecimal : Radix

-- One line: `cout << "inst " << i << ": "` in the base that is set, the word as eight hexadecimal
-- digits, and the text, whose numbers are in decimal.
pub record Line : Type 0 where
  pub radix : Radix
  pub id : ℕ
  pub word : ℕ
  pub shown : Text

-- The base after a line: `hex` for the word, and `dec` before every text but that of an unknown
-- instruction.
abbrev pub radix_after : Text → Radix
radix_after unknown = hexadecimal
radix_after _ = decimal

-- `for (size_t i = 0; i < inst_size; i++) { … }`
unfoldable pub lines : Radix → ℕ → List ℕ → List Line
lines radix i [] = []
lines radix i (word ∷ buffer) =
    let shown = text (fields word) in
    record { radix = radix; id = i; word = word; shown = shown }
    ∷ lines (radix_after shown) (i + 1) buffer

-- How `main` ends: it returns -1 with nothing printed, or 0 after these lines, or its behaviour is
-- undefined.
pub data Ending : Type 0 where
  failed : Ending
  printed : List Line → Ending
  undefined : Ending

-- `file` holds the bytes of the file that `argv[1]` names, if it can be opened. Without an argument
-- `argv[1]` is a null pointer.
unfoldable pub main : ℕ → Option (List ℕ) → Ending
main argc file =
    if ltb argc 2
    then undefined
    else elim file [ none ↦ failed | some content ↦ printed (lines decimal 0 (read_words content)) ]
