-- ===== src/Printer/Lines.antt =====
-- The listing of a file by proj1/main.cc.
use mathlib.Core.List.{map}
use f_ca.Base.{
  ℕ, zero, suc, ◌+◌, ◌≤◌, ◌<◌, ◌≡◌, refl, ap, ◌∙◌, some, List, [], ◌∷◌, ◌++◌, All, length, get_or,
  arith, ltb, false,
}
use f_ca.Isa.{Instr, encode, IsInstr}
use f_ca.Isa.Bounds.{encode-words}
use f_ca.Simulator.Main.Laws.{write_words, read-write_words}
use f_ca.Disassembler.Listing.{assembly}
use f_ca.Printer.Fields.{fields}
use f_ca.Printer.Text.{text}
use f_ca.Printer.Right.{IsListed, text-eq_iff}
use f_ca.Printer.Main.{Radix, decimal, Line, radix_after, lines, printed, main}

-- The base that the word before `k` leaves, and `first` before all words.
abbrev pub radix_before : Radix → ℕ → List ℕ → Radix
radix_before first zero buffer = first
radix_before first (suc k) buffer = radix_after (text (fields (get_or buffer k 0)))

-- The line of word `k` of a file, numbered from `id` on.
abbrev pub line_at : Radix → ℕ → ℕ → List ℕ → Line
line_at first id k buffer = record {
  radix = radix_before first k buffer;
  id = id + k;
  word = get_or buffer k 0;
  shown = text (fields (get_or buffer k 0));
}

lines_at :
    (buffer : List ℕ) (first : Radix) (id k : ℕ) (other : Line)
    → k < length buffer
    → get_or (lines first id buffer) k other ≡ line_at first id k buffer
unfolding lines
lines_at [] first id k other h = absurd (omega arith)
lines_at (word ∷ buffer) first id zero other h =
    let same : id + 0 ≡ id = omega arith in rw same refl
lines_at (word ∷ buffer) first id (suc zero) other h =
    lines_at buffer (radix_after (text (fields word))) (id + 1) zero other (omega arith)
    ∙ (let same : id + 1 + 0 ≡ id + 1 = omega arith in rw same refl)
lines_at (word ∷ buffer) first id (suc (suc k)) other h =
    lines_at buffer (radix_after (text (fields word))) (id + 1) (suc k) other (omega arith)
    ∙ (let same : id + 1 + suc k ≡ id + suc (suc k) = omega arith in rw same refl)

length-lines :
    (buffer : List ℕ) (first : Radix) (id : ℕ) → length (lines first id buffer) ≡ length buffer
unfolding lines
length-lines [] first id = refl
length-lines (word ∷ buffer) first id =
    ap suc (length-lines buffer (radix_after (text (fields word))) (id + 1))

-- The loop prints as many lines as there are words, and line `k` shows `k`, word `k` and its text:
-- `k` in decimal in the first line and after a known instruction, and in hexadecimal after an
-- unknown one.
pub lines-line_at :
    (buffer : List ℕ) (k : ℕ) (other : Line)
    → k < length buffer
    → (length (lines decimal 0 buffer) ≡ length buffer)
      × (get_or (lines decimal 0 buffer) k other ≡ line_at decimal 0 k buffer)
lines-line_at buffer k other h =
    (length-lines buffer decimal 0, lines_at buffer decimal 0 k other h)

-- The lines of an assembly program, numbered from `id` on in decimal.
abbrev pub listing : ℕ → List Instr → List Line
listing id [] = []
listing id (i ∷ program) =
    record { radix = decimal; id = id; word = encode i; shown = assembly i }
    ∷ listing (suc id) program

abbrev pub IsListedProgram : List Instr → Type 0
IsListedProgram = All (λ i. IsInstr i × IsListed i)

assembly_known : (i : Instr) → radix_after (assembly i) ≡ decimal
assembly_known i = ground arith

lines-listing :
    (program : List Instr) (id : ℕ)
    → IsListedProgram program
    → lines decimal id (map encode program) ≡ listing id program
unfolding lines
lines-listing [] id h = refl
lines-listing (i ∷ program) id h =
    let shown = (text-eq_iff i h.0.0).1 h.0.1 in
    let one : id + 1 ≡ suc id = omega arith in
    rw (shown, assembly_known i, one, lines-listing program (suc id) h.1) refl

IsListedProgram-IsInstr : (program : List Instr) → IsListedProgram program → All IsInstr program
IsListedProgram-IsInstr [] h = tt
IsListedProgram-IsInstr (i ∷ program) h = (h.0.0, IsListedProgram-IsInstr program h.1)

-- With an argument that names the file of a program of the 37 instructions of Isa (RV32I without
-- FENCE, ECALL and EBREAK), and up to three bytes behind it, whose immediates come out right, `main`
-- prints one line for each instruction, in order and numbered from 0 in decimal: its word and its
-- assembly.
pub main-numbered :
    (program : List Instr) (rest : List ℕ) (argc : ℕ)
    → 2 ≤ argc
    → IsListedProgram program
    → length rest < 4
    → main argc (some (write_words (map encode program) ++ rest)) ≡ printed (listing 0 program)
unfolding main
main-numbered program rest argc args h few =
    let words =
      read-write_words (map encode program) rest
        (encode-words program (IsListedProgram-IsInstr program h)) few in
    let given : ltb argc 2 ≡ false = ground arith in
    rw (given, words, lines-listing program 0 h) refl
