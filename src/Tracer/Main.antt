-- ===== src/Tracer/Main.antt =====
-- proj1/icaproj1.c: `main`, and its loop over as many rounds as the file has words.
use f_ca.Base.{
  ℕ, zero, suc, ◌+◌, ◌/◌, Bool, Option, none, some, List, [], ◌∷◌, ◌||◌, ◌==◌, ltb, if◌then◌else◌,
  get_or, length,
}
use f_ca.Simulator.Main.{File, missing, short, bytes, read_words}
use f_ca.Disassembler.Main.{Line, Ending, failed, printed, undefined}
use f_ca.Tracer.Fields.{fields}
use f_ca.Tracer.Text.{text}
use f_ca.Tracer.Effect.{State, round}

-- One line: `printf("inst %d: %08x ", current_i, buffer[current_i]);` and the text.
unfoldable pub line : List ℕ → ℕ → Line
line buffer id = record {
  id = id;
  word = get_or buffer id 0;
  shown = text (fields (get_or buffer id 0));
}

-- A line before the others, where these are defined.
abbrev pub put_first : Line → Option (List Line) → Option (List Line)
put_first l none = none
put_first l (some rest) = some (l ∷ rest)

-- `for (int i = 0; i < size; i++) { … }`, with the rounds that are left: the lines printed, or `none`
-- where the behaviour is undefined, as it is where `current_i` has left the buffer.
unfoldable pub lines : ℕ → List ℕ → State → Option (List Line)
lines zero buffer s = some []
lines (suc left) buffer s =
    let rest = λ (s' : State). lines left buffer s' in
    if ltb s.current_i (length buffer)
    then put_first (line buffer s.current_i)
        (elim (round (fields (get_or buffer s.current_i 0)) s) [ none ↦ none | some s' ↦ rest s' ])
    else none

-- The registers and `current_i` before the loop.
abbrev pub start : State
start = record { current_i = 0; reg = λ _. 0 }

abbrev pub as_ending : Option (List Line) → Ending
as_ending none = undefined
as_ending (some shown) = printed shown

-- `if (count != numInts) { … return -1; }`, the comparison of `inst_c`, which is set with three or
-- four arguments only, and the loop.
unfoldable pub trace_file : ℕ → List ℕ → Ending
trace_file argc content =
    if length (read_words content) == (length content + 3) / 4
    then (if argc == 3 || argc == 4
        then as_ending (lines (length content / 4) (read_words content) start)
        else undefined)
    else failed

-- What `inst_c` holds plays no part after its comparison. `alloc` tells whether `malloc` succeeds,
-- which the source does not ask.
unfoldable pub main : ℕ → File → Bool → Ending
main argc missing alloc = failed
main argc short alloc = if alloc then failed else undefined
main argc (bytes content) alloc = if alloc then trace_file argc content else undefined
