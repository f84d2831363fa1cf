-- ===== src/Indexed/Main.antt =====
-- proj2/pa2/제출1.cc: `main`, its loop, and the registers that it prints.
use f_ca.Base.{
  ℕ, zero, suc, ◌+◌, Bool, true, false, Option, none, some, List, [], ◌∷◌, ltb, leb, ◌==◌,
  if◌then◌else◌, get_or, length,
}
use f_ca.Base.Int.{ℤ}
use f_ca.Word.{sub32, slt}
use f_ca.Simulator.Main.{read_words, rounds}
use f_ca.Printer.Fields.{fields}
use f_ca.Indexed.State.{State, Flags}
use f_ca.Indexed.Exec.{round}

-- `for (int i = 0; i < user_inst; i++) { if (curr_i > (all_size - 1)) break; … }`, with the rounds that
-- are left. A negative `curr_i` passes the test and leaves the buffer.
unfoldable pub run : ℕ → Flags → List ℕ → State → Option State
run zero flags buffer s = some s
run (suc left) flags buffer s =
    let rest = λ (s' : State). run left flags buffer s' in
    if slt (sub32 (length buffer) 1) s.curr_i
    then some s
    else if ltb s.curr_i (length buffer)
    then elim (round flags (fields (get_or buffer s.curr_i 0)) s) [
      | none ↦ none
      | some s' ↦ rest s'
    ]
    else none

-- The end of the process: -1, the exception of `stoi`, or 0 with the characters written before and the
-- registers, or behaviour that C++ does not define.
pub data Exit : Type 0 where
  error : Exit
  thrown : Exit
  success : List ℕ → List ℕ → Exit
  undefined : Exit

-- `for (int i = 0; i < 32; i++) cout << …`, from `reg[i]` on.
unfoldable pub print_registers : ℕ → ℕ → State → List ℕ
print_registers zero i s = []
print_registers (suc left) i s = s.reg i ∷ print_registers left (i + 1) s

abbrev pub finish : Option State → Exit
finish none = undefined
finish (some s) = success s.output (print_registers 32 0 s)

-- The variables before the loop, with the words that a data file puts at the start of `data`.
abbrev pub start : List ℕ → List ℕ → State
start words typed = record {
  curr_i = 0;
  reg = λ _. 0;
  data_ = λ i. get_or words i 0xFF;
  user_lw = 0;
  input = typed;
  output = [];
}

-- With a data file, which is not missed when it cannot be opened, and which may not be longer than
-- `data`.
unfoldable pub with_data : ℕ → Option (List ℕ) → Bool → List ℕ → List ℕ → Exit
with_data n none named buffer typed =
    finish (run n (record { flag = false; proj3_flag = named }) buffer (start [] typed))
with_data n (some content) named buffer typed =
    if leb (length (read_words content)) 16384
    then finish (
        run n (record { flag = false; proj3_flag = named }) buffer
          (start (read_words content) typed))
    else undefined

-- `argc == 3`, `argc == 4`, and other numbers of arguments. `count` is what `stoi` returns.
unfoldable pub count_given : ℕ → Option ℤ → Option (List ℕ) → Bool → List ℕ → List ℕ → Exit
count_given argc none second named buffer typed =
    if argc == 3 then thrown else if argc == 4 then thrown else error
count_given argc (some n) second named buffer typed =
    if argc == 3
    then finish
        (run (rounds n) (record { flag = true; proj3_flag = named }) buffer (start [] typed))
    else if argc == 4
    then with_data (rounds n) second named buffer typed
    else error

-- `first` and `second` hold the bytes of the files that `argv[1]` and `argv[2]` name, if they can be
-- opened, `count` what `stoi` makes of the last argument (it may throw), `named` tells whether
-- `argv[1]` has "proj2_11" in it, and `typed` are the numbers that the user will type. Without an
-- argument a string is made of a null pointer.
unfoldable pub main : ℕ → Option (List ℕ) → Option (List ℕ) → Option ℤ → Bool → List ℕ → Exit
main argc first second count named typed = if ltb argc 2 then undefined else elim first [
  | none ↦ error
  | some content ↦ count_given argc count second named (read_words content) typed
]
