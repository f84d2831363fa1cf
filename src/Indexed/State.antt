-- ===== src/Indexed/State.antt =====
-- proj2/pa2/제출1.cc: what `main` keeps between the rounds of its loop, and how a `case` ends.
use f_ca.Base.{ℕ, Option, some, List, [], ◌∷◌, ◌++◌, Bool, update}

-- `curr_i` and `user_lw` are `int`s, `data` holds 16384 of them, and `reg` 32 `unsigned int`s; each
-- is its bit pattern. `input` holds the numbers that the calls of `cin >>` will read, and `output`
-- the characters that `cout <<` has written.
pub record State : Type 0 where
  pub curr_i : ℕ
  pub reg : ℕ → ℕ
  pub data_ : ℕ → ℕ
  pub user_lw : ℕ
  pub input : List ℕ
  pub output : List ℕ

-- `flag == 1`: there is no data file. `proj3_flag == 1`: the name of the program has "proj2_11" in it.
pub record Flags : Type 0 where
  pub flag : Bool
  pub proj3_flag : Bool

-- How the `switch` ends: by `break`, so that `reg[0] = 0; curr_i++;` follows, or by `continue`.
pub data Flow : Type 0 where
  falls : State → Flow
  continues : State → Flow

-- `reg[rd] = v`
abbrev pub put_reg : ℕ → ℕ → State → State
put_reg rd v s = record s { reg = update s.reg rd v }

-- `reg[rd] = v; break;`
abbrev pub assign : ℕ → ℕ → State → Option Flow
assign rd v s = some (falls (put_reg rd v s))

-- `cin >> user_lw`, which leaves `user_lw` as it was when nothing is left to read.
unfoldable pub read_cin : State → State
read_cin s = elim s.input [ [] ↦ s | n ∷ rest ↦ record s { user_lw = n; input = rest } ]

-- `cout << (char)c`
abbrev pub put_char : ℕ → State → State
put_char c s = record s { output = s.output ++ c ∷ [] }
