-- ===== src/Indexed/Valid.antt =====
-- The states of proj2/pa2/제출1.cc whose values fit their types.
use f_ca.Base.{ℕ, All, arith, update}
use f_ca.Word.{IsWord, add32}
use f_ca.Indexed.State.{State}

-- Registers, `data`, `user_lw` and the numbers to be typed are words, as their types in C++ say.
pub record IsState (s : State) : Type 0 where
  pub reg_word : (i : ℕ) → IsWord (s.reg i)
  pub data_word : (i : ℕ) → IsWord (s.data_ i)
  pub user_word : IsWord s.user_lw
  pub input_word : All IsWord s.input

-- The registers that a round reads: x0 is set to 0 before.
abbrev pub read : State → ℕ → ℕ
read s = update s.reg 0 0

-- The state after `v` is written to `rd` and the round has gone on to the next word.
abbrev pub written : ℕ → ℕ → State → State
written rd v s = record s { curr_i = add32 s.curr_i 1; reg = update (update (read s) rd v) 0 0 }

pub read-IsWord : (s : State) → IsState s → (i : ℕ) → IsWord (read s i)
read-IsWord s valid i = ground (arith, valid.reg_word i)
