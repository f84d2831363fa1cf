-- ===== src/Indexed/Whole.antt =====
-- `main` of proj2/pa2/제출1.cc as a whole, and where it departs from the manual.
use f_ca.Base.{ℕ, zero, suc, arith, Bool, false, List, [], ◌∷◌, All, get_or}
use f_ca.Word.{IsWord}
use f_ca.Machine.{Machine}
use f_ca.Indexed.State.{State, Flags}
use f_ca.Indexed.Main.{start}
use f_ca.Indexed.Shows.{Shows}
use f_ca.Indexed.Valid.{IsState}

pub get_or-IsWord : (ws : List ℕ) (i : ℕ) → All IsWord ws → IsWord (get_or ws i 0xFF)
get_or-IsWord [] i h = omega arith
get_or-IsWord (w ∷ ws) zero h = h.0
get_or-IsWord (w ∷ ws) (suc i) h = get_or-IsWord ws i h.1

pub start-IsState :
    (ws typed : List ℕ) → All IsWord ws → All IsWord typed → IsState (start ws typed)
start-IsState ws typed h h' = record {
  reg_word = λ i. omega arith;
  data_word = λ i. get_or-IsWord ws i h;
  user_word = omega arith;
  input_word = h';
}

-- The flags that `main` sets with four arguments.
abbrev pub with_file : Bool → Flags
with_file named = record { flag = false; proj3_flag = named }
