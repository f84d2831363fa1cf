-- ===== src/Simulator/Run/Laws.antt =====
-- The loop as a whole: rounds compose, the machine stays valid, and a program of supported
-- instructions runs as the manual says.
use Prim.Native.Nat.add
use f_ca.Base.{
  ℕ, zero, suc, ◌+◌, ◌/◌, ◌≤◌, ◌<◌, ◌≡◌, refl, sym, ap, arith, List, [], ◌∷◌, ltb, get_or, length,
  All-get_or, le→ltb, lt→ltb, ◌∙◌,
}
use native.Mathlib.Decide.{dec_lt}
use mathlib.Core.List.{map}
use f_ca.Machine.{Machine, next, ◌>>=◌, IsValid, Leaves, at_next}
use f_ca.Machine.Bind.{bind_congr, bind_valid, bind_assoc}
use f_ca.Machine.Valid.{Leaves-bind, Leaves-if}
use f_ca.Isa.{Instr, lui, encode}
use f_ca.Isa.Meaning.{meaning}
use f_ca.Isa.Program.{manual, IsProgram}
use f_ca.Simulator.Run.{step, run}
use f_ca.Simulator.Valid.{round-IsValid}
use f_ca.Simulator.Refines.Round.{round-encode}

module _ (buf : List ℕ) (m : Machine) where
  pub run_more : (n : ℕ) → m.pc / 4 < length buf → run (suc n) buf m ≡ (step buf m >>= run n buf)
  unfolding run
  run_more n h = rw (lt→ltb (m.pc / 4) (length buf) h, run)

  -- Past the last word of the file the loop is over, whatever count of rounds is left.
  pub run_past_end : (n : ℕ) → length buf ≤ m.pc / 4 → run n buf m ≡ next m
  unfolding run
  run_past_end zero h = refl
  run_past_end (suc n) h = rw (le→ltb (m.pc / 4) (length buf) h, run)

-- Running `a + b` rounds is running `a` rounds and then, if nothing failed, `b` more: the loop keeps
-- nothing but the machine from one round to the next.
pub run-add :
    (a b : ℕ) (buf : List ℕ) (m : Machine) → run (a + b) buf m ≡ (run a buf m >>= run b buf)
run-add zero b buf m = unfold run in rw add.zero
run-add (suc a) b buf m = rw add.suc (elim (dec_lt (m.pc / 4) (length buf)) [
  | yes h ↦
      run_more buf m (a + b) h
      ∙ bind_congr (step buf m) (run-add a b buf)
      ∙ sym (bind_assoc (step buf m) (run a buf) (run b buf))
      ∙ ap (λ o. o >>= run b buf) (sym (run_more buf m a h))
  | no h ↦
      let over : length buf ≤ m.pc / 4 = omega arith in
      rw (run_past_end buf m (suc (a + b)) over, run_past_end buf m (suc a) over)
        (sym (run_past_end buf m b over))
])

step-IsValid : (buf : List ℕ) (m : Machine) → IsValid m → Leaves IsValid (step buf m)
unfolding step
step-IsValid buf m valid = round-IsValid (get_or buf (m.pc / 4) 0) m valid

-- Whatever words the file holds, however many rounds are run, and whether or not `main` returns
-- early: from a valid machine the loop ends in a valid one.
pub run-IsValid : (n : ℕ) (buf : List ℕ) (m : Machine) → IsValid m → Leaves IsValid (run n buf m)
unfolding run
run-IsValid zero buf m valid = at_next valid
run-IsValid (suc n) buf m valid =
    Leaves-if (ltb (m.pc / 4) (length buf))
      (Leaves-bind (step-IsValid buf m valid) (λ _ v. v) (run-IsValid n buf)) (at_next valid)

pub length-encode : (program : List Instr) → length (map encode program) ≡ length program
length-encode [] = refl
length-encode (i ∷ program) = ap suc (length-encode program)

pub get_or-encode :
    (program : List Instr) (k : ℕ)
    → k < length program
    → get_or (map encode program) k 0 ≡ encode (get_or program k (lui 0 0))
get_or-encode [] k h = absurd (omega arith)
get_or-encode (i ∷ program) zero h = refl
get_or-encode (i ∷ program) (suc k) h = get_or-encode program k (omega arith)

step-encode :
    (program : List Instr) (m : Machine)
    → IsProgram program
    → IsValid m
    → m.pc / 4 < length program
    → step (map encode program) m ≡ meaning (get_or program (m.pc / 4) (lui 0 0)) m
unfolding step
step-encode program m ok valid h =
    let fits = All-get_or _ program (m.pc / 4) (lui 0 0) ok h in
    rw (get_or-encode program (m.pc / 4) h) (round-encode _ m fits.0 fits.1 valid)

module _ (n : ℕ) (program : List Instr) (m : Machine) where
  manual_more :
      m.pc / 4 < length program
      → manual (suc n) program m
        ≡ (meaning (get_or program (m.pc / 4) (lui 0 0)) m >>= manual n program)
  unfolding manual
  manual_more h = rw (lt→ltb (m.pc / 4) (length program) h, manual)

  manual_past_end : length program ≤ m.pc / 4 → manual (suc n) program m ≡ next m
  unfolding manual
  manual_past_end h = rw (le→ltb (m.pc / 4) (length program) h, manual)

-- The loop refines the manual: on the words of a program of supported instructions, from a valid
-- machine, any count of rounds ends exactly as the manual reads the program, failures included.
pub run-refines :
    (n : ℕ) (program : List Instr) (m : Machine)
    → IsProgram program
    → IsValid m
    → run n (map encode program) m ≡ manual n program m
run-refines zero program m ok valid = unfold run manual in refl
run-refines (suc n) program m ok valid =
    let words = map encode program in
    let len = length-encode program in
    elim (dec_lt (m.pc / 4) (length program)) [
      | yes h ↦
          run_more words m n (omega arith)
          ∙ bind_valid (step-IsValid words m valid) (λ m' v. run-refines n program m' ok v)
          ∙ ap (λ o. o >>= manual n program) (step-encode program m ok valid h)
          ∙ sym (manual_more n program m h)
      | no h ↦
          run_past_end words m (suc n) (omega arith)
          ∙ sym (manual_past_end n program m (omega arith))
    ]
