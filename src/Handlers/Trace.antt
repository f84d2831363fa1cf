-- ===== src/Handlers/Trace.antt =====
-- Whole runs: a program whose every step is one that this simulator executes as the manual says.
use mathlib.Core.List.{map}
use f_ca.Base.{
  ℕ, zero, suc, ◌/◌, ◌≤◌, ◌<◌, ◌≡◌, refl, sym, ap, ◌∙◌, arith, List, All, get_or, length,
  All-get_or, le→ltb, lt→ltb,
}
use f_ca.Machine.{Machine, next, ◌>>=◌, IsValid, Leaves, at_next}
use f_ca.Machine.Valid.{pc-IsValid, Leaves-if, Leaves-next}
use f_ca.Isa.{BranchOp, LoadOp, StoreOp, Instr, lui, branch, load, store, encode, IsInstr}
use f_ca.Isa.Meaning.{meaning, holds, IsSupported}
use f_ca.Isa.Program.{manual, IsProgram, IsProgram-IsInstr}
use f_ca.Simulator.Run
use f_ca.Simulator.Run.Laws.{run-refines, length-encode, get_or-encode}
use f_ca.Simulator.Refines.Round.{round-encode}
use f_ca.Simulator.Valid.{round-IsValid}
use f_ca.Handlers.Dispatch.{step, run}
use f_ca.Handlers.Faithful.{IsFaithful, round-faithful}

-- The instruction at the `pc`.
abbrev pub current : List Instr → Machine → Instr
current program m = get_or program (m.pc / 4) (lui 0 0)

-- At most so many steps of the manual from one machine to another, each of them faithful in the
-- state that it starts from; the last one leaves the program or is the last that was asked for.
pub data Trace (program : List Instr) : ℕ → Machine → Machine → Type 0 where
  done : {m : Machine} → Trace program zero m m
  over : {n : ℕ} {m : Machine} → length program ≤ m.pc / 4 → Trace program n m m
  follow :
      {n : ℕ} {m m' m'' : Machine}
      → m.pc / 4 < length program
      → IsFaithful (current program m) m
      → meaning (current program m) m ≡ next m'
      → Trace program n m' m''
      → Trace program (suc n) m m''

-- A branch leaves a valid machine.
pub branch-IsValid :
    (o : BranchOp) (rs1 rs2 n : ℕ) (m : Machine)
    → IsValid m
    → Leaves IsValid (meaning (branch o rs1 rs2 n) m)
unfolding meaning
branch-IsValid o rs1 rs2 n m valid =
    Leaves-if (holds o (m.reg rs1) (m.reg rs2)) (at_next (pc-IsValid valid _ (omega arith)))
      (at_next (pc-IsValid valid _ (omega arith)))

pub supported-IsValid :
    (i : Instr) (m : Machine) → IsInstr i → IsSupported i → IsValid m → Leaves IsValid (meaning i m)
supported-IsValid i m h s valid =
    rw (round-encode i m h s valid) at (round-IsValid (encode i) m valid)

meaning-IsValid :
    (i : Instr) (m : Machine)
    → IsInstr i
    → IsFaithful i m
    → IsValid m
    → Leaves IsValid (meaning i m)
meaning-IsValid (branch o rs1 rs2 n) m h s valid = branch-IsValid o rs1 rs2 n m valid
meaning-IsValid (load LoadOp.lw rd rs1 n) m h s valid =
    supported-IsValid (load LoadOp.lw rd rs1 n) m h tt valid
meaning-IsValid (load _ rd rs1 n) m h s valid = elim s [ ]
meaning-IsValid (store StoreOp.sw rs2 rs1 n) m h s valid =
    supported-IsValid (store StoreOp.sw rs2 rs1 n) m h tt valid
meaning-IsValid (store _ rs2 rs1 n) m h s valid = elim s [ ]
meaning-IsValid i m h s valid = supported-IsValid i m h tt valid

module _ (program : List Instr) where
  run_more :
      (n : ℕ) (m : Machine)
      → m.pc / 4 < length program
      → run (suc n) (map encode program) m
        ≡ (step (map encode program) m >>= run n (map encode program))
  unfolding run
  run_more n m h =
      let len = length-encode program in
      let inside : m.pc / 4 < length (map encode program) = omega arith in
      rw (lt→ltb (m.pc / 4) (length (map encode program)) inside, run)

  run_over :
      (n : ℕ) (m : Machine) → length program ≤ m.pc / 4 → run n (map encode program) m ≡ next m
  unfolding run
  run_over zero m h = refl
  run_over (suc n) m h =
      let len = length-encode program in
      let outside : length (map encode program) ≤ m.pc / 4 = omega arith in
      rw (le→ltb (m.pc / 4) (length (map encode program)) outside, run)

  pub manual_more :
      (n : ℕ) (m : Machine)
      → m.pc / 4 < length program
      → manual (suc n) program m ≡ (meaning (current program m) m >>= manual n program)
  unfolding manual
  manual_more n m h = rw (lt→ltb (m.pc / 4) (length program) h, manual)

  pub manual_over : (n : ℕ) (m : Machine) → length program ≤ m.pc / 4 → manual n program m ≡ next m
  unfolding manual
  manual_over zero m h = refl
  manual_over (suc n) m h = rw (le→ltb (m.pc / 4) (length program) h, manual)

  step-faithful :
      (m : Machine)
      → All IsInstr program
      → IsValid m
      → m.pc / 4 < length program
      → IsFaithful (current program m) m
      → step (map encode program) m ≡ meaning (current program m) m
  unfolding step
  step-faithful m ok valid h faithful = rw (get_or-encode program (m.pc / 4) h) (
      round-faithful m valid (current program m)
        (All-get_or IsInstr program (m.pc / 4) (lui 0 0) ok h) faithful)

  -- The manual follows a trace to its end.
  manual-Trace : {n : ℕ} {m m' : Machine} → Trace program n m m' → manual n program m ≡ next m'
  manual-Trace done = unfold manual in refl
  manual-Trace {n} {m} (over h) = manual_over n m h
  manual-Trace (follow {n} {m} h faithful e rest) =
      manual_more n m h ∙ ap (λ o. o >>= manual n program) e ∙ manual-Trace rest

  -- From a valid machine, this simulator follows every trace of faithful steps to its end: on the
  -- words of the program, so many rounds of the loop end in the machine of the manual.
  pub run-Trace :
      {n : ℕ} {m m' : Machine}
      → All IsInstr program
      → IsValid m
      → Trace program n m m'
      → run n (map encode program) m ≡ next m'
  run-Trace ok valid done = unfold run in refl
  run-Trace {n} {m} ok valid (over h) = run_over n m h
  run-Trace ok valid (follow {n} {m} h faithful e rest) =
      let fits = All-get_or IsInstr program (m.pc / 4) (lui 0 0) ok h in
      let valid' = Leaves-next (meaning-IsValid (current program m) m fits faithful valid) e in
      run_more n m h
      ∙ ap (λ o. o >>= run n (map encode program)) (step-faithful m ok valid h faithful ∙ e)
      ∙ run-Trace ok valid' rest

  -- Both simulators end in the same machine on the words of a program of supported instructions,
  -- from a valid machine, when the run is a trace of faithful steps.
  pub runs-agree :
      {n : ℕ} {m m' : Machine}
      → IsProgram program
      → IsValid m
      → Trace program n m m'
      → run n (map encode program) m ≡ Run.run n (map encode program) m
  runs-agree {n} {m} ok valid trace =
      run-Trace (IsProgram-IsInstr program ok) valid trace
      ∙ sym (manual-Trace trace)
      ∙ sym (run-refines n program m ok valid)
