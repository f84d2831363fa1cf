-- ===== src/Indexed/Run.antt =====
-- The loop of proj2/pa2/제출1.cc, against the manual's run of the program.
use mathlib.Core.List.{map}
use mathlib.Core.Path.{subst}
use f_ca.Base.{
  ℕ, zero, suc, ◌/◌, ◌^◌, ◌≤◌, ◌<◌, ◌≡◌, refl, sym, ap, ◌∙◌, arith, true, false, Option, some, none,
  List, All, All-get_or, get_or, length, lt→ltb,
}
use f_ca.Word.{sub32, slt}
use f_ca.Machine.{Machine, Outcome, next, fails, fault, ◌>>=◌}
use f_ca.Handlers.Trace.{manual_over, manual_more}
use f_ca.Isa.{Instr, lui, encode, IsInstr}
use f_ca.Isa.Meaning.{meaning}
use f_ca.Isa.Program.{manual}
use f_ca.Simulator.Run.Laws.{length-encode, get_or-encode}
use f_ca.Printer.Fields.{fields}
use f_ca.Indexed.State.{State, Flags}
use f_ca.Indexed.Exec.{round}
use f_ca.Indexed.Main.{run}
use f_ca.Indexed.Shows.{Shows}
use f_ca.Indexed.Valid.{IsState}
use f_ca.Indexed.Keeps.{Leaves, at_none, at_some, round-IsState}
use f_ca.Indexed.Faithful.{IsFaithful}
use f_ca.Indexed.Round.{round-Follows}

-- `P` of what an `Option` holds.
abbrev Holds : (State → Type 0) → Option State → Type 0
Holds P none = Unit
Holds P (some s) = P s

Leaves-Holds : {P : State → Type 0} {o : Option State} → Leaves P o → Holds P o
Leaves-Holds at_none = tt
Leaves-Holds (at_some h) = h

Leaves-some : {P : State → Type 0} {o : Option State} {s : State} → Leaves P o → o ≡ some s → P s
Leaves-some {P} h e = subst (Holds P) e (Leaves-Holds h)

-- The signed test for the end of the program.
past_end : (n k : ℕ) → n < 2 ^ 29 → n ≤ k → k < 2 ^ 30 → slt (sub32 n 1) k ≡ true
unfolding slt
past_end n k small lo hi = ground arith

inside : (n k : ℕ) → n < 2 ^ 29 → k < n → slt (sub32 n 1) k ≡ false
unfolding slt
inside n k small h = ground arith

-- The instruction at the `pc`.
abbrev pub current : List Instr → Machine → Instr
current program m = get_or program (m.pc / 4) (lui 0 0)

-- The machine that a step leaves.
abbrev machine_of : Machine → Outcome → Machine
machine_of m (next m') = m'
machine_of m (fails m') = m'
machine_of m fault = m

-- So many steps of the manual from one machine to another, each of them faithful where it starts; the
-- last one leaves the program, or is the last of all.
pub data Trace (flags : Flags) (program : List Instr) : ℕ → Machine → Machine → Type 0 where
  done : {m : Machine} → Trace flags program zero m m
  over :
      {n : ℕ} {m : Machine} → length program ≤ m.pc / 4 → m.pc < 2 ^ 32 → Trace flags program n m m
  follow :
      {n : ℕ} {m m' m'' : Machine}
      → m.pc / 4 < length program
      → IsFaithful flags (current program m) m
      → meaning (current program m) m ≡ next m'
      → Trace flags program n m' m''
      → Trace flags program (suc n) m m''

-- The run of the program ends in a state that stands for the machine in which the manual's run ends.
abbrev pub Agree : ℕ → Flags → List Instr → State → Machine → Machine → Type 0
Agree n flags program s m m' =
    (s' : State) × (run n flags (map encode program) s ≡ some s')
    × (manual n program m ≡ next m')
    × Shows s' m'

module _ (flags : Flags) (program : List Instr) (small : length program < 2 ^ 29) where
  run_over :
      (n : ℕ) (s : State)
      → length program ≤ s.curr_i
      → s.curr_i < 2 ^ 30
      → run n flags (map encode program) s ≡ some s
  unfolding run
  run_over zero s lo hi = refl
  run_over (suc n) s lo hi =
      rw (length-encode program, past_end (length program) s.curr_i small lo hi) refl

  run_more :
      (n : ℕ) (s s' : State) (i : Instr)
      → s.curr_i < length program
      → get_or program s.curr_i (lui 0 0) ≡ i
      → round flags (fields (encode i)) s ≡ some s'
      → run (suc n) flags (map encode program) s ≡ run n flags (map encode program) s'
  unfolding run
  run_more n s s' i h same e =
      let word = get_or-encode program s.curr_i h in
      rw
        (
          length-encode program,
          inside (length program) s.curr_i small h,
          lt→ltb s.curr_i (length program) h,
          word,
          same,
          e,
        )
        refl

  pub run-follows :
      {n : ℕ} {m m' : Machine} (s : State)
      → All IsInstr program
      → IsState s
      → Shows s m
      → Trace flags program n m m'
      → Agree n flags program s m m'
  run-follows s ok valid shows done = (s, unfold run in refl, unfold manual in refl, shows)
  run-follows {n} {m} s ok valid shows (over lo hi) = (
    s,
    run_over n s (omega (arith, shows.pc)) (omega (arith, shows.pc)),
    manual_over program n m lo,
    shows,
  )
  run-follows s ok valid shows (follow {n} {m} {m'} h faithful e rest) =
      let i = current program m in
      let here : m.pc / 4 ≡ s.curr_i = omega (arith, shows.pc) in
      let fits = All-get_or IsInstr program (m.pc / 4) (lui 0 0) ok h in
      let one = round-Follows flags i s m fits valid shows (omega arith) faithful in
      let s1 : State = one.0 in
      let same : one.1 ≡ m' = ap (machine_of m) (sym one.3 ∙ e) in
      let valid' : IsState s1 =
        Leaves-some (round-IsState flags (fields (encode i)) s valid) one.2 in
      let shows' : Shows s1 m' = subst (λ x. Shows s1 x) same one.4 in
      let all = run-follows s1 ok valid' shows' rest in
      (
        all.0,
        run_more n s s1 i (omega arith) (ap (λ k. get_or program k (lui 0 0)) (sym here)) one.2
            ∙ all.1,
        manual_more program n m h ∙ ap (λ o. o >>= manual n program) e ∙ all.2,
        all.3,
      )
