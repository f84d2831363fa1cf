-- ===== src/BigEndian/Whole.antt =====
-- The loop of proj2/my_project/ekdus.c on a program in memory, against the manual's run.
use mathlib.Core.Path.{subst}
use f_ca.Base.{
  ℕ, zero, suc, ◌%◌, ◌*◌, ◌/◌, ◌^◌, ◌<◌, ◌≡◌, refl, sym, ap, ◌∙◌, arith, inl, true, false, List,
  All, All-get_or, get_or, length, lt→ltb, ltb, ◌==◌,
}
use f_ca.Machine.{Machine, IsValid, next, ◌>>=◌}
use f_ca.Handlers.Trace.{manual_over, manual_more}
use f_ca.Isa.{Instr, lui, encode, IsInstr}
use f_ca.Isa.Meaning.{meaning}
use f_ca.Isa.Program.{manual}
use f_ca.BigEndian.Store.{mem_to_inst}
use f_ca.BigEndian.Run.{step, run}
use f_ca.BigEndian.Faithful.{Fits, StandsFor, IsFaithful, StandsFor-IsFaithful}
use f_ca.BigEndian.Exec.{execute_inst}
use f_ca.BigEndian.Keeps.{
  state_of, execute_inst-Keeps, meaning-IsValid, Keeps-Fits, mem_to_inst-low,
}
use f_ca.BigEndian.Round.{step-Matches}

-- The instruction at the `pc`.
abbrev pub current : List Instr → Machine → Instr
current program m = get_or program (m.pc / 4) (lui 0 0)

-- So many steps of the manual from one machine to another, each at a word of the program and faithful
-- where it starts; the last one leaves the program at its end, or is the last of all.
pub data Trace (program : List Instr) : ℕ → Machine → Machine → Type 0 where
  done : {d : Machine} → d.pc < 2 ^ 16 → Trace program zero d d
  over : {n : ℕ} {d : Machine} → d.pc ≡ 4 * length program → Trace program n d d
  follow :
      {n : ℕ} {d d' d'' : Machine}
      → d.pc / 4 < length program
      → d.pc % 4 ≡ 0
      → IsFaithful (current program d) d
      → meaning (current program d) d ≡ next d'
      → Trace program n d' d''
      → Trace program (suc n) d d''

-- The words of the program lie in memory from 0 on.
abbrev pub IsLoaded : List Instr → Machine → Type 0
IsLoaded program m =
    (k : ℕ) → k < length program → mem_to_inst (4 * k) m.mem ≡ encode (get_or program k (lui 0 0))

-- The run of the program ends in a state that stands for the machine in which the manual's run ends.
abbrev pub Agree : ℕ → List Instr → Machine → Machine → Machine → Type 0
Agree n program m d d' =
    (m' : Machine) × (run (4 * length program) n m ≡ next m')
    × (manual n program d ≡ next d')
    × StandsFor m' d'

module _ (program : List Instr) (small : 4 * length program < 2 ^ 16) where
  run_done : (m : Machine) → m.pc < 2 ^ 16 → run (4 * length program) zero m ≡ next m
  unfolding run
  run_done m h = rw (lt→ltb m.pc 0x10000 h) refl

  run_over :
      (n : ℕ) (m : Machine) → m.pc ≡ 4 * length program → run (4 * length program) n m ≡ next m
  unfolding run
  run_over zero m e = run_done m (omega arith)
  run_over (suc n) m e =
      let inside : ltb m.pc 0x10000 ≡ true = ground arith in
      let here : (m.pc == 4 * length program) ≡ true = ground arith in rw (inside, here) refl

  run_more :
      (n : ℕ) (m m' : Machine)
      → m.pc / 4 < length program
      → step m ≡ next m'
      → run (4 * length program) (suc n) m ≡ run (4 * length program) n m'
  unfolding run
  run_more n m m' h e =
      let inside : ltb m.pc 0x10000 ≡ true = ground arith in
      let here : (m.pc == 4 * length program) ≡ false = ground arith in rw (inside, here, e) refl

  -- On a program of less than 16384 words, from a state that fits its types, has the program in
  -- memory and stands for a valid machine of the manual: the loop follows every trace of faithful steps
  -- from that machine, and ends in a state that stands for the machine in which the trace ends. (The
  -- steps keep the program.)
  pub run-Trace :
      {n : ℕ} {d d' : Machine} (m : Machine)
      → All IsInstr program
      → Fits m
      → IsLoaded program m
      → IsValid d
      → StandsFor m d
      → Trace program n d d'
      → Agree n program m d d'
  run-Trace {n = n} m ok fits loaded valid stands (done h) =
      (m, run_done m (omega (arith, stands.pc)), unfold manual in refl, stands)
  run-Trace {n = n} {d = d} m ok fits loaded valid stands (over e) =
      (m, run_over n m (omega (arith, stands.pc)), manual_over program n d (omega arith), stands)
  run-Trace m ok fits loaded valid stands (follow {n} {d} {d'} h aligned faithful e rest) =
      let i = current program d in
      let instr = All-get_or IsInstr program (d.pc / 4) (lui 0 0) ok h in
      let place : 4 * (d.pc / 4) ≡ m.pc = omega (arith, stands.pc) in
      let word : mem_to_inst m.pc m.mem ≡ encode i =
        ap (λ a. mem_to_inst a m.mem) (sym place) ∙ loaded (d.pc / 4) h in
      let f = StandsFor-IsFaithful i m d stands faithful in
      let one = step-Matches m d fits stands i instr f word in
      let m1 : Machine = one.0 in
      let executed : execute_inst (encode i) m ≡ next m1 =
        ap (λ w. execute_inst w m) (sym word) ∙ unfold step in one.2 in
      let keeps = execute_inst-Keeps i m m1 d fits stands instr f executed in
      let stands' : StandsFor m1 d' =
        subst (λ x. StandsFor m1 x) (ap (λ o. state_of o d) (sym one.3 ∙ e)) one.4 in
      let valid' = meaning-IsValid i m d d' instr f valid e in
      let fits' = Keeps-Fits m m1 d' fits keeps valid' stands' in
      let loaded' : IsLoaded program m1 = λ k lt.
        mem_to_inst-low m.mem m1.mem (4 * k) (omega arith) (λ a low. keeps a (inl low))
        ∙ loaded k lt in
      let all = run-Trace m1 ok fits' loaded' valid' stands' rest in
      (
        all.0,
        run_more n m m1 (omega (arith, stands.pc)) one.2 ∙ all.1,
        manual_more program n d h ∙ ap (λ o. o >>= manual n program) e ∙ all.2,
        all.3,
      )
