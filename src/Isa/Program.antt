-- ===== src/Isa/Program.antt =====
-- A program as the manual reads it: the instruction at the `pc`, round after round.
use f_ca.Base.{ℕ, zero, suc, ◌/◌, List, [], ◌∷◌, All, ltb, if◌then◌else◌, get_or, length}
use f_ca.Machine.{Machine, Outcome, next, ◌>>=◌}
use f_ca.Isa.{Instr, lui, IsInstr}
use f_ca.Isa.Meaning.{meaning, IsSupported}

-- The manual's reading of a program: the instruction at `pc / 4`, as long as there is one.
unfoldable pub manual : ℕ → List Instr → Machine → Outcome
manual zero program m = next m
manual (suc n) program m =
    let rest = manual n program in
    if ltb (m.pc / 4) (length program)
    then meaning (get_or program (m.pc / 4) (lui 0 0)) m >>= rest
    else next m

abbrev pub IsProgram : List Instr → Type 0
IsProgram = All (λ i. IsInstr i × IsSupported i)

pub IsProgram-IsInstr : (program : List Instr) → IsProgram program → All IsInstr program
IsProgram-IsInstr [] h = tt
IsProgram-IsInstr (i ∷ program) h = (h.0.0, IsProgram-IsInstr program h.1)
