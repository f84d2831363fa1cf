-- ===== src/Indexed/Round.antt =====
-- A round of proj2/pa2/제출1.cc follows the manual, where the program does what the manual says.
use mathlib.Core.Path.{subst}
use f_ca.Base.{refl, sym, ◌+◌, ◌^◌, ◌<◌}
use f_ca.Word.{sext}
use f_ca.Machine.{Machine}
use f_ca.Isa.{
  LoadOp, StoreOp, Instr, lui, auipc, jal, jalr, branch, load, store, imm, shift, reg, IsInstr,
}
use f_ca.Isa.Meaning.{meaning, reg_value, imm_value, shift_value}
use f_ca.Indexed.State.{State, Flags}
use f_ca.Indexed.Shows.{Shows}
use f_ca.Indexed.Valid.{IsState, read}
use f_ca.Indexed.Refines.{lui-eq, auipc-eq, imm-eq, shift-eq, reg-eq}
use f_ca.Indexed.Faithful.{IsFaithful, view, view-eq, Follows, compute}
use f_ca.Indexed.Turns.{jal-Follows, jalr-Follows, branch-Follows}
use f_ca.Indexed.Access.{load-Follows, store-Follows}

module _ (flags : Flags) (s : State) (m : Machine) (valid : IsState s) (shows : Shows s m)
    (near : s.curr_i + 1 < 2 ^ 30) where
  view-Follows : (i : Instr) → IsInstr i → IsFaithful flags i (view s m) → Follows flags i s m
  view-Follows (lui rd n) h f =
      compute s m shows near flags (lui rd n) rd _ (lui-eq flags s valid rd n h)
        (unfold meaning in refl)
  view-Follows (auipc rd n) h f =
      compute s m shows near flags (auipc rd n) rd _ (auipc-eq flags s valid rd n h)
        (unfold meaning in rw (shows.pc) refl)
  view-Follows (jal rd n) h f = jal-Follows flags s m valid shows near rd n h f
  view-Follows (jalr rd rs1 n) h f = jalr-Follows flags s m valid shows near rd rs1 n h f
  view-Follows (branch o rs1 rs2 n) h f = branch-Follows flags s m valid shows near o rs1 rs2 n h f
  view-Follows (load LoadOp.lw rd rs1 n) h f = load-Follows flags s m valid shows near rd rs1 n h f
  view-Follows (load _ rd rs1 n) h f = elim f [ ]
  view-Follows (store StoreOp.sw rs2 rs1 n) h f =
      store-Follows flags s m valid shows near rs2 rs1 n h f
  view-Follows (store _ rs2 rs1 n) h f = elim f [ ]
  view-Follows (imm o rd rs1 n) h f =
      compute s m shows near flags (imm o rd rs1 n) rd (imm_value o (read s rs1) (sext 12 n))
        (imm-eq flags s valid o rd rs1 n h f) (unfold meaning in rw (shows.reg rs1) refl)
  view-Follows (shift o rd rs1 n) h f =
      compute s m shows near flags (shift o rd rs1 n) rd (shift_value o (read s rs1) n)
        (shift-eq flags s valid o rd rs1 n h f) (unfold meaning in rw (shows.reg rs1) refl)
  view-Follows (reg o rd rs1 rs2) h f =
      compute s m shows near flags (reg o rd rs1 rs2) rd (reg_value o (read s rs1) (read s rs2))
        (reg-eq flags s valid o rd rs1 rs2 h f)
        (unfold meaning in rw (shows.reg rs1, shows.reg rs2) refl)

-- From a state whose values fit their types and that stands for a machine, with `curr_i` below
-- 2 ^ 30 - 1, for an instruction whose operands fit their fields, and that is faithful in that
-- machine: the round is defined and ends in a state that stands for the machine that the manual says,
-- whose program counter is exactly four times `curr_i`.
pub round-Follows :
    (flags : Flags) (i : Instr) (s : State) (m : Machine)
    → IsInstr i
    → IsState s
    → Shows s m
    → s.curr_i + 1 < 2 ^ 30
    → IsFaithful flags i m
    → Follows flags i s m
round-Follows flags i s m h valid shows near f =
    view-Follows flags s m valid shows near i h
      (subst (λ x. IsFaithful flags i x) (sym (view-eq s m shows)) f)
