-- ===== src/BigEndian/Round.antt =====
-- `executeInst` of proj2/my_project/ekdus.c follows the manual, where the program does what the manual
-- says.
use f_ca.Base.{ℕ, ◌+◌, ◌*◌, ◌%◌, ◌^◌, ◌≡◌, ◌≢◌, refl, arith}
use f_ca.Word.{sext}
use f_ca.Machine.{Machine, next}
use f_ca.Isa.{
  RegOp, ImmOp, LoadOp, StoreOp, Instr, lui, auipc, jal, jalr, branch, load, store, imm, shift, reg,
  encode, IsInstr,
}
use f_ca.Isa.Meaning.{meaning, reg_value, imm_value, shift_value}
use f_ca.BigEndian.Store.{mem_to_inst}
use f_ca.BigEndian.Run.{step}
use f_ca.BigEndian.Faithful.{Fits, StandsFor, IsFaithful, Matches, compute}
use f_ca.BigEndian.Compute.{lui-eq, auipc-eq, imm-eq, shift-eq, reg-eq}
use f_ca.BigEndian.Turns.{jal-Matches, jalr-Matches, branch-Matches}
use f_ca.BigEndian.Access.{load-Matches, store-Matches}

module _ (m d : Machine) (fits : Fits m) (stands : StandsFor m d) where
  imm-Matches :
      (o : ImmOp) (rd rs1 n : ℕ)
      → IsInstr (imm o rd rs1 n)
      → o ≢ ImmOp.sltiu
      → Matches (imm o rd rs1 n) m d
  imm-Matches o rd rs1 n h other =
      compute m d fits stands (imm o rd rs1 n) rd (imm_value o (m.reg rs1) (sext 12 n))
        (imm-eq m fits o rd rs1 n h other) (unfold meaning in rw (stands.reg rs1) refl)

  reg-Matches :
      (o : RegOp) (rd rs1 rs2 : ℕ)
      → IsInstr (reg o rd rs1 rs2)
      → o ≢ RegOp.sltu
      → Matches (reg o rd rs1 rs2) m d
  reg-Matches o rd rs1 rs2 h other =
      compute m d fits stands (reg o rd rs1 rs2) rd (reg_value o (m.reg rs1) (m.reg rs2))
        (reg-eq m fits o rd rs1 rs2 h other)
        (unfold meaning in rw (stands.reg rs1, stands.reg rs2) refl)

  -- From a state that fits its types and stands for a machine of the manual, for an instruction whose
  -- operands fit their fields, and that is faithful there: `executeInst` on its encoding goes on,
  -- and the new state stands for the machine that the manual reaches.
  pub execute_inst-Matches : (i : Instr) → IsInstr i → IsFaithful i m → Matches i m d
  execute_inst-Matches (lui rd n) h f =
      compute m d fits stands (lui rd n) rd (n * 2 ^ 12) (lui-eq m fits rd n h)
        (unfold meaning in refl)
  execute_inst-Matches (auipc rd n) h f =
      compute m d fits stands (auipc rd n) rd ((m.pc + n * 2 ^ 12) % 2 ^ 32)
        (auipc-eq m fits rd n h) (unfold meaning in rw (stands.pc) refl)
  execute_inst-Matches (jal rd n) h f = jal-Matches m d fits stands rd n h f
  execute_inst-Matches (jalr rd rs1 n) h f = jalr-Matches m d fits stands rd rs1 n h f
  execute_inst-Matches (branch o rs1 rs2 n) h f = branch-Matches m d fits stands o rs1 rs2 n h f
  execute_inst-Matches (load LoadOp.lw rd rs1 n) h f = load-Matches m d fits stands rd rs1 n h f
  execute_inst-Matches (load _ rd rs1 n) h f = elim f [ ]
  execute_inst-Matches (store StoreOp.sw rs2 rs1 n) h f =
      store-Matches m d fits stands rs2 rs1 n h f
  execute_inst-Matches (store _ rs2 rs1 n) h f = elim f [ ]
  execute_inst-Matches (imm ImmOp.sltiu rd rs1 n) h f = elim f [ ]
  execute_inst-Matches (imm ImmOp.addi rd rs1 n) h f = imm-Matches _ rd rs1 n h (ground arith)
  execute_inst-Matches (imm ImmOp.slti rd rs1 n) h f = imm-Matches _ rd rs1 n h (ground arith)
  execute_inst-Matches (imm ImmOp.xori rd rs1 n) h f = imm-Matches _ rd rs1 n h (ground arith)
  execute_inst-Matches (imm ImmOp.ori rd rs1 n) h f = imm-Matches _ rd rs1 n h (ground arith)
  execute_inst-Matches (imm ImmOp.andi rd rs1 n) h f = imm-Matches _ rd rs1 n h (ground arith)
  execute_inst-Matches (shift o rd rs1 n) h f =
      compute m d fits stands (shift o rd rs1 n) rd (shift_value o (m.reg rs1) n)
        (shift-eq m fits o rd rs1 n h) (unfold meaning in rw (stands.reg rs1) refl)
  execute_inst-Matches (reg RegOp.sltu rd rs1 rs2) h f = elim f [ ]
  execute_inst-Matches (reg RegOp.add rd rs1 rs2) h f = reg-Matches _ rd rs1 rs2 h (ground arith)
  execute_inst-Matches (reg RegOp.sub rd rs1 rs2) h f = reg-Matches _ rd rs1 rs2 h (ground arith)
  execute_inst-Matches (reg RegOp.sll rd rs1 rs2) h f = reg-Matches _ rd rs1 rs2 h (ground arith)
  execute_inst-Matches (reg RegOp.slt rd rs1 rs2) h f = reg-Matches _ rd rs1 rs2 h (ground arith)
  execute_inst-Matches (reg RegOp.xor rd rs1 rs2) h f = reg-Matches _ rd rs1 rs2 h (ground arith)
  execute_inst-Matches (reg RegOp.srl rd rs1 rs2) h f = reg-Matches _ rd rs1 rs2 h (ground arith)
  execute_inst-Matches (reg RegOp.sra rd rs1 rs2) h f = reg-Matches _ rd rs1 rs2 h (ground arith)
  execute_inst-Matches (reg RegOp.or rd rs1 rs2) h f = reg-Matches _ rd rs1 rs2 h (ground arith)
  execute_inst-Matches (reg RegOp.and rd rs1 rs2) h f = reg-Matches _ rd rs1 rs2 h (ground arith)

  -- A step, where the word in memory at the `pc` is the encoding of such an instruction.
  pub step-Matches :
      (i : Instr)
      → IsInstr i
      → IsFaithful i m
      → mem_to_inst m.pc m.mem ≡ encode i
      → (m' : Machine) × (d' : Machine) × (step m ≡ next m')
        × (meaning i d ≡ next d')
        × StandsFor m' d'
  unfolding step
  step-Matches i h f e = rw e (execute_inst-Matches i h f)
