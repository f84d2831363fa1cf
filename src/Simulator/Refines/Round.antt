-- ===== src/Simulator/Refines/Round.antt =====
-- One round on the encoding of a supported instruction is what the manual says of it.
use f_ca.Base.{ℕ, ◌+◌, ◌%◌, ◌^◌, ◌<◌, ◌≡◌, arith}
use f_ca.Word.{sext}
use f_ca.Word.Laws.{clear_low, sext-IsWord}
use f_ca.Machine.{Machine, IsValid}
use f_ca.Isa.{
  BranchOp, LoadOp, StoreOp, Instr, lui, auipc, jal, jalr, branch, load, store, imm, shift, reg,
  encode, IsInstr, branch_func3,
}
use f_ca.Isa.Meaning.{meaning, IsSupported}
use f_ca.Simulator.Decode.{Fields, decode}
use f_ca.Simulator.Exec.{assign, execute, advance, round}
use f_ca.Simulator.Roundtrip.{Reads, decode-encode}
use f_ca.Simulator.Refines.Values.{op_reg-eq, op_imm-eq, shift_op-eq, taken-eq, not_taken-eq}
use f_ca.Simulator.Refines.Memory.{load-eq, store-eq}

supported_func3 :
    (o : BranchOp) (rs1 rs2 n : ℕ) → IsSupported (branch o rs1 rs2 n) → branch_func3 o < 6
supported_func3 BranchOp.bltu rs1 rs2 n s = elim s [ ]
supported_func3 BranchOp.bgeu rs1 rs2 n s = elim s [ ]
supported_func3 _ rs1 rs2 n s = omega arith

module _ (f : Fields) (m : Machine) (valid : IsValid m) where
  open valid use {reg_word}

  round-eq : (i : Instr) → IsInstr i → IsSupported i → Reads i f → round f m ≡ meaning i m
  unfolding round execute advance meaning assign
  round-eq (lui rd n) h s r = ground arith
  round-eq (auipc rd n) h s r = ground arith
  round-eq (jal rd n) h s r = ground arith
  round-eq (jalr rd rs1 n) h s r = ground (arith, clear_low ((m.reg rs1 + sext 12 n) % 2 ^ 32))
  round-eq (branch o rs1 rs2 n) h s r = ground (
    arith,
    taken-eq (m.reg rs1) (m.reg rs2) (reg_word rs1) (reg_word rs2) o
        (supported_func3 o rs1 rs2 n s),
    not_taken-eq (m.reg rs1) (m.reg rs2) (reg_word rs1) (reg_word rs2) o
        (supported_func3 o rs1 rs2 n s),
  )
  round-eq (load LoadOp.lw rd rs1 n) h s r =
      ground (arith, load-eq m valid rd (m.reg rs1) (sext 12 n))
  round-eq (load _ rd rs1 n) h s r = elim s [ ]
  round-eq (store StoreOp.sw rs2 rs1 n) h s r =
      ground (arith, store-eq m valid (m.reg rs2) (m.reg rs1) (sext 12 n))
  round-eq (store _ rs2 rs1 n) h s r = elim s [ ]
  round-eq (imm o rd rs1 n) h s r = ground (
    arith,
    op_imm-eq (m.reg rs1) (sext 12 n) (reg_word rs1) (sext-IsWord 12 n (omega arith) h.2) o f.func7,
  )
  round-eq (shift o rd rs1 n) h s r = ground (arith, shift_op-eq o (m.reg rs1) n (reg_word rs1) h.2)
  round-eq (reg o rd rs1 rs2) h s r =
      ground (arith, op_reg-eq (m.reg rs1) (m.reg rs2) (reg_word rs1) (reg_word rs2) o)

-- On a valid machine, a round on the encoding of a supported instruction, whose operands fit their
-- fields, ends as the manual says of the instruction: the same machine, or the same failure.
pub round-encode :
    (i : Instr) (m : Machine)
    → IsInstr i
    → IsSupported i
    → IsValid m
    → round (decode (encode i)) m ≡ meaning i m
round-encode i m h s valid = round-eq (decode (encode i)) m valid i h s (decode-encode i h)
