-- ===== src/Isa/Bounds.antt =====
-- The codes of the operations fit their fields, and an encoding fits a word.
use mathlib.Core.List.{map}
use f_ca.Base.{◌^◌, ◌<◌, arith, List, [], ◌∷◌, All}
use f_ca.Word.{IsWord}
use f_ca.Isa.{
  RegOp, ImmOp, ShiftOp, BranchOp, LoadOp, StoreOp, Instr, lui, auipc, jal, jalr, branch, load,
  store, imm, shift, reg, reg_func3, reg_func7, imm_func3, shift_func3, shift_func7, branch_func3,
  load_func3, store_func3, encode, IsInstr,
}

pub reg_func3-lt : (o : RegOp) → reg_func3 o < 8
reg_func3-lt o = ground arith

pub reg_func7-lt : (o : RegOp) → reg_func7 o < 128
reg_func7-lt o = ground arith

pub imm_func3-lt : (o : ImmOp) → imm_func3 o < 8
imm_func3-lt o = ground arith

pub shift_func3-lt : (o : ShiftOp) → shift_func3 o < 8
shift_func3-lt o = ground arith

pub shift_func7-lt : (o : ShiftOp) → shift_func7 o < 128
shift_func7-lt o = ground arith

pub branch_func3-lt : (o : BranchOp) → branch_func3 o < 8
branch_func3-lt o = ground arith

pub load_func3-lt : (o : LoadOp) → load_func3 o < 8
load_func3-lt o = ground arith

pub store_func3-lt : (o : StoreOp) → store_func3 o < 8
store_func3-lt o = ground arith

pub encode-IsWord : (i : Instr) → IsInstr i → encode i < 2 ^ 32
unfolding encode
encode-IsWord (lui rd n) h = omega arith
encode-IsWord (auipc rd n) h = omega arith
encode-IsWord (jal rd n) h = omega arith
encode-IsWord (jalr rd rs1 n) h = omega arith
encode-IsWord (branch o rs1 rs2 n) h = omega (arith, branch_func3-lt o)
encode-IsWord (load o rd rs1 n) h = omega (arith, load_func3-lt o)
encode-IsWord (store o rs2 rs1 n) h = omega (arith, store_func3-lt o)
encode-IsWord (imm o rd rs1 n) h = omega (arith, imm_func3-lt o)
encode-IsWord (shift o rd rs1 n) h = omega (arith, shift_func3-lt o, shift_func7-lt o)
encode-IsWord (reg o rd rs1 rs2) h = omega (arith, reg_func3-lt o, reg_func7-lt o)

pub encode-words : (program : List Instr) → All IsInstr program → All IsWord (map encode program)
encode-words [] h = tt
encode-words (i ∷ program) h = (encode-IsWord i h.0, encode-words program h.1)
