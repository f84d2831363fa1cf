-- ===== src/Disassembler/Listing.antt =====
-- The assembly text of the 37 instructions of Isa as the manual writes it, and the proof that the
-- disassembler prints it.
use Prim.Native.String.{String}
use f_ca.Base.{ℕ, ◌+◌, ◌*◌, ◌/◌, ◌%◌, ◌^◌, ◌<◌, ◌≡◌, bit_and, arith}
use f_ca.Bits.{bit_and_low}
use f_ca.Word.{IsWord, sext}
use f_ca.Isa.{
  RegOp, ImmOp, ShiftOp, BranchOp, LoadOp, StoreOp, Instr, lui, auipc, jal, jalr, branch, load,
  store, imm, shift, reg, encode, IsInstr,
}
use f_ca.Isa.Bounds.{encode-IsWord}
use f_ca.Simulator.Roundtrip.{Reads, reads}
use f_ca.Disassembler.Decode.{Parts, parts}
use f_ca.Disassembler.Text.{
  Text, registers, immediate, based, upper, load_text, imm_text, store_text, reg_text, branch_text,
  text,
}
use f_ca.Disassembler.Agree.{as_fields, msb_lem, parts-IsDecoded}

abbrev pub reg_name : RegOp → String
reg_name RegOp.add = "add"
reg_name RegOp.sub = "sub"
reg_name RegOp.sll = "sll"
reg_name RegOp.slt = "slt"
reg_name RegOp.sltu = "sltu"
reg_name RegOp.xor = "xor"
reg_name RegOp.srl = "srl"
reg_name RegOp.sra = "sra"
reg_name RegOp.or = "or"
reg_name RegOp.and = "and"

abbrev pub imm_name : ImmOp → String
imm_name ImmOp.addi = "addi"
imm_name ImmOp.slti = "slti"
imm_name ImmOp.sltiu = "sltiu"
imm_name ImmOp.xori = "xori"
imm_name ImmOp.ori = "ori"
imm_name ImmOp.andi = "andi"

abbrev pub shift_name : ShiftOp → String
shift_name ShiftOp.slli = "slli"
shift_name ShiftOp.srli = "srli"
shift_name ShiftOp.srai = "srai"

abbrev pub branch_name : BranchOp → String
branch_name BranchOp.beq = "beq"
branch_name BranchOp.bne = "bne"
branch_name BranchOp.blt = "blt"
branch_name BranchOp.bge = "bge"
branch_name BranchOp.bltu = "bltu"
branch_name BranchOp.bgeu = "bgeu"

abbrev pub load_name : LoadOp → String
load_name LoadOp.lb = "lb"
load_name LoadOp.lh = "lh"
load_name LoadOp.lw = "lw"
load_name LoadOp.lbu = "lbu"
load_name LoadOp.lhu = "lhu"

abbrev pub store_name : StoreOp → String
store_name StoreOp.sb = "sb"
store_name StoreOp.sh = "sh"
store_name StoreOp.sw = "sw"

-- An instruction by its name and its operands, the offsets as signed words, and the upper
-- immediates as the words that they stand for.
abbrev pub assembly : Instr → Text
assembly (lui rd n) = upper "lui" rd (n * 2 ^ 12)
assembly (auipc rd n) = upper "auipc" rd (n * 2 ^ 12)
assembly (jal rd n) = upper "jal" rd (sext 21 (n * 2))
assembly (jalr rd rs1 n) = based "jalr" rd (sext 12 n) rs1
assembly (branch o rs1 rs2 n) = immediate (branch_name o) rs1 rs2 (sext 13 (n * 2))
assembly (load o rd rs1 n) = based (load_name o) rd (sext 12 n) rs1
assembly (store o rs2 rs1 n) = based (store_name o) rs2 (sext 12 n) rs1
assembly (imm o rd rs1 n) = immediate (imm_name o) rd rs1 (sext 12 n)
assembly (shift o rd rs1 n) = immediate (shift_name o) rd rs1 n
assembly (reg o rd rs1 rs2) = registers (reg_name o) rd rs1 rs2

-- The last digit of `msb` is that of `func7` which tells `sra` from `srl`.
abbrev HasMsb : Parts → Type 0
HasMsb p = bit_and p.msb 0x1 ≡ p.func7 / 32 % 2

sext_shamt : (n : ℕ) → n < 32 → sext 12 n ≡ n
unfolding sext
sext_shamt n h = ground arith

pub sext_low : (v : ℕ) → v < 2 ^ 12 → sext 12 v % 32 ≡ v % 32
unfolding sext
sext_low v h = ground arith

module _ (p : Parts) (msb : HasMsb p) where
  reg-eq :
      (o : RegOp) (rd rs1 rs2 : ℕ)
      → Reads (reg o rd rs1 rs2) (as_fields p)
      → text p ≡ registers (reg_name o) rd rs1 rs2
  unfolding text reg_text
  reg-eq o rd rs1 rs2 r = ground arith

  shift-eq :
      (o : ShiftOp) (rd rs1 n : ℕ)
      → n < 32
      → Reads (shift o rd rs1 n) (as_fields p)
      → text p ≡ immediate (shift_name o) rd rs1 n
  unfolding text imm_text
  shift-eq o rd rs1 n h r =
      ground (arith, sext_shamt n h, sext_low (32 * 32 + n) (omega arith), bit_and_low 5 p.imm)

  text-eq : (i : Instr) → IsInstr i → Reads i (as_fields p) → text p ≡ assembly i
  unfolding text load_text imm_text store_text branch_text
  text-eq (lui rd n) h r = ground arith
  text-eq (auipc rd n) h r = ground arith
  text-eq (jal rd n) h r = ground arith
  text-eq (jalr rd rs1 n) h r = ground arith
  text-eq (branch o rs1 rs2 n) h r = ground arith
  text-eq (load o rd rs1 n) h r = ground arith
  text-eq (store o rs2 rs1 n) h r = ground arith
  text-eq (imm o rd rs1 n) h r = ground arith
  text-eq (shift o rd rs1 n) h r = shift-eq o rd rs1 n h.2 r
  text-eq (reg o rd rs1 rs2) h r = reg-eq o rd rs1 rs2 r

parts-HasMsb : (w : ℕ) → IsWord w → HasMsb (parts w)
parts-HasMsb w h = omega (arith, (parts-IsDecoded w h).func7, bit_and_low 1 (parts w).msb, msb w h)
  where
    msb : (w : ℕ) → IsWord w → (parts w).msb % 2 ≡ w / 2 ^ 30 % 2
    msb w h = unfold parts in msb_lem w h

-- For each of the 37 instructions of Isa (RV32I without FENCE, ECALL and EBREAK), with operands that
-- fit their fields, the text of its encoding is its assembly: the right name, the right registers, and
-- the immediate with its sign.
pub text-encode : (i : Instr) → IsInstr i → text (parts (encode i)) ≡ assembly i
text-encode i h =
    let word = encode-IsWord i h in
    text-eq (parts (encode i)) (parts-HasMsb (encode i) word) i h
      (reads _ i h (parts-IsDecoded (encode i) word))
