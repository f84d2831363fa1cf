-- ===== src/Isa/Meaning.antt =====
-- What the manual says that each instruction does, on the machine of the course projects: data
-- memory lies at 0x10000000, a load from 0x20000000 reads a number that the user types, and a store
-- there prints a character below 0x7F. Words are numbers, compared after the sign bit is turned
-- over, and memory holds them as four bytes, lowest first.
use f_ca.Base.{
  ℕ, ◌+◌, ◌-◌, ◌*◌, ◌/◌, ◌%◌, ◌^◌, Bool, bit_and, bit_or, bit_xor, [], ◌∷◌, ltb, leb, ◌==◌, not,
  ◌&&◌, if◌then◌else◌, update,
}
use f_ca.Word.{sext}
use f_ca.Machine.{Machine, write_reg, put_char, Outcome, next, fails, fault}
use f_ca.Isa.{
  RegOp, ImmOp, ShiftOp, BranchOp, LoadOp, StoreOp, Instr, lui, auipc, jal, jalr, branch, load,
  store, imm, shift, reg,
}

-- The order of two words as signed numbers is the order of these.
abbrev pub flip : ℕ → ℕ
flip a = (a + 2 ^ 31) % 2 ^ 32

-- Division by 2 ^ k, rounded down, of a signed word.
unfoldable pub shift_signed : ℕ → ℕ → ℕ
shift_signed a k = if ltb a (2 ^ 31) then a / 2 ^ k else a / 2 ^ k + (2 ^ 32 - 2 ^ (32 - k))

abbrev pub bool_word : Bool → ℕ
bool_word b = if b then 1 else 0

unfoldable pub reg_value : RegOp → ℕ → ℕ → ℕ
reg_value RegOp.add a b = (a + b) % 2 ^ 32
reg_value RegOp.sub a b = (a + (2 ^ 32 - b)) % 2 ^ 32
reg_value RegOp.sll a b = a * 2 ^ (b % 32) % 2 ^ 32
reg_value RegOp.slt a b = bool_word (ltb (flip a) (flip b))
reg_value RegOp.sltu a b = bool_word (ltb a b)
reg_value RegOp.xor a b = bit_xor a b
reg_value RegOp.srl a b = a / 2 ^ (b % 32)
reg_value RegOp.sra a b = shift_signed a (b % 32)
reg_value RegOp.or a b = bit_or a b
reg_value RegOp.and a b = bit_and a b

unfoldable pub imm_value : ImmOp → ℕ → ℕ → ℕ
imm_value ImmOp.addi = reg_value RegOp.add
imm_value ImmOp.slti = reg_value RegOp.slt
imm_value ImmOp.sltiu = reg_value RegOp.sltu
imm_value ImmOp.xori = reg_value RegOp.xor
imm_value ImmOp.ori = reg_value RegOp.or
imm_value ImmOp.andi = reg_value RegOp.and

unfoldable pub shift_value : ShiftOp → ℕ → ℕ → ℕ
shift_value ShiftOp.slli a k = a * 2 ^ k % 2 ^ 32
shift_value ShiftOp.srli a k = a / 2 ^ k
shift_value ShiftOp.srai a k = shift_signed a k

unfoldable pub holds : BranchOp → ℕ → ℕ → Bool
holds BranchOp.beq a b = a == b
holds BranchOp.bne a b = not (a == b)
holds BranchOp.blt a b = ltb (flip a) (flip b)
holds BranchOp.bge a b = leb (flip b) (flip a)
holds BranchOp.bltu a b = ltb a b
holds BranchOp.bgeu a b = leb b a

abbrev pub go_on : Machine → Outcome
go_on m = next (record m { pc = (m.pc + 4) % 2 ^ 32 })

abbrev pub jump_to : ℕ → Machine → Outcome
jump_to target m = next (record m { pc = target % 2 ^ 32 })

-- A little-endian word of memory.
abbrev pub word_at : (ℕ → ℕ) → ℕ → ℕ
word_at mem a = mem a + mem (a + 1) * 2 ^ 8 + mem (a + 2) * 2 ^ 16 + mem (a + 3) * 2 ^ 24

abbrev pub put_word : (ℕ → ℕ) → ℕ → ℕ → ℕ → ℕ
put_word mem a v =
    update
      (update (update (update mem a (v % 256)) (a + 1) (v / 2 ^ 8 % 256)) (a + 2)
        (v / 2 ^ 16 % 256))
      (a + 3) (v / 2 ^ 24 % 256)

-- `inside` are the addresses that the program serves; of those, the last two have a word that
-- passes the end of its array, and leave C undefined.
abbrev pub inside : ℕ → Bool
inside a = leb 0x10000000 a && ltb a 0x1000FFFF

abbrev pub past_end : ℕ → Bool
past_end a = leb 0x1000FFFD a

unfoldable pub read_number : ℕ → Machine → Outcome
read_number rd m = elim m.input [
  | [] ↦ fault
  | typed ∷ rest ↦ go_on (write_reg rd typed (record m { input = rest }))
]

unfoldable pub load_word : ℕ → ℕ → Machine → Outcome
load_word rd a m =
    if a == 0x20000000
    then read_number rd m
    else if inside a
    then (if past_end a then fault else go_on (write_reg rd (word_at m.mem (a - 0x10000000)) m))
    else fails m

unfoldable pub store_word : ℕ → ℕ → Machine → Outcome
store_word v a m =
    if a == 0x20000000
    then go_on (if ltb v 0x7F then put_char v m else m)
    else if inside a
    then (if past_end a
        then fault
        else go_on (record m { mem = put_word m.mem (a - 0x10000000) v }))
    else fails m

-- The instructions that project_2/main.c is to execute: all but the unsigned branches and the
-- accesses to bytes and halfwords.
abbrev pub IsSupported : Instr → Type 0
IsSupported (branch BranchOp.bltu rs1 rs2 n) = ⊥
IsSupported (branch BranchOp.bgeu rs1 rs2 n) = ⊥
IsSupported (load LoadOp.lw rd rs1 n) = Unit
IsSupported (load _ rd rs1 n) = ⊥
IsSupported (store StoreOp.sw rs2 rs1 n) = Unit
IsSupported (store _ rs2 rs1 n) = ⊥
IsSupported _ = Unit

-- A supported instruction on a machine. (What stands for the others plays no part.)
unfoldable pub meaning : Instr → Machine → Outcome
meaning (lui rd n) m = go_on (write_reg rd (n * 2 ^ 12) m)
meaning (auipc rd n) m = go_on (write_reg rd ((m.pc + n * 2 ^ 12) % 2 ^ 32) m)
meaning (jal rd n) m = jump_to (m.pc + sext 21 (n * 2)) (write_reg rd ((m.pc + 4) % 2 ^ 32) m)
meaning (jalr rd rs1 n) m =
    let target = (m.reg rs1 + sext 12 n) % 2 ^ 32 in
    jump_to (target / 2 * 2) (write_reg rd ((m.pc + 4) % 2 ^ 32) m)
meaning (branch o rs1 rs2 n) m =
    if holds o (m.reg rs1) (m.reg rs2) then jump_to (m.pc + sext 13 (n * 2)) m else go_on m
meaning (load o rd rs1 n) m = load_word rd ((m.reg rs1 + sext 12 n) % 2 ^ 32) m
meaning (store o rs2 rs1 n) m = store_word (m.reg rs2) ((m.reg rs1 + sext 12 n) % 2 ^ 32) m
meaning (imm o rd rs1 n) m = go_on (write_reg rd (imm_value o (m.reg rs1) (sext 12 n)) m)
meaning (shift o rd rs1 k) m = go_on (write_reg rd (shift_value o (m.reg rs1) k) m)
meaning (reg o rd rs1 rs2) m = go_on (write_reg rd (reg_value o (m.reg rs1) (m.reg rs2)) m)
