-- ===== src/Isa.antt =====
-- 37 instructions of RV32I as the unprivileged manual describes them, with their encoding in a word and
-- the format of each immediate: all of the base set but FENCE, ECALL and EBREAK, of which the programs
-- have no case. No line of the programs is read here; the decoders are proved against this description.
pub mod Bounds
pub mod Digits
pub mod Meaning
pub mod Program
use f_ca.Base.{ℕ, ◌+◌, ◌*◌, ◌/◌, ◌%◌, ◌^◌, ◌<◌}

pub data RegOp : Type 0 where
  add sub sll slt sltu xor srl sra or and : RegOp

pub data ImmOp : Type 0 where
  addi slti sltiu xori ori andi : ImmOp

pub data ShiftOp : Type 0 where
  slli srli srai : ShiftOp

pub data BranchOp : Type 0 where
  beq bne blt bge bltu bgeu : BranchOp

pub data LoadOp : Type 0 where
  lb lh lw lbu lhu : LoadOp

pub data StoreOp : Type 0 where
  sb sh sw : StoreOp

-- An immediate is its field: 12 digits for `imm`, `load`, `store` and `jalr`, 12 digits that count
-- half words for `branch`, 20 digits that count half words for `jal`, and the upper 20 digits of a
-- word for `lui` and `auipc`.
pub data Instr : Type 0 where
  lui auipc jal : (rd imm : ℕ) → Instr
  jalr : (rd rs1 imm : ℕ) → Instr
  branch : BranchOp → (rs1 rs2 imm : ℕ) → Instr
  load : LoadOp → (rd rs1 imm : ℕ) → Instr
  store : StoreOp → (rs2 rs1 imm : ℕ) → Instr
  imm : ImmOp → (rd rs1 imm : ℕ) → Instr
  shift : ShiftOp → (rd rs1 shamt : ℕ) → Instr
  reg : RegOp → (rd rs1 rs2 : ℕ) → Instr

abbrev pub reg_func3 : RegOp → ℕ
reg_func3 add = 0
reg_func3 sub = 0
reg_func3 sll = 1
reg_func3 slt = 2
reg_func3 sltu = 3
reg_func3 xor = 4
reg_func3 srl = 5
reg_func3 sra = 5
reg_func3 or = 6
reg_func3 and = 7

abbrev pub reg_func7 : RegOp → ℕ
reg_func7 sub = 0x20
reg_func7 sra = 0x20
reg_func7 _ = 0

abbrev pub imm_func3 : ImmOp → ℕ
imm_func3 addi = 0
imm_func3 slti = 2
imm_func3 sltiu = 3
imm_func3 xori = 4
imm_func3 ori = 6
imm_func3 andi = 7

abbrev pub shift_func3 : ShiftOp → ℕ
shift_func3 slli = 1
shift_func3 srli = 5
shift_func3 srai = 5

abbrev pub shift_func7 : ShiftOp → ℕ
shift_func7 slli = 0
shift_func7 srli = 0
shift_func7 srai = 0x20

abbrev pub branch_func3 : BranchOp → ℕ
branch_func3 beq = 0
branch_func3 bne = 1
branch_func3 blt = 4
branch_func3 bge = 5
branch_func3 bltu = 6
branch_func3 bgeu = 7

abbrev pub load_func3 : LoadOp → ℕ
load_func3 lb = 0
load_func3 lh = 1
load_func3 lw = 2
load_func3 lbu = 4
load_func3 lhu = 5

abbrev pub store_func3 : StoreOp → ℕ
store_func3 sb = 0
store_func3 sh = 1
store_func3 sw = 2

-- The fields of the R format, from the lowest digit up; the other formats fill them with parts of
-- the immediate.
abbrev pub pack : (op rd func3 rs1 rs2 func7 : ℕ) → ℕ
pack op rd func3 rs1 rs2 func7 =
    op + rd * 2 ^ 7 + func3 * 2 ^ 12 + rs1 * 2 ^ 15 + rs2 * 2 ^ 20 + func7 * 2 ^ 25

abbrev pub pack_i : (op rd func3 rs1 n : ℕ) → ℕ
pack_i op rd func3 rs1 n = op + rd * 2 ^ 7 + func3 * 2 ^ 12 + rs1 * 2 ^ 15 + n * 2 ^ 20

abbrev pub pack_s : (op func3 rs1 rs2 n : ℕ) → ℕ
pack_s op func3 rs1 rs2 n = pack op (n % 32) func3 rs1 rs2 (n / 32)

-- Digits 12, 10 to 5, 4 to 1 and 11 of the offset; `n` is half the offset.
abbrev pub pack_b : (op func3 rs1 rs2 n : ℕ) → ℕ
pack_b op func3 rs1 rs2 n =
    pack op (n % 16 * 2 + n / 1024 % 2) func3 rs1 rs2 (n / 2048 * 64 + n / 16 % 64)

abbrev pub pack_u : (op rd n : ℕ) → ℕ
pack_u op rd n = op + rd * 2 ^ 7 + n * 2 ^ 12

-- Digits 20, 10 to 1, 11 and 19 to 12 of the offset; `n` is half the offset.
abbrev pub pack_j : (op rd n : ℕ) → ℕ
pack_j op rd n =
    pack_u op rd (n / 524288 * 524288 + n % 1024 * 512 + n / 1024 % 2 * 256 + n / 2048 % 256)

unfoldable pub encode : Instr → ℕ
encode (lui rd n) = pack_u 0x37 rd n
encode (auipc rd n) = pack_u 0x17 rd n
encode (jal rd n) = pack_j 0x6F rd n
encode (jalr rd rs1 n) = pack_i 0x67 rd 0 rs1 n
encode (branch o rs1 rs2 n) = pack_b 0x63 (branch_func3 o) rs1 rs2 n
encode (load o rd rs1 n) = pack_i 0x03 rd (load_func3 o) rs1 n
encode (store o rs2 rs1 n) = pack_s 0x23 (store_func3 o) rs1 rs2 n
encode (imm o rd rs1 n) = pack_i 0x13 rd (imm_func3 o) rs1 n
encode (shift o rd rs1 n) = pack 0x13 rd (shift_func3 o) rs1 n (shift_func7 o)
encode (reg o rd rs1 rs2) = pack 0x33 rd (reg_func3 o) rs1 rs2 (reg_func7 o)

-- The operands fit their fields.
abbrev pub IsInstr : Instr → Type 0
IsInstr (lui rd n) = (rd < 32) × (n < 2 ^ 20)
IsInstr (auipc rd n) = (rd < 32) × (n < 2 ^ 20)
IsInstr (jal rd n) = (rd < 32) × (n < 2 ^ 20)
IsInstr (jalr rd rs1 n) = (rd < 32) × (rs1 < 32) × (n < 2 ^ 12)
IsInstr (branch o rs1 rs2 n) = (rs1 < 32) × (rs2 < 32) × (n < 2 ^ 12)
IsInstr (load o rd rs1 n) = (rd < 32) × (rs1 < 32) × (n < 2 ^ 12)
IsInstr (store o rs2 rs1 n) = (rs2 < 32) × (rs1 < 32) × (n < 2 ^ 12)
IsInstr (imm o rd rs1 n) = (rd < 32) × (rs1 < 32) × (n < 2 ^ 12)
IsInstr (shift o rd rs1 n) = (rd < 32) × (rs1 < 32) × (n < 32)
IsInstr (reg o rd rs1 rs2) = (rd < 32) × (rs1 < 32) × (rs2 < 32)
