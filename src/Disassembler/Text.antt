-- ===== src/Disassembler/Text.antt =====
-- project_1/main.c, lines 51-221: the text of an instruction. A text is a format of `printf` with
-- its arguments; `printf` itself is not modelled.
use Prim.Native.String.{String}
use f_ca.Base.{ℕ, not, bit_and, ◌==◌, if◌then◌else◌}
use f_ca.Disassembler.Decode.{Parts}

-- The formats, each after the name of an instruction: "x%d, x%d, x%d", "x%d, x%d, %d",
-- "x%d, %d(x%d)" and "x%d, %d". A number for `%d` that is an `int` is its bit pattern.
pub data Text : Type 0 where
  registers : String → (rd rs1 rs2 : ℕ) → Text
  immediate : String → (rd rs1 imm : ℕ) → Text
  based : String → (rd imm rs1 : ℕ) → Text
  upper : String → (rd imm : ℕ) → Text
  unknown : Text
  -- "Unknown instruction", as proj1/icaproj1.c writes it
  unknown_capital : Text

-- `case 0x03`
unfoldable pub load_text : Parts → Text
load_text p =
    if p.func3 == 0x0
    then based "lb" p.rd p.imm p.rs1
    else if p.func3 == 0x1
    then based "lh" p.rd p.imm p.rs1
    else if p.func3 == 0x2
    then based "lw" p.rd p.imm p.rs1
    else if p.func3 == 0x4
    then based "lbu" p.rd p.imm p.rs1
    else if p.func3 == 0x5
    then based "lhu" p.rd p.imm p.rs1
    else unknown

-- `case 0x13`
unfoldable pub imm_text : Parts → Text
imm_text p =
    if p.func3 == 0x0
    then immediate "addi" p.rd p.rs1 p.imm
    else if p.func3 == 0x1
    then immediate "slli" p.rd p.rs1 p.imm
    else if p.func3 == 0x2
    then immediate "slti" p.rd p.rs1 p.imm
    else if p.func3 == 0x3
    then immediate "sltiu" p.rd p.rs1 p.imm
    else if p.func3 == 0x4
    then immediate "xori" p.rd p.rs1 p.imm
    else if p.func3 == 0x5
    then (if not (bit_and p.msb 0x1 == 0)
        then immediate "srai" p.rd p.rs1 (bit_and p.imm 0x1F)
        else immediate "srli" p.rd p.rs1 (bit_and p.imm 0x1F))
    else if p.func3 == 0x6
    then immediate "ori" p.rd p.rs1 p.imm
    else if p.func3 == 0x7
    then immediate "andi" p.rd p.rs1 p.imm
    else unknown

-- `case 0x23`
unfoldable pub store_text : Parts → Text
store_text p =
    if p.func3 == 0x0
    then based "sb" p.rs2 p.imm_s p.rs1
    else if p.func3 == 0x1
    then based "sh" p.rs2 p.imm_s p.rs1
    else if p.func3 == 0x2
    then based "sw" p.rs2 p.imm_s p.rs1
    else unknown

-- `case 0x33`
unfoldable pub reg_text : Parts → Text
reg_text p =
    if p.func3 == 0x0
    then (if p.func7 == 0x0
        then registers "add" p.rd p.rs1 p.rs2
        else if p.func7 == 0x20
        then registers "sub" p.rd p.rs1 p.rs2
        else unknown)
    else if p.func3 == 0x1
    then registers "sll" p.rd p.rs1 p.rs2
    else if p.func3 == 0x2
    then registers "slt" p.rd p.rs1 p.rs2
    else if p.func3 == 0x3
    then registers "sltu" p.rd p.rs1 p.rs2
    else if p.func3 == 0x4
    then registers "xor" p.rd p.rs1 p.rs2
    else if p.func3 == 0x5
    then (if not (bit_and p.msb 0x1 == 0)
        then registers "sra" p.rd p.rs1 p.rs2
        else registers "srl" p.rd p.rs1 p.rs2)
    else if p.func3 == 0x6
    then registers "or" p.rd p.rs1 p.rs2
    else if p.func3 == 0x7
    then registers "and" p.rd p.rs1 p.rs2
    else unknown

-- `case 0x63`
unfoldable pub branch_text : Parts → Text
branch_text p =
    if p.func3 == 0x0
    then immediate "beq" p.rs1 p.rs2 p.imm_sb
    else if p.func3 == 0x1
    then immediate "bne" p.rs1 p.rs2 p.imm_sb
    else if p.func3 == 0x4
    then immediate "blt" p.rs1 p.rs2 p.imm_sb
    else if p.func3 == 0x5
    then immediate "bge" p.rs1 p.rs2 p.imm_sb
    else if p.func3 == 0x6
    then immediate "bltu" p.rs1 p.rs2 p.imm_sb
    else if p.func3 == 0x7
    then immediate "bgeu" p.rs1 p.rs2 p.imm_sb
    else unknown

-- The `switch` on the opcode.
unfoldable pub text : Parts → Text
text p =
    if p.opcode == 0x03
    then load_text p
    else if p.opcode == 0x13
    then imm_text p
    else if p.opcode == 0x17
    then upper "auipc" p.rd p.upper
    else if p.opcode == 0x23
    then store_text p
    else if p.opcode == 0x33
    then reg_text p
    else if p.opcode == 0x37
    then upper "lui" p.rd p.upper
    else if p.opcode == 0x63
    then branch_text p
    else if p.opcode == 0x67
    then based "jalr" p.rd p.imm p.rs1
    else if p.opcode == 0x6F
    then upper "jal" p.rd p.imm_uj
    else unknown
