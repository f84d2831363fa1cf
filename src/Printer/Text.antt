-- ===== src/Printer/Text.antt =====
-- proj1/main.cc, lines 66-499: what the `switch` prints of a word after its digits. The formats are
-- those of project_1/main.c, and `unknown` is "unknown instruction".
use f_ca.Base.{◌==◌, if◌then◌else◌}
use f_ca.Disassembler.Text.{Text, registers, immediate, based, upper, unknown}
use f_ca.Printer.Fields.{
  Fields, upper_imm, jal_imm, jalr_imm, branch_imm, lb_imm, lh_imm, lw_imm, lbu_imm, lhu_imm,
  sb_imm, sh_imm, sw_imm, low_imm,
}

-- `case 0x63`
unfoldable pub branch_text : Fields → Text
branch_text f =
    let imm1 = branch_imm f.buffer_ in
    if f.funct3 == 0x0
    then immediate "beq" f.rs1 f.rs2 imm1
    else if f.funct3 == 0x1
    then immediate "bne" f.rs1 f.rs2 imm1
    else if f.funct3 == 0x4
    then immediate "blt" f.rs1 f.rs2 imm1
    else if f.funct3 == 0x5
    then immediate "bge" f.rs1 f.rs2 imm1
    else if f.funct3 == 0x6
    then immediate "bltu" f.rs1 f.rs2 imm1
    else if f.funct3 == 0x7
    then immediate "bgeu" f.rs1 f.rs2 imm1
    else unknown

-- `case 0x3`
unfoldable pub load_text : Fields → Text
load_text f =
    if f.funct3 == 0x0
    then based "lb" f.rd (lb_imm f.buffer_) f.rs1
    else if f.funct3 == 0x1
    then based "lh" f.rd (lh_imm f.buffer_) f.rs1
    else if f.funct3 == 0x2
    then based "lw" f.rd (lw_imm f.buffer_) f.rs1
    else if f.funct3 == 0x4
    then based "lbu" f.rd (lbu_imm f.buffer_) f.rs1
    else if f.funct3 == 0x5
    then based "lhu" f.rd (lhu_imm f.buffer_) f.rs1
    else unknown

-- `case 0x23`
unfoldable pub store_text : Fields → Text
store_text f =
    if f.funct3 == 0x0
    then based "sb" f.rs2 (sb_imm f) f.rs1
    else if f.funct3 == 0x1
    then based "sh" f.rs2 (sh_imm f) f.rs1
    else if f.funct3 == 0x2
    then based "sw" f.rs2 (sw_imm f) f.rs1
    else unknown

-- `case 0x13`. The shifts print `rs2` as their amount.
unfoldable pub imm_text : Fields → Text
imm_text f =
    let imm1 = low_imm f.buffer_ in
    if f.funct3 == 0x0
    then immediate "addi" f.rd f.rs1 imm1
    else if f.funct3 == 0x2
    then immediate "slti" f.rd f.rs1 imm1
    else if f.funct3 == 0x3
    then immediate "sltiu" f.rd f.rs1 imm1
    else if f.funct3 == 0x4
    then immediate "xori" f.rd f.rs1 imm1
    else if f.funct3 == 0x6
    then immediate "ori" f.rd f.rs1 imm1
    else if f.funct3 == 0x7
    then immediate "andi" f.rd f.rs1 imm1
    else if f.funct3 == 0x1
    then immediate "slli" f.rd f.rs1 f.rs2
    else if f.funct3 == 0x5
    then (if f.funct7 == 0x0
        then immediate "srli" f.rd f.rs1 f.rs2
        else if f.funct7 == 0x20
        then immediate "srai" f.rd f.rs1 f.rs2
        else unknown)
    else unknown

-- `case 0x33`
unfoldable pub reg_text : Fields → Text
reg_text f =
    if f.funct3 == 0x00
    then (if f.funct7 == 0x0
        then registers "add" f.rd f.rs1 f.rs2
        else if f.funct7 == 0x20
        then registers "sub" f.rd f.rs1 f.rs2
        else unknown)
    else if f.funct3 == 0x1
    then registers "sll" f.rd f.rs1 f.rs2
    else if f.funct3 == 0x2
    then registers "slt" f.rd f.rs1 f.rs2
    else if f.funct3 == 0x3
    then registers "sltu" f.rd f.rs1 f.rs2
    else if f.funct3 == 0x4
    then registers "xor" f.rd f.rs1 f.rs2
    else if f.funct3 == 0x5
    then (if f.funct7 == 0x0
        then registers "srl" f.rd f.rs1 f.rs2
        else if f.funct7 == 0x20
        then registers "sra" f.rd f.rs1 f.rs2
        else unknown)
    else if f.funct3 == 0x6
    then registers "or" f.rd f.rs1 f.rs2
    else if f.funct3 == 0x7
    then registers "and" f.rd f.rs1 f.rs2
    else unknown

-- The `switch` on the opcode.
unfoldable pub text : Fields → Text
text f =
    if f.opcode == 0x37
    then upper "lui" f.rd (upper_imm f.buffer_)
    else if f.opcode == 0x17
    then upper "auipc" f.rd (upper_imm f.buffer_)
    else if f.opcode == 0x6F
    then upper "jal" f.rd (jal_imm f.buffer_)
    else if f.opcode == 0x67
    then based "jalr" f.rd (jalr_imm f.buffer_) f.rs1
    else if f.opcode == 0x63
    then branch_text f
    else if f.opcode == 0x3
    then load_text f
    else if f.opcode == 0x23
    then store_text f
    else if f.opcode == 0x13
    then imm_text f
    else if f.opcode == 0x33
    then reg_text f
    else unknown
