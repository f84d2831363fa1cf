-- ===== src/Tracer/Text.antt =====
-- proj1/icaproj1.c, lines 75-356: what the `switch` prints of a word. `unknown_capital` stands
-- for `printf("Unknown instruction\n")`.
use f_ca.Base.{ℕ, not, bit_and, ◌==◌, if◌then◌else◌}
use f_ca.Word.{sar}
use f_ca.Disassembler.Text.{Text, registers, immediate, based, upper, unknown_capital}
use f_ca.Tracer.Fields.{Fields}

-- `(buffer[current_i] >> 30) & 0x1`, the test on the digit that tells the arithmetic shifts.
abbrev pub shift_digit : Fields → ℕ
shift_digit f = bit_and (sar f.word 30) 0x1

-- `case 0x13`
unfoldable pub imm_text : Fields → Text
imm_text f =
    if f.funct3 == 0x0
    then immediate "addi" f.rd f.rs1 (sar f.word 20)
    else if f.funct3 == 0x1
    then immediate "slli" f.rd f.rs1 (sar f.word 20)
    else if f.funct3 == 0x2
    then immediate "slti" f.rd f.rs1 (sar f.word 20)
    else if f.funct3 == 0x3
    then immediate "sltiu" f.rd f.rs1 (sar f.word 20)
    else if f.funct3 == 0x4
    then immediate "xori" f.rd f.rs1 (sar f.word 20)
    else if f.funct3 == 0x5
    then (if not (shift_digit f == 0)
        then immediate "srai" f.rd f.rs1 (bit_and (sar f.word 20) 0x1F)
        else immediate "srli" f.rd f.rs1 (bit_and (sar f.word 20) 0x1F))
    else if f.funct3 == 0x6
    then immediate "ori" f.rd f.rs1 (sar f.word 20)
    else if f.funct3 == 0x7
    then immediate "andi" f.rd f.rs1 (sar f.word 20)
    else unknown_capital

-- `case 0x03`
unfoldable pub load_text : Fields → Text
load_text f =
    if f.funct3 == 0x0
    then based "lb" f.rd (sar f.word 20) f.rs1
    else if f.funct3 == 0x1
    then based "lh" f.rd (sar f.word 20) f.rs1
    else if f.funct3 == 0x2
    then based "lw" f.rd (sar f.word 20) f.rs1
    else if f.funct3 == 0x4
    then based "lbu" f.rd (sar f.word 20) f.rs1
    else if f.funct3 == 0x5
    then based "lhu" f.rd (sar f.word 20) f.rs1
    else unknown_capital

-- `case 0x23`
unfoldable pub store_text : Fields → Text
store_text f =
    if f.funct3 == 0x0
    then based "sb" f.rs2 f.imm1 f.rs1
    else if f.funct3 == 0x1
    then based "sh" f.rs2 f.imm1 f.rs1
    else if f.funct3 == 0x2
    then based "sw" f.rs2 f.imm1 f.rs1
    else unknown_capital

-- `case 0x33`
unfoldable pub reg_text : Fields → Text
reg_text f =
    if f.funct3 == 0x0
    then (if f.funct7 == 0x0
        then registers "add" f.rd f.rs1 f.rs2
        else if f.funct7 == 0x20
        then registers "sub" f.rd f.rs1 f.rs2
        else unknown_capital)
    else if f.funct3 == 0x1
    then registers "sll" f.rd f.rs1 f.rs2
    else if f.funct3 == 0x2
    then registers "slt" f.rd f.rs1 f.rs2
    else if f.funct3 == 0x3
    then registers "sltu" f.rd f.rs1 f.rs2
    else if f.funct3 == 0x4
    then registers "xor" f.rd f.rs1 f.rs2
    else if f.funct3 == 0x5
    then (if not (shift_digit f == 0)
        then registers "sra" f.rd f.rs1 f.rs2
        else registers "srl" f.rd f.rs1 f.rs2)
    else if f.funct3 == 0x6
    then registers "or" f.rd f.rs1 f.rs2
    else if f.funct3 == 0x7
    then registers "and" f.rd f.rs1 f.rs2
    else unknown_capital

-- `case 0x63`
unfoldable pub branch_text : Fields → Text
branch_text f =
    if f.funct3 == 0x0
    then immediate "beq" f.rs1 f.rs2 f.imm3
    else if f.funct3 == 0x1
    then immediate "bne" f.rs1 f.rs2 f.imm3
    else if f.funct3 == 0x4
    then immediate "blt" f.rs1 f.rs2 f.imm3
    else if f.funct3 == 0x5
    then immediate "bge" f.rs1 f.rs2 f.imm3
    else if f.funct3 == 0x6
    then immediate "bltu" f.rs1 f.rs2 f.imm3
    else if f.funct3 == 0x7
    then immediate "bgeu" f.rs1 f.rs2 f.imm3
    else unknown_capital

-- The calls of `printf` in the `switch`.
unfoldable pub text : Fields → Text
text f =
    if f.opcode == 0x13
    then imm_text f
    else if f.opcode == 0x17
    then upper "auipc" f.rd (bit_and f.word 0xFFFFF000)
    else if f.opcode == 0x03
    then load_text f
    else if f.opcode == 0x23
    then store_text f
    else if f.opcode == 0x33
    then reg_text f
    else if f.opcode == 0x37
    then upper "lui" f.rd (bit_and f.word 0xFFFFF000)
    else if f.opcode == 0x63
    then branch_text f
    else if f.opcode == 0x67
    then based "jalr" f.rd f.imm4 f.rs1
    else if f.opcode == 0x6F
    then upper "jal" f.rd f.imm2
    else unknown_capital
