-- ===== src/Handlers/Jump.antt =====
-- proj2/my_project/dbswl.c, lines 136-182: the handlers that write to the `PC`.
use f_ca.Base.{ℕ, bit_and, ltb, ◌==◌, not, if◌then◌else◌}
use f_ca.Word.{add32, not32, slt}
use f_ca.Machine.{Machine, write_reg}

unfoldable pub execute_jal : ℕ → ℕ → Machine → Machine
execute_jal rd imm m = write_reg rd (add32 m.pc 4) (record m { pc = add32 m.pc imm })

-- `reg[rd]` is written before `reg[rs1]` is read.
unfoldable pub execute_jalr : ℕ → ℕ → ℕ → Machine → Machine
execute_jalr rd rs1 imm m =
    let base : ℕ = if rd == rs1 then add32 m.pc 4 else m.reg rs1 in
    write_reg rd (add32 m.pc 4) (record m { pc = bit_and (add32 base imm) (not32 1) })

abbrev branch_to : ℕ → Machine → Machine
branch_to imm m = record m { pc = add32 m.pc imm }

unfoldable pub execute_beq : ℕ → ℕ → ℕ → Machine → Machine
execute_beq rs1 rs2 imm m = if m.reg rs1 == m.reg rs2 then branch_to imm m else m

unfoldable pub execute_bne : ℕ → ℕ → ℕ → Machine → Machine
execute_bne rs1 rs2 imm m = if not (m.reg rs1 == m.reg rs2) then branch_to imm m else m

unfoldable pub execute_blt : ℕ → ℕ → ℕ → Machine → Machine
execute_blt rs1 rs2 imm m = if slt (m.reg rs1) (m.reg rs2) then branch_to imm m else m

unfoldable pub execute_bge : ℕ → ℕ → ℕ → Machine → Machine
execute_bge rs1 rs2 imm m = if not (slt (m.reg rs1) (m.reg rs2)) then branch_to imm m else m

unfoldable pub execute_bltu : ℕ → ℕ → ℕ → Machine → Machine
execute_bltu rs1 rs2 imm m = if ltb (m.reg rs1) (m.reg rs2) then branch_to imm m else m

unfoldable pub execute_bgeu : ℕ → ℕ → ℕ → Machine → Machine
execute_bgeu rs1 rs2 imm m = if not (ltb (m.reg rs1) (m.reg rs2)) then branch_to imm m else m
