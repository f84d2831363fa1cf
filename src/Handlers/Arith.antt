-- ===== src/Handlers/Arith.antt =====
-- proj2/my_project/dbswl.c, lines 31-134: the handlers that compute a value.
use f_ca.Base.{ℕ, bit_and, bit_or, bit_xor, ltb, if◌then◌else◌}
use f_ca.Word.{add32, sub32, shl, shr, sar, slt}
use f_ca.Machine.{Machine, write_reg}

unfoldable pub execute_add : ℕ → ℕ → ℕ → Machine → Machine
execute_add rd rs1 rs2 m = write_reg rd (add32 (m.reg rs1) (m.reg rs2)) m

unfoldable pub execute_sub : ℕ → ℕ → ℕ → Machine → Machine
execute_sub rd rs1 rs2 m = write_reg rd (sub32 (m.reg rs1) (m.reg rs2)) m

unfoldable pub execute_sll : ℕ → ℕ → ℕ → Machine → Machine
execute_sll rd rs1 rs2 m = write_reg rd (shl (m.reg rs1) (bit_and (m.reg rs2) 0x1F)) m

unfoldable pub execute_slt : ℕ → ℕ → ℕ → Machine → Machine
execute_slt rd rs1 rs2 m = write_reg rd (if slt (m.reg rs1) (m.reg rs2) then 1 else 0) m

unfoldable pub execute_sltu : ℕ → ℕ → ℕ → Machine → Machine
execute_sltu rd rs1 rs2 m = write_reg rd (if ltb (m.reg rs1) (m.reg rs2) then 1 else 0) m

unfoldable pub execute_xor : ℕ → ℕ → ℕ → Machine → Machine
execute_xor rd rs1 rs2 m = write_reg rd (bit_xor (m.reg rs1) (m.reg rs2)) m

unfoldable pub execute_srl : ℕ → ℕ → ℕ → Machine → Machine
execute_srl rd rs1 rs2 m = write_reg rd (shr (m.reg rs1) (bit_and (m.reg rs2) 0x1F)) m

unfoldable pub execute_sra : ℕ → ℕ → ℕ → Machine → Machine
execute_sra rd rs1 rs2 m = write_reg rd (sar (m.reg rs1) (bit_and (m.reg rs2) 0x1F)) m

unfoldable pub execute_or : ℕ → ℕ → ℕ → Machine → Machine
execute_or rd rs1 rs2 m = write_reg rd (bit_or (m.reg rs1) (m.reg rs2)) m

unfoldable pub execute_and : ℕ → ℕ → ℕ → Machine → Machine
execute_and rd rs1 rs2 m = write_reg rd (bit_and (m.reg rs1) (m.reg rs2)) m

unfoldable pub execute_addi : ℕ → ℕ → ℕ → Machine → Machine
execute_addi rd rs1 imm m = write_reg rd (add32 (m.reg rs1) imm) m

unfoldable pub execute_slti : ℕ → ℕ → ℕ → Machine → Machine
execute_slti rd rs1 imm m = write_reg rd (if slt (m.reg rs1) imm then 1 else 0) m

unfoldable pub execute_sltiu : ℕ → ℕ → ℕ → Machine → Machine
execute_sltiu rd rs1 imm m = write_reg rd (if ltb (m.reg rs1) imm then 1 else 0) m

unfoldable pub execute_xori : ℕ → ℕ → ℕ → Machine → Machine
execute_xori rd rs1 imm m = write_reg rd (bit_xor (m.reg rs1) imm) m

unfoldable pub execute_ori : ℕ → ℕ → ℕ → Machine → Machine
execute_ori rd rs1 imm m = write_reg rd (bit_or (m.reg rs1) imm) m

unfoldable pub execute_andi : ℕ → ℕ → ℕ → Machine → Machine
execute_andi rd rs1 imm m = write_reg rd (bit_and (m.reg rs1) imm) m

-- The three shifts get `immI & 0x1F`.
unfoldable pub execute_slli : ℕ → ℕ → ℕ → Machine → Machine
execute_slli rd rs1 imm m = write_reg rd (shl (m.reg rs1) imm) m

unfoldable pub execute_srli : ℕ → ℕ → ℕ → Machine → Machine
execute_srli rd rs1 imm m = write_reg rd (shr (m.reg rs1) imm) m

unfoldable pub execute_srai : ℕ → ℕ → ℕ → Machine → Machine
execute_srai rd rs1 imm m = write_reg rd (sar (m.reg rs1) imm) m

unfoldable pub execute_lui : ℕ → ℕ → Machine → Machine
execute_lui rd imm m = write_reg rd imm m

unfoldable pub execute_auipc : ℕ → ℕ → Machine → Machine
execute_auipc rd imm m = write_reg rd (add32 m.pc imm) m
