-- ===== src/Handlers/Dispatch.antt =====
-- proj2/my_project/dbswl.c, lines 345-515: the loop, its `switch` and the step of the `PC`.
use f_ca.Base.{
  ℕ, zero, suc, ◌/◌, Bool, not, ◌&&◌, ◌||◌, List, bit_and, ltb, leb, ◌==◌, if◌then◌else◌, get_or,
  length,
}
use f_ca.Word.{add32}
use f_ca.Machine.{Machine, Outcome, next, ◌>>=◌}
use f_ca.Simulator.Decode.{Fields}
use f_ca.Handlers.Decode.{decode}
use f_ca.Handlers.Arith.{
  execute_add, execute_sub, execute_sll, execute_slt, execute_sltu, execute_xor, execute_srl,
  execute_sra, execute_or, execute_and, execute_addi, execute_slti, execute_sltiu, execute_xori,
  execute_ori, execute_andi, execute_slli, execute_srli, execute_srai, execute_lui, execute_auipc,
}
use f_ca.Handlers.Jump.{
  execute_jal, execute_jalr, execute_beq, execute_bne, execute_blt, execute_bge, execute_bltu,
  execute_bgeu,
}
use f_ca.Handlers.Data.{
  print, execute_lb, execute_lh, execute_lw, execute_lbu, execute_lhu, execute_sb, execute_sh,
  execute_sw,
}

-- `printf("unknown instruction\n");`
abbrev pub unknown : Machine → Machine
unknown m = print "unknown instruction\n" m

-- `case 0x33`
unfoldable pub r_type : Fields → Machine → Machine
r_type f m =
    if f.func3 == 0x0
    then (if f.func7 == 0x00
        then execute_add f.rd f.rs1 f.rs2 m
        else if f.func7 == 0x20
        then execute_sub f.rd f.rs1 f.rs2 m
        else m)
    else if f.func3 == 0x1
    then execute_sll f.rd f.rs1 f.rs2 m
    else if f.func3 == 0x2
    then execute_slt f.rd f.rs1 f.rs2 m
    else if f.func3 == 0x3
    then execute_sltu f.rd f.rs1 f.rs2 m
    else if f.func3 == 0x4
    then execute_xor f.rd f.rs1 f.rs2 m
    else if f.func3 == 0x5
    then (if f.func7 == 0x00
        then execute_srl f.rd f.rs1 f.rs2 m
        else if f.func7 == 0x20
        then execute_sra f.rd f.rs1 f.rs2 m
        else m)
    else if f.func3 == 0x6
    then execute_or f.rd f.rs1 f.rs2 m
    else if f.func3 == 0x7
    then execute_and f.rd f.rs1 f.rs2 m
    else unknown m

-- `case 0x13`
unfoldable pub i_type : Fields → Machine → Machine
i_type f m =
    if f.func3 == 0x0
    then execute_addi f.rd f.rs1 f.imm_i m
    else if f.func3 == 0x2
    then execute_slti f.rd f.rs1 f.imm_i m
    else if f.func3 == 0x3
    then execute_sltiu f.rd f.rs1 f.imm_i m
    else if f.func3 == 0x4
    then execute_xori f.rd f.rs1 f.imm_i m
    else if f.func3 == 0x6
    then execute_ori f.rd f.rs1 f.imm_i m
    else if f.func3 == 0x7
    then execute_andi f.rd f.rs1 f.imm_i m
    else if f.func3 == 0x1
    then execute_slli f.rd f.rs1 (bit_and f.imm_i 0x1F) m
    else if f.func3 == 0x5
    then (if f.func7 == 0x00
        then execute_srli f.rd f.rs1 (bit_and f.imm_i 0x1F) m
        else if f.func7 == 0x20
        then execute_srai f.rd f.rs1 (bit_and f.imm_i 0x1F) m
        else m)
    else unknown m

-- `case 0x3`
unfoldable pub loads : Fields → Machine → Outcome
loads f m =
    if f.func3 == 0x0
    then execute_lb f.rd f.rs1 f.imm_i m
    else if f.func3 == 0x1
    then execute_lh f.rd f.rs1 f.imm_i m
    else if f.func3 == 0x2
    then execute_lw f.rd f.rs1 f.imm_i m
    else if f.func3 == 0x4
    then execute_lbu f.rd f.rs1 f.imm_i m
    else if f.func3 == 0x5
    then execute_lhu f.rd f.rs1 f.imm_i m
    else next (unknown m)

-- `case 0x23`
unfoldable pub stores : Fields → Machine → Outcome
stores f m =
    if f.func3 == 0x0
    then execute_sb f.rs2 f.rs1 f.imm_s m
    else if f.func3 == 0x1
    then execute_sh f.rs2 f.rs1 f.imm_s m
    else if f.func3 == 0x2
    then execute_sw f.rs2 f.rs1 f.imm_s m
    else next (unknown m)

-- `case 0x63`
unfoldable pub b_type : Fields → Machine → Machine
b_type f m =
    if f.func3 == 0x0
    then execute_beq f.rs1 f.rs2 f.imm_b m
    else if f.func3 == 0x1
    then execute_bne f.rs1 f.rs2 f.imm_b m
    else if f.func3 == 0x4
    then execute_blt f.rs1 f.rs2 f.imm_b m
    else if f.func3 == 0x5
    then execute_bge f.rs1 f.rs2 f.imm_b m
    else if f.func3 == 0x6
    then execute_bltu f.rs1 f.rs2 f.imm_b m
    else if f.func3 == 0x7
    then execute_bgeu f.rs1 f.rs2 f.imm_b m
    else unknown m

-- The `switch` on the opcode.
unfoldable pub dispatch : Fields → Machine → Outcome
dispatch f m =
    if f.opcode == 0x33
    then next (r_type f m)
    else if f.opcode == 0x13
    then next (i_type f m)
    else if f.opcode == 0x03
    then loads f m
    else if f.opcode == 0x23
    then stores f m
    else if f.opcode == 0x63
    then next (b_type f m)
    else if f.opcode == 0x37
    then next (execute_lui f.rd f.imm_u m)
    else if f.opcode == 0x17
    then next (execute_auipc f.rd f.imm_u m)
    else if f.opcode == 0x6F
    then next (execute_jal f.rd f.imm_j m)
    else if f.opcode == 0x67
    then next (execute_jalr f.rd f.rs1 f.imm_i m)
    else next (unknown m)

-- The disjunction of line 512 over the six branches; `reg` is unsigned in all of its comparisons.
unfoldable pub passes : ℕ → ℕ → ℕ → Bool
passes func3 a b =
    (func3 == 0x0 && not (a == b))
    || ((func3 == 0x1 && a == b)
        || ((func3 == 0x4 && leb b a)
            || ((func3 == 0x5 && ltb a b)
                || ((func3 == 0x6 && leb b a) || (func3 == 0x7 && ltb a b)))))

-- `if (opcode != 0x6F && …) PC += 4;`
unfoldable pub advance : Fields → Machine → Machine
advance f m =
    if not (f.opcode == 0x6F)
      && (not (f.opcode == 0x67)
          && (not (f.opcode == 0x63) || passes f.func3 (m.reg f.rs1) (m.reg f.rs2)))
    then record m { pc = add32 m.pc 4 }
    else m

unfoldable pub round : Fields → Machine → Outcome
round f m = do m' ← dispatch f m; next (advance f m')

unfoldable pub step : List ℕ → Machine → Outcome
step buffer m = round (decode (get_or buffer (m.pc / 4) 0)) m

-- `for (int i = 0; i < num_instructions; ++i) { if (PC / 4 >= inst_result) break; … }`
unfoldable pub run : ℕ → List ℕ → Machine → Outcome
run zero buffer m = next m
run (suc n) buffer m =
    let rest = run n buffer in
    if ltb (m.pc / 4) (length buffer) then step buffer m >>= rest else next m
