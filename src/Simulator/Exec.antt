-- ===== src/Simulator/Exec.antt =====
-- project_2/main.c, lines 80-430: one round of the loop, by opcode.
use f_ca.Base.{ℕ, ◌+◌, Bool, false, not, ◌&&◌, ◌||◌, Option, none, some, ◌∷◌, []}
use f_ca.Base.{bit_and, bit_or, ltb, ◌==◌, if◌then◌else◌, update}
use f_ca.Word.{add32, sub32, not32, shl, shr, slt}
use f_ca.Machine.{Machine, write_reg, put_char, Outcome, next, fails, fault, ◌>>=◌}
use f_ca.Simulator.Decode.{Fields}
use f_ca.Simulator.Alu.{op_imm, op_reg}

-- `reg[rd] = …; reg[0] = 0;` on the branches of an arithmetic instruction that assign.
unfoldable pub assign : ℕ → Option ℕ → Machine → Outcome
assign rd none m = next m
assign rd (some v) m = next (write_reg rd v m)

-- `int addr = reg[rs1] + imm - 0x10000000;`
abbrev pub data_addr : ℕ → ℕ → ℕ
data_addr base imm = sub32 (add32 base imm) 0x10000000

-- `int input; scanf("%d", &input); reg[rd] = input;`
unfoldable pub read_input : ℕ → Machine → Outcome
read_input rd m = elim m.input [
  | [] ↦ fault
  | typed ∷ rest ↦ next (write_reg rd typed (record m { input = rest }))
]

-- The four bytes from `addr` on, lowest first. `mem` has 65536 of them.
unfoldable pub load_bytes : ℕ → ℕ → Machine → Outcome
load_bytes rd addr m =
    if ltb (addr + 3) 65536
    then next (
        write_reg rd
          (bit_or
            (bit_or (bit_or (shl (m.mem (addr + 3)) 24) (shl (m.mem (addr + 2)) 16))
              (shl (m.mem (addr + 1)) 8))
            (m.mem addr))
          m)
    else fault

unfoldable pub store_bytes : ℕ → ℕ → Machine → Outcome
store_bytes addr v m =
    if ltb (addr + 3) 65536
    then next (record m {
      mem =
          update
            (update
              (update (update m.mem addr (bit_and v 0xFF)) (addr + 1) (bit_and (shr v 8) 0xFF))
              (addr + 2) (bit_and (shr v 16) 0xFF))
            (addr + 3) (bit_and (shr v 24) 0xFF);
    })
    else fault

-- `case 0x03`
unfoldable pub load : ℕ → ℕ → ℕ → ℕ → Machine → Outcome
load func3 rd base imm m =
    if func3 == 0x2
    then (if data_addr base imm == 0x10000000
        then read_input rd m
        else if not (slt (data_addr base imm) 0x0000FFFF) || slt (data_addr base imm) 0
        then fails m
        else load_bytes rd (data_addr base imm) m)
    else next m

-- `case 0x23`, with `v` for `reg[rs2]`.
unfoldable pub store : ℕ → ℕ → ℕ → ℕ → Machine → Outcome
store func3 v base imm m =
    if func3 == 0x2
    then (if not (slt (data_addr base imm) 0) && slt (data_addr base imm) 0x0000FFFF
        then store_bytes (data_addr base imm) v m
        else if data_addr base imm == 0x10000000
        then next (if ltb v 0x7F then put_char v m else m)
        else fails m)
    else next m

-- The test under which `case 0x63` adds `imm_b` to `pc`.
unfoldable pub taken : ℕ → ℕ → ℕ → Bool
taken func3 a b =
    if func3 == 0x0
    then a == b
    else if func3 == 0x1
    then not (a == b)
    else if func3 == 0x4
    then slt a b
    else if func3 == 0x5
    then not (slt a b)
    else false

-- The test on a branch under which the last lines of the round add 4 to `pc`.
unfoldable pub not_taken : ℕ → ℕ → ℕ → Bool
not_taken func3 a b =
    (func3 == 0x0 && not (a == b))
    || ((func3 == 0x1 && a == b) || ((func3 == 0x4 && not (slt a b)) || (func3 == 0x5 && slt a b)))

abbrev pub jump_by : ℕ → Machine → Machine
jump_by offset m = record m { pc = add32 m.pc offset }

-- The `switch` on the opcode.
unfoldable pub execute : Fields → Machine → Outcome
execute f m =
    if f.opcode == 0x03
    then load f.func3 f.rd (m.reg f.rs1) f.imm_i m
    else if f.opcode == 0x13
    then assign f.rd (op_imm f.func3 f.func7 f.imm_i (m.reg f.rs1)) m
    else if f.opcode == 0x17
    then next (write_reg f.rd (add32 m.pc f.imm_u) m)
    else if f.opcode == 0x23
    then store f.func3 (m.reg f.rs2) (m.reg f.rs1) f.imm_s m
    else if f.opcode == 0x33
    then assign f.rd (op_reg f.func3 f.func7 (m.reg f.rs1) (m.reg f.rs2)) m
    else if f.opcode == 0x37
    then next (write_reg f.rd f.imm_u m)
    else if f.opcode == 0x63
    then next (if taken f.func3 (m.reg f.rs1) (m.reg f.rs2) then jump_by f.imm_b m else m)
    else if f.opcode == 0x67
    then next (
        write_reg f.rd (add32 m.pc 4)
          (record m { pc = bit_and (add32 (m.reg f.rs1) f.imm_i) (not32 1) }))
    else if f.opcode == 0x6F
    then next (jump_by f.imm_j (write_reg f.rd (add32 m.pc 4) m))
    else next m

-- `if (opcode != 0x6F && …) pc += 4;`, with the registers as the `switch` has left them.
unfoldable pub advance : Fields → Machine → Machine
advance f m =
    if not (f.opcode == 0x6F)
      && (not (f.opcode == 0x67)
          && (not (f.opcode == 0x63) || not_taken f.func3 (m.reg f.rs1) (m.reg f.rs2)))
    then record m { pc = add32 m.pc 4 }
    else m

unfoldable pub round : Fields → Machine → Outcome
round f m = do m' ← execute f m; next (advance f m')
