-- ===== src/Handlers/Data.antt =====
-- proj2/my_project/dbswl.c, lines 184-280: the handlers that access memory. An address out of range
-- is reported on the standard output, and the simulator goes on.
use Prim.Native.Char.{code}
use Prim.Native.String.{String}
use f_ca.Base.{
  ℕ, ◌+◌, ◌-◌, List, [], ◌∷◌, ◌++◌, Bool, bit_and, bit_or, ltb, ◌==◌, not, ◌&&◌, ◌||◌,
  if◌then◌else◌, update,
}
use f_ca.Word.{add32, sub32, shl, shr, slt}
use f_ca.Machine.{Machine, write_reg, put_char, Outcome, next, fault}
use f_ca.Handlers.Decode.{sign_extend}

-- The characters of a text that `printf` writes.
abbrev pub codes : String → List ℕ
codes String.[] = []
codes (String.◌∷◌ c s) = code c ∷ codes s

abbrev pub print : String → Machine → Machine
print text m = record m { output = m.output ++ codes text }

abbrev pub memory_size : ℕ
memory_size = 65536

abbrev pub special_address : ℕ
special_address = 0x10000000

-- `int address = reg[rs1] + imm - 0x10000000;`
abbrev pub address_of : ℕ → ℕ → Machine → ℕ
address_of rs1 imm m = sub32 (add32 (m.reg rs1) imm) 0x10000000

-- `address < 0 || address >= limit` on `int`.
abbrev pub out_of_range : ℕ → ℕ → Bool
out_of_range address limit = slt address 0 || not (slt address limit)

-- The array accesses of a handler, which are defined up to the last byte of `memory`.
abbrev pub if_inside : ℕ → Outcome → Outcome
if_inside last o = if ltb last memory_size then o else fault

unfoldable pub execute_lb : ℕ → ℕ → ℕ → Machine → Outcome
execute_lb rd rs1 imm m =
    let address : ℕ = address_of rs1 imm m in
    if out_of_range address memory_size
    then next (print "lb: Memory address out of range\n" m)
    else if_inside address (next (write_reg rd (sign_extend (m.mem address) 8) m))

unfoldable pub execute_lh : ℕ → ℕ → ℕ → Machine → Outcome
execute_lh rd rs1 imm m =
    let address : ℕ = address_of rs1 imm m in
    if out_of_range address (memory_size - 1)
    then next (print "lh: Memory address out of range\n" m)
    else if_inside (address + 1) (
        next
          (write_reg rd (sign_extend (bit_or (shl (m.mem (address + 1)) 8) (m.mem address)) 16) m))

-- `scanf("%d", &user_input); reg[rd] = user_input;`
unfoldable pub scan : ℕ → Machine → Outcome
scan rd m = elim m.input [
  | [] ↦ fault
  | typed ∷ rest ↦ next (write_reg rd typed (record m { input = rest }))
]

unfoldable pub execute_lw : ℕ → ℕ → ℕ → Machine → Outcome
execute_lw rd rs1 imm m =
    let address : ℕ = address_of rs1 imm m in
    if address == special_address
    then scan rd m
    else if out_of_range address 0x0000FFFF
    then next (print "lw: Memory address out of range\n" m)
    else if_inside (address + 3) (
        next (
          write_reg rd
            (bit_or
              (bit_or (bit_or (shl (m.mem (address + 3)) 24) (shl (m.mem (address + 2)) 16))
                (shl (m.mem (address + 1)) 8))
              (m.mem address))
            m))

unfoldable pub execute_lbu : ℕ → ℕ → ℕ → Machine → Outcome
execute_lbu rd rs1 imm m =
    let address : ℕ = address_of rs1 imm m in
    if out_of_range address memory_size
    then next (print "lbu: Memory address out of range\n" m)
    else if_inside address (next (write_reg rd (m.mem address) m))

unfoldable pub execute_lhu : ℕ → ℕ → ℕ → Machine → Outcome
execute_lhu rd rs1 imm m =
    let address : ℕ = address_of rs1 imm m in
    if out_of_range address (memory_size - 1)
    then next (print "lhu: Memory address out of range\n" m)
    else if_inside (address + 1)
        (next (write_reg rd (bit_or (shl (m.mem (address + 1)) 8) (m.mem address)) m))

unfoldable pub execute_sb : ℕ → ℕ → ℕ → Machine → Outcome
execute_sb rs2 rs1 imm m =
    let address : ℕ = address_of rs1 imm m in
    if address == special_address
    then next (put_char (bit_and (m.reg rs2) 0xFF) m)
    else if out_of_range address memory_size
    then next (print "sb: Memory address out of range\n" m)
    else if_inside address
        (next (record m { mem = update m.mem address (bit_and (m.reg rs2) 0xFF) }))

unfoldable pub execute_sh : ℕ → ℕ → ℕ → Machine → Outcome
execute_sh rs2 rs1 imm m =
    let address : ℕ = address_of rs1 imm m in
    if out_of_range address (memory_size - 1)
    then next (print "sh: Memory address out of range\n" m)
    else if_inside (address + 1) (
        next (record m {
          mem =
              update (update m.mem address (bit_and (m.reg rs2) 0xFF)) (address + 1)
                (bit_and (shr (m.reg rs2) 8) 0xFF);
        }))

unfoldable pub execute_sw : ℕ → ℕ → ℕ → Machine → Outcome
execute_sw rs2 rs1 imm m =
    let address : ℕ = address_of rs1 imm m in
    if not (slt address 0) && slt address 0x0000FFFF
    then if_inside (address + 3) (
        next (record m {
          mem =
              update
                (update
                  (update (update m.mem address (bit_and (m.reg rs2) 0xFF)) (address + 1)
                    (bit_and (shr (m.reg rs2) 8) 0xFF))
                  (address + 2) (bit_and (shr (m.reg rs2) 16) 0xFF))
                (address + 3) (bit_and (shr (m.reg rs2) 24) 0xFF);
        }))
    else if address == special_address
    then next (if ltb (m.reg rs2) 0x7F then put_char (m.reg rs2) m else m)
    else next (print "sw: Memory address out of range\n" m)
