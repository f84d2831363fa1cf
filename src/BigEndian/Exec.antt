-- ===== src/BigEndian/Exec.antt =====
-- proj2/my_project/ekdus.c, lines 110-374: `executeInst` after the fields of the word.
use f_ca.Base.{ℕ, ◌+◌, not, bit_and, bit_or, bit_xor, ltb, ◌==◌, if◌then◌else◌}
use f_ca.Word.{add32, sub32, shl, shr, sar, slt}
use f_ca.Machine.{Machine, Outcome, next, fault, ◌>>=◌}
use f_ca.BigEndian.Store.{
  error, sign, update_regi, memory_size, store_a_word, load_a_word, read_word, write_word,
}
use f_ca.BigEndian.Fields.{Fields, fields}

-- `pc += 4;`
abbrev pub advance : Machine → Machine
advance m = record m { pc = add32 m.pc 4 }

abbrev pub jump : ℕ → Machine → Machine
jump imm m = record m { pc = add32 m.pc imm }

-- The immediate of `lui` and `auipc` before its sign, and the offset of `jal`.
abbrev pub upper_digits : Fields → ℕ
upper_digits f = bit_or (bit_or (bit_or (shl f.func7 13) (shl f.rs2 8)) (shl f.rs1 3)) f.func3

unfoldable pub upper_imm : Fields → ℕ
upper_imm f = shl (sign (upper_digits f) 20) 12

unfoldable pub jal_imm : Fields → ℕ
jal_imm f =
    let imm : ℕ = upper_digits f in
    let imm19_12 : ℕ = bit_and imm 0xFF in
    let imm11 : ℕ = bit_and (shr imm 8) 1 in
    let imm10_1 : ℕ = bit_and (shr imm 9) 0x3FF in
    let imm20 : ℕ = bit_and (shr imm 19) 1 in
    sign (bit_or (bit_or (bit_or (shl imm20 20) (shl imm19_12 12)) (shl imm11 11)) (shl imm10_1 1))
      20

unfoldable pub low_imm : Fields → ℕ
low_imm f = sign (bit_or (shl f.func7 5) f.rs2) 12

unfoldable pub branch_imm : Fields → ℕ
branch_imm f =
    let imm10_5 : ℕ = bit_and f.func7 0x3F in
    let imm12 : ℕ = bit_and (shr f.func7 6) 1 in
    let imm11 : ℕ = bit_and f.rd 1 in
    let imm4_1 : ℕ = bit_and (shr f.rd 1) 0xF in
    sign (bit_or (bit_or (bit_or (shl imm12 12) (shl imm11 11)) (shl imm10_5 5)) (shl imm4_1 1)) 12

unfoldable pub store_imm : Fields → ℕ
store_imm f = sign (bit_or (shl f.func7 5) f.rd) 12

-- `case 0b010` of `LOAD`; an address out of `memory` is undefined.
unfoldable pub load : Fields → Machine → Outcome
load f m =
    let address : ℕ = add32 (m.reg f.rs1) (low_imm f) in
    if f.func3 == 2
    then (if address == 0x20000000
        then (do m' ← load_a_word f.rd m; next (advance m'))
        else if ltb (address + 3) memory_size
        then next (advance (update_regi f.rd (read_word address m.mem) m))
        else fault)
    else next (error m)

unfoldable pub imm_arith : Fields → Machine → Machine
imm_arith f m =
    let imm : ℕ = low_imm f in
    let a : ℕ = m.reg f.rs1 in
    if f.func3 == 0
    then advance (update_regi f.rd (add32 a imm) m)
    else if f.func3 == 2
    then advance (update_regi f.rd (if slt a imm then 1 else 0) m)
    else if f.func3 == 4
    then advance (update_regi f.rd (bit_xor a imm) m)
    else if f.func3 == 6
    then advance (update_regi f.rd (bit_or a imm) m)
    else if f.func3 == 7
    then advance (update_regi f.rd (bit_and a imm) m)
    else if f.func3 == 1
    then advance (update_regi f.rd (shl a (bit_and imm 0x1F)) m)
    else if f.func3 == 5
    then advance (
        if f.func7 == 0
        then update_regi f.rd (shr a (bit_and f.rs2 0x1F)) m
        else if f.func7 == 0x20
        then update_regi f.rd (sar a (bit_and f.rs2 0x1F)) m
        else m)
    else error m

-- The test of a branch; that of `blt` compares an `int` with an `unsigned int`, so as unsigned.
unfoldable pub branch : Fields → Machine → Machine
branch f m =
    let imm : ℕ = branch_imm f in
    let a : ℕ = m.reg f.rs1 in
    let b : ℕ = m.reg f.rs2 in
    if f.func3 == 0
    then (if a == b then jump imm m else advance m)
    else if f.func3 == 1
    then (if not (a == b) then jump imm m else advance m)
    else if f.func3 == 4
    then (if ltb a b then jump imm m else advance m)
    else if f.func3 == 5
    then (if not (slt a b) then jump imm m else advance m)
    else error m

unfoldable pub store : Fields → Machine → Outcome
store f m =
    let address : ℕ = add32 (m.reg f.rs1) (store_imm f) in
    if f.func3 == 2
    then (if address == 0x20000000
        then next (advance (store_a_word f.rs2 m))
        else if ltb (address + 3) memory_size
        then next (advance (record m { mem = write_word address (m.reg f.rs2) m.mem }))
        else fault)
    else next (error m)

-- The guard on `func7` of one function, for most of the cases below.
abbrev pub if_plain : Fields → ℕ → Machine → Machine
if_plain f value m = if f.func7 == 0 then advance (update_regi f.rd value m) else error m

unfoldable pub arithmetic : Fields → Machine → Machine
arithmetic f m =
    let a : ℕ = m.reg f.rs1 in
    let b : ℕ = m.reg f.rs2 in
    if f.func3 == 0
    then (if f.func7 == 0
        then advance (update_regi f.rd (add32 a b) m)
        else if f.func7 == 0x20
        then advance (update_regi f.rd (sub32 a b) m)
        else error m)
    else if f.func3 == 1
    then if_plain f (shl a (bit_and b 0x1F)) m
    else if f.func3 == 2
    then if_plain f (if slt a b then 1 else 0) m
    else if f.func3 == 4
    then if_plain f (bit_xor a b) m
    else if f.func3 == 5
    then (if f.func7 == 0
        then advance (update_regi f.rd (shr a (bit_and b 0x1F)) m)
        else if f.func7 == 0x20
        then advance (update_regi f.rd (sar a (bit_and b 0x1F)) m)
        else error m)
    else if f.func3 == 6
    then if_plain f (bit_or a b) m
    else if f.func3 == 7
    then if_plain f (bit_and a b) m
    else error m

-- `jalr` writes `rd` before it reads `rs1`, and keeps the lowest digit of the target.
unfoldable pub jalr : Fields → Machine → Machine
jalr f m =
    let linked = update_regi f.rd (add32 m.pc 4) m in
    record linked { pc = add32 (linked.reg f.rs1) (low_imm f) }

unfoldable pub execute_inst : ℕ → Machine → Outcome
execute_inst inst m =
    let f = fields inst in
    if f.opcode == 0x37
    then next (advance (update_regi f.rd (upper_imm f) m))
    else if f.opcode == 0x17
    then next (advance (update_regi f.rd (add32 m.pc (upper_imm f)) m))
    else if f.opcode == 0x6F
    then next (jump (jal_imm f) (update_regi f.rd (add32 m.pc 4) m))
    else if f.opcode == 0x67
    then next (jalr f m)
    else if f.opcode == 0x03
    then load f m
    else if f.opcode == 0x13
    then next (imm_arith f m)
    else if f.opcode == 0x63
    then next (branch f m)
    else if f.opcode == 0x23
    then store f m
    else if f.opcode == 0x33
    then next (arithmetic f m)
    else next (error m)
