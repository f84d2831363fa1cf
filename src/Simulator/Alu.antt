-- ===== src/Simulator/Alu.antt =====
-- project_2/main.c, lines 122-205 and 249-345: the value that an arithmetic instruction assigns to
-- `reg[rd]`, and `none` on the branches that assign nothing.
use f_ca.Base.{ℕ, Option, none, some, bit_and, bit_or, bit_xor, ltb, ◌==◌, if◌then◌else◌}
use f_ca.Word.{add32, sub32, shl, shr, sar, slt}

-- `case 0x13`, with `a` for `reg[rs1]`.
unfoldable pub op_imm : ℕ → ℕ → ℕ → ℕ → Option ℕ
op_imm func3 func7 imm_i a =
    if func3 == 0x0
    then some (add32 a imm_i)
    else if func3 == 0x1
    then some (shl a (bit_and imm_i 0x1F))
    else if func3 == 0x2
    then some (if slt a imm_i then 1 else 0)
    else if func3 == 0x3
    then some (if ltb a imm_i then 1 else 0)
    else if func3 == 0x4
    then some (bit_xor a imm_i)
    else if func3 == 0x5
    then (if func7 == 0x00
        then some (shr a (bit_and imm_i 0x1F))
        else if func7 == 0x20
        then some (sar a (bit_and imm_i 0x1F))
        else none)
    else if func3 == 0x6
    then some (bit_or a imm_i)
    else if func3 == 0x7
    then some (bit_and a imm_i)
    else none

-- `case 0x33`, with `a` and `b` for `reg[rs1]` and `reg[rs2]`.
unfoldable pub op_reg : ℕ → ℕ → ℕ → ℕ → Option ℕ
op_reg func3 func7 a b =
    if func3 == 0x0
    then (if func7 == 0x00
        then some (add32 a b)
        else if func7 == 0x20
        then some (sub32 a b)
        else none)
    else if func3 == 0x1
    then some (shl a (bit_and b 0x1F))
    else if func3 == 0x2
    then some (if slt a b then 1 else 0)
    else if func3 == 0x3
    then some (if ltb a b then 1 else 0)
    else if func3 == 0x4
    then some (bit_xor a b)
    else if func3 == 0x5
    then (if func7 == 0x00
        then some (shr a (bit_and b 0x1F))
        else if func7 == 0x20
        then some (sar a (bit_and b 0x1F))
        else none)
    else if func3 == 0x6
    then some (bit_or a b)
    else if func3 == 0x7
    then some (bit_and a b)
    else none
