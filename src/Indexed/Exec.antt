-- ===== src/Indexed/Exec.antt =====
-- proj2/pa2/제출1.cc, lines 98-418: one round of the loop. Its fields and immediates are cut out as in
-- proj1/main.cc. A shift by a negative amount or by 32 and more is undefined in C++: `none`.
use f_ca.Base.{
  ℕ, ◌-◌, ◌/◌, ◌%◌, Bool, not, ◌&&◌, Option, none, some, bit_and, bit_or, bit_xor, ltb, ◌==◌,
  if◌then◌else◌, update,
}
use f_ca.Word.{add32, sub32, shl, shr, sar, slt}
use f_ca.Tracer.Fields.{quarter}
use f_ca.Printer.Fields.{Fields, upper_imm, jal_imm, jalr_imm, branch_imm, lw_imm, sw_imm, low_imm}
use f_ca.Indexed.State.{State, Flags, Flow, falls, continues, put_reg, assign, read_cin, put_char}

-- `data[((reg[rs1] + imm1) & 0xFFFF) / 4]`
abbrev pub cell : ℕ → ℕ
cell address = bit_and address 0xFFFF / 4

-- `(curr_i * 4) + 4`
abbrev pub link : State → ℕ
link s = add32 (shl s.curr_i 2) 4

-- `case 0x6f`
unfoldable pub jal : Fields → State → Option Flow
jal f s =
    let s' = put_reg f.rd (link s) s in
    some (
      continues (record s' {
        curr_i = add32 s.curr_i (quarter (jal_imm f.buffer_));
        reg = update s'.reg 0 0;
      }))

-- `case 0x67`. `reg[rd]` is written before `reg[rs1]` is read.
unfoldable pub jalr : Fields → State → Option Flow
jalr f s =
    let s' = put_reg f.rd (link s) s in
    some (
      continues (record s' {
        curr_i = add32 (s'.reg f.rs1) (jalr_imm f.buffer_) / 4;
        reg = update s'.reg 0 0;
      }))

-- The tests of `case 0x63`.
unfoldable pub taken : ℕ → ℕ → ℕ → Bool
taken funct3 a b =
    if funct3 == 0x0
    then a == b
    else if funct3 == 0x1
    then not (a == b)
    else if funct3 == 0x4
    then slt a b
    else if funct3 == 0x5
    then not (slt a b)
    else Bool.false

-- `case 0x63`
unfoldable pub branch : Fields → State → Option Flow
branch f s =
    if taken f.funct3 (s.reg f.rs1) (s.reg f.rs2)
    then some (continues (record s { curr_i = add32 s.curr_i (quarter (branch_imm f.buffer_)) }))
    else some (falls s)

-- `case 0x3`
unfoldable pub load : Flags → Fields → State → Option Flow
load flags f s =
    let address : ℕ = add32 (s.reg f.rs1) (lw_imm f.buffer_) in
    let read = read_cin s in
    if f.funct3 == 0x2
    then (if not flags.flag && not flags.proj3_flag
        then assign f.rd (s.data_ (cell address)) s
        else if flags.flag && not flags.proj3_flag
        then assign f.rd read.user_lw read
        else if flags.proj3_flag && address == 0x20000000
        then assign f.rd read.user_lw read
        else assign f.rd (s.data_ (cell address)) s)
    else some (falls s)

-- `data[…] = reg[rs2]`
abbrev pub put_data : ℕ → ℕ → State → State
put_data address v s = record s { data_ = update s.data_ (cell address) v }

-- `case 0x23`
unfoldable pub store : Flags → Fields → State → Option Flow
store flags f s =
    let address : ℕ = add32 (s.reg f.rs1) (sw_imm f) in
    let v : ℕ = s.reg f.rs2 in
    if f.funct3 == 0x2
    then (if not flags.flag && not flags.proj3_flag
        then some (falls (put_data address v s))
        else if flags.flag && not flags.proj3_flag
        then some (falls (put_char (v % 256) s))
        else if flags.proj3_flag && address == 0x20000000
        then some (falls (put_data address v (put_char (v % 256) s)))
        else some (falls (put_data address v s)))
    else some (falls s)

-- `case 0x13`
unfoldable pub imm_arith : Fields → State → Option Flow
imm_arith f s =
    let a : ℕ = s.reg f.rs1 in
    let imm1 : ℕ = low_imm f.buffer_ in
    let amount : ℕ = bit_and f.rs2 0x1F in
    if f.funct3 == 0x0
    then assign f.rd (add32 a imm1) s
    else if f.funct3 == 0x2
    then assign f.rd (if slt a imm1 then 1 else 0) s
    else if f.funct3 == 0x4
    then assign f.rd (bit_xor a imm1) s
    else if f.funct3 == 0x6
    then assign f.rd (bit_or a imm1) s
    else if f.funct3 == 0x7
    then assign f.rd (bit_and a imm1) s
    else if f.funct3 == 0x1
    then assign f.rd (shl a amount) s
    else if f.funct3 == 0x5
    then (if f.funct7 == 0x0
        then (if amount == 0
            then none
            else assign f.rd (bit_and (shr a amount) (shr 0x7FFFFFFF (amount - 1))) s)
        else if f.funct7 == 0x20
        then assign f.rd (sar a amount) s
        else some (falls s))
    else some (falls s)

-- `case 0x33`. There is no `sltu`, and `slt` compares `unsigned int`s.
unfoldable pub reg_arith : Fields → State → Option Flow
reg_arith f s =
    let a : ℕ = s.reg f.rs1 in
    let b : ℕ = s.reg f.rs2 in
    if f.funct3 == 0x00
    then (if f.funct7 == 0x0
        then assign f.rd (add32 a b) s
        else if f.funct7 == 0x20
        then assign f.rd (sub32 a b) s
        else some (falls s))
    else if f.funct3 == 0x1
    then (if ltb (bit_and b 0x7F) 32 then assign f.rd (shl a (bit_and b 0x7F)) s else none)
    else if f.funct3 == 0x2
    then assign f.rd (if ltb a b then 1 else 0) s
    else if f.funct3 == 0x4
    then assign f.rd (bit_xor a b) s
    else if f.funct3 == 0x5
    then (if f.funct7 == 0x0
        then assign f.rd (shr a (bit_and b 0x1F)) s
        else if f.funct7 == 0x20
        then assign f.rd (sar a (bit_and b 0x1F)) s
        else some (falls s))
    else if f.funct3 == 0x6
    then assign f.rd (bit_or a b) s
    else if f.funct3 == 0x7
    then assign f.rd (bit_and a b) s
    else some (falls s)

-- The `switch` on the opcode.
unfoldable pub execute : Flags → Fields → State → Option Flow
execute flags f s =
    if f.opcode == 0x37
    then assign f.rd (upper_imm f.buffer_) s
    else if f.opcode == 0x17
    then assign f.rd (add32 (shl s.curr_i 2) (upper_imm f.buffer_)) s
    else if f.opcode == 0x6F
    then jal f s
    else if f.opcode == 0x67
    then jalr f s
    else if f.opcode == 0x63
    then branch f s
    else if f.opcode == 0x3
    then load flags f s
    else if f.opcode == 0x23
    then store flags f s
    else if f.opcode == 0x13
    then imm_arith f s
    else if f.opcode == 0x33
    then reg_arith f s
    else some (falls s)

-- `reg[0] = 0; curr_i++;`, which a `continue` leaves out.
abbrev pub advance : Flow → State
advance (falls s) = record s { curr_i = add32 s.curr_i 1; reg = update s.reg 0 0 }
advance (continues s) = s

-- `reg[0] = 0;` and the `switch`.
unfoldable pub round : Flags → Fields → State → Option State
round flags f s = elim (execute flags f (record s { reg = update s.reg 0 0 })) [
  | none ↦ none
  | some flow ↦ some (advance flow)
]
