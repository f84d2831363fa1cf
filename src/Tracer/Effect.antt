-- ===== src/Tracer/Effect.antt =====
-- proj1/icaproj1.c, lines 69-359: what one round does to the registers and to `current_i`. A shift
-- by a negative amount or by 32 and more is undefined in C: `none`.
use f_ca.Base.{
  ℕ, ◌-◌, Bool, not, Option, none, some, bit_and, bit_or, bit_xor, ltb, ◌==◌, if◌then◌else◌, update,
}
use f_ca.Word.{add32, sub32, shl, shr, sar, slt}
use f_ca.Tracer.Fields.{Fields}
use f_ca.Tracer.Text.{shift_digit}

-- `current_i` is the bit pattern of an `int`.
pub record State : Type 0 where
  pub current_i : ℕ
  pub reg : ℕ → ℕ

-- How the `switch` ends for a word whose behaviour is defined: by `break`, so that `current_i++` and
-- `reg[0] = 0` follow, or by `continue`, with the next `current_i`.
pub data Flow : Type 0 where
  falls : State → Flow
  continues : State → Flow

abbrev pub set_reg : ℕ → ℕ → State → Option Flow
set_reg rd v s = some (falls (record s { reg = update s.reg rd v }))

-- A shift whose amount is below 32.
abbrev pub shifting : ℕ → Option Flow → Option Flow
shifting amount o = if ltb amount 32 then o else none

-- The two lines of `srl`, and of `srli`: an arithmetic shift, and a mask over the copied signs.
abbrev pub masked_shift : ℕ → ℕ → ℕ
masked_shift a k = bit_and (sar a k) (sar 0x7FFFFFFF (k - 1))

-- `case 0x13`. The amount of `slli`, `srli` and `srai` is the whole immediate.
unfoldable pub imm_effect : Fields → State → Option Flow
imm_effect f s =
    let a : ℕ = s.reg f.rs1 in
    let imm : ℕ = sar f.word 20 in
    if f.funct3 == 0x0
    then set_reg f.rd (add32 a imm) s
    else if f.funct3 == 0x1
    then shifting imm (set_reg f.rd (shl a imm) s)
    else if f.funct3 == 0x2
    then set_reg f.rd (if slt a imm then 1 else 0) s
    else if f.funct3 == 0x3
    then set_reg f.rd (if ltb a (shr f.word 20) then 1 else 0) s
    else if f.funct3 == 0x4
    then set_reg f.rd (bit_xor a imm) s
    else if f.funct3 == 0x5
    then (if not (shift_digit f == 0)
        then shifting imm (set_reg f.rd (sar a imm) s)
        else if not (imm == 0)
        then shifting (shr f.word 20) (set_reg f.rd (masked_shift a imm) s)
        else set_reg f.rd a s)
    else if f.funct3 == 0x6
    then set_reg f.rd (bit_or a imm) s
    else if f.funct3 == 0x7
    then set_reg f.rd (bit_and a imm) s
    else some (falls s)

-- `case 0x33`. The amount of `srl` and `sra` is the whole register.
unfoldable pub reg_effect : Fields → State → Option Flow
reg_effect f s =
    let a : ℕ = s.reg f.rs1 in
    let b : ℕ = s.reg f.rs2 in
    if f.funct3 == 0x0
    then (if f.funct7 == 0x0
        then set_reg f.rd (add32 a b) s
        else if f.funct7 == 0x20
        then set_reg f.rd (sub32 a b) s
        else some (falls s))
    else if f.funct3 == 0x1
    then set_reg f.rd (shl a (bit_and b 0x1F)) s
    else if f.funct3 == 0x2
    then set_reg f.rd (if slt a b then 1 else 0) s
    else if f.funct3 == 0x3
    then set_reg f.rd (if ltb a b then 1 else 0) s
    else if f.funct3 == 0x4
    then set_reg f.rd (bit_xor a b) s
    else if f.funct3 == 0x5
    then (if not (shift_digit f == 0)
        then shifting b (set_reg f.rd (sar a b) s)
        else if not (b == 0)
        then shifting b (set_reg f.rd (masked_shift a b) s)
        else set_reg f.rd a s)
    else if f.funct3 == 0x6
    then set_reg f.rd (bit_or a b) s
    else if f.funct3 == 0x7
    then set_reg f.rd (bit_and a b) s
    else some (falls s)

-- The test of a branch. `reg` is signed, so that of `bltu` is the test of `blt`, and that of `bgeu` is
-- a signed `>`.
unfoldable pub taken : ℕ → ℕ → ℕ → Bool
taken funct3 a b =
    if funct3 == 0x0
    then a == b
    else if funct3 == 0x1
    then not (a == b)
    else if funct3 == 0x4
    then slt a b
    else if funct3 == 0x5
    then not (slt a b)
    else if funct3 == 0x6
    then slt a b
    else if funct3 == 0x7
    then slt b a
    else Bool.false

-- `case 0x63`. (What `inst_c` is set to plays no part in what follows.)
unfoldable pub branch_effect : Fields → State → Option Flow
branch_effect f s =
    if taken f.funct3 (s.reg f.rs1) (s.reg f.rs2)
    then some (continues (record s { current_i = add32 s.current_i f.b_n }))
    else some (falls s)

-- The `switch`, with `reg[0] = 0` before it. `auipc`, the loads, the stores and the jumps print only.
unfoldable pub effect : Fields → State → Option Flow
effect f before =
    let s = record before { reg = update before.reg 0 0 } in
    if f.opcode == 0x13
    then imm_effect f s
    else if f.opcode == 0x33
    then reg_effect f s
    else if f.opcode == 0x37
    then set_reg f.rd (bit_and f.word 0xFFFFF000) s
    else if f.opcode == 0x63
    then branch_effect f s
    else some (falls s)

-- `current_i++; reg[0] = 0;`, which a `continue` leaves out.
abbrev pub finish : Flow → State
finish (falls s) = record { current_i = add32 s.current_i 1; reg = update s.reg 0 0 }
finish (continues s) = s

unfoldable pub round : Fields → State → Option State
round f s = elim (effect f s) [ none ↦ none | some flow ↦ some (finish flow) ]
