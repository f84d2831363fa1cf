-- ===== src/Tracer/Execute.antt =====
-- What a round of proj1/icaproj1.c computes for an encoded instruction, against the manual, and where
-- it is undefined.
use f_ca.Base.{
  ◌/◌, ℕ, ◌+◌, ◌*◌, ◌%◌, ◌^◌, ◌<◌, ◌≡◌, ◌≢◌, refl, ap, ◌∙◌, arith, if◌then◌else◌, some, none,
  update,
}
use f_ca.Word.{IsWord, add32, sext}
use f_ca.Word.Laws.{slt_flip}
use f_ca.Isa.{RegOp, ImmOp, ShiftOp, BranchOp, Instr, lui, imm, shift, reg, branch, encode, IsInstr}
use f_ca.Isa.Meaning.{reg_value, imm_value, shift_value, holds}
use f_ca.Simulator.Roundtrip.{Reads}
use f_ca.Disassembler.Agree.{as_fields}
use f_ca.Tracer.Fields.{Fields, fields, quarter}
use f_ca.Tracer.Effect.{State, imm_effect, taken, branch_effect, effect, round}
use f_ca.Tracer.Agree.{as_parts, fields-Reads}
use f_ca.Tracer.Cut.{IsCut, cut, sext_small}

-- The registers that a round reads: x0 is set to 0 before.
abbrev pub read : State → ℕ → ℕ
read s = update s.reg 0 0

-- The state after `v` is written to `rd` and the round has ended.
abbrev pub written : ℕ → ℕ → State → State
written rd v s = record { current_i = add32 s.current_i 1; reg = update (update (read s) rd v) 0 0 }

-- The value that an instruction computes, on the registers that it reads, and where it goes.
abbrev pub target : Instr → ℕ
target (lui rd n) = rd
target (imm o rd rs1 n) = rd
target (shift o rd rs1 n) = rd
target (reg o rd rs1 rs2) = rd
target _ = 0

abbrev pub value : Instr → (ℕ → ℕ) → ℕ
value (lui rd n) x = n * 2 ^ 12
value (imm o rd rs1 n) x = imm_value o (x rs1) (sext 12 n)
value (shift o rd rs1 n) x = shift_value o (x rs1) n
value (reg o rd rs1 rs2) x = reg_value o (x rs1) (x rs2)
value _ x = 0

-- The computing instructions that the program executes: all but `auipc`, which it only prints, `srai`,
-- `sltiu` with a negative immediate, and `srl` and `sra` by 32 and more.
abbrev pub IsComputed : Instr → (ℕ → ℕ) → Type 0
IsComputed (lui rd n) x = Unit
IsComputed (imm ImmOp.sltiu rd rs1 n) x = n < 2 ^ 11
IsComputed (imm o rd rs1 n) x = Unit
IsComputed (shift ShiftOp.srai rd rs1 n) x = ⊥
IsComputed (shift o rd rs1 n) x = Unit
IsComputed (reg RegOp.srl rd rs1 rs2) x = x rs2 < 32
IsComputed (reg RegOp.sra rd rs1 rs2) x = x rs2 < 32
IsComputed (reg o rd rs1 rs2) x = Unit
IsComputed _ x = ⊥

module _ (f : Fields) (cut : IsCut f) (s : State) (words : (i : ℕ) → IsWord (s.reg i)) where
  read-IsWord : (i : ℕ) → IsWord (read s i)
  read-IsWord i = ground (arith, words i)

  -- `srai` shifts by its whole immediate, which is 1024 and more.
  srai-eq :
      (rd rs1 n : ℕ)
      → IsInstr (shift ShiftOp.srai rd rs1 n)
      → Reads (shift ShiftOp.srai rd rs1 n) (as_fields (as_parts f))
      → round f s ≡ none
  unfolding round effect imm_effect
  srai-eq rd rs1 n h r = ground (arith, cut.imm, cut.digit, sext_small (32 * 32 + n))

  -- A branch whose offset is a count of words.
  branch-eq :
      (o : BranchOp) (rs1 rs2 n : ℕ)
      → (o ≢ BranchOp.bltu) × (o ≢ BranchOp.bgeu)
      → Reads (branch o rs1 rs2 n) (as_fields (as_parts f))
      → round f s
        ≡ some (
            if holds o (read s rs1) (read s rs2)
            then record { current_i = add32 s.current_i f.b_n; reg = read s }
            else record { current_i = add32 s.current_i 1; reg = update (read s) 0 0 })
  unfolding round effect branch_effect taken holds
  branch-eq o rs1 rs2 n (not_bltu, not_bgeu) r =
      ground (arith, slt_flip (read s rs1) (read s rs2) (read-IsWord rs1) (read-IsWord rs2))

-- Whatever its operands, the behaviour of `srai` is undefined in C: the digit that tells it from
-- `srli` is part of the amount that it shifts by.
pub round_srai :
    (rd rs1 n : ℕ) (s : State)
    → IsInstr (shift ShiftOp.srai rd rs1 n)
    → ((k : ℕ) → IsWord (s.reg k))
    → round (fields (encode (shift ShiftOp.srai rd rs1 n))) s ≡ none
round_srai rd rs1 n s h words =
    let i = shift ShiftOp.srai rd rs1 n in
    srai-eq (fields (encode i)) (cut i h) s words rd rs1 n h (fields-Reads i h)

pub sext13_four : (v : ℕ) → v < 2 ^ 13 → v % 4 ≡ 0 → sext 13 v % 4 ≡ 0
unfolding sext
sext13_four v h four = ground arith

b_n-eq : (w : ℕ) → (fields w).b_n ≡ quarter (fields w).imm3
unfolding fields
b_n-eq w = refl

-- The offset of a branch, in words.
quarter-sext : (n : ℕ) → n < 2 ^ 12 → n % 2 ≡ 0 → quarter (sext 13 (n * 2)) ≡ sext 11 (n / 2)
unfolding quarter sext
quarter-sext n h even = ground arith

-- From a state whose registers are words, a `beq`, `bne`, `blt` or `bge` whose offset is a count of
-- words (`n` counts half words, in twelve digits) adds exactly that signed count to `current_i` where
-- the manual takes the branch, and goes on to the next word where it does not.
pub round-branch :
    (o : BranchOp) (rs1 rs2 n : ℕ) (s : State)
    → (o ≢ BranchOp.bltu) × (o ≢ BranchOp.bgeu)
    → IsInstr (branch o rs1 rs2 n)
    → n % 2 ≡ 0
    → ((k : ℕ) → IsWord (s.reg k))
    → round (fields (encode (branch o rs1 rs2 n))) s
      ≡ some (
          if holds o (read s rs1) (read s rs2)
          then record { current_i = add32 s.current_i (sext 11 (n / 2)); reg = read s }
          else record { current_i = add32 s.current_i 1; reg = update (read s) 0 0 })
round-branch o rs1 rs2 n s signed h even words =
    let i = branch o rs1 rs2 n in
    let r = fields-Reads i h in
    let step : (fields (encode i)).b_n ≡ sext 11 (n / 2) =
      b_n-eq (encode i) ∙ ap quarter r.4 ∙ quarter-sext n (omega arith) even in
    branch-eq (fields (encode i)) (cut i h) s words o rs1 rs2 n signed r ∙ rw step refl
