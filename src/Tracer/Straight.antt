-- ===== src/Tracer/Straight.antt =====
-- Programs without branches: every round goes on to the next word, and the lines are those of the
-- disassembler of project_1/main.c.
use mathlib.Core.List.{map}
use f_ca.Base.{
  ℕ, zero, suc, ◌+◌, ◌*◌, ◌/◌, ◌^◌, ◌<◌, ◌≡◌, ◌⊎◌, refl, ap, ◌∙◌, arith, Option, some, none, List,
  [], ◌∷◌, All, All-get_or, Bool, length, get_or, lt→ltb, eq→==, ◌==◌, ◌||◌, if◌then◌else◌,
}
use f_ca.Word.{IsWord, add32}
use f_ca.Isa.{
  RegOp, ImmOp, ShiftOp, Instr, lui, auipc, jal, jalr, branch, load, store, imm, shift, reg, encode,
  IsInstr,
}
use f_ca.Isa.Bounds.{encode-words}
use f_ca.Simulator.Roundtrip.{Reads}
use f_ca.Disassembler.Agree.{as_fields}
use f_ca.Simulator.Run.Laws.{length-encode, get_or-encode}
use f_ca.Simulator.Main.{bytes}
use f_ca.Simulator.Main.Laws.{write_words}
use f_ca.Disassembler.Main
use f_ca.Disassembler.Main.Laws.{length-write_words, read_written}
use f_ca.Tracer.Main.{line, lines, start, trace_file, main}
use f_ca.Tracer.Fields.{Fields, fields}
use f_ca.Tracer.Effect.{State, imm_effect, reg_effect, effect, round}
use f_ca.Tracer.Agree.{as_parts, fields-Reads, text-encode_eq}
use f_ca.Tracer.Cut.{IsCut, cut, sext_small, sar_small}

-- No branch, and no shift whose behaviour may be undefined.
abbrev pub IsStraight : Instr → Type 0
IsStraight (branch o rs1 rs2 n) = ⊥
IsStraight (shift ShiftOp.srai rd rs1 n) = ⊥
IsStraight (reg RegOp.srl rd rs1 rs2) = ⊥
IsStraight (reg RegOp.sra rd rs1 rs2) = ⊥
IsStraight _ = Unit

-- The state that a round leaves, where it is defined.
abbrev state_of : Option State → State → State
state_of none s = s
state_of (some s') s = s'

-- A round is defined and goes on to the next word.
abbrev GoesOn : Fields → State → Type 0
GoesOn f s =
    (round f s ≡ some (state_of (round f s) s))
    × ((state_of (round f s) s).current_i ≡ add32 s.current_i 1)

module _ (f : Fields) (fits : IsCut f) (s : State) where
  other-GoesOn :
      (f.opcode ≡ 0x17)
        ⊎ ((f.opcode ≡ 0x6F)
            ⊎ ((f.opcode ≡ 0x67) ⊎ ((f.opcode ≡ 0x03) ⊎ ((f.opcode ≡ 0x23) ⊎ (f.opcode ≡ 0x37)))))
      → GoesOn f s
  unfolding round effect
  other-GoesOn h = (ground arith, ground arith)

  shift-GoesOn :
      (o : ShiftOp) (rd rs1 n : ℕ)
      → n < 32
      → IsStraight (shift o rd rs1 n)
      → Reads (shift o rd rs1 n) (as_fields (as_parts f))
      → GoesOn f s
  unfolding round effect imm_effect
  shift-GoesOn ShiftOp.slli rd rs1 n h c r =
      (ground (arith, fits.imm, sext_small n), ground (arith, fits.imm, sext_small n))
  shift-GoesOn ShiftOp.srli rd rs1 n h c r = (
    ground (arith, fits.imm, fits.digit, sext_small n, sar_small f.word fits.word),
    ground (arith, fits.imm, fits.digit, sext_small n, sar_small f.word fits.word),
  )
  shift-GoesOn ShiftOp.srai rd rs1 n h c r = elim c [ ]

  imm-GoesOn :
      (o : ImmOp) (rd rs1 n : ℕ) → Reads (imm o rd rs1 n) (as_fields (as_parts f)) → GoesOn f s
  unfolding round effect imm_effect
  imm-GoesOn o rd rs1 n r = (ground arith, ground arith)

  reg-GoesOn :
      (o : RegOp) (rd rs1 rs2 : ℕ)
      → IsStraight (reg o rd rs1 rs2)
      → Reads (reg o rd rs1 rs2) (as_fields (as_parts f))
      → GoesOn f s
  unfolding round effect reg_effect
  reg-GoesOn RegOp.srl rd rs1 rs2 c r = elim c [ ]
  reg-GoesOn RegOp.sra rd rs1 rs2 c r = elim c [ ]
  reg-GoesOn o rd rs1 rs2 c r = (ground arith, ground arith)

  instr-GoesOn :
      (i : Instr) → IsInstr i → IsStraight i → Reads i (as_fields (as_parts f)) → GoesOn f s
  instr-GoesOn (lui rd n) h c r = other-GoesOn (ground arith)
  instr-GoesOn (auipc rd n) h c r = other-GoesOn (ground arith)
  instr-GoesOn (jal rd n) h c r = other-GoesOn (ground arith)
  instr-GoesOn (jalr rd rs1 n) h c r = other-GoesOn (ground arith)
  instr-GoesOn (load o rd rs1 n) h c r = other-GoesOn (ground arith)
  instr-GoesOn (store o rs2 rs1 n) h c r = other-GoesOn (ground arith)
  instr-GoesOn (branch o rs1 rs2 n) h c r = elim c [ ]
  instr-GoesOn (imm o rd rs1 n) h c r = imm-GoesOn o rd rs1 n r
  instr-GoesOn (shift o rd rs1 n) h c r = shift-GoesOn o rd rs1 n h.2 c r
  instr-GoesOn (reg o rd rs1 rs2) h c r = reg-GoesOn o rd rs1 rs2 c r

-- Every instruction of the program fits its fields and is straight.
abbrev pub IsStraightProgram : List Instr → Type 0
IsStraightProgram = All (λ i. IsInstr i × IsStraight i)

IsStraightProgram-IsInstr : (program : List Instr) → IsStraightProgram program → All IsInstr program
IsStraightProgram-IsInstr [] h = tt
IsStraightProgram-IsInstr (i ∷ program) h = (h.0.0, IsStraightProgram-IsInstr program h.1)

encode-GoesOn : (i : Instr) → IsInstr i × IsStraight i → (s : State) → GoesOn (fields (encode i)) s
encode-GoesOn i h s = instr-GoesOn (fields (encode i)) (cut i h.0) s i h.0 h.1 (fields-Reads i h.0)

module _ (program : List Instr) (ok : IsStraightProgram program)
    (small : length program < 2 ^ 32) where
  word-GoesOn :
      (k : ℕ)
      → k < length program
      → (s : State) → GoesOn (fields (get_or (map encode program) k 0)) s
  word-GoesOn k h s =
      rw (get_or-encode program k h)
        (encode-GoesOn (get_or program k (lui 0 0)) (All-get_or _ program k (lui 0 0) ok h) s)

  line-eq :
      (k : ℕ) → k < length program → line (map encode program) k ≡ Main.line (map encode program) k
  unfolding line Main.line
  line-eq k h =
      let i = get_or program k (lui 0 0) in
      rw (get_or-encode program k h, text-encode_eq i (All-get_or _ program k (lui 0 0) ok h).0)
        refl

  lines-eq :
      (left : ℕ) (s : State)
      → s.current_i + left ≡ length program
      → lines left (map encode program) s ≡ some (Main.lines left s.current_i (map encode program))
  unfolding lines Main.lines
  lines-eq zero s e = refl
  lines-eq (suc left) s e =
      let k : ℕ = s.current_i in
      let goes = word-GoesOn k (omega arith) s in
      let f = fields (get_or (map encode program) k 0) in
      let s' = state_of (round f s) s in
      let next : s'.current_i ≡ k + 1 = omega (arith, goes.1) in
      let rest = lines-eq left s' (omega arith) in
      let inside = lt→ltb k (length (map encode program)) (omega (arith, length-encode program)) in
      rw (inside, goes.0, rest, next, line-eq k (omega arith)) refl

  program_words : All IsWord (map encode program)
  program_words = encode-words program (IsStraightProgram-IsInstr program ok)

  trace_file-eq :
      (argc : ℕ)
      → trace_file argc (write_words (map encode program)) ≡ (
          if argc == 3 || argc == 4
          then Main.list_file (write_words (map encode program))
          else Main.undefined)
  unfolding trace_file Main.list_file
  trace_file-eq argc =
      let content = write_words (map encode program) in
      let count : length content ≡ length program * 4 =
        length-write_words (map encode program) ∙ ap (λ n. n * 4) (length-encode program) in
      let whole : length content / 4 ≡ length program = omega arith in
      let words = read_written (map encode program) program_words in
      let shown = lines-eq (length program) start (omega arith) in
      let rounded =
        eq→== (length (map encode program)) ((length content + 3) / 4)
          (omega (arith, length-encode program)) in
      rw (words, rounded, whole, shown) refl

-- On the file of a program of the instructions of Isa (RV32I without FENCE, ECALL and EBREAK) other than
-- branches, `srai`, `srl` and `sra`, whose operands fit their fields and of less than 2 ^ 32 words, this
-- program ends as the disassembler of project_1/main.c does, whatever the arguments: it
-- prints the same lines.
pub main-eq :
    (program : List Instr) (argc : ℕ) (alloc : Bool)
    → IsStraightProgram program
    → length program < 2 ^ 32
    → main argc (bytes (write_words (map encode program))) alloc
      ≡ Main.main argc (bytes (write_words (map encode program))) alloc
unfolding main Main.main
main-eq program argc alloc ok small = ground (arith, trace_file-eq program ok small argc)
