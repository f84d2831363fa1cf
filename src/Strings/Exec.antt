-- ===== src/Strings/Exec.antt =====
-- proj2/pa2/태환.c: one round of the loop of `main`, and the loop.
use f_ca.Base.{
  Option, some, none, ℕ, zero, suc, ◌/◌, Bool, ◌&&◌, ◌||◌, not, List, [], ◌∷◌, ◌++◌, ltb, leb, ◌==◌,
  if◌then◌else◌, update, bit_and, bit_or, bit_xor,
}
use f_ca.Word.{add32, sub32, shl, shr, sar, slt}
use f_ca.Machine.{Machine, Outcome, next, fails, fault, ◌>>=◌}
use f_ca.Strings.Blocks.{spelled, signedbintodec, unsignedbintodec}
use f_ca.Strings.Cut.{Parts, cut, equal, is_opcode, is_func3, is_func7}
use f_ca.Strings.Memory.{
  assign, refuse, load_byte, load_half, load_word, load_byte_unsigned, load_half_unsigned,
  store_byte, store_half, store_word,
}

-- A comparison as an `int`.
abbrev pub flag : Bool → ℕ
flag b = if b then 1 else 0

-- Where the amount of a shift by a register is not below 32, C leaves the result undefined.
abbrev pub shifted : ℕ → ℕ → ℕ → Machine → Outcome
shifted amount rd v m = if ltb amount 32 then assign rd v m else fault

-- opcode "0110011"
unfoldable pub reg_arith : Parts → (rd a b : ℕ) → Machine → Outcome
reg_arith f rd a b m =
    if is_func3 f 0b000 && is_func7 f 0b0000000
    then assign rd (add32 a b) m
    else if is_func3 f 0b000 && is_func7 f 0b0100000
    then assign rd (sub32 a b) m
    else if is_func3 f 0b001
    then shifted b rd (shl a b) m
    else if is_func3 f 0b010
    then assign rd (flag (slt a b)) m
    else if is_func3 f 0b011
    then assign rd (flag (ltb a b)) m
    else if is_func3 f 0b100
    then assign rd (bit_xor a b) m
    else if is_func3 f 0b101 && is_func7 f 0b0000000
    then shifted b rd (shr a b) m
    else if is_func3 f 0b101 && is_func7 f 0b0100000
    then shifted b rd (sar a b) m
    else if is_func3 f 0b110
    then assign rd (bit_or a b) m
    else if is_func3 f 0b111
    then assign rd (bit_and a b) m
    else next m

-- opcode "0010011"
unfoldable pub imm_arith : Parts → (rd a n : ℕ) → Machine → Outcome
imm_arith f rd a n m =
    let shamt = unsignedbintodec f.shamtstr in
    if is_func3 f 0b000
    then assign rd (add32 a n) m
    else if is_func3 f 0b010
    then assign rd (flag (slt a n)) m
    else if is_func3 f 0b011
    then assign rd (flag (ltb a n)) m
    else if is_func3 f 0b100
    then assign rd (bit_xor a n) m
    else if is_func3 f 0b110
    then assign rd (bit_or a n) m
    else if is_func3 f 0b111
    then assign rd (bit_and a n) m
    else if is_func3 f 0b001
    then assign rd (shl a shamt) m
    else if is_func3 f 0b101 && is_func7 f 0b0000000
    then assign rd (shr a shamt) m
    else if is_func3 f 0b101 && is_func7 f 0b0100000
    then assign rd (sar a shamt) m
    else next m

-- PC += imm-4
abbrev pub turn : ℕ → Machine → Outcome
turn n m = next (record m { pc = add32 m.pc (sub32 n 4) })

-- opcode "1100011"
unfoldable pub branches : Parts → (a b n : ℕ) → Machine → Outcome
branches f a b n m =
    if is_func3 f 0b000
    then (if a == b then turn n m else next m)
    else if is_func3 f 0b001
    then (if not (a == b) then turn n m else next m)
    else if is_func3 f 0b100
    then (if slt a b then turn n m else next m)
    else if is_func3 f 0b101
    then (if not (slt a b) then turn n m else next m)
    else if is_func3 f 0b110
    then (if ltb a b then turn n m else next m)
    else if is_func3 f 0b111
    then (if leb b a then turn n m else next m)
    else next m

-- `registers[rd] = PC+4; PC = registers[rs1] + imm-4;`, where the register is read after the write.
unfoldable pub jump_register : (rd rs1 n : ℕ) → Machine → Outcome
jump_register rd rs1 n m =
    let reg = update m.reg rd (add32 m.pc 4) in
    next (record m { reg = reg; pc = add32 (reg rs1) (sub32 n 4) })

-- if(r == 0) registers[r] = 0;
abbrev pub reset : ℕ → Machine → Machine
reset r m = if r == 0 then record m { reg = update m.reg r 0 } else m

-- The end of a round.
unfoldable pub finish : (rs1 rs2 rd : ℕ) → Machine → Outcome
finish rs1 rs2 rd m =
    let kept = reset rd (reset rs2 (reset rs1 m)) in next (record kept { pc = add32 kept.pc 4 })

-- opcode "0100011"
unfoldable pub stores : Parts → (v address : ℕ) → Machine → Outcome
stores f v address m =
    if is_func3 f 0b000
    then store_byte v address m
    else if is_func3 f 0b001
    then store_half v address m
    else if is_func3 f 0b010
    then store_word v address m
    else next m

module _ (fresh : ℕ → ℕ) where
  -- opcode "0000011"
  unfoldable pub loads : Parts → (rd address : ℕ) → Machine → Outcome
  loads f rd address m =
      if is_func3 f 0b000
      then load_byte fresh rd address m
      else if is_func3 f 0b001
      then load_half fresh rd address m
      else if is_func3 f 0b010
      then load_word fresh rd address m
      else if is_func3 f 0b100
      then load_byte_unsigned fresh rd address m
      else if is_func3 f 0b101
      then load_half_unsigned fresh rd address m
      else next m

  -- The strings compared, the operands read, and the branch of the opcode.
  unfoldable pub execute : Parts → (rs1 rs2 rd : ℕ) → Machine → Outcome
  execute f rs1 rs2 rd m =
      let a = m.reg rs1 in
      let b = m.reg rs2 in
      let imm = signedbintodec f.imm11_0 in
      if is_opcode f 0b0110011
      then reg_arith f rd a b m
      else if is_opcode f 0b0000011
      then loads f rd (add32 a imm) m
      else if is_opcode f 0b1100111
      then (if is_func3 f 0b000 then jump_register rd rs1 imm m else next m)
      else if is_opcode f 0b0010011
      then imm_arith f rd a imm m
      else if is_opcode f 0b0100011
      then stores f b (add32 a (signedbintodec (f.imm11_5 ++ f.imm4_0))) m
      else if is_opcode f 0b1100011
      then branches f a b
          (signedbintodec (f.imm12 ++ f.imm11_24 ++ f.imm10_5 ++ f.imm4_1 ++ 48 ∷ [])) m
      else if is_opcode f 0b1101111
      then turn (signedbintodec (f.imm20 ++ f.imm19_12 ++ f.imm11_11 ++ f.imm10_1 ++ 48 ∷ []))
          (record m { reg = update m.reg rd (add32 m.pc 4) })
      else if is_opcode f 0b0110111
      then assign rd (shl (unsignedbintodec f.imm31_12) 12) m
      else if is_opcode f 0b0010111
      then assign rd (add32 m.pc (shl (unsignedbintodec f.imm31_12) 12)) m
      else next m

  -- One round, where `inst` is `Inst_Memory[PC/4]`; it ends by `fails` where the code has `break`.
  unfoldable pub round : List ℕ → Machine → Outcome
  round inst m =
      let f = cut inst in
      let rs1 = unsignedbintodec f.rs1str in
      let rs2 = unsignedbintodec f.rs2str in
      let rd = unsignedbintodec f.rdstr in
      if slt m.pc 0 || slt 16384 m.pc
      then refuse m
      else if equal inst (spelled 32 0xFFFFFFFF)
      then fails m
      else execute f rs1 rs2 rd m >>= finish rs1 rs2 rd

  -- `n` rounds.
  unfoldable pub run : ℕ → (ℕ → List ℕ) → Machine → Outcome
  run zero inst_memory m = next m
  run (suc n) inst_memory m = round (inst_memory (m.pc / 4)) m >>= λ m'. run n inst_memory m'

-- After the loop, whichever way it ends, the registers are printed.
abbrev pub printed : Outcome → Option Machine
printed (next m) = some m
printed (fails m) = some m
printed fault = none
