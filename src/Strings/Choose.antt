-- ===== src/Strings/Choose.antt =====
-- proj2/pa2/태환.c: which branch of a round an instruction's strings select.
use f_ca.Base.{
  Bool, ℕ, ◌≡◌, refl, ◌∷◌, [], ◌++◌, bit_and, bit_or, bit_xor, ltb, leb, ◌==◌, not, if◌then◌else◌,
  update,
}
use f_ca.Word.{add32, sub32, shl, shr, sar, slt}
use f_ca.Machine.{Machine, Outcome, next}
use f_ca.Isa.{
  RegOp, ImmOp, ShiftOp, BranchOp, reg_func3, reg_func7, imm_func3, shift_func3, shift_func7,
  branch_func3,
}
use f_ca.Strings.Blocks.{nibble_digit, spelled, signedbintodec, unsignedbintodec}
use f_ca.Strings.Cut.{Parts, equal}
use f_ca.Strings.Memory.{assign, load_word, store_word}
use f_ca.Strings.Exec.{
  reg_arith, imm_arith, branches, jump_register, turn, loads, stores, execute, shifted, flag,
}

-- What the branch of an operation does.
abbrev pub reg_done : RegOp → (rd a b : ℕ) → Machine → Outcome
reg_done RegOp.add rd a b = assign rd (add32 a b)
reg_done RegOp.sub rd a b = assign rd (sub32 a b)
reg_done RegOp.sll rd a b = shifted b rd (shl a b)
reg_done RegOp.slt rd a b = assign rd (flag (slt a b))
reg_done RegOp.sltu rd a b = assign rd (flag (ltb a b))
reg_done RegOp.xor rd a b = assign rd (bit_xor a b)
reg_done RegOp.srl rd a b = shifted b rd (shr a b)
reg_done RegOp.sra rd a b = shifted b rd (sar a b)
reg_done RegOp.or rd a b = assign rd (bit_or a b)
reg_done RegOp.and rd a b = assign rd (bit_and a b)

abbrev pub imm_done : ImmOp → (a n : ℕ) → ℕ
imm_done ImmOp.addi a n = add32 a n
imm_done ImmOp.slti a n = flag (slt a n)
imm_done ImmOp.sltiu a n = flag (ltb a n)
imm_done ImmOp.xori a n = bit_xor a n
imm_done ImmOp.ori a n = bit_or a n
imm_done ImmOp.andi a n = bit_and a n

abbrev pub shift_done : ShiftOp → (a k : ℕ) → ℕ
shift_done ShiftOp.slli a k = shl a k
shift_done ShiftOp.srli a k = shr a k
shift_done ShiftOp.srai a k = sar a k

abbrev pub branch_test : BranchOp → (a b : ℕ) → Bool
branch_test BranchOp.beq a b = a == b
branch_test BranchOp.bne a b = not (a == b)
branch_test BranchOp.blt a b = slt a b
branch_test BranchOp.bge a b = not (slt a b)
branch_test BranchOp.bltu a b = ltb a b
branch_test BranchOp.bgeu a b = leb b a

module _ (f : Parts) (m : Machine) where
  pub reg_arith-at :
      (o : RegOp) (rd a b : ℕ)
      → f.func3 ≡ spelled 3 (reg_func3 o)
      → f.func7 ≡ spelled 7 (reg_func7 o)
      → reg_arith f rd a b m ≡ reg_done o rd a b m
  unfolding reg_arith equal spelled nibble_digit
  reg_arith-at RegOp.add rd a b e3 e7 = rw (e3, e7) refl
  reg_arith-at RegOp.sub rd a b e3 e7 = rw (e3, e7) refl
  reg_arith-at RegOp.sll rd a b e3 e7 = rw (e3) refl
  reg_arith-at RegOp.slt rd a b e3 e7 = rw (e3) refl
  reg_arith-at RegOp.sltu rd a b e3 e7 = rw (e3) refl
  reg_arith-at RegOp.xor rd a b e3 e7 = rw (e3) refl
  reg_arith-at RegOp.srl rd a b e3 e7 = rw (e3, e7) refl
  reg_arith-at RegOp.sra rd a b e3 e7 = rw (e3, e7) refl
  reg_arith-at RegOp.or rd a b e3 e7 = rw (e3) refl
  reg_arith-at RegOp.and rd a b e3 e7 = rw (e3) refl

  pub imm_arith-at :
      (o : ImmOp) (rd a n : ℕ)
      → f.func3 ≡ spelled 3 (imm_func3 o)
      → imm_arith f rd a n m ≡ assign rd (imm_done o a n) m
  unfolding imm_arith equal spelled nibble_digit
  imm_arith-at ImmOp.addi rd a n e3 = rw e3 refl
  imm_arith-at ImmOp.slti rd a n e3 = rw e3 refl
  imm_arith-at ImmOp.sltiu rd a n e3 = rw e3 refl
  imm_arith-at ImmOp.xori rd a n e3 = rw e3 refl
  imm_arith-at ImmOp.ori rd a n e3 = rw e3 refl
  imm_arith-at ImmOp.andi rd a n e3 = rw e3 refl

  pub shift-at :
      (o : ShiftOp) (rd a n : ℕ)
      → f.func3 ≡ spelled 3 (shift_func3 o)
      → f.func7 ≡ spelled 7 (shift_func7 o)
      → imm_arith f rd a n m ≡ assign rd (shift_done o a (unsignedbintodec f.shamtstr)) m
  unfolding imm_arith equal spelled nibble_digit
  shift-at ShiftOp.slli rd a n e3 e7 = rw (e3) refl
  shift-at ShiftOp.srli rd a n e3 e7 = rw (e3, e7) refl
  shift-at ShiftOp.srai rd a n e3 e7 = rw (e3, e7) refl

  pub branches-at :
      (o : BranchOp) (a b n : ℕ)
      → f.func3 ≡ spelled 3 (branch_func3 o)
      → branches f a b n m ≡ (if branch_test o a b then turn n m else next m)
  unfolding branches equal spelled nibble_digit
  branches-at BranchOp.beq a b n e3 = rw e3 refl
  branches-at BranchOp.bne a b n e3 = rw e3 refl
  branches-at BranchOp.blt a b n e3 = rw e3 refl
  branches-at BranchOp.bge a b n e3 = rw e3 refl
  branches-at BranchOp.bltu a b n e3 = rw e3 refl
  branches-at BranchOp.bgeu a b n e3 = rw e3 refl

  pub stores-word :
      (v address : ℕ) → f.func3 ≡ spelled 3 0b010 → stores f v address m ≡ store_word v address m
  unfolding stores equal spelled nibble_digit
  stores-word v address e3 = rw e3 refl

  module _ (fresh : ℕ → ℕ) where
    pub loads-word :
        (rd address : ℕ)
        → f.func3 ≡ spelled 3 0b010
        → loads fresh f rd address m ≡ load_word fresh rd address m
    unfolding loads equal spelled nibble_digit
    loads-word rd address e3 = rw e3 refl

    module _ (rs1 rs2 rd : ℕ) where
      pub execute-reg :
          f.opcode ≡ spelled 7 0x33
          → execute fresh f rs1 rs2 rd m ≡ reg_arith f rd (m.reg rs1) (m.reg rs2) m
      unfolding execute equal spelled nibble_digit
      execute-reg e = rw e refl

      pub execute-load :
          f.opcode ≡ spelled 7 0x03
          → execute fresh f rs1 rs2 rd m
            ≡ loads fresh f rd (add32 (m.reg rs1) (signedbintodec f.imm11_0)) m
      unfolding execute equal spelled nibble_digit
      execute-load e = rw e refl

      pub execute-jalr :
          f.opcode ≡ spelled 7 0x67
          → f.func3 ≡ spelled 3 0
          → execute fresh f rs1 rs2 rd m ≡ jump_register rd rs1 (signedbintodec f.imm11_0) m
      unfolding execute equal spelled nibble_digit
      execute-jalr e e3 = rw (e, e3) refl

      pub execute-imm :
          f.opcode ≡ spelled 7 0x13
          → execute fresh f rs1 rs2 rd m ≡ imm_arith f rd (m.reg rs1) (signedbintodec f.imm11_0) m
      unfolding execute equal spelled nibble_digit
      execute-imm e = rw e refl

      pub execute-store :
          f.opcode ≡ spelled 7 0x23
          → execute fresh f rs1 rs2 rd m
            ≡ stores f (m.reg rs2) (add32 (m.reg rs1) (signedbintodec (f.imm11_5 ++ f.imm4_0))) m
      unfolding execute equal spelled nibble_digit
      execute-store e = rw e refl

      pub execute-branch :
          f.opcode ≡ spelled 7 0x63
          → execute fresh f rs1 rs2 rd m
            ≡ branches f
                (m.reg rs1)
                (m.reg rs2)
                (signedbintodec (f.imm12 ++ f.imm11_24 ++ f.imm10_5 ++ f.imm4_1 ++ 48 ∷ []))
                m
      unfolding execute equal spelled nibble_digit
      execute-branch e = rw e refl

      pub execute-jal :
          f.opcode ≡ spelled 7 0x6F
          → execute fresh f rs1 rs2 rd m
            ≡ turn
                (signedbintodec (f.imm20 ++ f.imm19_12 ++ f.imm11_11 ++ f.imm10_1 ++ 48 ∷ []))
                (record m { reg = update m.reg rd (add32 m.pc 4) })
      unfolding execute equal spelled nibble_digit
      execute-jal e = rw e refl

      pub execute-lui :
          f.opcode ≡ spelled 7 0x37
          → execute fresh f rs1 rs2 rd m ≡ assign rd (shl (unsignedbintodec f.imm31_12) 12) m
      unfolding execute equal spelled nibble_digit
      execute-lui e = rw e refl

      pub execute-auipc :
          f.opcode ≡ spelled 7 0x17
          → execute fresh f rs1 rs2 rd m
            ≡ assign rd (add32 m.pc (shl (unsignedbintodec f.imm31_12) 12)) m
      unfolding execute equal spelled nibble_digit
      execute-auipc e = rw e refl
