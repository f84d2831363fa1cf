-- ===== src/Simulator/Refines/Values.antt =====
-- The values, tests and words that the simulator computes are those of the manual.
use native.Mathlib.Nat.{
  one-le-pow, pow-suc, div-add-mod, mod-lt, mul-add-div, div-eq_of_lt, div-lt_iff_lt-mul,
}
use f_ca.Base.{
  ℕ, zero, suc, ◌+◌, ◌-◌, ◌*◌, ◌/◌, ◌%◌, ◌^◌, ◌<◌, ◌≡◌, arith, some, ap, refl, Bool-cases, ltb, inl,
  inr, not,
}
use f_ca.Bits.{bit_and_low}
use f_ca.Word.{sar, sext, IsWord}
use f_ca.Word.Laws.{slt_flip}
use f_ca.Isa.{
  RegOp, ImmOp, ShiftOp, BranchOp, reg_func3, reg_func7, imm_func3, shift_func3, shift_func7,
  branch_func3,
}
use f_ca.Isa.Meaning.{shift_signed, reg_value, imm_value, shift_value, holds}
use f_ca.Simulator.Alu.{op_imm, op_reg}
use f_ca.Simulator.Exec.{taken, not_taken}

pub two_pow_add : (k j : ℕ) → 2 ^ k * 2 ^ j ≡ 2 ^ (k + j)
two_pow_add zero j = ground arith
two_pow_add (suc k) j = ground (
  arith,
  pow-suc 2 k,
  pow-suc 2 (k + j),
  ap (λ (t : ℕ). t * 2 ^ j) (pow-suc 2 k),
  two_pow_add k j,
)

pub pow_split : (k : ℕ) → k < 32 → 2 ^ k * 2 ^ (32 - k) ≡ 2 ^ 32
pow_split k h = ground (arith, two_pow_add k (32 - k))

pub quotient : (p q r : ℕ) → r < p → (p * q + r) / p ≡ q
quotient p q r h = omega (arith, mul-add-div {m = p} (omega arith) q r, div-eq_of_lt h)

fill_ones :
    (a p q : ℕ)
    → IsWord a
    → 0 < p
    → p * q ≡ 2 ^ 32
    → 2 ^ 32 - 1 - (2 ^ 32 - 1 - a) / p ≡ a / p + (2 ^ 32 - q)
fill_ones a p q ha hp e =
    let below : a / p < q = (div-lt_iff_lt-mul hp).1 (omega arith) in
    let s : ℕ = q - a / p - 1 in
    let parts : p * q ≡ p * (a / p + 1 + s) = ap (λ (t : ℕ). p * t) (omega arith) in
    let bound : p * q ≡ (1 + (p - 1)) * q = ap (λ (t : ℕ). t * q) (omega arith) in
    let rest : 2 ^ 32 - 1 - a ≡ p * s + (p - 1 - a % p) =
      omega (arith, div-add-mod a p, mod-lt a hp) in
    let result = quotient p s (p - 1 - a % p) (omega (arith, mod-lt a hp)) in
    rw (rest, result) (omega arith)

-- The copied sign bits are a multiple of 2 ^ (32 - k) short of 2 ^ 32.
pub sar-eq-shift_signed : (a k : ℕ) → IsWord a → k < 32 → sar a k ≡ shift_signed a k
unfolding sar shift_signed
sar-eq-shift_signed a k ha hk = elim (Bool-cases (ltb a (2 ^ 31))) [
  | inl e ↦ rw e
  | inr e ↦
      rw e (fill_ones a (2 ^ k) (2 ^ (32 - k)) ha (one-le-pow k 2 (omega arith)) (pow_split k hk))
]

module _ (a b : ℕ) (ha : IsWord a) (hb : IsWord b) where
  pub op_reg-eq : (o : RegOp) → op_reg (reg_func3 o) (reg_func7 o) a b ≡ some (reg_value o a b)
  unfolding op_reg reg_value
  op_reg-eq RegOp.add = refl
  op_reg-eq RegOp.sub = ap some (omega arith)
  op_reg-eq RegOp.sll = ground (arith, bit_and_low 5 b)
  op_reg-eq RegOp.slt = ground (arith, slt_flip a b)
  op_reg-eq RegOp.srl = ground (arith, bit_and_low 5 b)
  op_reg-eq RegOp.sra = ground (arith, bit_and_low 5 b, sar-eq-shift_signed a (b % 32))
  op_reg-eq _ = refl

  pub op_imm-eq : (o : ImmOp) (func7 : ℕ) → op_imm (imm_func3 o) func7 b a ≡ some (imm_value o a b)
  unfolding op_imm imm_value reg_value
  op_imm-eq ImmOp.slti func7 = ground (arith, slt_flip a b)
  op_imm-eq _ func7 = refl

  pub taken-eq : (o : BranchOp) → branch_func3 o < 6 → taken (branch_func3 o) a b ≡ holds o a b
  unfolding taken holds
  taken-eq BranchOp.beq h = refl
  taken-eq BranchOp.bne h = refl
  taken-eq BranchOp.blt h = slt_flip a b ha hb
  taken-eq BranchOp.bge h = ground (arith, slt_flip a b)
  taken-eq BranchOp.bltu h = absurd (omega arith)
  taken-eq BranchOp.bgeu h = absurd (omega arith)

  pub not_taken-eq :
      (o : BranchOp) → branch_func3 o < 6 → not_taken (branch_func3 o) a b ≡ not (holds o a b)
  unfolding not_taken holds
  not_taken-eq BranchOp.beq h = ground arith
  not_taken-eq BranchOp.bne h = ground arith
  not_taken-eq BranchOp.blt h = ground (arith, slt_flip a b)
  not_taken-eq BranchOp.bge h = ground (arith, slt_flip a b)
  not_taken-eq BranchOp.bltu h = absurd (omega arith)
  not_taken-eq BranchOp.bgeu h = absurd (omega arith)

-- The digits of a shift immediate are its amount.
pub shift_op-eq :
    (o : ShiftOp) (a n : ℕ)
    → IsWord a
    → n < 32
    → op_imm (shift_func3 o) (shift_func7 o) (sext 12 (shift_func7 o * 32 + n)) a
      ≡ some (shift_value o a n)
unfolding op_imm shift_value sext
shift_op-eq ShiftOp.slli a n ha h = ground (arith, bit_and_low 5 n)
shift_op-eq ShiftOp.srli a n ha h = ground (arith, bit_and_low 5 n)
shift_op-eq ShiftOp.srai a n ha h =
    ground (arith, bit_and_low 5 (1024 + n), sar-eq-shift_signed a n)
