-- ===== src/Strings/Meant.antt =====
-- proj2/pa2/태환.c: the values and tests of a round, against the manual's.
use f_ca.Base.{ℕ, ◌/◌, ◌%◌, ◌^◌, ◌<◌, ◌≡◌, refl, ap, arith, Bool, if◌then◌else◌, lt→ltb}
use f_ca.Word.{IsWord, shl}
use f_ca.Word.Laws.{slt_flip}
use f_ca.Machine.{Machine}
use f_ca.Isa.{RegOp, ImmOp, ShiftOp, BranchOp}
use f_ca.Isa.Meaning.{reg_value, imm_value, shift_value, holds}
use f_ca.Simulator.Refines.Values.{sar-eq-shift_signed}
use f_ca.Strings.Memory.{assign}
use f_ca.Strings.Choose.{reg_done, imm_done, shift_done, branch_test}

-- The amounts that C defines a shift by.
abbrev pub IsAmount : RegOp → ℕ → Type 0
IsAmount RegOp.sll b = b < 32
IsAmount RegOp.srl b = b < 32
IsAmount RegOp.sra b = b < 32
IsAmount _ b = Unit

pub reg_done-eq :
    (o : RegOp) (rd a b : ℕ) (m : Machine)
    → IsWord a
    → IsWord b
    → IsAmount o b
    → reg_done o rd a b m ≡ assign rd (reg_value o a b) m
unfolding reg_value
reg_done-eq RegOp.add rd a b m ha hb h = refl
reg_done-eq RegOp.sub rd a b m ha hb h = ap (λ (v : ℕ). assign rd v m) (omega arith)
reg_done-eq RegOp.sll rd a b m ha hb h =
    rw (lt→ltb b 32 h) (ap (λ (k : ℕ). assign rd (shl a k) m) (omega arith))
reg_done-eq RegOp.slt rd a b m ha hb h =
    ap (λ (c : Bool). assign rd (if c then 1 else 0) m) (slt_flip a b ha hb)
reg_done-eq RegOp.sltu rd a b m ha hb h = refl
reg_done-eq RegOp.xor rd a b m ha hb h = refl
reg_done-eq RegOp.srl rd a b m ha hb h =
    rw (lt→ltb b 32 h) (ap (λ (k : ℕ). assign rd (a / 2 ^ k) m) (omega arith))
reg_done-eq RegOp.sra rd a b m ha hb h =
    let same : b % 32 ≡ b = omega arith in
    rw (lt→ltb b 32 h, same) (ap (λ (v : ℕ). assign rd v m) (sar-eq-shift_signed a b ha h))
reg_done-eq RegOp.or rd a b m ha hb h = refl
reg_done-eq RegOp.and rd a b m ha hb h = refl

pub imm_done-eq : (o : ImmOp) (a n : ℕ) → IsWord a → IsWord n → imm_done o a n ≡ imm_value o a n
unfolding imm_value reg_value
imm_done-eq o a n ha hn = ground (arith, slt_flip a n ha hn)

pub shift_done-eq :
    (o : ShiftOp) (a k : ℕ) → IsWord a → k < 32 → shift_done o a k ≡ shift_value o a k
unfolding shift_value
shift_done-eq o a k ha hk = ground (arith, sar-eq-shift_signed a k ha hk)

pub branch_test-eq :
    (o : BranchOp) (a b : ℕ) → IsWord a → IsWord b → branch_test o a b ≡ holds o a b
unfolding holds
branch_test-eq o a b ha hb = ground (arith, slt_flip a b ha hb)
