-- ===== src/Isa/Digits.antt =====
-- The digits of the offsets and immediates of encoded instructions, put back in order.
use f_ca.Base.{ℕ, ◌+◌, ◌*◌, ◌/◌, ◌%◌, ◌^◌, ◌≡◌, arith}
use f_ca.Isa.{
  ImmOp, ShiftOp, BranchOp, LoadOp, StoreOp, jal, jalr, branch, load, store, imm, shift, encode,
  IsInstr,
}
use f_ca.Isa.Bounds.{branch_func3-lt, shift_func3-lt, load_func3-lt, store_func3-lt, imm_func3-lt}

-- The digits of an encoded offset or immediate, put back in order.
pub jal_digits :
    (rd n : ℕ)
    → IsInstr (jal rd n)
    → encode (jal rd n) / 2 ^ 31 % 2 * 2 ^ 20
        + encode (jal rd n) / 2 ^ 12 % 256 * 2 ^ 12
        + encode (jal rd n) / 2 ^ 20 % 2 * 2 ^ 11
        + encode (jal rd n) / 2 ^ 21 % 1024 * 2
      ≡ n * 2
unfolding encode
jal_digits rd n h = omega arith

pub branch_digits :
    (o : BranchOp) (rs1 rs2 n : ℕ)
    → IsInstr (branch o rs1 rs2 n)
    → encode (branch o rs1 rs2 n) / 2 ^ 31 % 2 * 2 ^ 12
        + encode (branch o rs1 rs2 n) / 2 ^ 7 % 2 * 2 ^ 11
        + encode (branch o rs1 rs2 n) / 2 ^ 25 % 64 * 2 ^ 5
        + encode (branch o rs1 rs2 n) / 2 ^ 8 % 16 * 2
      ≡ n * 2
unfolding encode
branch_digits o rs1 rs2 n h = omega (arith, branch_func3-lt o)

pub jalr_digits : (rd rs1 n : ℕ) → IsInstr (jalr rd rs1 n) → encode (jalr rd rs1 n) / 2 ^ 20 ≡ n
unfolding encode
jalr_digits rd rs1 n h = omega arith

pub load_digits :
    (o : LoadOp) (rd rs1 n : ℕ) → IsInstr (load o rd rs1 n) → encode (load o rd rs1 n) / 2 ^ 20 ≡ n
unfolding encode
load_digits o rd rs1 n h = omega (arith, load_func3-lt o)

pub imm_digits :
    (o : ImmOp) (rd rs1 n : ℕ) → IsInstr (imm o rd rs1 n) → encode (imm o rd rs1 n) / 2 ^ 20 ≡ n
unfolding encode
imm_digits o rd rs1 n h = omega (arith, imm_func3-lt o)

pub store_digits :
    (o : StoreOp) (rs2 rs1 n : ℕ)
    → IsInstr (store o rs2 rs1 n)
    → encode (store o rs2 rs1 n) / 2 ^ 25 * 2 ^ 5 + encode (store o rs2 rs1 n) / 2 ^ 7 % 32 ≡ n
unfolding encode
store_digits o rs2 rs1 n h = omega (arith, store_func3-lt o)

pub shift_digits :
    (o : ShiftOp) (rd rs1 n : ℕ)
    → IsInstr (shift o rd rs1 n)
    → encode (shift o rd rs1 n) / 2 ^ 20 % 32 ≡ n
unfolding encode
shift_digits o rd rs1 n h = omega (arith, shift_func3-lt o)
