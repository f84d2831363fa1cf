-- ===== src/Printer/Right.antt =====
-- For which instructions proj1/main.cc prints their assembly.
use f_ca.Base.{ℕ, ◌+◌, ◌*◌, ◌%◌, ◌^◌, ◌≤◌, ◌<◌, ◌≡◌, ◌⊎◌, ◌↔◌, arith}
use f_ca.Word.{sext}
use f_ca.Isa.{
  LoadOp, StoreOp, Instr, lui, auipc, jal, jalr, branch, load, store, imm, shift, reg, encode,
  IsInstr,
}
use f_ca.Disassembler.Listing.{assembly}
use f_ca.Printer.Fields.{fields}
use f_ca.Printer.Text.{text}
use f_ca.Printer.Agree.{signed_at}
use f_ca.Printer.Digits.{jal_offset}
use f_ca.Printer.Listing.{printed_as, text-printed_as}

-- The immediates that come out right: `n` counts half words in `jal` and `branch`.
abbrev pub IsListed : Instr → Type 0
IsListed (jal rd n) = (n < 2 ^ 18) ⊎ (2 ^ 20 ≤ n + 2 ^ 15)
IsListed (jalr rd rs1 n) = n < 2 ^ 11
IsListed (branch o rs1 rs2 n) = (n < 2 ^ 10) ⊎ (2 ^ 12 ≤ n + 2 ^ 10)
IsListed (load LoadOp.lb rd rs1 n) = (n < 8) ⊎ (2 ^ 12 ≤ n + 8)
IsListed (load LoadOp.lh rd rs1 n) = (n < 128) ⊎ (2 ^ 12 ≤ n + 128)
IsListed (load LoadOp.lbu rd rs1 n) = n < 16
IsListed (load LoadOp.lhu rd rs1 n) = n < 256
IsListed (store StoreOp.sb rs2 rs1 n) = (n < 8) ⊎ (2 ^ 12 ≤ n + 8)
IsListed (store StoreOp.sh rs2 rs1 n) = (n < 128) ⊎ (2 ^ 12 ≤ n + 128)
IsListed _ = Unit

pub signed_12 : (n : ℕ) → n < 2 ^ 12 → signed_at 11 n ≡ sext 12 n
unfolding signed_at sext
signed_12 n h = ground arith

signed_4 :
    (n : ℕ) → n < 2 ^ 12 → (signed_at 3 (n % 2 ^ 4) ≡ sext 12 n) ↔ ((n < 8) ⊎ (2 ^ 12 ≤ n + 8))
unfolding signed_at sext
signed_4 n h = ground arith

signed_8 :
    (n : ℕ) → n < 2 ^ 12 → (signed_at 7 (n % 2 ^ 8) ≡ sext 12 n) ↔ ((n < 128) ⊎ (2 ^ 12 ≤ n + 128))
unfolding signed_at sext
signed_8 n h = ground arith

unsigned_lem : (n k : ℕ) → n < 2 ^ 12 → (k ≡ 2 ^ 4) ⊎ (k ≡ 2 ^ 8) → (n % k ≡ sext 12 n) ↔ (n < k)
unfolding sext
unsigned_lem n k h e = ground arith

pub whole_lem : (n : ℕ) → n < 2 ^ 12 → (n ≡ sext 12 n) ↔ (n < 2 ^ 11)
unfolding sext
whole_lem n h = ground arith

pub branch_iff :
    (n : ℕ)
    → n < 2 ^ 12
    → (signed_at 11 (n * 2) ≡ sext 13 (n * 2)) ↔ ((n < 2 ^ 10) ⊎ (2 ^ 12 ≤ n + 2 ^ 10))
unfolding signed_at sext
branch_iff n h = ground arith

pub jal_iff :
    (n : ℕ)
    → n < 2 ^ 20
    → (jal_offset (n * 2) ≡ sext 21 (n * 2)) ↔ ((n < 2 ^ 18) ⊎ (2 ^ 20 ≤ n + 2 ^ 15))
unfolding sext
jal_iff n h = ground arith

printed_as-eq_iff : (i : Instr) → IsInstr i → (printed_as i ≡ assembly i) ↔ IsListed i
printed_as-eq_iff (lui rd n) h = ground arith
printed_as-eq_iff (auipc rd n) h = ground arith
printed_as-eq_iff (jal rd n) h = ground (arith, jal_iff n h.1)
printed_as-eq_iff (jalr rd rs1 n) h = ground (arith, whole_lem n h.2)
printed_as-eq_iff (branch o rs1 rs2 n) h = ground (arith, branch_iff n h.2)
printed_as-eq_iff (load LoadOp.lb rd rs1 n) h = ground (arith, signed_4 n h.2)
printed_as-eq_iff (load LoadOp.lh rd rs1 n) h = ground (arith, signed_8 n h.2)
printed_as-eq_iff (load LoadOp.lw rd rs1 n) h = ground (arith, signed_12 n h.2)
printed_as-eq_iff (load LoadOp.lbu rd rs1 n) h = ground (arith, unsigned_lem n (2 ^ 4) h.2)
printed_as-eq_iff (load LoadOp.lhu rd rs1 n) h = ground (arith, unsigned_lem n (2 ^ 8) h.2)
printed_as-eq_iff (store StoreOp.sb rs2 rs1 n) h = ground (arith, signed_4 n h.2)
printed_as-eq_iff (store StoreOp.sh rs2 rs1 n) h = ground (arith, signed_8 n h.2)
printed_as-eq_iff (store StoreOp.sw rs2 rs1 n) h = ground (arith, signed_12 n h.2)
printed_as-eq_iff (imm o rd rs1 n) h = ground (arith, signed_12 n h.2)
printed_as-eq_iff (shift o rd rs1 n) h = ground arith
printed_as-eq_iff (reg o rd rs1 rs2) h = ground arith

-- For each of the 37 instructions of Isa (RV32I without FENCE, ECALL and EBREAK), with operands that
-- fit their fields, the text of its encoding is its
-- assembly exactly when its immediate is one of those that come out right.
pub text-eq_iff : (i : Instr) → IsInstr i → (text (fields (encode i)) ≡ assembly i) ↔ IsListed i
text-eq_iff i h = rw (text-printed_as i h) (printed_as-eq_iff i h)
