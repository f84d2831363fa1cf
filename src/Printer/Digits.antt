-- ===== src/Printer/Digits.antt =====
-- The immediates of encoded instructions, as proj1/main.cc cuts them out.
use f_ca.Base.{ℕ, ◌+◌, ◌-◌, ◌*◌, refl, ◌/◌, ◌%◌, ◌^◌, ◌<◌, ◌≡◌, ◌∙◌, arith, ltb, if◌then◌else◌}
use f_ca.Bits.{bit_and_low, bit_or_disjoint}
use f_ca.Word.{IsWord, shl}
use f_ca.Isa.{BranchOp, LoadOp, StoreOp, jal, branch, encode, IsInstr}
use f_ca.Simulator.Arith.{raw_b, raw_j}
use f_ca.Isa.Digits.{jal_digits, branch_digits}
use f_ca.Printer.Fields.{
  Fields, jal_imm, branch_imm, lb_imm, lh_imm, lw_imm, lbu_imm, lhu_imm, store_imm, sb_imm, sh_imm,
  sw_imm, low_imm,
}
use f_ca.Printer.Agree.{signed_at, extend_3, extend_7, extend_11, extend_19, jalr_lem}

-- The offset that is printed for `jal`.
abbrev pub jal_offset : ℕ → ℕ
jal_offset v = if ltb (v % 2 ^ 20) (2 ^ 19) then v else 2 ^ 32 - 2 ^ 16 + v % 2 ^ 16

abbrev pub load_offset : LoadOp → ℕ → ℕ
load_offset LoadOp.lb n = signed_at 3 (n % 2 ^ 4)
load_offset LoadOp.lh n = signed_at 7 (n % 2 ^ 8)
load_offset LoadOp.lw n = signed_at 11 n
load_offset LoadOp.lbu n = n % 2 ^ 4
load_offset LoadOp.lhu n = n % 2 ^ 8

abbrev pub store_offset : StoreOp → ℕ → ℕ
store_offset StoreOp.sb n = signed_at 3 (n % 2 ^ 4)
store_offset StoreOp.sh n = signed_at 7 (n % 2 ^ 8)
store_offset StoreOp.sw n = signed_at 11 n

pub jal_lem : (rd n : ℕ) → IsInstr (jal rd n) → jal_imm (encode (jal rd n)) ≡ jal_offset (n * 2)
jal_lem rd n h = rw (raw_j (encode (jal rd n)), jal_digits rd n h) (extend_19 (n * 2) (omega arith))

pub branch_lem :
    (o : BranchOp) (rs1 rs2 n : ℕ)
    → IsInstr (branch o rs1 rs2 n)
    → branch_imm (encode (branch o rs1 rs2 n)) ≡ signed_at 11 (n * 2)
branch_lem o rs1 rs2 n h =
    rw (raw_b (encode (branch o rs1 rs2 n)), branch_digits o rs1 rs2 n h)
      (extend_11 (n * 2) (omega arith))

pub load_imm-eq :
    (w n : ℕ)
    → n < 2 ^ 12
    → w / 2 ^ 20 ≡ n
    → (lb_imm w ≡ load_offset LoadOp.lb n)
      × (lh_imm w ≡ load_offset LoadOp.lh n)
      × (lw_imm w ≡ load_offset LoadOp.lw n)
      × (lbu_imm w ≡ load_offset LoadOp.lbu n)
      × (lhu_imm w ≡ load_offset LoadOp.lhu n)
load_imm-eq w n h e =
    rw (e, bit_and_low 4 n, bit_and_low 8 n)
      (
        extend_3 (n % 2 ^ 4) (omega arith),
        extend_7 (n % 2 ^ 8) (omega arith),
        extend_11 n (omega arith),
        refl,
        refl,
      )

pub store_imm-eq :
    (f : Fields) (n : ℕ) → n < 2 ^ 12 → f.rd < 32 → f.funct7 * 2 ^ 5 + f.rd ≡ n → store_imm f ≡ n
store_imm-eq f n h low e =
    let high : shl f.funct7 5 ≡ f.funct7 * 2 ^ 5 = omega arith in
    rw high (bit_or_disjoint 5 f.funct7 f.rd low ∙ e)

pub store_imms-eq :
    (f : Fields) (n : ℕ)
    → n < 2 ^ 12
    → store_imm f ≡ n
    → (sb_imm f ≡ store_offset StoreOp.sb n)
      × (sh_imm f ≡ store_offset StoreOp.sh n)
      × (sw_imm f ≡ store_offset StoreOp.sw n)
store_imms-eq f n h e =
    rw (e, bit_and_low 4 n, bit_and_low 8 n)
      (
        extend_3 (n % 2 ^ 4) (omega arith),
        extend_7 (n % 2 ^ 8) (omega arith),
        extend_11 n (omega arith),
      )

pub low_imm-eq : (w n : ℕ) → n < 2 ^ 12 → IsWord w → w / 2 ^ 20 ≡ n → low_imm w ≡ signed_at 11 n
low_imm-eq w n h word e = rw (jalr_lem w word, e) (extend_11 n (omega arith))
