-- ===== src/BigEndian/Compute.antt =====
-- The instructions of proj2/my_project/ekdus.c that compute a value, on encoded instructions.
use f_ca.Base.{ℕ, ◌+◌, ◌*◌, ◌/◌, ◌%◌, ◌^◌, ◌≡◌, ◌≢◌, ap, ◌∙◌, arith, bit_and}
use f_ca.Bits.{bit_and_low}
use f_ca.Word.{shl, sar, sext}
use f_ca.Word.Laws.{slt_flip, sext-IsWord}
use f_ca.Machine.{Machine, next}
use f_ca.Isa.{RegOp, ImmOp, ShiftOp, lui, auipc, imm, shift, reg, encode, IsInstr}
use f_ca.Isa.Bounds.{encode-IsWord}
use f_ca.Isa.Meaning.{reg_value, imm_value, shift_value}
use f_ca.Simulator.Arith.{decode-IsDecoded}
use f_ca.Simulator.Roundtrip.{decode-encode}
use f_ca.Simulator.Refines.Values.{sar-eq-shift_signed}
use f_ca.Isa.Digits.{imm_digits, shift_digits}
use f_ca.Disassembler.Listing.{sext_low}
use f_ca.BigEndian.Store.{sign, update_regi}
use f_ca.BigEndian.Fields.{fields}
use f_ca.BigEndian.Exec.{advance, imm_arith, arithmetic, low_imm, execute_inst}
use f_ca.BigEndian.Laws.{sign_12}
use f_ca.BigEndian.Digits.{fields-IsCut, upper_imm-eq, low_imm-eq}
use f_ca.BigEndian.Faithful.{Fits}

module _ (m : Machine) (fits : Fits m) where
  pub lui-eq :
      (rd n : ℕ)
      → IsInstr (lui rd n)
      → execute_inst (encode (lui rd n)) m ≡ next (advance (update_regi rd (n * 2 ^ 12) m))
  unfolding execute_inst
  lui-eq rd n h =
      let i = lui rd n in
      let w = encode-IsWord i h in
      ground (
        arith,
        decode-encode i h,
        decode-IsDecoded (encode i) w,
        fields-IsCut (encode i),
        upper_imm-eq (encode i) w,
      )

  pub auipc-eq :
      (rd n : ℕ)
      → IsInstr (auipc rd n)
      → execute_inst (encode (auipc rd n)) m
        ≡ next (advance (update_regi rd ((m.pc + n * 2 ^ 12) % 2 ^ 32) m))
  unfolding execute_inst
  auipc-eq rd n h =
      let i = auipc rd n in
      let w = encode-IsWord i h in
      ground (
        arith,
        decode-encode i h,
        decode-IsDecoded (encode i) w,
        fields-IsCut (encode i),
        upper_imm-eq (encode i) w,
      )

  pub imm-eq :
      (o : ImmOp) (rd rs1 n : ℕ)
      → IsInstr (imm o rd rs1 n)
      → o ≢ ImmOp.sltiu
      → execute_inst (encode (imm o rd rs1 n)) m
        ≡ next (advance (update_regi rd (imm_value o (m.reg rs1) (sext 12 n)) m))
  unfolding execute_inst imm_arith imm_value reg_value
  imm-eq o rd rs1 n h other =
      let i = imm o rd rs1 n in
      let w = encode-IsWord i h in
      let value : low_imm (fields (encode i)) ≡ sext 12 n =
        low_imm-eq (encode i) w ∙ ap (λ v. sign v 12) (imm_digits o rd rs1 n h) ∙ sign_12 n h.2 in
      ground (
        arith,
        decode-encode i h,
        decode-IsDecoded (encode i) w,
        fields-IsCut (encode i),
        value,
        slt_flip (m.reg rs1) (sext 12 n) (fits.reg_word rs1) (sext-IsWord 12 n (omega arith) h.2),
      )

  pub shift-eq :
      (o : ShiftOp) (rd rs1 n : ℕ)
      → IsInstr (shift o rd rs1 n)
      → execute_inst (encode (shift o rd rs1 n)) m
        ≡ next (advance (update_regi rd (shift_value o (m.reg rs1) n) m))
  unfolding execute_inst imm_arith shift_value
  shift-eq o rd rs1 n h =
      let i = shift o rd rs1 n in
      let f = fields (encode i) in
      let w = encode-IsWord i h in
      let a : ℕ = m.reg rs1 in
      let amount : bit_and f.rs2 0x1F ≡ n =
        omega
          (arith, bit_and_low 5 f.rs2, (fields-IsCut (encode i)).rs2, shift_digits o rd rs1 n h) in
      let amount' : bit_and (low_imm f) 0x1F ≡ n = omega (
        arith,
        bit_and_low 5 (low_imm f),
        low_imm-eq (encode i) w,
        sign_12 (encode i / 2 ^ 20) (omega arith),
        sext_low (encode i / 2 ^ 20) (omega arith),
        shift_digits o rd rs1 n h,
      ) in
      ground (
        arith,
        decode-encode i h,
        decode-IsDecoded (encode i) w,
        fields-IsCut (encode i),
        amount,
        amount',
        ap (λ (k : ℕ). 2 ^ k) amount,
        ap (λ (k : ℕ). shl a k) amount',
        ap (λ (k : ℕ). sar a k) amount,
        sar-eq-shift_signed a n (fits.reg_word rs1) h.2,
      )

  pub reg-eq :
      (o : RegOp) (rd rs1 rs2 : ℕ)
      → IsInstr (reg o rd rs1 rs2)
      → o ≢ RegOp.sltu
      → execute_inst (encode (reg o rd rs1 rs2)) m
        ≡ next (advance (update_regi rd (reg_value o (m.reg rs1) (m.reg rs2)) m))
  unfolding execute_inst arithmetic reg_value
  reg-eq o rd rs1 rs2 h other =
      let i = reg o rd rs1 rs2 in
      let w = encode-IsWord i h in
      let b : ℕ = m.reg rs2 in
      ground (
        arith,
        decode-encode i h,
        decode-IsDecoded (encode i) w,
        fields-IsCut (encode i),
        fits.reg_word rs1,
        fits.reg_word rs2,
        bit_and_low 5 b,
        slt_flip (m.reg rs1) b (fits.reg_word rs1) (fits.reg_word rs2),
        sar-eq-shift_signed (m.reg rs1) (b % 32) (fits.reg_word rs1),
      )
