-- ===== src/Indexed/Refines.antt =====
-- A round of proj2/pa2/제출1.cc on an encoded instruction, against the manual.
use native.Mathlib.Nat.{one-le-pow, mul_comm, mod-eq_of_lt, div-lt_iff_lt-mul}
use f_ca.Base.{ℕ, ◌+◌, ◌-◌, ◌*◌, ◌/◌, ◌%◌, ◌^◌, ◌<◌, ◌≡◌, ◌≢◌, ap, ◌∙◌, arith, some, bit_and, ltb}
use f_ca.Bits.{bit_and_low}
use f_ca.Word.{IsWord, shl, shr, sar, slt, sext}
use f_ca.Word.Laws.{slt_flip, sext-IsWord}
use f_ca.Isa.{RegOp, ImmOp, ShiftOp, BranchOp, LoadOp, StoreOp, Instr, lui, auipc, encode, IsInstr}
use f_ca.Isa
use f_ca.Isa.Bounds.{encode-IsWord}
use f_ca.Isa.Meaning.{reg_value, imm_value, shift_value}
use f_ca.Simulator.Arith.{decode-IsDecoded}
use f_ca.Simulator.Roundtrip.{decode-encode}
use f_ca.Printer.Fields.{fields}
use f_ca.Printer.Agree.{fields-IsCut, upper_lem}
use f_ca.Isa.Digits.{imm_digits, shift_digits}
use f_ca.Printer.Digits.{low_imm-eq}
use f_ca.Printer.Right.{signed_12}
use f_ca.Simulator.Refines.Values.{sar-eq-shift_signed, pow_split}
use f_ca.Tracer.Values.{ones_lem}
use f_ca.Indexed.State.{State, Flags}
use f_ca.Indexed.Exec.{execute, round, imm_arith, reg_arith}
use f_ca.Indexed.Valid.{IsState, read, written, read-IsWord}

-- The mask of `srli` leaves what the shift leaves.
masked_lem :
    (a k : ℕ) → IsWord a → 0 < k → k < 32 → bit_and (shr a k) (shr 0x7FFFFFFF (k - 1)) ≡ a / 2 ^ k
masked_lem a k h lo hi =
    let positive : 0 < 2 ^ k = one-le-pow k 2 (omega arith) in
    let below : a / 2 ^ k < 2 ^ (32 - k) =
      (div-lt_iff_lt-mul positive).1
        (omega (arith, pow_split k hi, mul_comm (2 ^ (32 - k)) (2 ^ k))) in
    let ones : shr 0x7FFFFFFF (k - 1) ≡ 2 ^ (32 - k) - 1 = unfold sar in ones_lem k lo hi in
    rw ones (bit_and_low (32 - k) (a / 2 ^ k) ∙ mod-eq_of_lt below)

-- Where the registers of a computing instruction give what the manual says.
abbrev pub IsComputed : RegOp → ℕ → ℕ → Type 0
IsComputed RegOp.sll a b = b % 2 ^ 7 < 32
IsComputed RegOp.slt a b = slt a b ≡ ltb a b
IsComputed RegOp.sltu a b = ⊥
IsComputed _ a b = Unit

module _ (flags : Flags) (s : State) (valid : IsState s) where
  pub lui-eq :
      (rd n : ℕ)
      → IsInstr (lui rd n)
      → round flags (fields (encode (lui rd n))) s ≡ some (written rd (n * 2 ^ 12) s)
  unfolding round execute
  lui-eq rd n h =
      let i = lui rd n in
      let w = encode-IsWord i h in
      ground (
        arith,
        decode-encode i h,
        decode-IsDecoded (encode i) w,
        fields-IsCut (encode i),
        upper_lem (encode i) w,
      )

  pub auipc-eq :
      (rd n : ℕ)
      → IsInstr (auipc rd n)
      → round flags (fields (encode (auipc rd n))) s
        ≡ some (written rd ((s.curr_i * 4 + n * 2 ^ 12) % 2 ^ 32) s)
  unfolding round execute
  auipc-eq rd n h =
      let i = auipc rd n in
      let w = encode-IsWord i h in
      ground (
        arith,
        decode-encode i h,
        decode-IsDecoded (encode i) w,
        fields-IsCut (encode i),
        upper_lem (encode i) w,
      )

  pub imm-eq :
      (o : ImmOp) (rd rs1 n : ℕ)
      → IsInstr (Isa.imm o rd rs1 n)
      → o ≢ ImmOp.sltiu
      → round flags (fields (encode (Isa.imm o rd rs1 n))) s
        ≡ some (written rd (imm_value o (read s rs1) (sext 12 n)) s)
  unfolding round execute imm_arith imm_value reg_value
  imm-eq o rd rs1 n h other =
      let i = Isa.imm o rd rs1 n in
      let w = encode-IsWord i h in
      ground (
        arith,
        decode-encode i h,
        decode-IsDecoded (encode i) w,
        fields-IsCut (encode i),
        low_imm-eq (encode i) n h.2 w (imm_digits o rd rs1 n h),
        signed_12 n h.2,
        slt_flip (read s rs1) (sext 12 n) (read-IsWord s valid rs1)
            (sext-IsWord 12 n (omega arith) h.2),
      )

  pub shift-eq :
      (o : ShiftOp) (rd rs1 n : ℕ)
      → IsInstr (Isa.shift o rd rs1 n)
      → 0 < n
      → round flags (fields (encode (Isa.shift o rd rs1 n))) s
        ≡ some (written rd (shift_value o (read s rs1) n) s)
  unfolding round execute imm_arith shift_value
  shift-eq o rd rs1 n h some_ =
      let i = Isa.shift o rd rs1 n in
      let f = fields (encode i) in
      let w = encode-IsWord i h in
      let amount : bit_and f.rs2 0x1F ≡ n =
        omega
          (arith, bit_and_low 5 f.rs2, (fields-IsCut (encode i)).rs2, shift_digits o rd rs1 n h) in
      ground (
        arith,
        decode-encode i h,
        decode-IsDecoded (encode i) w,
        fields-IsCut (encode i),
        amount,
        ap (λ (k : ℕ). 2 ^ k) amount,
        ap (λ (k : ℕ). shl (read s rs1) k) amount,
        ap (λ (k : ℕ). sar (read s rs1) k) amount,
        ap (λ (k : ℕ). bit_and (shr (read s rs1) k) (shr 0x7FFFFFFF (k - 1))) amount,
        masked_lem (read s rs1) n (read-IsWord s valid rs1) some_ h.2,
        sar-eq-shift_signed (read s rs1) n (read-IsWord s valid rs1) h.2,
      )

  pub reg-eq :
      (o : RegOp) (rd rs1 rs2 : ℕ)
      → IsInstr (Isa.reg o rd rs1 rs2)
      → IsComputed o (read s rs1) (read s rs2)
      → round flags (fields (encode (Isa.reg o rd rs1 rs2))) s
        ≡ some (written rd (reg_value o (read s rs1) (read s rs2)) s)
  unfolding round execute reg_arith reg_value
  reg-eq o rd rs1 rs2 h c =
      let i = Isa.reg o rd rs1 rs2 in
      let w = encode-IsWord i h in
      let b : ℕ = read s rs2 in
      ground (
        arith,
        decode-encode i h,
        decode-IsDecoded (encode i) w,
        fields-IsCut (encode i),
        read-IsWord s valid rs1,
        read-IsWord s valid rs2,
        bit_and_low 5 b,
        bit_and_low 7 b,
        slt_flip (read s rs1) b (read-IsWord s valid rs1) (read-IsWord s valid rs2),
        sar-eq-shift_signed (read s rs1) (b % 32) (read-IsWord s valid rs1),
      )
