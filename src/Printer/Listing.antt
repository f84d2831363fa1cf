-- ===== src/Printer/Listing.antt =====
-- What proj1/main.cc prints of an encoded instruction, and for which that is its assembly.
use f_ca.Base.{ℕ, ◌*◌, refl, ◌^◌, ◌≡◌, ◌⊎◌, inl, inr, arith}
use f_ca.Isa.{
  RegOp, ImmOp, ShiftOp, BranchOp, LoadOp, StoreOp, Instr, lui, auipc, jal, jalr, branch, load,
  store, imm, shift, reg, encode, IsInstr,
}
use f_ca.Isa.Bounds.{encode-IsWord}
use f_ca.Simulator.Decode.{decode}
use f_ca.Simulator.Arith.{IsDecoded, decode-IsDecoded}
use f_ca.Simulator.Roundtrip.{Reads, decode-encode}
use f_ca.Disassembler.Text.{Text, registers, immediate, based, upper}
use f_ca.Disassembler.Listing.{reg_name, imm_name, shift_name, branch_name, load_name, store_name}
use f_ca.Printer.Fields.{fields}
use f_ca.Printer.Text.{branch_text, load_text, store_text, imm_text, reg_text, text}
use f_ca.Printer.Agree.{fields-IsCut, signed_at, upper_lem, jalr_lem}
use f_ca.Isa.Digits.{jalr_digits, load_digits, imm_digits, store_digits, shift_digits}
use f_ca.Printer.Digits.{
  jal_offset, load_offset, store_offset, jal_lem, branch_lem, load_imm-eq, store_imm-eq,
  store_imms-eq, low_imm-eq,
}

-- The text that the program prints of an instruction.
abbrev pub printed_as : Instr → Text
printed_as (lui rd n) = upper "lui" rd (n * 2 ^ 12)
printed_as (auipc rd n) = upper "auipc" rd (n * 2 ^ 12)
printed_as (jal rd n) = upper "jal" rd (jal_offset (n * 2))
printed_as (jalr rd rs1 n) = based "jalr" rd n rs1
printed_as (branch o rs1 rs2 n) = immediate (branch_name o) rs1 rs2 (signed_at 11 (n * 2))
printed_as (load o rd rs1 n) = based (load_name o) rd (load_offset o n) rs1
printed_as (store o rs2 rs1 n) = based (store_name o) rs2 (store_offset o n) rs1
printed_as (imm o rd rs1 n) = immediate (imm_name o) rd rs1 (signed_at 11 n)
printed_as (shift o rd rs1 n) = immediate (shift_name o) rd rs1 n
printed_as (reg o rd rs1 rs2) = registers (reg_name o) rd rs1 rs2

-- The fields that an instruction uses, its immediates apart.
module _ (i : Instr) (h : IsInstr i) where
  r : Reads i (decode (encode i))
  r = decode-encode i h

  d : IsDecoded (encode i) (decode (encode i))
  d = decode-IsDecoded (encode i) (encode-IsWord i h)

text-jal :
    (rd n : ℕ) → IsInstr (jal rd n) → text (fields (encode (jal rd n))) ≡ printed_as (jal rd n)
unfolding text
text-jal rd n h =
    let i = jal rd n in ground (arith, r i h, d i h, fields-IsCut (encode i), jal_lem rd n h)

text-branch :
    (o : BranchOp) (rs1 rs2 n : ℕ)
    → IsInstr (branch o rs1 rs2 n)
    → text (fields (encode (branch o rs1 rs2 n))) ≡ printed_as (branch o rs1 rs2 n)
unfolding text branch_text
text-branch o rs1 rs2 n h =
    let i = branch o rs1 rs2 n in
    ground (arith, r i h, d i h, fields-IsCut (encode i), branch_lem o rs1 rs2 n h)

text-jalr :
    (rd rs1 n : ℕ)
    → IsInstr (jalr rd rs1 n)
    → text (fields (encode (jalr rd rs1 n))) ≡ printed_as (jalr rd rs1 n)
unfolding text
text-jalr rd rs1 n h =
    let i = jalr rd rs1 n in
    ground (
      arith,
      r i h,
      d i h,
      fields-IsCut (encode i),
      jalr_lem (encode i) (encode-IsWord i h),
      jalr_digits rd rs1 n h,
    )

text-load :
    (o : LoadOp) (rd rs1 n : ℕ)
    → IsInstr (load o rd rs1 n)
    → text (fields (encode (load o rd rs1 n))) ≡ printed_as (load o rd rs1 n)
unfolding text load_text
text-load o rd rs1 n h =
    let i = load o rd rs1 n in
    ground (
      arith,
      r i h,
      d i h,
      fields-IsCut (encode i),
      load_imm-eq (encode i) n h.2 (load_digits o rd rs1 n h),
    )

text-store :
    (o : StoreOp) (rs2 rs1 n : ℕ)
    → IsInstr (store o rs2 rs1 n)
    → text (fields (encode (store o rs2 rs1 n))) ≡ printed_as (store o rs2 rs1 n)
unfolding text store_text
text-store o rs2 rs1 n h =
    let i = store o rs2 rs1 n in
    let f = fields (encode i) in
    let cut = fields-IsCut (encode i) in
    let whole =
      store_imm-eq f n h.2 (omega (arith, cut.rd))
        (omega (arith, cut.rd, cut.funct7, store_digits o rs2 rs1 n h)) in
    ground (arith, r i h, d i h, cut, store_imms-eq f n h.2 whole)

text-imm :
    (o : ImmOp) (rd rs1 n : ℕ)
    → IsInstr (imm o rd rs1 n)
    → text (fields (encode (imm o rd rs1 n))) ≡ printed_as (imm o rd rs1 n)
unfolding text imm_text
text-imm o rd rs1 n h =
    let i = imm o rd rs1 n in
    ground (
      arith,
      r i h,
      d i h,
      fields-IsCut (encode i),
      low_imm-eq (encode i) n h.2 (encode-IsWord i h) (imm_digits o rd rs1 n h),
    )

text-shift :
    (o : ShiftOp) (rd rs1 n : ℕ)
    → IsInstr (shift o rd rs1 n)
    → text (fields (encode (shift o rd rs1 n))) ≡ printed_as (shift o rd rs1 n)
unfolding text imm_text
text-shift o rd rs1 n h =
    let i = shift o rd rs1 n in
    ground (arith, r i h, d i h, fields-IsCut (encode i), shift_digits o rd rs1 n h)

text-reg :
    (o : RegOp) (rd rs1 rs2 : ℕ)
    → IsInstr (reg o rd rs1 rs2)
    → text (fields (encode (reg o rd rs1 rs2))) ≡ printed_as (reg o rd rs1 rs2)
unfolding text reg_text
text-reg o rd rs1 rs2 h =
    let i = reg o rd rs1 rs2 in ground (arith, r i h, d i h, fields-IsCut (encode i))

text-upper :
    (i : Instr) (n rd : ℕ)
    → IsInstr i
    → (i ≡ lui rd n) ⊎ (i ≡ auipc rd n)
    → text (fields (encode i)) ≡ printed_as i
unfolding text
text-upper i n rd h e =
    ground (arith, r i h, d i h, fields-IsCut (encode i), upper_lem (encode i) (encode-IsWord i h))

pub text-printed_as : (i : Instr) → IsInstr i → text (fields (encode i)) ≡ printed_as i
text-printed_as (lui rd n) h = text-upper (lui rd n) n rd h (inl refl)
text-printed_as (auipc rd n) h = text-upper (auipc rd n) n rd h (inr refl)
text-printed_as (jal rd n) h = text-jal rd n h
text-printed_as (jalr rd rs1 n) h = text-jalr rd rs1 n h
text-printed_as (branch o rs1 rs2 n) h = text-branch o rs1 rs2 n h
text-printed_as (load o rd rs1 n) h = text-load o rd rs1 n h
text-printed_as (store o rs2 rs1 n) h = text-store o rs2 rs1 n h
text-printed_as (imm o rd rs1 n) h = text-imm o rd rs1 n h
text-printed_as (shift o rd rs1 n) h = text-shift o rd rs1 n h
text-printed_as (reg o rd rs1 rs2) h = text-reg o rd rs1 rs2 h
