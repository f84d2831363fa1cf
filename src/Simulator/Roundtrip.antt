-- ===== src/Simulator/Roundtrip.antt =====
-- Decoding undoes the encoding of the manual.
use f_ca.Base.{◌+◌, ◌*◌, ◌^◌, ◌≡◌, ◌∙◌, ap, arith}
use f_ca.Word.{sext}
use f_ca.Isa.{
  Instr, lui, auipc, jal, jalr, branch, load, store, imm, shift, reg, reg_func3, reg_func7,
  imm_func3, shift_func3, shift_func7, branch_func3, load_func3, store_func3, encode, IsInstr,
}
use f_ca.Isa.Bounds.{
  encode-IsWord, reg_func3-lt, reg_func7-lt, imm_func3-lt, shift_func3-lt, shift_func7-lt,
  branch_func3-lt, load_func3-lt, store_func3-lt,
}
use f_ca.Simulator.Decode.{Fields, decode}
use f_ca.Simulator.Arith.{IsDecoded, decode-IsDecoded}

-- The fields that an instruction uses hold its operands, its codes and its immediate as a signed
-- number.
abbrev pub Reads : Instr → Fields → Type 0
Reads (lui rd n) f = (f.opcode ≡ 0x37) × (f.rd ≡ rd) × (f.imm_u ≡ n * 2 ^ 12)
Reads (auipc rd n) f = (f.opcode ≡ 0x17) × (f.rd ≡ rd) × (f.imm_u ≡ n * 2 ^ 12)
Reads (jal rd n) f = (f.opcode ≡ 0x6F) × (f.rd ≡ rd) × (f.imm_j ≡ sext 21 (n * 2))
Reads (jalr rd rs1 n) f = (f.opcode ≡ 0x67) × (f.rd ≡ rd) × (f.rs1 ≡ rs1) × (f.imm_i ≡ sext 12 n)
Reads (branch o rs1 rs2 n) f =
    (f.opcode ≡ 0x63)
    × (f.func3 ≡ branch_func3 o)
    × (f.rs1 ≡ rs1)
    × (f.rs2 ≡ rs2)
    × (f.imm_b ≡ sext 13 (n * 2))
Reads (load o rd rs1 n) f =
    (f.opcode ≡ 0x03)
    × (f.func3 ≡ load_func3 o)
    × (f.rd ≡ rd)
    × (f.rs1 ≡ rs1)
    × (f.imm_i ≡ sext 12 n)
Reads (store o rs2 rs1 n) f =
    (f.opcode ≡ 0x23)
    × (f.func3 ≡ store_func3 o)
    × (f.rs2 ≡ rs2)
    × (f.rs1 ≡ rs1)
    × (f.imm_s ≡ sext 12 n)
Reads (imm o rd rs1 n) f =
    (f.opcode ≡ 0x13)
    × (f.func3 ≡ imm_func3 o)
    × (f.rd ≡ rd)
    × (f.rs1 ≡ rs1)
    × (f.imm_i ≡ sext 12 n)
Reads (shift o rd rs1 n) f =
    (f.opcode ≡ 0x13)
    × (f.func3 ≡ shift_func3 o)
    × (f.func7 ≡ shift_func7 o)
    × (f.rd ≡ rd)
    × (f.rs1 ≡ rs1)
    × (f.imm_i ≡ sext 12 (shift_func7 o * 32 + n))
Reads (reg o rd rs1 rs2) f =
    (f.opcode ≡ 0x33)
    × (f.func3 ≡ reg_func3 o)
    × (f.func7 ≡ reg_func7 o)
    × (f.rd ≡ rd)
    × (f.rs1 ≡ rs1)
    × (f.rs2 ≡ rs2)

module _ (f : Fields) where
  pub reads : (i : Instr) → IsInstr i → IsDecoded (encode i) f → Reads i f
  unfolding encode
  reads (lui rd n) h d = omega arith
  reads (auipc rd n) h d = omega arith
  reads (jal rd n) h d = (omega arith, omega arith, d.imm_j ∙ ap (sext 21) (omega arith))
  reads (jalr rd rs1 n) h d =
      (omega arith, omega arith, omega arith, d.imm_i ∙ ap (sext 12) (omega arith))
  reads (branch o rs1 rs2 n) h d =
      let lt = branch_func3-lt o in
      (omega arith, omega arith, omega arith, omega arith, d.imm_b ∙ ap (sext 13) (omega arith))
  reads (load o rd rs1 n) h d =
      let lt = load_func3-lt o in
      (omega arith, omega arith, omega arith, omega arith, d.imm_i ∙ ap (sext 12) (omega arith))
  reads (store o rs2 rs1 n) h d =
      let lt = store_func3-lt o in
      (omega arith, omega arith, omega arith, omega arith, d.imm_s ∙ ap (sext 12) (omega arith))
  reads (imm o rd rs1 n) h d =
      let lt = imm_func3-lt o in
      (omega arith, omega arith, omega arith, omega arith, d.imm_i ∙ ap (sext 12) (omega arith))
  reads (shift o rd rs1 n) h d =
      let lt = shift_func3-lt o in
      let lt' = shift_func7-lt o in
      (
        omega arith,
        omega arith,
        omega arith,
        omega arith,
        omega arith,
        d.imm_i ∙ ap (sext 12) (omega arith),
      )
  reads (reg o rd rs1 rs2) h d = omega (arith, reg_func3-lt o, reg_func7-lt o)

-- For each of the 37 instructions of Isa (RV32I without FENCE, ECALL and EBREAK), with operands that
-- fit their fields, `decode` of its encoding gives
-- back its opcode, its codes, its registers and its immediate, extended by its sign.
pub decode-encode : (i : Instr) → IsInstr i → Reads i (decode (encode i))
decode-encode i h = reads _ i h (decode-IsDecoded (encode i) (encode-IsWord i h))
