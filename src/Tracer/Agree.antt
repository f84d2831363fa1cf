-- ===== src/Tracer/Agree.antt =====
-- The lines of this program and of the disassembler of project_1/main.c, and its fields by the manual.
use mathlib.Core.Path.{subst}
use f_ca.Base.{ℕ, ◌≡◌, refl, sym, ap, ◌∙◌, arith, bit_and}
use f_ca.Word.{sar}
use f_ca.Isa.{lui, auipc, jal, jalr, branch, load, store, imm, shift, reg, Instr, encode, IsInstr}
use f_ca.Isa.Bounds.{encode-IsWord}
use f_ca.Simulator.Roundtrip.{Reads, reads}
use f_ca.Disassembler.Decode.{Parts, parts}
use f_ca.Disassembler.Text.{Text, unknown, unknown_capital}
use f_ca.Disassembler.Text
use f_ca.Disassembler.Listing.{assembly, text-encode}
use f_ca.Disassembler.Agree.{as_fields, parts-IsDecoded}
use f_ca.Tracer.Fields.{Fields, fields}
use f_ca.Tracer.Text.{text, load_text, imm_text, store_text, reg_text, branch_text}

-- The fields under the names of the disassembler.
abbrev pub as_parts : Fields → Parts
as_parts f = record {
  opcode = f.opcode;
  rd = f.rd;
  func3 = f.funct3;
  rs1 = f.rs1;
  rs2 = f.rs2;
  func7 = f.funct7;
  msb = sar f.word 30;
  imm = f.imm4;
  imm_s = f.imm1;
  imm_uj = f.imm2;
  imm_sb = f.imm3;
  upper = bit_and f.word 0xFFFFF000;
}

fields-parts : (w : ℕ) → as_parts (fields w) ≡ parts w
unfolding fields parts
fields-parts w = refl

-- The text with the capital letter that this program gives to what it does not know.
abbrev pub as_capital : Text → Text
as_capital unknown = unknown_capital
as_capital t = t

text-as_parts : (f : Fields) → f.imm4 ≡ sar f.word 20 → text f ≡ as_capital (Text.text (as_parts f))
unfolding text load_text imm_text store_text reg_text branch_text Text.text Text.load_text
    Text.imm_text Text.store_text Text.reg_text Text.branch_text
text-as_parts f h = ground arith

-- Both programs print the same text of every word, but for the capital letter of an unknown one.
text-eq : (w : ℕ) → text (fields w) ≡ as_capital (Text.text (parts w))
text-eq w = rw (← (fields-parts w)) (text-as_parts (fields w) (unfold fields in refl))

assembly-as_capital : (i : Instr) → as_capital (assembly i) ≡ assembly i
assembly-as_capital (lui rd n) = refl
assembly-as_capital (auipc rd n) = refl
assembly-as_capital (jal rd n) = refl
assembly-as_capital (jalr rd rs1 n) = refl
assembly-as_capital (branch o rs1 rs2 n) = refl
assembly-as_capital (load o rd rs1 n) = refl
assembly-as_capital (store o rs2 rs1 n) = refl
assembly-as_capital (imm o rd rs1 n) = refl
assembly-as_capital (shift o rd rs1 n) = refl
assembly-as_capital (reg o rd rs1 rs2) = refl

-- Both print the same text of an instruction.
pub text-encode_eq :
    (i : Instr) → IsInstr i → text (fields (encode i)) ≡ Text.text (parts (encode i))
text-encode_eq i h =
    text-eq (encode i)
    ∙ ap as_capital (text-encode i h)
    ∙ assembly-as_capital i
    ∙ sym (text-encode i h)

-- The fields of an encoded instruction hold its operands.
pub fields-Reads : (i : Instr) → IsInstr i → Reads i (as_fields (as_parts (fields (encode i))))
fields-Reads i h =
    subst (λ p. Reads i (as_fields p)) (sym (fields-parts (encode i)))
      (reads _ i h (parts-IsDecoded (encode i) (encode-IsWord i h)))
