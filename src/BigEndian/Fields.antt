-- ===== src/BigEndian/Fields.antt =====
-- proj2/my_project/ekdus.c, lines 96-108: the fields of a word, each masked off its low end and then
-- shifted away.
use f_ca.Base.{ℕ, bit_and}
use f_ca.Word.{shr}

pub record Fields : Type 0 where
  pub opcode : ℕ
  pub rd : ℕ
  pub func3 : ℕ
  pub rs1 : ℕ
  pub rs2 : ℕ
  pub func7 : ℕ

unfoldable pub fields : ℕ → Fields
fields inst =
    let inst1 : ℕ = shr inst 7 in
    let inst2 : ℕ = shr inst1 5 in
    let inst3 : ℕ = shr inst2 3 in
    let inst4 : ℕ = shr inst3 5 in
    let inst5 : ℕ = shr inst4 5 in
    record {
      opcode = bit_and inst 0x7F;
      rd = bit_and inst1 0x1F;
      func3 = bit_and inst2 0x7;
      rs1 = bit_and inst3 0x1F;
      rs2 = bit_and inst4 0x1F;
      func7 = bit_and inst5 0x7F;
    }
