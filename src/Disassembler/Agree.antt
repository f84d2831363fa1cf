-- ===== src/Disassembler/Agree.antt =====
-- The disassembler cuts a word up as the simulators do: its sums and its arithmetic shifts of parts
-- come to the same as their masks, `|` and sign extension of the whole.
use f_ca.Base.{ℕ, ◌+◌, ◌*◌, ◌/◌, ◌%◌, ◌^◌, ◌≡◌, arith}
use f_ca.Bits.{bit_and_low, bit_and_field}
use f_ca.Word.{IsWord, sar, sext}
use f_ca.Simulator.Decode.{Fields}
use f_ca.Simulator.Decode
use f_ca.Simulator.Arith.{IsDecoded, decode-IsDecoded}
use f_ca.Disassembler.Decode.{Parts, parts}

-- The parts, under the names that the simulators give them.
abbrev pub as_fields : Parts → Fields
as_fields p = record {
  opcode = p.opcode;
  rd = p.rd;
  func3 = p.func3;
  rs1 = p.rs1;
  rs2 = p.rs2;
  func7 = p.func7;
  imm_i = p.imm;
  imm_s = p.imm_s;
  imm_b = p.imm_sb;
  imm_j = p.imm_uj;
  imm_u = p.upper;
}

module _ (w : ℕ) (h : IsWord w) where
  rd_lem : sar w 7 % 32 ≡ w / 2 ^ 7 % 32
  unfolding sar
  rd_lem = ground arith

  func3_lem : sar w 12 % 8 ≡ w / 2 ^ 12 % 8
  unfolding sar
  func3_lem = ground arith

  rs1_lem : sar w 15 % 32 ≡ w / 2 ^ 15 % 32
  unfolding sar
  rs1_lem = ground arith

  pub rs2_lem : sar w 20 % 32 ≡ w / 2 ^ 20 % 32
  unfolding sar
  rs2_lem = ground arith

  pub func7_lem : sar w 25 % 128 ≡ w / 2 ^ 25
  unfolding sar
  func7_lem = ground arith

  pub msb_lem : sar w 30 % 2 ≡ w / 2 ^ 30 % 2
  unfolding sar
  msb_lem = ground arith

  imm_lem : sar w 20 ≡ sext 12 (w / 2 ^ 20)
  unfolding sar sext
  imm_lem = ground arith

  imm_s_lem : (parts w).imm_s ≡ sext 12 (w / 2 ^ 25 * 2 ^ 5 + w / 2 ^ 7 % 32)
  unfolding parts sar sext
  imm_s_lem = ground (arith, bit_and_field 7 25 w, bit_and_field 5 7 w)

  imm_sb_lem :
      (parts w).imm_sb
      ≡ sext 13 (
          w / 2 ^ 31 * 2 ^ 12
          + w / 2 ^ 7 % 2 * 2 ^ 11
          + w / 2 ^ 25 % 64 * 2 ^ 5
          + w / 2 ^ 8 % 16 * 2)
  unfolding parts sar sext
  imm_sb_lem =
      ground (
        arith,
        bit_and_field 1 31 w,
        bit_and_field 1 7 w,
        bit_and_field 6 25 w,
        bit_and_field 4 8 w,
      )

  imm_uj_lem :
      (parts w).imm_uj
      ≡ sext 21 (
          w / 2 ^ 31 * 2 ^ 20
          + w / 2 ^ 12 % 256 * 2 ^ 12
          + w / 2 ^ 20 % 2 * 2 ^ 11
          + w / 2 ^ 21 % 1024 * 2)
  unfolding parts sar sext
  imm_uj_lem = ground (
    arith,
    bit_and_field 1 31 w,
    bit_and_field 8 12 w,
    bit_and_field 1 20 w,
    bit_and_field 10 21 w,
  )

  -- The masks and shifts of this program too give, for every word, the digits that the manual names
  -- for each field, and each immediate extended by its sign.
  pub parts-IsDecoded : IsDecoded w (as_fields (parts w))
  parts-IsDecoded = record {
    opcode = unfold parts in bit_and_low 7 w;
    rd = unfold parts in omega (arith, bit_and_low 5 (sar w 7), rd_lem);
    func3 = unfold parts in omega (arith, bit_and_low 3 (sar w 12), func3_lem);
    rs1 = unfold parts in omega (arith, bit_and_low 5 (sar w 15), rs1_lem);
    rs2 = unfold parts in omega (arith, bit_and_low 5 (sar w 20), rs2_lem);
    func7 = unfold parts in omega (arith, bit_and_low 7 (sar w 25), func7_lem);
    imm_i = unfold parts in imm_lem;
    imm_s = imm_s_lem;
    imm_b = imm_sb_lem;
    imm_j = imm_uj_lem;
    imm_u = unfold parts in omega (arith, bit_and_field 20 12 w);
  }

-- The digits that the manual names determine the fields.
fields-eq : (w : ℕ) (f g : Fields) → IsDecoded w f → IsDecoded w g → f ≡ g
fields-eq w f g d e = ground arith

-- On every word, the disassembler of project_1/main.c and `decode`, the fields of project_2/main.c, have
-- the same fields and the same immediates.
pub parts-eq : (w : ℕ) → IsWord w → as_fields (parts w) ≡ Decode.decode w
parts-eq w h = fields-eq w _ _ (parts-IsDecoded w h) (decode-IsDecoded w h)
