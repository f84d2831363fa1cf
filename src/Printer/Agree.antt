-- ===== src/Printer/Agree.antt =====
-- The fields and the immediates of proj1/main.cc as division and remainder, and their signs.
use f_ca.Base.{ℕ, ◌+◌, ◌-◌, ◌*◌, ◌/◌, ◌%◌, ◌^◌, ◌<◌, ◌≡◌, arith, ltb, if◌then◌else◌}
use f_ca.Bits.{bit_and_field}
use f_ca.Bits.Ones.{bit_or_above}
use f_ca.Word.{IsWord}
use f_ca.Printer.Fields.{Fields, fields, extend, upper_imm, jalr_imm}

-- A number of which digit `top` is taken for the sign: the digits from there up become ones.
unfoldable pub signed_at : ℕ → ℕ → ℕ
signed_at top v =
    if ltb (v % 2 ^ (top + 1)) (2 ^ top) then v else 2 ^ 32 - 2 ^ (top + 1) + v % 2 ^ (top + 1)

-- What the shifts cut out of a word.
pub record IsCut (w : ℕ) (f : Fields) : Type 0 where
  pub buffer_ : f.buffer_ ≡ w
  pub opcode : f.opcode ≡ w % 2 ^ 7
  pub rd : f.rd ≡ w / 2 ^ 7 % 32
  pub funct3 : f.funct3 ≡ w / 2 ^ 12 % 8
  pub rs1 : f.rs1 ≡ w / 2 ^ 15 % 32
  pub rs2 : f.rs2 ≡ w / 2 ^ 20 % 32
  pub funct7 : f.funct7 ≡ w / 2 ^ 25

pub fields-IsCut : (w : ℕ) → IsCut w (fields w)
unfolding fields
fields-IsCut w = record {
  buffer_ = omega arith;
  opcode = omega arith;
  rd = omega arith;
  funct3 = omega arith;
  rs1 = omega arith;
  rs2 = omega arith;
  funct7 = omega arith;
}

pub extend_3 : (v : ℕ) → v < 2 ^ 4 → extend 0x8 0xFFFFFFF0 v ≡ signed_at 3 v
unfolding extend signed_at
extend_3 v h = ground (arith, bit_and_field 1 3 v, bit_or_above 4 28 v)

pub extend_7 : (v : ℕ) → v < 2 ^ 8 → extend 0x80 0xFFFFFF00 v ≡ signed_at 7 v
unfolding extend signed_at
extend_7 v h = ground (arith, bit_and_field 1 7 v, bit_or_above 8 24 v)

pub extend_11 : (v : ℕ) → v < 2 ^ 13 → extend 0x800 0xFFFFF000 v ≡ signed_at 11 v
unfolding extend signed_at
extend_11 v h = ground (arith, bit_and_field 1 11 v, bit_or_above 12 20 v)

-- Digit 19 is taken for the sign, but only the digits from 16 up become ones.
pub extend_19 :
    (v : ℕ)
    → v < 2 ^ 21
    → extend 0x80000 0xFFFF0000 v
      ≡ (if ltb (v % 2 ^ 20) (2 ^ 19) then v else 2 ^ 32 - 2 ^ 16 + v % 2 ^ 16)
unfolding extend
extend_19 v h = ground (arith, bit_and_field 1 19 v, bit_or_above 16 16 v)

module _ (w : ℕ) (h : IsWord w) where
  pub upper_lem : upper_imm w ≡ w / 2 ^ 12 * 2 ^ 12
  upper_lem = omega arith

  pub jalr_lem : jalr_imm w ≡ w / 2 ^ 20
  jalr_lem = omega (arith, bit_and_field 12 20 w)
