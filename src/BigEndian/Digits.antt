-- ===== src/BigEndian/Digits.antt =====
-- The fields and the immediates of proj2/my_project/ekdus.c as division and remainder.
use f_ca.Base.{
  ℕ, ◌+◌, ◌-◌, ◌*◌, ◌/◌, ◌%◌, ◌^◌, ◌<◌, ◌≡◌, ap, arith, bit_and, bit_or, ltb, if◌then◌else◌,
}
use f_ca.Bits.{bit_and_low, bit_and_field, bit_or_disjoint}
use f_ca.Bits.Ones.{bit_or_above}
use f_ca.Word.{IsWord, shl, shr}
use f_ca.BigEndian.Store.{sign}
use f_ca.BigEndian.Fields.{Fields, fields}
use f_ca.BigEndian.Exec.{upper_digits, upper_imm, jal_imm, low_imm, branch_imm, store_imm}

-- What the shifts and masks cut out of a word.
pub record IsCut (w : ℕ) (f : Fields) : Type 0 where
  pub opcode : f.opcode ≡ w % 2 ^ 7
  pub rd : f.rd ≡ w / 2 ^ 7 % 32
  pub func3 : f.func3 ≡ w / 2 ^ 12 % 8
  pub rs1 : f.rs1 ≡ w / 2 ^ 15 % 32
  pub rs2 : f.rs2 ≡ w / 2 ^ 20 % 32
  pub func7 : f.func7 ≡ w / 2 ^ 25 % 128

pub fields-IsCut : (w : ℕ) → IsCut w (fields w)
unfolding fields
fields-IsCut w = record {
  opcode = bit_and_low 7 w;
  rd = bit_and_low 5 (w / 2 ^ 7);
  func3 = omega (arith, bit_and_low 3 (w / 2 ^ 7 / 2 ^ 5));
  rs1 = omega (arith, bit_and_low 5 (w / 2 ^ 7 / 2 ^ 5 / 2 ^ 3));
  rs2 = omega (arith, bit_and_low 5 (w / 2 ^ 7 / 2 ^ 5 / 2 ^ 3 / 2 ^ 5));
  func7 = omega (arith, bit_and_low 7 (w / 2 ^ 7 / 2 ^ 5 / 2 ^ 3 / 2 ^ 5 / 2 ^ 5));
}

-- The sign by a mask, for the two lengths that are used.
pub sign_20 :
    (v : ℕ)
    → v < 2 ^ 21
    → sign v 20 ≡ (if ltb (v % 2 ^ 20) (2 ^ 19) then v else 2 ^ 32 - 2 ^ 20 + v % 2 ^ 20)
unfolding sign
sign_20 v h = ground (arith, bit_and_field 1 19 v, bit_or_above 20 12 v)

module _ (w : ℕ) (h : IsWord w) where
  upper_digits-eq : upper_digits (fields w) ≡ w / 2 ^ 12
  upper_digits-eq =
      let f = fields w in
      let cut = fields-IsCut w in
      let a : shl f.func7 13 ≡ f.func7 * 2 ^ 13 = omega (arith, cut.func7) in
      let b : shl f.rs2 8 ≡ f.rs2 * 2 ^ 8 = omega (arith, cut.rs2) in
      let c : shl f.rs1 3 ≡ f.rs1 * 2 ^ 3 = omega (arith, cut.rs1) in
      ground (
        arith,
        a,
        b,
        c,
        cut,
        bit_or_disjoint 13 f.func7 (f.rs2 * 2 ^ 8),
        bit_or_disjoint 8 (f.func7 * 2 ^ 5 + f.rs2) (f.rs1 * 2 ^ 3),
        bit_or_disjoint 3 (f.func7 * 2 ^ 10 + f.rs2 * 2 ^ 5 + f.rs1) f.func3,
      )

  pub upper_imm-eq : upper_imm (fields w) ≡ w / 2 ^ 12 * 2 ^ 12
  unfolding upper_imm
  upper_imm-eq = ground (arith, upper_digits-eq, sign_20 (w / 2 ^ 12))

  pub low_imm-eq : low_imm (fields w) ≡ sign (w / 2 ^ 20) 12
  unfolding low_imm
  low_imm-eq =
      let f = fields w in
      let cut = fields-IsCut w in
      let a : shl f.func7 5 ≡ f.func7 * 2 ^ 5 = omega (arith, cut.func7) in
      ground (arith, a, cut, bit_or_disjoint 5 f.func7 f.rs2)

  pub store_imm-eq : store_imm (fields w) ≡ sign (w / 2 ^ 25 * 2 ^ 5 + w / 2 ^ 7 % 32) 12
  unfolding store_imm
  store_imm-eq =
      let f = fields w in
      let cut = fields-IsCut w in
      let a : shl f.func7 5 ≡ f.func7 * 2 ^ 5 = omega (arith, cut.func7) in
      ground (arith, a, cut, bit_or_disjoint 5 f.func7 f.rd)

  pub jal_imm-eq :
      jal_imm (fields w)
      ≡ sign
          (w / 2 ^ 31 * 2 ^ 20
            + w / 2 ^ 12 % 256 * 2 ^ 12
            + w / 2 ^ 20 % 2 * 2 ^ 11
            + w / 2 ^ 21 % 1024 * 2)
          20
  unfolding jal_imm
  jal_imm-eq =
      let d : ℕ = w / 2 ^ 12 in
      let low : bit_and d 0xFF ≡ d % 256 = bit_and_low 8 d in
      let mid : bit_and (shr d 8) 1 ≡ w / 2 ^ 20 % 2 = omega (arith, bit_and_low 1 (d / 2 ^ 8)) in
      let next : bit_and (shr d 9) 0x3FF ≡ w / 2 ^ 21 % 1024 =
        omega (arith, bit_and_low 10 (d / 2 ^ 9)) in
      let top : bit_and (shr d 19) 1 ≡ w / 2 ^ 31 = omega (arith, bit_and_low 1 (d / 2 ^ 19)) in
      let a : shl (w / 2 ^ 31) 20 ≡ w / 2 ^ 31 * 2 ^ 20 = omega arith in
      let b : shl (d % 256) 12 ≡ w / 2 ^ 12 % 256 * 2 ^ 12 = omega arith in
      let c : shl (w / 2 ^ 20 % 2) 11 ≡ w / 2 ^ 20 % 2 * 2 ^ 11 = omega arith in
      let e : shl (w / 2 ^ 21 % 1024) 1 ≡ w / 2 ^ 21 % 1024 * 2 = omega arith in
      rw (upper_digits-eq, low, mid, next, top, a, b, c, e)
        (ap (λ v. sign v 20)
          (join_j (w / 2 ^ 31) (w / 2 ^ 12 % 256) (w / 2 ^ 20 % 2) (w / 2 ^ 21 % 1024) (omega arith)
            (omega arith) (omega arith)))
    where
      join_j :
          (x y b z : ℕ)
          → y < 256
          → b < 2
          → z < 1024
          → bit_or (bit_or (bit_or (x * 2 ^ 20) (y * 2 ^ 12)) (b * 2 ^ 11)) (z * 2)
            ≡ x * 2 ^ 20 + y * 2 ^ 12 + b * 2 ^ 11 + z * 2
      join_j x y b z hy hb hz = ground (
        arith,
        bit_or_disjoint 20 x (y * 2 ^ 12),
        bit_or_disjoint 12 (x * 2 ^ 8 + y) (b * 2 ^ 11),
        bit_or_disjoint 11 (x * 2 ^ 9 + y * 2 + b) (z * 2),
      )

  pub branch_imm-eq :
      branch_imm (fields w)
      ≡ sign
          (w / 2 ^ 31 * 2 ^ 12
            + w / 2 ^ 7 % 2 * 2 ^ 11
            + w / 2 ^ 25 % 64 * 2 ^ 5
            + w / 2 ^ 8 % 16 * 2)
          12
  unfolding branch_imm
  branch_imm-eq =
      let f = fields w in
      let cut = fields-IsCut w in
      let p5 : bit_and f.func7 0x3F ≡ w / 2 ^ 25 % 64 =
        omega (arith, cut.func7, bit_and_low 6 f.func7) in
      let p12 : bit_and (shr f.func7 6) 1 ≡ w / 2 ^ 31 =
        omega (arith, cut.func7, bit_and_low 1 (f.func7 / 2 ^ 6)) in
      let p11 : bit_and f.rd 1 ≡ w / 2 ^ 7 % 2 = omega (arith, cut.rd, bit_and_low 1 f.rd) in
      let p1 : bit_and (shr f.rd 1) 0xF ≡ w / 2 ^ 8 % 16 =
        omega (arith, cut.rd, bit_and_low 4 (f.rd / 2)) in
      let a : shl (w / 2 ^ 31) 12 ≡ w / 2 ^ 31 * 2 ^ 12 = omega arith in
      let b : shl (w / 2 ^ 7 % 2) 11 ≡ w / 2 ^ 7 % 2 * 2 ^ 11 = omega arith in
      let c : shl (w / 2 ^ 25 % 64) 5 ≡ w / 2 ^ 25 % 64 * 2 ^ 5 = omega arith in
      let e : shl (w / 2 ^ 8 % 16) 1 ≡ w / 2 ^ 8 % 16 * 2 = omega arith in
      rw (p5, p12, p11, p1, a, b, c, e)
        (ap (λ v. sign v 12)
          (join_b (w / 2 ^ 31) (w / 2 ^ 7 % 2) (w / 2 ^ 25 % 64) (w / 2 ^ 8 % 16) (omega arith)
            (omega arith) (omega arith)))
    where
      join_b :
          (x b y z : ℕ)
          → b < 2
          → y < 64
          → z < 16
          → bit_or (bit_or (bit_or (x * 2 ^ 12) (b * 2 ^ 11)) (y * 2 ^ 5)) (z * 2)
            ≡ x * 2 ^ 12 + b * 2 ^ 11 + y * 2 ^ 5 + z * 2
      join_b x b y z hb hy hz = ground (
        arith,
        bit_or_disjoint 12 x (b * 2 ^ 11),
        bit_or_disjoint 11 (x * 2 + b) (y * 2 ^ 5),
        bit_or_disjoint 5 (x * 2 ^ 7 + b * 2 ^ 6 + y) (z * 2),
      )
