-- ===== src/Simulator/Arith.antt =====
-- The masks and shifts of `decode` as division and remainder.
use f_ca.Base.{ℕ, ◌+◌, ◌*◌, ◌/◌, ◌%◌, ◌^◌, ◌<◌, bit_and, bit_or, ◌≡◌, arith}
use f_ca.Bits.{bit_and_low, bit_and_field, bit_or_disjoint, bit_or_field}
use f_ca.Word.{shl, shr, IsWord, sext}
use f_ca.Word.Laws.{sign12, sign13, sign21}
use f_ca.Simulator.Decode.{sign, Fields, decode}

-- What the manual says of a word: the digits of each field, and each immediate put together from
-- its digits and extended by its sign.
pub record IsDecoded (w : ℕ) (f : Fields) : Type 0 where
  pub opcode : f.opcode ≡ w % 2 ^ 7
  pub rd : f.rd ≡ w / 2 ^ 7 % 32
  pub func3 : f.func3 ≡ w / 2 ^ 12 % 8
  pub rs1 : f.rs1 ≡ w / 2 ^ 15 % 32
  pub rs2 : f.rs2 ≡ w / 2 ^ 20 % 32
  pub func7 : f.func7 ≡ w / 2 ^ 25
  pub imm_i : f.imm_i ≡ sext 12 (w / 2 ^ 20)
  pub imm_s : f.imm_s ≡ sext 12 (w / 2 ^ 25 * 2 ^ 5 + w / 2 ^ 7 % 32)
  pub imm_b :
      f.imm_b
      ≡ sext 13 (
          w / 2 ^ 31 * 2 ^ 12
          + w / 2 ^ 7 % 2 * 2 ^ 11
          + w / 2 ^ 25 % 64 * 2 ^ 5
          + w / 2 ^ 8 % 16 * 2)
  pub imm_j :
      f.imm_j
      ≡ sext 21 (
          w / 2 ^ 31 * 2 ^ 20
          + w / 2 ^ 12 % 256 * 2 ^ 12
          + w / 2 ^ 20 % 2 * 2 ^ 11
          + w / 2 ^ 21 % 1024 * 2)
  pub imm_u : f.imm_u ≡ w / 2 ^ 12 * 2 ^ 12

-- Parts of an immediate put together by `|`, highest first, with one that is out of order last.
put_b :
    (x y z b : ℕ)
    → y < 2 ^ 6
    → z < 2 ^ 4
    → b < 2
    → bit_or (bit_or (bit_or (x * 2 ^ 12) (y * 2 ^ 5)) (z * 2)) (b * 2 ^ 11)
      ≡ x * 2 ^ 12 + b * 2 ^ 11 + y * 2 ^ 5 + z * 2
put_b x y z b hy hz hb = ground (
  arith,
  bit_or_disjoint 12 x (y * 2 ^ 5),
  bit_or_disjoint 5 (x * 2 ^ 7 + y) (z * 2),
  bit_or_field 1 11 x b (y * 2 ^ 5 + z * 2),
)

put_j :
    (x y b z : ℕ)
    → y < 2 ^ 10
    → b < 2
    → z < 2 ^ 8
    → bit_or (bit_or (bit_or (x * 2 ^ 20) (y * 2)) (b * 2 ^ 11)) (z * 2 ^ 12)
      ≡ x * 2 ^ 20 + z * 2 ^ 12 + b * 2 ^ 11 + y * 2
put_j x y b z hy hb hz = ground (
  arith,
  bit_or_disjoint 20 x (y * 2),
  bit_or_field 1 11 (x * 2 ^ 8) b (y * 2),
  bit_or_field 8 12 x z (b * 2 ^ 11 + y * 2),
)

-- The immediates before their sign is extended.
raw_s :
    (w : ℕ)
    → bit_or (shr (bit_and w 0xFE000000) 20) (bit_and (shr w 7) 0x1F)
      ≡ w / 2 ^ 25 % 128 * 2 ^ 5 + w / 2 ^ 7 % 32
raw_s w =
    let high : shr (bit_and w 0xFE000000) 20 ≡ w / 2 ^ 25 % 128 * 2 ^ 5 =
      omega (arith, bit_and_field 7 25 w) in
    rw (high, bit_and_low 5 (w / 2 ^ 7))
      (bit_or_disjoint 5 (w / 2 ^ 25 % 128) (w / 2 ^ 7 % 32) (omega arith))

pub raw_b :
    (w : ℕ)
    → bit_or
        (bit_or
          (bit_or (shr (bit_and w 0x80000000) 19) (shr (bit_and w 0x7E000000) 20))
          (shr (bit_and w 0x00000F00) 7))
        (shl (bit_and w 0x00000080) 4)
      ≡ w / 2 ^ 31 % 2 * 2 ^ 12
        + w / 2 ^ 7 % 2 * 2 ^ 11
        + w / 2 ^ 25 % 64 * 2 ^ 5
        + w / 2 ^ 8 % 16 * 2
raw_b w =
    let p12 : shr (bit_and w 0x80000000) 19 ≡ w / 2 ^ 31 % 2 * 2 ^ 12 =
      omega (arith, bit_and_field 1 31 w) in
    let p5 : shr (bit_and w 0x7E000000) 20 ≡ w / 2 ^ 25 % 64 * 2 ^ 5 =
      omega (arith, bit_and_field 6 25 w) in
    let p1 : shr (bit_and w 0x00000F00) 7 ≡ w / 2 ^ 8 % 16 * 2 =
      omega (arith, bit_and_field 4 8 w) in
    let p11 : shl (bit_and w 0x00000080) 4 ≡ w / 2 ^ 7 % 2 * 2 ^ 11 =
      omega (arith, bit_and_field 1 7 w) in
    rw (p12, p5, p1, p11)
      (put_b (w / 2 ^ 31 % 2) (w / 2 ^ 25 % 64) (w / 2 ^ 8 % 16) (w / 2 ^ 7 % 2) (omega arith)
        (omega arith) (omega arith))

pub raw_j :
    (w : ℕ)
    → bit_or
        (bit_or
          (bit_or (shr (bit_and w 0x80000000) 11) (shr (bit_and w 0x7FE00000) 20))
          (shr (bit_and w 0x00100000) 9))
        (bit_and w 0x000FF000)
      ≡ w / 2 ^ 31 % 2 * 2 ^ 20
        + w / 2 ^ 12 % 256 * 2 ^ 12
        + w / 2 ^ 20 % 2 * 2 ^ 11
        + w / 2 ^ 21 % 1024 * 2
raw_j w =
    let p20 : shr (bit_and w 0x80000000) 11 ≡ w / 2 ^ 31 % 2 * 2 ^ 20 =
      omega (arith, bit_and_field 1 31 w) in
    let p1 : shr (bit_and w 0x7FE00000) 20 ≡ w / 2 ^ 21 % 1024 * 2 =
      omega (arith, bit_and_field 10 21 w) in
    let p11 : shr (bit_and w 0x00100000) 9 ≡ w / 2 ^ 20 % 2 * 2 ^ 11 =
      omega (arith, bit_and_field 1 20 w) in
    let p12 : bit_and w 0x000FF000 ≡ w / 2 ^ 12 % 256 * 2 ^ 12 =
      omega (arith, bit_and_field 8 12 w) in
    rw (p20, p1, p11, p12)
      (put_j (w / 2 ^ 31 % 2) (w / 2 ^ 21 % 1024) (w / 2 ^ 20 % 2) (w / 2 ^ 12 % 256) (omega arith)
        (omega arith) (omega arith))

module _ (w : ℕ) (h : IsWord w) where
  imm_i_lem : (decode w).imm_i ≡ sext 12 (w / 2 ^ 20)
  unfolding decode sign
  imm_i_lem = sign12 (w / 2 ^ 20) (omega arith)

  imm_s_lem : (decode w).imm_s ≡ sext 12 (w / 2 ^ 25 * 2 ^ 5 + w / 2 ^ 7 % 32)
  unfolding decode sign
  imm_s_lem =
      let top : w / 2 ^ 25 % 128 ≡ w / 2 ^ 25 = omega arith in
      rw (raw_s w, top) (sign12 _ (omega arith))

  imm_b_lem :
      (decode w).imm_b
      ≡ sext 13 (
          w / 2 ^ 31 * 2 ^ 12
          + w / 2 ^ 7 % 2 * 2 ^ 11
          + w / 2 ^ 25 % 64 * 2 ^ 5
          + w / 2 ^ 8 % 16 * 2)
  unfolding decode sign
  imm_b_lem =
      let top : w / 2 ^ 31 % 2 ≡ w / 2 ^ 31 = omega arith in
      rw (raw_b w, top) (sign13 _ (omega arith))

  imm_j_lem :
      (decode w).imm_j
      ≡ sext 21 (
          w / 2 ^ 31 * 2 ^ 20
          + w / 2 ^ 12 % 256 * 2 ^ 12
          + w / 2 ^ 20 % 2 * 2 ^ 11
          + w / 2 ^ 21 % 1024 * 2)
  unfolding decode sign
  imm_j_lem =
      let top : w / 2 ^ 31 % 2 ≡ w / 2 ^ 31 = omega arith in
      rw (raw_j w, top) (sign21 _ (omega arith))

  pub decode-IsDecoded : IsDecoded w (decode w)
  decode-IsDecoded = record {
    opcode = unfold decode in bit_and_low 7 w;
    rd = unfold decode in omega (arith, bit_and_field 5 7 w);
    func3 = unfold decode in omega (arith, bit_and_field 3 12 w);
    rs1 = unfold decode in omega (arith, bit_and_field 5 15 w);
    rs2 = unfold decode in omega (arith, bit_and_field 5 20 w);
    func7 = unfold decode in omega (arith, bit_and_field 7 25 w);
    imm_i = imm_i_lem;
    imm_s = imm_s_lem;
    imm_b = imm_b_lem;
    imm_j = imm_j_lem;
    imm_u = unfold decode in omega (arith, bit_and_field 20 12 w);
  }
