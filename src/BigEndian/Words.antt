-- ===== src/BigEndian/Words.antt =====
-- The words that `lw` and `sw` of proj2/my_project/ekdus.c read and write, and the manual's.
use f_ca.Base.{ℕ, ◌+◌, ◌-◌, ◌/◌, ◌%◌, ◌^◌, ◌<◌, ◌≡◌, refl, ap, ◌∙◌, arith, List, ◌∷◌}
use f_ca.Bits.{bit_and_low}
use f_ca.Word.{sext}
use f_ca.Machine.{Machine, next, write_reg, put_char}
use f_ca.Isa.{LoadOp, StoreOp, load, store, encode, IsInstr}
use f_ca.Isa.Bounds.{encode-IsWord}
use f_ca.Isa.Meaning.{load_word, store_word, read_number, word_at, put_word}
use f_ca.Simulator.Refines.Memory.{join_bytes}
use f_ca.Isa.Digits.{load_digits, store_digits}
use f_ca.BigEndian.Store.{sign, read_word, write_word}
use f_ca.BigEndian.Fields.{fields}
use f_ca.BigEndian.Exec.{low_imm, store_imm}
use f_ca.BigEndian.Laws.{sign_12}
use f_ca.BigEndian.Digits.{low_imm-eq, store_imm-eq}
use f_ca.BigEndian.Faithful.{Fits, StandsFor, InData}

pub load_offset :
    (rd rs1 n : ℕ)
    → IsInstr (load LoadOp.lw rd rs1 n)
    → low_imm (fields (encode (load LoadOp.lw rd rs1 n))) ≡ sext 12 n
load_offset rd rs1 n h =
    let i = load LoadOp.lw rd rs1 n in
    low_imm-eq (encode i) (encode-IsWord i h)
    ∙ ap (λ v. sign v 12) (load_digits LoadOp.lw rd rs1 n h)
    ∙ sign_12 n h.2

pub store_offset :
    (rs2 rs1 n : ℕ)
    → IsInstr (store StoreOp.sw rs2 rs1 n)
    → store_imm (fields (encode (store StoreOp.sw rs2 rs1 n))) ≡ sext 12 n
store_offset rs2 rs1 n h =
    let i = store StoreOp.sw rs2 rs1 n in
    store_imm-eq (encode i) (encode-IsWord i h)
    ∙ ap (λ v. sign v 12) (store_digits StoreOp.sw rs2 rs1 n h)
    ∙ sign_12 n h.2

pub load_word-data :
    (rd a : ℕ) (d : Machine)
    → InData a
    → load_word rd a d
      ≡ next (record (write_reg rd (word_at d.mem (a - 0x10000000)) d) { pc = (d.pc + 4) % 2 ^ 32 })
unfolding load_word
load_word-data rd a d h = ground arith

pub load_word-typed :
    (rd a v : ℕ) (rest : List ℕ) (d : Machine)
    → a ≡ 0x20000000
    → d.input ≡ v ∷ rest
    → load_word rd a d
      ≡ next (record (write_reg rd v (record d { input = rest })) { pc = (d.pc + 4) % 2 ^ 32 })
unfolding load_word read_number
load_word-typed rd a v rest d there e = rw (there, e) refl

pub store_word-data :
    (v a : ℕ) (d : Machine)
    → InData a
    → store_word v a d
      ≡ next (record d { pc = (d.pc + 4) % 2 ^ 32; mem = put_word d.mem (a - 0x10000000) v })
unfolding store_word
store_word-data v a d h = ground arith

pub store_word-typed :
    (v a : ℕ) (d : Machine)
    → a ≡ 0x20000000
    → v < 0x7F
    → store_word v a d ≡ next (record (put_char v d) { pc = (d.pc + 4) % 2 ^ 32 })
unfolding store_word
store_word-typed v a d there small = ground arith

module _ (m d : Machine) (fits : Fits m) (stands : StandsFor m d) where
  pub read_word-eq : (a : ℕ) → InData a → read_word a m.mem ≡ word_at d.mem (a - 0x10000000)
  unfolding read_word
  read_word-eq a h =
      let byte =
        λ (i j : ℕ) (e : 0x10000000 + i ≡ j) (lt : i < 65536). stands.mem i lt ∙ ap m.mem e in
      let base : ℕ = a - 0x10000000 in
      let b0 = byte base a (omega arith) (omega arith) in
      let b1 = byte (base + 1) (a + 1) (omega arith) (omega arith) in
      let b2 = byte (base + 2) (a + 2) (omega arith) (omega arith) in
      let b3 = byte (base + 3) (a + 3) (omega arith) (omega arith) in
      rw (b0, b1, b2, b3)
        (join_bytes (m.mem a) (m.mem (a + 1)) (m.mem (a + 2)) (m.mem (a + 3)) (fits.mem_byte a)
          (fits.mem_byte (a + 1)) (fits.mem_byte (a + 2)) (fits.mem_byte (a + 3)))

  pub write_word-eq :
      (a v b : ℕ)
      → InData a
      → b < 65536
      → put_word d.mem (a - 0x10000000) v b ≡ write_word a v m.mem (0x10000000 + b)
  unfolding write_word
  write_word-eq a v b h inside = ground (
    arith,
    stands.mem b inside,
    bit_and_low 8 v,
    bit_and_low 8 (v / 2 ^ 8),
    bit_and_low 8 (v / 2 ^ 16),
    bit_and_low 8 (v / 2 ^ 24),
  )
