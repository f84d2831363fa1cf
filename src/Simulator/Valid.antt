-- ===== src/Simulator/Valid.antt =====
-- Every round keeps a machine valid, on every word.
use f_ca.Base.{
  ◌==◌, ℕ, ◌+◌, ◌/◌, ◌^◌, ◌<◌, ◌≡◌, Option, none, some, List, [], ◌∷◌, All, arith, refl, update,
  bit_and,
}
use native.Mathlib.Nat.{div-le_self}
use f_ca.Bits.{bit_and_field, bit_and-lt, bit_or-lt, bit_xor-lt, bit_and_low}
use f_ca.Word.{add32, IsWord, not32}
use f_ca.Word.Laws.{sar-IsWord, clear_low, add32-IsWord}
use f_ca.Machine.{Machine, write_reg, next, fault, IsValid, Leaves, at_next, at_fail, at_fault}
use f_ca.Machine.Valid.{
  write_reg-IsValid, pc-IsValid, put_char-IsValid, input-IsValid, mem-IsValid, Leaves-bind,
  Leaves-if, IsValid-if,
}
use f_ca.Simulator.Decode.{sign, Fields, decode}
use f_ca.Simulator.Alu.{op_imm, op_reg}
use f_ca.Simulator.Exec.{
  assign, read_input, load_bytes, store_bytes, load, store, execute, taken, advance, round,
}

pub record HasWords (f : Fields) : Type 0 where
  pub imm_i : IsWord f.imm_i
  pub imm_u : IsWord f.imm_u

decode-HasWords : (w : ℕ) → HasWords (decode w)
unfolding decode sign
decode-HasWords w = record {
  imm_i = sar-IsWord _ 20 (omega arith);
  imm_u = omega (arith, bit_and_field 20 12 w);
}

-- The value of an arithmetic instruction fits a word.
module _ (a b : ℕ) (ha : IsWord a) (hb : IsWord b) (func3 func7 v : ℕ) where
  op_imm-IsWord : op_imm func3 func7 b a ≡ some v → IsWord v
  unfolding op_imm
  op_imm-IsWord e = ground (
    arith,
    bit_and-lt 32 a b,
    bit_or-lt 32 a b,
    bit_xor-lt 32 a b,
    sar-IsWord a (bit_and b 0x1F),
    div-le_self a (2 ^ bit_and b 0x1F),
  )

  op_reg-IsWord : op_reg func3 func7 a b ≡ some v → IsWord v
  unfolding op_reg
  op_reg-IsWord e = ground (
    arith,
    bit_and-lt 32 a b,
    bit_or-lt 32 a b,
    bit_xor-lt 32 a b,
    sar-IsWord a (bit_and b 0x1F),
    div-le_self a (2 ^ bit_and b 0x1F),
  )

module _ {m : Machine} (valid : IsValid m) where
  open valid use {reg_word, mem_byte, input_word}

  assign-IsValid :
      (rd : ℕ) (o : Option ℕ) → ((v : ℕ) → o ≡ some v → IsWord v) → Leaves IsValid (assign rd o m)
  unfolding assign
  assign-IsValid rd none h = at_next valid
  assign-IsValid rd (some v) h = at_next (write_reg-IsValid valid rd v (h v refl))

  read_input-IsValid : (rd : ℕ) → Leaves IsValid (read_input rd m)
  unfolding read_input
  read_input-IsValid rd = go m.input refl
    where
      go :
          (l : List ℕ)
          → m.input ≡ l
          → Leaves IsValid (elim l [
            | [] ↦ fault
            | typed ∷ rest ↦ next (write_reg rd typed (record m { input = rest }))
          ])
      go [] e = at_fault
      go (typed ∷ rest) e =
          let words : All (λ n. n < 2 ^ 32) (typed ∷ rest) = rw e at input_word in
          at_next (write_reg-IsValid (input-IsValid valid rest words.1) rd typed words.0)

  load_bytes-IsValid : (rd a : ℕ) → Leaves IsValid (load_bytes rd a m)
  unfolding load_bytes
  load_bytes-IsValid rd a =
      Leaves-if _
        (at_next (
          write_reg-IsValid valid rd _ (
            bit_or-lt 32 _ _
              (bit_or-lt 32 _ _ (bit_or-lt 32 _ _ (omega arith) (omega arith)) (omega arith))
              (omega (arith, mem_byte a)))))
        at_fault

  store_bytes-IsValid : (a v : ℕ) → Leaves IsValid (store_bytes a v m)
  unfolding store_bytes
  store_bytes-IsValid a v = Leaves-if _ (at_next (mem-IsValid valid _ (bytes_fit a v))) at_fault
    where
      bytes_fit :
          (a v i : ℕ)
          → update
              (update
                (update (update m.mem a (bit_and v 0xFF)) (a + 1) (bit_and (v / 2 ^ 8) 0xFF))
                (a + 2)
                (bit_and (v / 2 ^ 16) 0xFF))
              (a + 3)
              (bit_and (v / 2 ^ 24) 0xFF)
              i
            < 2 ^ 8
      bytes_fit a v i = ground (
        arith,
        mem_byte i,
        bit_and_low 8 v,
        bit_and_low 8 (v / 2 ^ 8),
        bit_and_low 8 (v / 2 ^ 16),
        bit_and_low 8 (v / 2 ^ 24),
      )

  load-IsValid : (func3 rd base off : ℕ) → Leaves IsValid (load func3 rd base off m)
  unfolding load
  load-IsValid func3 rd base off =
      Leaves-if _
        (Leaves-if _ (read_input-IsValid rd)
          (Leaves-if _ (at_fail valid) (load_bytes-IsValid rd _)))
        (at_next valid)

  store-IsValid : (func3 v base off : ℕ) → Leaves IsValid (store func3 v base off m)
  unfolding store
  store-IsValid func3 v base off =
      Leaves-if _
        (Leaves-if _ (store_bytes-IsValid _ v)
          (Leaves-if _ (at_next (IsValid-if _ (put_char-IsValid valid v) valid)) (at_fail valid)))
        (at_next valid)

  execute-IsValid : (f : Fields) → HasWords f → Leaves IsValid (execute f m)
  unfolding execute
  execute-IsValid f h =
      let a : ℕ = m.reg f.rs1 in
      let b : ℕ = m.reg f.rs2 in
      let value = op_imm-IsWord a f.imm_i (reg_word f.rs1) h.imm_i f.func3 f.func7 in
      let value' = op_reg-IsWord a b (reg_word f.rs1) (reg_word f.rs2) f.func3 f.func7 in
      let target = clear_low-IsWord (add32 a f.imm_i) (add32-IsWord a f.imm_i) in
      let linked = write_reg-IsValid valid f.rd (add32 m.pc 4) (add32-IsWord m.pc 4) in
      let opcode = λ (n : ℕ). f.opcode == n in
      Leaves-if (opcode 0x03) (load-IsValid f.func3 f.rd a f.imm_i) (
        Leaves-if (opcode 0x13) (assign-IsValid f.rd _ value) (
          Leaves-if (opcode 0x17)
            (at_next (write_reg-IsValid valid f.rd _ (add32-IsWord m.pc f.imm_u)))
            (Leaves-if (opcode 0x23) (store-IsValid f.func3 b a f.imm_s) (
              Leaves-if (opcode 0x33) (assign-IsValid f.rd _ value') (
                Leaves-if (opcode 0x37) (at_next (write_reg-IsValid valid f.rd f.imm_u h.imm_u)) (
                  Leaves-if (opcode 0x63)
                    (at_next (
                      IsValid-if (taken f.func3 a b)
                        (pc-IsValid valid _ (add32-IsWord m.pc f.imm_b)) valid))
                    (Leaves-if (opcode 0x67)
                      (at_next (
                        write_reg-IsValid (pc-IsValid valid _ target) f.rd _ (add32-IsWord m.pc 4)))
                      (Leaves-if (opcode 0x6F)
                        (at_next (pc-IsValid linked _ (add32-IsWord m.pc f.imm_j)))
                        (at_next valid)))))))))
    where
      clear_low-IsWord : (a : ℕ) → IsWord a → IsWord (bit_and a (not32 1))
      clear_low-IsWord a ha = omega (arith, clear_low a ha)

advance-IsValid : (f : Fields) (m : Machine) → IsValid m → IsValid (advance f m)
unfolding advance
advance-IsValid f m valid = IsValid-if _ (pc-IsValid valid _ (add32-IsWord _ _)) valid

-- On every instruction word, a round on a valid machine leaves a valid machine, also where it makes
-- `main` return -1: every register, the `pc` and every byte of memory fit their types, and x0 is 0.
pub round-IsValid : (w : ℕ) (m : Machine) → IsValid m → Leaves IsValid (round (decode w) m)
unfolding round
round-IsValid w m valid =
    Leaves-bind (execute-IsValid valid (decode w) (decode-HasWords w)) (λ m' v. v)
      (λ m' v. at_next (advance-IsValid (decode w) m' v))
