-- ===== src/Simulator/Effects.antt =====
-- What a round can change: a rule over the ways in which the `switch` writes to the machine.
use f_ca.Base.{
  ℕ, ◌+◌, ◌%◌, ◌≡◌, ◌≢◌, refl, arith, Option, none, some, List, [], ◌∷◌, ◌==◌, ltb, if◌then◌else◌,
  bit_and, Bool, true, false,
}
use f_ca.Word.{IsWord, add32, not32, sext}
use f_ca.Word.Laws.{clear_low}
use f_ca.Machine.{Machine, write_reg, put_char, next, fault, Leaves, at_next, at_fail, at_fault}
use f_ca.Machine.Valid.{Leaves-bind, Leaves-if}
use f_ca.Simulator.Decode.{Fields, decode}
use f_ca.Simulator.Arith.{decode-IsDecoded}
use f_ca.Simulator.Exec.{
  assign, read_input, load_bytes, store_bytes, load, store, taken, jump_by, execute, advance, round,
}

-- `P` holds of `m` and after each single effect that the round of `f` can have on `m`.
pub record Closed (P : Machine → Type 0) (f : Fields) (m : Machine) : Type 0 where
  pub same : P m
  pub assigned : (v : ℕ) → P (write_reg f.rd v m)
  pub read : (v : ℕ) (rest : List ℕ) → P (write_reg f.rd v (record m { input = rest }))
  pub stored : (mem' : ℕ → ℕ) → P (record m { mem = mem' })
  pub printed : (c : ℕ) → P (put_char c m)
  pub branched : P (jump_by f.imm_b m)
  pub linked : (v : ℕ) → P (jump_by f.imm_j (write_reg f.rd v m))
  pub returned :
      (v a : ℕ) → P (write_reg f.rd v (record m { pc = bit_and (add32 a f.imm_i) (not32 1) }))

either : (P : Machine → Type 0) (b : Bool) {x y : Machine} → P x → P y → P (if b then x else y)
either P true hx hy = hx
either P false hx hy = hy

module _ {P : Machine → Type 0} {f : Fields} {m : Machine} (c : Closed P f m) where
  open c use {same, assigned, read, stored, printed, branched, linked, returned}

  assign-Leaves : (o : Option ℕ) → Leaves P (assign f.rd o m)
  unfolding assign
  assign-Leaves none = at_next same
  assign-Leaves (some v) = at_next (assigned v)

  read_input-Leaves : Leaves P (read_input f.rd m)
  unfolding read_input
  read_input-Leaves = go m.input
    where
      go :
          (l : List ℕ)
          → Leaves P (elim l [
            | [] ↦ fault
            | typed ∷ rest ↦ next (write_reg f.rd typed (record m { input = rest }))
          ])
      go [] = at_fault
      go (typed ∷ rest) = at_next (read typed rest)

  load_bytes-Leaves : (a : ℕ) → Leaves P (load_bytes f.rd a m)
  unfolding load_bytes
  load_bytes-Leaves a = Leaves-if (ltb (a + 3) 65536) (at_next (assigned _)) at_fault

  store_bytes-Leaves : (a v : ℕ) → Leaves P (store_bytes a v m)
  unfolding store_bytes
  store_bytes-Leaves a v = Leaves-if (ltb (a + 3) 65536) (at_next (stored _)) at_fault

  load-Leaves : (func3 base off : ℕ) → Leaves P (load func3 f.rd base off m)
  unfolding load
  load-Leaves func3 base off =
      Leaves-if (func3 == 0x2)
        (Leaves-if _ read_input-Leaves (Leaves-if _ (at_fail same) (load_bytes-Leaves _)))
        (at_next same)

  store-Leaves : (func3 v base off : ℕ) → Leaves P (store func3 v base off m)
  unfolding store
  store-Leaves func3 v base off =
      Leaves-if (func3 == 0x2)
        (Leaves-if _ (store_bytes-Leaves _ v)
          (Leaves-if _ (at_next (either P (ltb v 0x7F) (printed v) same)) (at_fail same)))
        (at_next same)

  pub execute-Leaves : Leaves P (execute f m)
  unfolding execute
  execute-Leaves =
      let a : ℕ = m.reg f.rs1 in
      let b : ℕ = m.reg f.rs2 in
      let opcode = λ (n : ℕ). f.opcode == n in
      Leaves-if (opcode 0x03) (load-Leaves f.func3 a f.imm_i) (
        Leaves-if (opcode 0x13) (assign-Leaves _) (
          Leaves-if (opcode 0x17) (at_next (assigned (add32 m.pc f.imm_u))) (
            Leaves-if (opcode 0x23) (store-Leaves f.func3 b a f.imm_s) (
              Leaves-if (opcode 0x33) (assign-Leaves _) (
                Leaves-if (opcode 0x37) (at_next (assigned f.imm_u)) (
                  Leaves-if (opcode 0x63) (at_next (either P (taken f.func3 a b) branched same)) (
                    Leaves-if (opcode 0x67) (at_next (returned (add32 m.pc 4) a)) (
                      Leaves-if (opcode 0x6F) (at_next (linked (add32 m.pc 4)))
                        (at_next same)))))))))

-- With a property that the last lines of the round keep, the rule reaches the whole round.
round-Leaves :
    {P : Machine → Type 0} {f : Fields} {m : Machine}
    → Closed P f m
    → ((m' : Machine) → P m' → P (record m' { pc = add32 m'.pc 4 }))
    → Leaves P (round f m)
unfolding round advance
round-Leaves {P} c keep =
    Leaves-bind (execute-Leaves c) (λ _ p. p) (λ m' p. at_next (either P _ (keep m' p) p))

-- On every word, a round leaves each register but `rd` and x0 as it was, whether or not it goes on.
pub round-frame :
    (w i : ℕ) (m : Machine)
    → i ≢ 0
    → i ≢ (decode w).rd
    → Leaves (λ m'. m'.reg i ≡ m.reg i) (round (decode w) m)
round-frame w i m not_zero other =
    round-Leaves
      (record {
        same = refl;
        assigned = λ v. ground arith;
        read = λ v rest. ground arith;
        stored = λ mem'. refl;
        printed = λ c. refl;
        branched = refl;
        linked = λ v. ground arith;
        returned = λ v a. ground arith;
      })
      (λ m' h. h)

sext13_even : (v : ℕ) → v % 2 ≡ 0 → sext 13 v % 2 ≡ 0
unfolding sext
sext13_even v h = ground arith

sext21_even : (v : ℕ) → v % 2 ≡ 0 → sext 21 v % 2 ≡ 0
unfolding sext
sext21_even v h = ground arith

imm_b_even : (w : ℕ) → IsWord w → (decode w).imm_b % 2 ≡ 0
imm_b_even w hw = rw (decode-IsDecoded w hw).imm_b (sext13_even _ (omega arith))

imm_j_even : (w : ℕ) → IsWord w → (decode w).imm_j % 2 ≡ 0
imm_j_even w hw = rw (decode-IsDecoded w hw).imm_j (sext21_even _ (omega arith))

-- The jumps of an instruction are even, so an even `pc` stays even.
pub round-even :
    (w : ℕ) (m : Machine)
    → IsWord w
    → m.pc % 2 ≡ 0
    → Leaves (λ m'. m'.pc % 2 ≡ 0) (round (decode w) m)
round-even w m hw even =
    round-Leaves
      (record {
        same = even;
        assigned = λ v. even;
        read = λ v rest. even;
        stored = λ mem'. even;
        printed = λ c. even;
        branched = ground (arith, (imm_b_even w hw));
        linked = λ v. ground (arith, (imm_j_even w hw));
        returned = λ v a. omega (arith, clear_low (add32 a (decode w).imm_i) (omega arith));
      })
      (λ m' h. omega arith)
