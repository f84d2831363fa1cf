-- ===== src/Indexed/Keeps.antt =====
-- Every round of proj2/pa2/제출1.cc keeps the values in their types, on every word.
use native.Mathlib.Nat.{div-le_self}
use f_ca.Base.{
  ℕ, ◌-◌, ◌%◌, ◌^◌, arith, Bool, true, false, not, ◌&&◌, Option, none, some, List, [], ◌∷◌, All,
  bit_and, update, ltb, if◌then◌else◌, ◌==◌,
}
use f_ca.Bits.{bit_and-lt, bit_or-lt, bit_xor-lt, bit_and_field}
use f_ca.Word.{IsWord, add32, shr, slt}
use f_ca.Word.Laws.{sar-IsWord}
use f_ca.Printer.Fields.{Fields, extend, low_imm}
use f_ca.Indexed.State.{State, Flags, Flow, falls, continues, assign, read_cin, put_char}
use f_ca.Indexed.Exec.{
  execute, advance, round, imm_arith, reg_arith, branch, taken, jal, jalr, load, store, link,
  put_data,
}
use f_ca.Indexed.Valid.{IsState}

-- The state at the end of a `case`, unless it is undefined, is one whose values fit.
data Kept : Option Flow → Type 0 where
  undefined : Kept none
  at_falls : {s : State} → IsState s → Kept (some (falls s))
  at_continues : {s : State} → IsState s → Kept (some (continues s))

-- `P` holds of the state at the end, unless the behaviour is undefined.
pub data Leaves (P : State → Type 0) : Option State → Type 0 where
  at_none : Leaves P none
  at_some : {s : State} → P s → Leaves P (some s)

Kept-if : (b : Bool) {x y : Option Flow} → Kept x → Kept y → Kept (if b then x else y)
Kept-if true hx hy = hx
Kept-if false hx hy = hy

bool_word : (b : Bool) → IsWord (if b then 1 else 0)
bool_word b = ground arith

low_imm-IsWord : (w : ℕ) → IsWord (low_imm w)
unfolding extend
low_imm-IsWord w =
    ground (arith, bit_and_field 12 20 w, bit_or-lt 32 (shr (bit_and w 0xFFF00000) 20) 0xFFFFF000)

module _ {s : State} (valid : IsState s) where
  reg-IsState :
      (curr_i : ℕ) (reg : ℕ → ℕ)
      → ((i : ℕ) → IsWord (reg i))
      → IsState (record s { curr_i = curr_i; reg = reg })
  reg-IsState curr_i reg h = record {
    reg_word = h;
    data_word = valid.data_word;
    user_word = valid.user_word;
    input_word = valid.input_word;
  }

  assign-Kept : (rd v : ℕ) → IsWord v → Kept (assign rd v s)
  assign-Kept rd v h = at_falls (reg-IsState s.curr_i _ (λ i. ground (arith, valid.reg_word i)))

  -- The state with its x0 set to 0, and its `curr_i` anywhere.
  cleared : (curr_i : ℕ) → IsState (record s { curr_i = curr_i; reg = update s.reg 0 0 })
  cleared curr_i = reg-IsState curr_i _ (λ i. ground (arith, valid.reg_word i))

  imm_arith-Kept : (f : Fields) → Kept (imm_arith f s)
  unfolding imm_arith
  imm_arith-Kept f =
      let a : ℕ = s.reg f.rs1 in
      let imm1 : ℕ = low_imm f.buffer_ in
      let amount : ℕ = bit_and f.rs2 0x1F in
      let ha : IsWord a = valid.reg_word f.rs1 in
      let hi : IsWord imm1 = low_imm-IsWord f.buffer_ in
      let masked : IsWord (bit_and (shr a amount) (shr 0x7FFFFFFF (amount - 1))) =
        bit_and-lt 32 _ _ (omega (arith, div-le_self a (2 ^ amount)))
          (omega (arith, div-le_self 0x7FFFFFFF (2 ^ (amount - 1)))) in
      Kept-if (f.funct3 == 0x0) (assign-Kept f.rd _ (omega arith)) (
        Kept-if (f.funct3 == 0x2) (assign-Kept f.rd _ (bool_word (slt a imm1))) (
          Kept-if (f.funct3 == 0x4) (assign-Kept f.rd _ (bit_xor-lt 32 a imm1 ha hi)) (
            Kept-if (f.funct3 == 0x6) (assign-Kept f.rd _ (bit_or-lt 32 a imm1 ha hi)) (
              Kept-if (f.funct3 == 0x7) (assign-Kept f.rd _ (bit_and-lt 32 a imm1 ha hi)) (
                Kept-if (f.funct3 == 0x1) (assign-Kept f.rd _ (omega arith)) (
                  Kept-if (f.funct3 == 0x5)
                    (Kept-if (f.funct7 == 0x0)
                      (Kept-if (amount == 0) undefined (assign-Kept f.rd _ masked))
                      (Kept-if (f.funct7 == 0x20) (assign-Kept f.rd _ (sar-IsWord a amount ha))
                        (at_falls valid)))
                    (at_falls valid)))))))

  reg_arith-Kept : (f : Fields) → Kept (reg_arith f s)
  unfolding reg_arith
  reg_arith-Kept f =
      let a : ℕ = s.reg f.rs1 in
      let b : ℕ = s.reg f.rs2 in
      let ha : IsWord a = valid.reg_word f.rs1 in
      let hb : IsWord b = valid.reg_word f.rs2 in
      let shifted : IsWord (shr a (bit_and b 0x1F)) =
        omega (arith, div-le_self a (2 ^ bit_and b 0x1F)) in
      Kept-if (f.funct3 == 0x00)
        (Kept-if (f.funct7 == 0x0) (assign-Kept f.rd _ (omega arith))
          (Kept-if (f.funct7 == 0x20) (assign-Kept f.rd _ (omega arith)) (at_falls valid)))
        (Kept-if (f.funct3 == 0x1)
          (Kept-if (ltb (bit_and b 0x7F) 32) (assign-Kept f.rd _ (omega arith)) undefined)
          (Kept-if (f.funct3 == 0x2) (assign-Kept f.rd _ (bool_word (ltb a b))) (
            Kept-if (f.funct3 == 0x4) (assign-Kept f.rd _ (bit_xor-lt 32 a b ha hb)) (
              Kept-if (f.funct3 == 0x5)
                (Kept-if (f.funct7 == 0x0) (assign-Kept f.rd _ shifted) (
                  Kept-if (f.funct7 == 0x20) (assign-Kept f.rd _ (sar-IsWord a (bit_and b 0x1F) ha))
                    (at_falls valid)))
                (Kept-if (f.funct3 == 0x6) (assign-Kept f.rd _ (bit_or-lt 32 a b ha hb)) (
                  Kept-if (f.funct3 == 0x7) (assign-Kept f.rd _ (bit_and-lt 32 a b ha hb))
                    (at_falls valid)))))))

  linked-IsWord : (rd i : ℕ) → IsWord (update (update s.reg rd (link s)) 0 0 i)
  linked-IsWord rd i = ground (arith, valid.reg_word i)

  jal-Kept : (f : Fields) → Kept (jal f s)
  unfolding jal
  jal-Kept f = at_continues (reg-IsState _ _ (linked-IsWord f.rd))

  jalr-Kept : (f : Fields) → Kept (jalr f s)
  unfolding jalr
  jalr-Kept f = at_continues (reg-IsState _ _ (linked-IsWord f.rd))

  branch-Kept : (f : Fields) → Kept (branch f s)
  unfolding branch
  branch-Kept f =
      Kept-if (taken f.funct3 (s.reg f.rs1) (s.reg f.rs2))
        (at_continues (reg-IsState _ s.reg valid.reg_word)) (at_falls valid)

  put_data-IsState : (address v : ℕ) → IsWord v → IsState (put_data address v s)
  put_data-IsState address v h = record {
    reg_word = valid.reg_word;
    data_word = λ i. ground (arith, valid.data_word i);
    user_word = valid.user_word;
    input_word = valid.input_word;
  }

read_cin-IsState : (s : State) → IsState s → IsState (read_cin s)
unfolding read_cin
read_cin-IsState s valid = go s.input valid.input_word
  where
    go :
        (l : List ℕ)
        → All IsWord l
        → IsState (elim l [ [] ↦ s | n ∷ rest ↦ record s { user_lw = n; input = rest } ])
    go [] h = valid
    go (n ∷ rest) h = record {
      reg_word = valid.reg_word;
      data_word = valid.data_word;
      user_word = h.0;
      input_word = h.1;
    }

put_char-IsState : (s : State) (c : ℕ) → IsState s → IsState (put_char c s)
put_char-IsState s c valid = record {
  reg_word = valid.reg_word;
  data_word = valid.data_word;
  user_word = valid.user_word;
  input_word = valid.input_word;
}

module _ {s : State} (valid : IsState s) where
  load-Kept : (flags : Flags) (f : Fields) → Kept (load flags f s)
  unfolding load
  load-Kept flags f =
      let typed = read_cin-IsState s valid in
      let number = assign-Kept typed f.rd (read_cin s).user_lw typed.user_word in
      let stored = assign-Kept valid f.rd _ (valid.data_word _) in
      Kept-if (f.funct3 == 0x2)
        (Kept-if (not flags.flag && not flags.proj3_flag) stored (
          Kept-if (flags.flag && not flags.proj3_flag) number
            (Kept-if (flags.proj3_flag && _ == 0x20000000) number stored)))
        (at_falls valid)

  store-Kept : (flags : Flags) (f : Fields) → Kept (store flags f s)
  unfolding store
  store-Kept flags f =
      let v : ℕ = s.reg f.rs2 in
      let hv : IsWord v = valid.reg_word f.rs2 in
      let stored = at_falls (put_data-IsState valid _ v hv) in
      let shown = put_char-IsState s (v % 256) valid in
      Kept-if (f.funct3 == 0x2)
        (Kept-if (not flags.flag && not flags.proj3_flag) stored (
          Kept-if (flags.flag && not flags.proj3_flag) (at_falls shown) (
            Kept-if (flags.proj3_flag && _ == 0x20000000) (at_falls (put_data-IsState shown _ v hv))
              stored)))
        (at_falls valid)

  execute-Kept : (flags : Flags) (f : Fields) → Kept (execute flags f s)
  unfolding execute
  execute-Kept flags f = Kept-if (f.opcode == 0x37) (assign-Kept valid f.rd _ (omega arith)) (
      Kept-if (f.opcode == 0x17) (assign-Kept valid f.rd _ (omega arith)) (
        Kept-if (f.opcode == 0x6F) (jal-Kept valid f) (
          Kept-if (f.opcode == 0x67) (jalr-Kept valid f) (
            Kept-if (f.opcode == 0x63) (branch-Kept valid f) (
              Kept-if (f.opcode == 0x3) (load-Kept flags f) (
                Kept-if (f.opcode == 0x23) (store-Kept flags f) (
                  Kept-if (f.opcode == 0x13) (imm_arith-Kept valid f)
                    (Kept-if (f.opcode == 0x33) (reg_arith-Kept valid f) (at_falls valid)))))))))

advance-Leaves :
    (o : Option Flow)
    → Kept o
    → Leaves IsState (elim o [ none ↦ none | some flow ↦ some (advance flow) ])
advance-Leaves none undefined = at_none
advance-Leaves (some (falls s)) (at_falls h) = at_some (cleared h (add32 s.curr_i 1))
advance-Leaves (some (continues s)) (at_continues h) = at_some h

-- On every word, a round leaves a state whose values fit their types, where it is defined.
pub round-IsState :
    (flags : Flags) (f : Fields) (s : State) → IsState s → Leaves IsState (round flags f s)
unfolding round
round-IsState flags f s valid = advance-Leaves _ (execute-Kept (cleared valid s.curr_i) flags f)
