-- ===== src/Indexed/Access.antt =====
-- `lw` and `sw` of proj2/pa2/제출1.cc follow the manual.
use f_ca.Base.{
  ℕ, ◌+◌, ◌-◌, ◌/◌, ◌%◌, ◌^◌, ◌≤◌, ◌<◌, ◌≡◌, inl, inr, List, refl, ◌∙◌, arith, true, update, [],
  ◌∷◌,
}
use f_ca.Word.{add32, sext}
use f_ca.Machine.{Machine, next, write_reg}
use f_ca.Isa.{LoadOp, StoreOp, load, store, IsInstr}
use f_ca.Isa.Meaning.{meaning, load_word, store_word, read_number, word_at, put_word}
use f_ca.Indexed.State.{State, Flags}
use f_ca.Indexed.Exec.{cell}
use f_ca.Indexed.Shows.{Shows, cell-eq, word_at-eq, put_word-eq}
use f_ca.Indexed.Valid.{IsState, read, written}
use f_ca.Indexed.Memory.{IsData, load_data-eq, load_input-eq, store_data-eq}
use f_ca.Indexed.Faithful.{IsServed, IsTyped, IsFaithful, view, Follows, written-Shows, compute}

served-IsData : (flags : Flags) (a : ℕ) → IsServed flags a → IsData flags a
served-IsData flags a h = ground arith

load_word-served :
    (rd a : ℕ) (m : Machine)
    → 0x10000000 ≤ a
    → a < 0x10010000
    → a % 4 ≡ 0
    → load_word rd a m
      ≡ next (record (write_reg rd (word_at m.mem (a - 0x10000000)) m) { pc = (m.pc + 4) % 2 ^ 32 })
unfolding load_word
load_word-served rd a m lo hi four = ground arith

store_word-served :
    (v a : ℕ) (m : Machine)
    → 0x10000000 ≤ a
    → a < 0x10010000
    → a % 4 ≡ 0
    → store_word v a m
      ≡ next (record m { pc = (m.pc + 4) % 2 ^ 32; mem = put_word m.mem (a - 0x10000000) v })
unfolding store_word
store_word-served v a m lo hi four = ground arith

load_word-typed :
    (rd a v : ℕ) (rest : List ℕ) (m : Machine)
    → a ≡ 0x20000000
    → m.input ≡ v ∷ rest
    → load_word rd a m
      ≡ next (record (write_reg rd v (record m { input = rest })) { pc = (m.pc + 4) % 2 ^ 32 })
unfolding load_word read_number
load_word-typed rd a v rest m there e = rw (there, e) refl

-- The cell of a served address.
cell-served : (a : ℕ) → 0x10000000 ≤ a → a < 0x10010000 → cell a ≡ (a - 0x10000000) / 4
cell-served a lo hi = omega (arith, cell-eq a)

module _ (flags : Flags) (s : State) (m : Machine) (valid : IsState s) (shows : Shows s m)
    (near : s.curr_i + 1 < 2 ^ 30) where
  word_lem :
      (a : ℕ)
      → 0x10000000 ≤ a
      → a < 0x10010000
      → a % 4 ≡ 0
      → word_at m.mem (a - 0x10000000) ≡ s.data_ (cell a)
  word_lem a lo hi four = rw (cell-served a lo hi) (
      word_at-eq s.data_ m.mem (a - 0x10000000) (omega arith)
        (valid.data_word ((a - 0x10000000) / 4))
        (λ k h. shows.mem (a - 0x10000000 + k) (omega arith)))

  load_served :
      (rd rs1 n : ℕ)
      → IsInstr (load LoadOp.lw rd rs1 n)
      → IsServed flags ((read s rs1 + sext 12 n) % 2 ^ 32)
      → Follows flags (load LoadOp.lw rd rs1 n) s m
  load_served rd rs1 n h served =
      let a : ℕ = (read s rs1 + sext 12 n) % 2 ^ 32 in
      compute s m shows near flags (load LoadOp.lw rd rs1 n) rd (s.data_ (cell a))
        (load_data-eq flags s rd rs1 n h (served-IsData flags a served))
        (unfold meaning in
          rw
            (
              shows.reg rs1,
              load_word-served rd a m served.1 served.2 served.3,
              word_lem a served.1 served.2 served.3,
            )
            refl)

  load_typed :
      (rd rs1 n : ℕ) (typed : List ℕ)
      → IsInstr (load LoadOp.lw rd rs1 n)
      → flags.proj3_flag ≡ true
      → (read s rs1 + sext 12 n) % 2 ^ 32 ≡ 0x20000000
      → s.input ≡ typed
      → IsTyped typed
      → Follows flags (load LoadOp.lw rd rs1 n) s m
  load_typed rd rs1 n [] h proj3 there e some_ = elim some_ [ ]
  load_typed rd rs1 n (v ∷ rest) h proj3 there e some_ =
      let s0 = record s { user_lw = v; input = rest } in
      let m0 = record m { input = rest } in
      let shows0 : Shows s0 m0 = record {
        pc = shows.pc;
        reg = shows.reg;
        mem = shows.mem;
        input = refl;
        output = shows.output;
      } in
      (
        written rd v s0,
        record (write_reg rd v m0) { pc = (m.pc + 4) % 2 ^ 32 },
        load_input-eq flags s rd rs1 n v rest h proj3 there e,
        unfold meaning in
            rw (shows.reg rs1) (
              load_word-typed rd ((read s rs1 + sext 12 n) % 2 ^ 32) v rest m there
                (shows.input ∙ e)),
        written-Shows s0 m0 shows0 near rd v,
      )

  pub load-Follows :
      (rd rs1 n : ℕ)
      → IsInstr (load LoadOp.lw rd rs1 n)
      → IsFaithful flags (load LoadOp.lw rd rs1 n) (view s m)
      → Follows flags (load LoadOp.lw rd rs1 n) s m
  load-Follows rd rs1 n h (inl served) = load_served rd rs1 n h served
  load-Follows rd rs1 n h (inr typed) = load_typed rd rs1 n s.input h typed.0 typed.1 refl typed.2

  pub store-Follows :
      (rs2 rs1 n : ℕ)
      → IsInstr (store StoreOp.sw rs2 rs1 n)
      → IsFaithful flags (store StoreOp.sw rs2 rs1 n) (view s m)
      → Follows flags (store StoreOp.sw rs2 rs1 n) s m
  store-Follows rs2 rs1 n h served =
      let a : ℕ = (read s rs1 + sext 12 n) % 2 ^ 32 in
      let place = cell-served a served.1 served.2 in
      (
        record s {
          curr_i = add32 s.curr_i 1;
          reg = update (read s) 0 0;
          data_ = update s.data_ (cell a) (read s rs2);
        },
        record m { pc = (m.pc + 4) % 2 ^ 32; mem = put_word m.mem (a - 0x10000000) (read s rs2) },
        store_data-eq flags s rs2 rs1 n h (served-IsData flags a served),
        unfold meaning in
            rw
              (
                shows.reg rs1,
                shows.reg rs2,
                store_word-served (read s rs2) a m served.1 served.2 served.3,
              )
              refl,
        record {
          pc = omega (arith, shows.pc);
          reg = λ i. ground (arith, shows.reg i);
          mem = λ b h. rw place (
              put_word-eq s.data_ m.mem (a - 0x10000000) (read s rs2) b (omega arith)
                (shows.mem b h));
          input = shows.input;
          output = shows.output;
        },
      )
