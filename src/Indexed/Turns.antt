-- ===== src/Indexed/Turns.antt =====
-- The jumps and branches of proj2/pa2/제출1.cc follow the manual.
use mathlib.Core.Bool.{true≢false}
use f_ca.Base.{
  sym, ◌∙◌, true, ◌<◌, ℕ, ◌+◌, ◌*◌, ◌/◌, ◌%◌, ◌^◌, ◌≡◌, inl, inr, refl, arith, update, Bool-cases,
}
use f_ca.Word.{IsWord, add32, sext}
use f_ca.Word.Laws.{sext-IsWord}
use f_ca.Machine.{Machine, write_reg}
use f_ca.Isa.{BranchOp, jal, jalr, branch, IsInstr}
use f_ca.Isa.Meaning.{meaning, holds}
use f_ca.Tracer.Execute.{sext13_four}
use f_ca.Tracer.Cut.{sext_small}
use f_ca.Indexed.State.{State, Flags}
use f_ca.Indexed.Shows.{Shows}
use f_ca.Indexed.Valid.{IsState, read}
use f_ca.Indexed.Jumps.{jumped, branch-eq, jal-eq, jalr-eq}
use f_ca.Indexed.Faithful.{IsInside, IsFaithful, view, Follows, sext21_four, step_lem}

module _ (flags : Flags) (s : State) (m : Machine) (valid : IsState s) (shows : Shows s m)
    (near : s.curr_i + 1 < 2 ^ 30) where
  pub jal-Follows :
      (rd n : ℕ)
      → IsInstr (jal rd n)
      → IsFaithful flags (jal rd n) (view s m)
      → Follows flags (jal rd n) s m
  jal-Follows rd n h faithful =
      let v : ℕ = sext 21 (n * 2) in
      let word : IsWord v = sext-IsWord 21 (n * 2) (omega arith) (omega arith) in
      let four : v % 4 ≡ 0 = sext21_four (n * 2) (omega arith) (omega arith) in
      (
        _,
        record (write_reg rd ((m.pc + 4) % 2 ^ 32) m) { pc = (m.pc + v) % 2 ^ 32 },
        jal-eq flags s valid rd n h faithful.1,
        unfold meaning in refl,
        record {
          pc = rw (shows.pc) (step_lem s.curr_i v word four (omega arith) faithful.2);
          reg = λ i. ground (arith, shows.reg i, shows.pc);
          mem = shows.mem;
          input = shows.input;
          output = shows.output;
        },
      )

  pub jalr-Follows :
      (rd rs1 n : ℕ)
      → IsInstr (jalr rd rs1 n)
      → IsFaithful flags (jalr rd rs1 n) (view s m)
      → Follows flags (jalr rd rs1 n) s m
  jalr-Follows rd rs1 n h faithful =
      let small : sext 12 n ≡ n = sext_small n faithful.1 in
      let there : (m.reg rs1 + sext 12 n) % 2 ^ 32 / 2 * 2 % 2 ^ 32 ≡ add32 (read s rs1) n / 4 * 4 =
        omega (arith, small, shows.reg rs1, faithful.2) in
      (
        _,
        record (write_reg rd ((m.pc + 4) % 2 ^ 32) m) {
          pc = (m.reg rs1 + sext 12 n) % 2 ^ 32 / 2 * 2 % 2 ^ 32;
        },
        jalr-eq flags s valid rd rs1 n h faithful.0,
        unfold meaning in refl,
        record {
          pc = there;
          reg = λ i. ground (arith, shows.reg i, shows.pc);
          mem = shows.mem;
          input = shows.input;
          output = shows.output;
        },
      )

  pub branch-Follows :
      (o : BranchOp) (rs1 rs2 n : ℕ)
      → IsInstr (branch o rs1 rs2 n)
      → IsFaithful flags (branch o rs1 rs2 n) (view s m)
      → Follows flags (branch o rs1 rs2 n) s m
  branch-Follows o rs1 rs2 n h faithful =
      let v : ℕ = sext 13 (n * 2) in
      let word : IsWord v = sext-IsWord 13 (n * 2) (omega arith) (omega arith) in
      let four : v % 4 ≡ 0 = sext13_four (n * 2) (omega arith) (omega arith) in
      let run = branch-eq flags s valid o rs1 rs2 n h (faithful.0, faithful.1) faithful.3 in
      let there : holds o (read s rs1) (read s rs2) ≡ true → IsInside (s.curr_i * 4) v =
        λ e. elim faithful.4 [ inl other ↦ absurd (true≢false (sym e ∙ other)) | inr h ↦ h ] in
      elim (Bool-cases (holds o (read s rs1) (read s rs2))) [
        | inl e ↦ (
          jumped v s,
          record m { pc = (m.pc + v) % 2 ^ 32 },
          rw e at run,
          unfold meaning in rw (shows.reg rs1, shows.reg rs2, e) refl,
          record {
            pc = rw (shows.pc) (step_lem s.curr_i v word four (omega arith) (there e));
            reg = λ i. ground (arith, shows.reg i);
            mem = shows.mem;
            input = shows.input;
            output = shows.output;
          },
        )
        | inr e ↦ (
          record s { curr_i = add32 s.curr_i 1; reg = update (read s) 0 0 },
          record m { pc = (m.pc + 4) % 2 ^ 32 },
          rw e at run,
          unfold meaning in rw (shows.reg rs1, shows.reg rs2, e) refl,
          record {
            pc = omega (arith, shows.pc);
            reg = λ i. ground (arith, shows.reg i);
            mem = shows.mem;
            input = shows.input;
            output = shows.output;
          },
        )
      ]
