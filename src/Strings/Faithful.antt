-- ===== src/Strings/Faithful.antt =====
-- proj2/pa2/태환.c: a round on the digits of an encoded instruction, against the manual.
use f_ca.Base.{
  ℕ, ◌+◌, ◌*◌, ◌/◌, ◌%◌, ◌^◌, ◌≤◌, ◌≡◌, ◌≢◌, refl, ap, ◌∙◌, arith, Bool, true, false, if◌then◌else◌,
  update,
}
use f_ca.Word.{IsWord, add32, sub32, shl, sext}
use f_ca.Word.Laws.{sext-IsWord}
use f_ca.Machine.{Machine, IsValid, Outcome, next, write_reg, ◌>>=◌}
use f_ca.Isa.{
  RegOp, ImmOp, ShiftOp, BranchOp, lui, auipc, jal, jalr, branch, imm, shift, reg, reg_func3,
  reg_func7, imm_func3, shift_func3, shift_func7, branch_func3, encode, IsInstr,
}
use f_ca.Isa.Bounds.{
  branch_func3-lt, shift_func3-lt, shift_func7-lt, reg_func3-lt, reg_func7-lt, imm_func3-lt,
}
use f_ca.Isa.Digits.{jal_digits, branch_digits}
use f_ca.Isa.Meaning.{meaning, go_on, jump_to, reg_value, imm_value, shift_value, holds}
use f_ca.Strings.Blocks.{spelled}
use f_ca.Strings.Cut.{cut}
use f_ca.Strings.Memory.{assign}
use f_ca.Strings.Exec.{execute, finish, round, jump_register, turn}
use f_ca.Strings.Finish.{finish-write, finish-jump, finish-turn}
use f_ca.Strings.Choose.{
  imm_done, shift_done, branch_test, reg_arith-at, imm_arith-at, shift-at, branches-at, execute-reg,
  execute-jalr, execute-imm, execute-branch, execute-jal, execute-lui, execute-auipc,
}
use f_ca.Strings.Round.{part-at, unsigned_part, signed_part, round-at, branch_offset, jal_offset}
use f_ca.Strings.Meant.{IsAmount, reg_done-eq, imm_done-eq, shift_done-eq, branch_test-eq}

module _ (fresh : ℕ → ℕ) (m : Machine) (valid : IsValid m) (near : m.pc ≤ 16384) where
  pub round-ends :
      (w r1 r2 rd : ℕ) (o : Outcome)
      → w % 128 ≢ 127
      → w / 2 ^ 15 % 32 ≡ r1
      → w / 2 ^ 20 % 32 ≡ r2
      → w / 2 ^ 7 % 32 ≡ rd
      → execute fresh (cut (spelled 32 w)) r1 r2 rd m ≡ o
      → round fresh (spelled 32 w) m ≡ (o >>= finish r1 r2 rd)
  round-ends w r1 r2 rd o other e1 e2 e e' = round-at fresh w m near other ∙ rw (e1, e2, e, e') refl

  pub round-lui :
      (rd n : ℕ)
      → IsInstr (lui rd n)
      → round fresh (spelled 32 (encode (lui rd n))) m ≡ meaning (lui rd n) m
  unfolding encode meaning cut
  round-lui rd n h =
      let w = encode (lui rd n) in
      let value : shl (w / 2 ^ 12 % 2 ^ 20) 12 ≡ n * 2 ^ 12 = omega arith in
      round-ends w _ _ rd _ (omega arith) refl refl (omega arith) (
        execute-lui (cut (spelled 32 w)) m fresh _ _ rd (part-at 25 7 0 0x37 w (omega arith))
        ∙ ap (λ (v : ℕ). assign rd (shl v 12) m) (unsigned_part 0 20 12 w (omega arith))
        ∙ ap (λ (v : ℕ). assign rd v m) value)
      ∙ finish-write _ _ rd m valid.zero_reg (n * 2 ^ 12)

  pub round-auipc :
      (rd n : ℕ)
      → IsInstr (auipc rd n)
      → round fresh (spelled 32 (encode (auipc rd n))) m ≡ meaning (auipc rd n) m
  unfolding encode meaning cut
  round-auipc rd n h =
      let w = encode (auipc rd n) in
      let value : add32 m.pc (shl (w / 2 ^ 12 % 2 ^ 20) 12) ≡ (m.pc + n * 2 ^ 12) % 2 ^ 32 =
        omega arith in
      round-ends w _ _ rd _ (omega arith) refl refl (omega arith) (
        execute-auipc (cut (spelled 32 w)) m fresh _ _ rd (part-at 25 7 0 0x17 w (omega arith))
        ∙ ap (λ (v : ℕ). assign rd (add32 m.pc (shl v 12)) m)
            (unsigned_part 0 20 12 w (omega arith))
        ∙ ap (λ (v : ℕ). assign rd v m) value)
      ∙ finish-write _ _ rd m valid.zero_reg ((m.pc + n * 2 ^ 12) % 2 ^ 32)

  pub round-reg :
      (o : RegOp) (rd rs1 rs2 : ℕ)
      → IsInstr (reg o rd rs1 rs2)
      → IsAmount o (m.reg rs2)
      → round fresh (spelled 32 (encode (reg o rd rs1 rs2))) m ≡ meaning (reg o rd rs1 rs2) m
  unfolding encode meaning cut
  round-reg o rd rs1 rs2 h amount =
      let w = encode (reg o rd rs1 rs2) in
      let a = m.reg rs1 in
      let b = m.reg rs2 in
      let f3 = reg_func3-lt o in
      let f7 = reg_func7-lt o in
      round-ends w rs1 rs2 rd _ (omega arith) (omega arith) (omega arith) (omega arith) (
        execute-reg (cut (spelled 32 w)) m fresh rs1 rs2 rd (part-at 25 7 0 0x33 w (omega arith))
        ∙ reg_arith-at (cut (spelled 32 w)) m o rd a b
            (part-at 17 3 12 (reg_func3 o) w (omega arith))
            (part-at 0 7 25 (reg_func7 o) w (omega arith))
        ∙ reg_done-eq o rd a b m (valid.reg_word rs1) (valid.reg_word rs2) amount)
      ∙ finish-write rs1 rs2 rd m valid.zero_reg (reg_value o a b)

  pub round-imm :
      (o : ImmOp) (rd rs1 n : ℕ)
      → IsInstr (imm o rd rs1 n)
      → round fresh (spelled 32 (encode (imm o rd rs1 n))) m ≡ meaning (imm o rd rs1 n) m
  unfolding encode meaning cut
  round-imm o rd rs1 n h =
      let w = encode (imm o rd rs1 n) in
      let a = m.reg rs1 in
      let f3 = imm_func3-lt o in
      let whole : w / 2 ^ 20 % 2 ^ 12 ≡ n = omega arith in
      round-ends w rs1 _ rd _ (omega arith) (omega arith) refl (omega arith) (
        execute-imm (cut (spelled 32 w)) m fresh rs1 _ rd (part-at 25 7 0 0x13 w (omega arith))
        ∙ imm_arith-at (cut (spelled 32 w)) m o rd a _
            (part-at 17 3 12 (imm_func3 o) w (omega arith))
        ∙ ap (λ (v : ℕ). assign rd (imm_done o a v) m)
            (signed_part 0 11 20 w (omega arith) ∙ ap (sext 12) whole)
        ∙ ap (λ (v : ℕ). assign rd v m)
            (imm_done-eq o a (sext 12 n) (valid.reg_word rs1) (sext-IsWord 12 n (omega arith) h.2)))
      ∙ finish-write rs1 _ rd m valid.zero_reg (imm_value o a (sext 12 n))

  pub round-shift :
      (o : ShiftOp) (rd rs1 n : ℕ)
      → IsInstr (shift o rd rs1 n)
      → round fresh (spelled 32 (encode (shift o rd rs1 n))) m ≡ meaning (shift o rd rs1 n) m
  unfolding encode meaning cut
  round-shift o rd rs1 n h =
      let w = encode (shift o rd rs1 n) in
      let a = m.reg rs1 in
      let f3 = shift_func3-lt o in
      let f7 = shift_func7-lt o in
      let whole : w / 2 ^ 20 % 2 ^ 5 ≡ n = omega arith in
      round-ends w rs1 _ rd _ (omega arith) (omega arith) refl (omega arith) (
        execute-imm (cut (spelled 32 w)) m fresh rs1 _ rd (part-at 25 7 0 0x13 w (omega arith))
        ∙ shift-at (cut (spelled 32 w)) m o rd a _ (part-at 17 3 12 (shift_func3 o) w (omega arith))
            (part-at 0 7 25 (shift_func7 o) w (omega arith))
        ∙ ap (λ (v : ℕ). assign rd (shift_done o a v) m)
            (unsigned_part 7 5 20 w (omega arith) ∙ whole)
        ∙ ap (λ (v : ℕ). assign rd v m) (shift_done-eq o a n (valid.reg_word rs1) h.2))
      ∙ finish-write rs1 _ rd m valid.zero_reg (shift_value o a n)

  -- The program counter after `PC += imm-4` and `PC += 4`.
  turned : (p v : ℕ) → IsWord p → IsWord v → (add32 p (sub32 v 4) + 4) % 2 ^ 32 ≡ (p + v) % 2 ^ 32
  turned p v hp hv = omega arith

  pub round-jal :
      (rd n : ℕ)
      → IsInstr (jal rd n)
      → round fresh (spelled 32 (encode (jal rd n))) m ≡ meaning (jal rd n) m
  unfolding meaning cut
  round-jal rd n h =
      let i = jal rd n in
      let w = encode i in
      let out : Machine = record m { reg = update m.reg rd (add32 m.pc 4) } in
      let p : ℕ = add32 m.pc (sub32 (sext 21 (n * 2)) 4) in
      let there : (p + 4) % 2 ^ 32 ≡ (m.pc + sext 21 (n * 2)) % 2 ^ 32 =
        turned m.pc (sext 21 (n * 2)) valid.pc_word
          (sext-IsWord 21 (n * 2) (omega arith) (omega arith)) in
      round-ends w _ _ rd _ (unfold encode in omega arith) refl refl (unfold encode in omega arith)
        (execute-jal (cut (spelled 32 w)) m fresh _ _ rd
            (part-at 25 7 0 0x6F w (unfold encode in omega arith))
          ∙ ap (λ (v : ℕ). turn v out) (jal_offset w ∙ ap (sext 21) (jal_digits rd n h)))
      ∙ finish-jump _ _ rd m valid.zero_reg (add32 m.pc 4) p
      ∙ ap (λ (q : ℕ). next (record (write_reg rd (add32 m.pc 4) m) { pc = q })) there

  branch-ends :
      (taken : Bool) (r1 r2 rd v : ℕ)
      → IsWord v
      → ((if taken then turn v m else next m) >>= finish r1 r2 rd)
        ≡ (if taken then jump_to (m.pc + v) m else go_on m)
  branch-ends true r1 r2 rd v hv =
      finish-turn r1 r2 rd m valid.zero_reg (add32 m.pc (sub32 v 4))
      ∙ ap (λ (q : ℕ). next (record m { pc = q })) (turned m.pc v valid.pc_word hv)
  branch-ends false r1 r2 rd v hv = finish-turn r1 r2 rd m valid.zero_reg m.pc

  pub round-branch :
      (o : BranchOp) (rs1 rs2 n : ℕ)
      → IsInstr (branch o rs1 rs2 n)
      → round fresh (spelled 32 (encode (branch o rs1 rs2 n))) m ≡ meaning (branch o rs1 rs2 n) m
  unfolding meaning cut
  round-branch o rs1 rs2 n h =
      let w = encode (branch o rs1 rs2 n) in
      let a = m.reg rs1 in
      let b = m.reg rs2 in
      let f3 = branch_func3-lt o in
      let v : ℕ = sext 13 (n * 2) in
      round-ends w rs1 rs2 _ _ (unfold encode in omega arith) (unfold encode in omega arith)
        (unfold encode in omega arith) refl
        (execute-branch (cut (spelled 32 w)) m fresh rs1 rs2 _
            (part-at 25 7 0 0x63 w (unfold encode in omega arith))
          ∙ branches-at (cut (spelled 32 w)) m o a b _
              (part-at 17 3 12 (branch_func3 o) w (unfold encode in omega arith))
          ∙ ap (λ (v : ℕ). if branch_test o a b then turn v m else next m)
              (branch_offset w ∙ ap (sext 13) (branch_digits o rs1 rs2 n h))
          ∙ ap (λ (c : Bool). if c then turn v m else next m)
              (branch_test-eq o a b (valid.reg_word rs1) (valid.reg_word rs2)))
      ∙ branch-ends (holds o a b) rs1 rs2 _ v (sext-IsWord 13 (n * 2) (omega arith) (omega arith))

  -- The register is read after the destination is written, and the lowest bit of the target stays.
  pub round-jalr :
      (rd rs1 n : ℕ)
      → IsInstr (jalr rd rs1 n)
      → rd ≢ rs1
      → (m.reg rs1 + sext 12 n) % 2 ^ 32 % 2 ≡ 0
      → round fresh (spelled 32 (encode (jalr rd rs1 n))) m ≡ meaning (jalr rd rs1 n) m
  unfolding meaning cut jump_register
  round-jalr rd rs1 n h apart even =
      let w = encode (jalr rd rs1 n) in
      let a = m.reg rs1 in
      let v : ℕ = sext 12 n in
      let hv = sext-IsWord 12 n (omega arith) h.2 in
      let whole : w / 2 ^ 20 % 2 ^ 12 ≡ n = unfold encode in omega arith in
      let kept : update m.reg rd (add32 m.pc 4) rs1 ≡ a = ground arith in
      let p : ℕ = add32 a (sub32 v 4) in
      let there : (p + 4) % 2 ^ 32 ≡ (a + v) % 2 ^ 32 / 2 * 2 % 2 ^ 32 =
        turned a v (valid.reg_word rs1) hv ∙ omega arith in
      round-ends w rs1 _ rd _ (unfold encode in omega arith) (unfold encode in omega arith) refl
        (unfold encode in omega arith)
        (execute-jalr (cut (spelled 32 w)) m fresh rs1 _ rd
            (part-at 25 7 0 0x67 w (unfold encode in omega arith))
            (part-at 17 3 12 0 w (unfold encode in omega arith))
          ∙ ap (λ (v : ℕ). jump_register rd rs1 v m)
              (signed_part 0 11 20 w (omega arith) ∙ ap (sext 12) whole)
          ∙ ap
              (λ (r : ℕ).
                next (record m { reg = update m.reg rd (add32 m.pc 4); pc = add32 r (sub32 v 4) }))
              kept)
      ∙ finish-jump rs1 _ rd m valid.zero_reg (add32 m.pc 4) p
      ∙ ap (λ (q : ℕ). next (record (write_reg rd (add32 m.pc 4) m) { pc = q })) there
