-- ===== src/BigEndian/Turns.antt =====
-- The jumps and branches of proj2/my_project/ekdus.c follow the manual.
use f_ca.Base.{
  ℕ, ◌+◌, ◌*◌, ◌/◌, ◌%◌, ◌^◌, ◌≤◌, ◌<◌, ◌≡◌, ◌≢◌, ◌⊎◌, inl, inr, refl, ap, ◌∙◌, arith, ltb,
  if◌then◌else◌, Bool-cases,
}
use f_ca.Word.{add32, slt, sext}
use f_ca.Word.Laws.{slt_flip}
use f_ca.Machine.{Machine, next, write_reg}
use f_ca.Isa.{BranchOp, jal, jalr, branch, encode, IsInstr}
use f_ca.Isa.Bounds.{encode-IsWord}
use f_ca.Isa.Meaning.{meaning, holds}
use f_ca.Simulator.Arith.{decode-IsDecoded}
use f_ca.Simulator.Roundtrip.{decode-encode}
use f_ca.Isa.Digits.{jal_digits, branch_digits, jalr_digits}
use f_ca.BigEndian.Store.{sign, update_regi}
use f_ca.BigEndian.Fields.{fields}
use f_ca.BigEndian.Exec.{execute_inst, advance, jump, jal_imm, low_imm, branch_imm}
use f_ca.BigEndian.Exec
use f_ca.BigEndian.Laws.{sign_12, sign_branch_iff}
use f_ca.BigEndian.Digits.{fields-IsCut, sign_20, low_imm-eq, jal_imm-eq, branch_imm-eq}
use f_ca.BigEndian.Faithful.{Fits, StandsFor, IsFaithful, Matches, jump-StandsFor, pc-StandsFor}

-- The offsets of `jal` that come out right.
jal_sign :
    (n : ℕ) → n < 2 ^ 20 → (n < 2 ^ 18) ⊎ (2 ^ 20 ≤ n + 2 ^ 18) → sign (n * 2) 20 ≡ sext 21 (n * 2)
unfolding sext
jal_sign n h near = ground (arith, sign_20 (n * 2))

jal_offset :
    (rd n : ℕ) → IsInstr (jal rd n) → jal_imm (fields (encode (jal rd n))) ≡ sign (n * 2) 20
jal_offset rd n h =
    let w : ℕ = encode (jal rd n) in
    let word = encode-IsWord (jal rd n) h in
    let one : w / 2 ^ 31 % 2 ≡ w / 2 ^ 31 = omega arith in
    jal_imm-eq w word ∙ ap (λ v. sign v 20) (rw one at (jal_digits rd n h))

branch_offset :
    (o : BranchOp) (rs1 rs2 n : ℕ)
    → IsInstr (branch o rs1 rs2 n)
    → (n < 2 ^ 10) ⊎ (2 ^ 12 ≤ n + 2 ^ 10)
    → branch_imm (fields (encode (branch o rs1 rs2 n))) ≡ sext 13 (n * 2)
branch_offset o rs1 rs2 n h near =
    let w : ℕ = encode (branch o rs1 rs2 n) in
    let word = encode-IsWord (branch o rs1 rs2 n) h in
    let one : w / 2 ^ 31 % 2 ≡ w / 2 ^ 31 = omega arith in
    let v : ℕ = n * 2 in
    branch_imm-eq w word
    ∙ ap (λ x. sign x 12) (rw one at (branch_digits o rs1 rs2 n h))
    ∙ (sign_branch_iff v (omega arith)).1 (ground arith)

jalr_offset :
    (rd rs1 n : ℕ) → IsInstr (jalr rd rs1 n) → low_imm (fields (encode (jalr rd rs1 n))) ≡ sext 12 n
jalr_offset rd rs1 n h =
    let w : ℕ = encode (jalr rd rs1 n) in
    low_imm-eq w (encode-IsWord (jalr rd rs1 n) h)
    ∙ ap (λ v. sign v 12) (jalr_digits rd rs1 n h)
    ∙ sign_12 n h.2

update_regi-pc : (rd v : ℕ) (m : Machine) → (update_regi rd v m).pc ≡ m.pc
unfolding update_regi
update_regi-pc rd v m = ground arith

-- What a branch that is faithful needs of its offset and its registers.
record IsBranch (o : BranchOp) (rs1 rs2 n : ℕ) (m : Machine) : Type 0 where
  near : (n < 2 ^ 10) ⊎ (2 ^ 12 ≤ n + 2 ^ 10)
  signs : o ≡ BranchOp.blt → ltb (m.reg rs1) (m.reg rs2) ≡ slt (m.reg rs1) (m.reg rs2)
  not_bltu : o ≢ BranchOp.bltu
  not_bgeu : o ≢ BranchOp.bgeu

is_branch :
    (o : BranchOp) (rs1 rs2 n : ℕ) (m : Machine)
    → IsFaithful (branch o rs1 rs2 n) m
    → IsBranch o rs1 rs2 n m
is_branch BranchOp.blt rs1 rs2 n m h = record {
  near = h.0;
  signs = λ _. h.1;
  not_bltu = ground arith;
  not_bgeu = ground arith;
}
is_branch BranchOp.bltu rs1 rs2 n m h = elim h [ ]
is_branch BranchOp.bgeu rs1 rs2 n m h = elim h [ ]
is_branch BranchOp.beq rs1 rs2 n m h = record {
  near = h;
  signs = λ e. ground arith;
  not_bltu = ground arith;
  not_bgeu = ground arith;
}
is_branch BranchOp.bne rs1 rs2 n m h = record {
  near = h;
  signs = λ e. ground arith;
  not_bltu = ground arith;
  not_bgeu = ground arith;
}
is_branch BranchOp.bge rs1 rs2 n m h = record {
  near = h;
  signs = λ e. ground arith;
  not_bltu = ground arith;
  not_bgeu = ground arith;
}

module _ (m : Machine) (fits : Fits m) where
  jal-eq :
      (rd n : ℕ)
      → IsInstr (jal rd n)
      → IsFaithful (jal rd n) m
      → execute_inst (encode (jal rd n)) m
        ≡ next (jump (sext 21 (n * 2)) (update_regi rd (add32 m.pc 4) m))
  unfolding execute_inst
  jal-eq rd n h near =
      let i = jal rd n in
      let w = encode-IsWord i h in
      let offset = jal_offset rd n h ∙ jal_sign n h.1 near in
      ground
        (arith, decode-encode i h, decode-IsDecoded (encode i) w, fields-IsCut (encode i), offset)

  jalr-eq :
      (rd rs1 n : ℕ)
      → IsInstr (jalr rd rs1 n)
      → IsFaithful (jalr rd rs1 n) m
      → execute_inst (encode (jalr rd rs1 n)) m
        ≡ next (record (update_regi rd (add32 m.pc 4) m) { pc = (m.reg rs1 + sext 12 n) % 2 ^ 32 })
  unfolding execute_inst Exec.jalr update_regi
  jalr-eq rd rs1 n h faithful =
      let i = jalr rd rs1 n in
      let w = encode-IsWord i h in
      ground (
        arith,
        decode-encode i h,
        decode-IsDecoded (encode i) w,
        fields-IsCut (encode i),
        jalr_offset rd rs1 n h,
      )

  branch-eq :
      (o : BranchOp) (rs1 rs2 n : ℕ)
      → IsInstr (branch o rs1 rs2 n)
      → IsBranch o rs1 rs2 n m
      → execute_inst (encode (branch o rs1 rs2 n)) m
        ≡ next (if holds o (m.reg rs1) (m.reg rs2) then jump (sext 13 (n * 2)) m else advance m)
  unfolding execute_inst Exec.branch holds
  branch-eq o rs1 rs2 n h b =
      let i = branch o rs1 rs2 n in
      let w = encode-IsWord i h in
      ground (
        arith,
        decode-encode i h,
        decode-IsDecoded (encode i) w,
        fields-IsCut (encode i),
        branch_offset o rs1 rs2 n h b.near,
        b.signs,
        b.not_bltu,
        b.not_bgeu,
        slt_flip (m.reg rs1) (m.reg rs2) (fits.reg_word rs1) (fits.reg_word rs2),
      )

module _ (m d : Machine) (fits : Fits m) (stands : StandsFor m d) where
  pub jal-Matches :
      (rd n : ℕ) → IsInstr (jal rd n) → IsFaithful (jal rd n) m → Matches (jal rd n) m d
  jal-Matches rd n h near =
      let v : ℕ = sext 21 (n * 2) in
      (
        jump v (update_regi rd (add32 m.pc 4) m),
        record (write_reg rd ((m.pc + 4) % 2 ^ 32) d) { pc = (m.pc + v) % 2 ^ 32 },
        jal-eq m fits rd n h near,
        unfold meaning in rw (stands.pc) refl,
        jump-StandsFor m d fits stands rd (add32 m.pc 4) _ _
            (ap (λ p. (p + v) % 2 ^ 32) (update_regi-pc rd (add32 m.pc 4) m)),
      )

  pub jalr-Matches :
      (rd rs1 n : ℕ)
      → IsInstr (jalr rd rs1 n)
      → IsFaithful (jalr rd rs1 n) m
      → Matches (jalr rd rs1 n) m d
  jalr-Matches rd rs1 n h faithful =
      let target : ℕ = (m.reg rs1 + sext 12 n) % 2 ^ 32 in
      (
        record (update_regi rd (add32 m.pc 4) m) { pc = target },
        record (write_reg rd ((m.pc + 4) % 2 ^ 32) d) { pc = target / 2 * 2 % 2 ^ 32 },
        jalr-eq m fits rd rs1 n h faithful,
        unfold meaning in rw (stands.pc, stands.reg rs1) refl,
        jump-StandsFor m d fits stands rd (add32 m.pc 4) target (target / 2 * 2 % 2 ^ 32)
            (omega (arith, faithful.1)),
      )

  pub branch-Matches :
      (o : BranchOp) (rs1 rs2 n : ℕ)
      → IsInstr (branch o rs1 rs2 n)
      → IsFaithful (branch o rs1 rs2 n) m
      → Matches (branch o rs1 rs2 n) m d
  branch-Matches o rs1 rs2 n h faithful =
      let v : ℕ = sext 13 (n * 2) in
      let run = branch-eq m fits o rs1 rs2 n h (is_branch o rs1 rs2 n m faithful) in
      elim (Bool-cases (holds o (m.reg rs1) (m.reg rs2))) [
        | inl e ↦ (
          jump v m,
          record d { pc = (m.pc + v) % 2 ^ 32 },
          rw e at run,
          unfold meaning in rw (stands.reg rs1, stands.reg rs2, stands.pc, e) refl,
          pc-StandsFor m d fits stands _ _ refl,
        )
        | inr e ↦ (
          advance m,
          record d { pc = (m.pc + 4) % 2 ^ 32 },
          rw e at run,
          unfold meaning in rw (stands.reg rs1, stands.reg rs2, stands.pc, e) refl,
          pc-StandsFor m d fits stands _ _ refl,
        )
      ]
