-- ===== src/Indexed/Jumps.antt =====
-- The branches and jumps of proj2/pa2/제출1.cc on encoded instructions.
use f_ca.Base.{
  ℕ, ◌+◌, ◌*◌, ◌/◌, ◌^◌, ◌≤◌, ◌<◌, ◌≡◌, ◌≢◌, ◌⊎◌, ◌∙◌, arith, some, update, if◌then◌else◌,
}
use f_ca.Word.{add32, sext}
use f_ca.Word.Laws.{slt_flip}
use f_ca.Isa.{RegOp, ImmOp, ShiftOp, BranchOp, LoadOp, StoreOp, Instr, lui, auipc, encode, IsInstr}
use f_ca.Isa
use f_ca.Isa.Bounds.{encode-IsWord}
use f_ca.Isa.Meaning.{holds}
use f_ca.Simulator.Arith.{decode-IsDecoded}
use f_ca.Simulator.Roundtrip.{decode-encode}
use f_ca.Printer.Fields.{fields}
use f_ca.Printer.Agree.{fields-IsCut, jalr_lem}
use f_ca.Isa.Digits.{jalr_digits}
use f_ca.Printer.Digits.{branch_lem, jal_lem}
use f_ca.Printer.Right.{branch_iff, jal_iff}
use f_ca.Tracer.Fields.{quarter}
use f_ca.Indexed.State.{State, Flags}
use f_ca.Indexed.Exec.{execute, round, branch, taken, jal, jalr, link}
use f_ca.Indexed.Valid.{IsState, read, read-IsWord}

-- The state that a jump or a branch leaves when it is taken.
abbrev pub jumped : ℕ → State → State
jumped v s = record s { curr_i = add32 s.curr_i (quarter v); reg = read s }

module _ (flags : Flags) (s : State) (valid : IsState s) where
  pub branch-eq :
      (o : BranchOp) (rs1 rs2 n : ℕ)
      → IsInstr (Isa.branch o rs1 rs2 n)
      → (o ≢ BranchOp.bltu) × (o ≢ BranchOp.bgeu)
      → (n < 2 ^ 10) ⊎ (2 ^ 12 ≤ n + 2 ^ 10)
      → round flags (fields (encode (Isa.branch o rs1 rs2 n))) s
        ≡ some (
            if holds o (read s rs1) (read s rs2)
            then jumped (sext 13 (n * 2)) s
            else record s { curr_i = add32 s.curr_i 1; reg = update (read s) 0 0 })
  unfolding round execute branch taken holds
  branch-eq o rs1 rs2 n h (not_bltu, not_bgeu) near =
      let i = Isa.branch o rs1 rs2 n in
      let w = encode-IsWord i h in
      let offset = branch_lem o rs1 rs2 n h ∙ (branch_iff n h.2).1 near in
      ground (
        arith,
        decode-encode i h,
        decode-IsDecoded (encode i) w,
        fields-IsCut (encode i),
        offset,
        slt_flip (read s rs1) (read s rs2) (read-IsWord s valid rs1) (read-IsWord s valid rs2),
      )

  pub jal-eq :
      (rd n : ℕ)
      → IsInstr (Isa.jal rd n)
      → (n < 2 ^ 18) ⊎ (2 ^ 20 ≤ n + 2 ^ 15)
      → round flags (fields (encode (Isa.jal rd n))) s
        ≡ some (record s {
          curr_i = add32 s.curr_i (quarter (sext 21 (n * 2)));
          reg = update (update (read s) rd (link s)) 0 0;
        })
  unfolding round execute jal
  jal-eq rd n h near =
      let i = Isa.jal rd n in
      let w = encode-IsWord i h in
      let offset = jal_lem rd n h ∙ (jal_iff n h.1).1 near in
      ground
        (arith, decode-encode i h, decode-IsDecoded (encode i) w, fields-IsCut (encode i), offset)

  pub jalr-eq :
      (rd rs1 n : ℕ)
      → IsInstr (Isa.jalr rd rs1 n)
      → rd ≢ rs1
      → round flags (fields (encode (Isa.jalr rd rs1 n))) s
        ≡ some (record s {
          curr_i = add32 (read s rs1) n / 4;
          reg = update (update (read s) rd (link s)) 0 0;
        })
  unfolding round execute jalr
  jalr-eq rd rs1 n h other =
      let i = Isa.jalr rd rs1 n in
      let w = encode-IsWord i h in
      ground (
        arith,
        decode-encode i h,
        decode-IsDecoded (encode i) w,
        fields-IsCut (encode i),
        jalr_lem (encode i) w,
        jalr_digits rd rs1 n h,
      )
