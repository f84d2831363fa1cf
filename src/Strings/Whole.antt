-- ===== src/Strings/Whole.antt =====
-- proj2/pa2/태환.c: the rounds of `main` on a program, against the manual's run.
use f_ca.Base.{
  ℕ, zero, suc, ◌+◌, ◌*◌, ◌/◌, ◌%◌, ◌^◌, ◌≤◌, ◌<◌, ◌≡◌, ◌≢◌, refl, ap, ◌∙◌, arith, List, get_or,
  length, ltb, if◌then◌else◌,
}
use f_ca.Word.{sext}
use f_ca.Machine.{Machine, next, IsValid}
use f_ca.Isa.{
  LoadOp, StoreOp, Instr, lui, auipc, jal, jalr, branch, load, store, imm, shift, reg, encode,
  IsInstr,
}
use f_ca.Isa.Meaning.{meaning}
use f_ca.Strings.Blocks.{spelled}
use f_ca.Strings.Cut.{cut}
use f_ca.Strings.Memory.{load_word, store_word}
use f_ca.Strings.Exec.{round}
use f_ca.Strings.Choose.{execute-load, execute-store, loads-word, stores-word}
use f_ca.Strings.Round.{part-at, signed_part, store_offset}
use f_ca.Strings.Meant.{IsAmount}
use f_ca.Strings.Served.{load_word-served, store_word-served}
use f_ca.Strings.Faithful.{
  round-ends, round-lui, round-auipc, round-jal, round-jalr, round-branch, round-imm, round-shift,
  round-reg,
}

-- What a round asks of an instruction and the machine that it starts from. An instruction that reads
-- or writes data memory is never faithful, since what `malloc` leaves in the blocks decides there.
abbrev pub IsFaithful : Instr → Machine → Type 0
IsFaithful (jalr rd rs1 n) m = (rd ≢ rs1) × ((m.reg rs1 + sext 12 n) % 2 ^ 32 % 2 ≡ 0)
IsFaithful (load LoadOp.lw rd rs1 n) m = (m.reg rs1 + sext 12 n) % 2 ^ 32 ≡ 0x20000000
IsFaithful (load _ rd rs1 n) m = ⊥
IsFaithful (store StoreOp.sw rs2 rs1 n) m =
    ((m.reg rs1 + sext 12 n) % 2 ^ 32 ≡ 0x20000000) × (m.reg rs2 < 2 ^ 31)
IsFaithful (store _ rs2 rs1 n) m = ⊥
IsFaithful (reg o rd rs1 rs2) m = IsAmount o (m.reg rs2)
IsFaithful _ m = Unit

module _ (fresh : ℕ → ℕ) (m : Machine) (valid : IsValid m) (near : m.pc ≤ 16384) where
  round-load :
      (rd rs1 n : ℕ)
      → IsInstr (load LoadOp.lw rd rs1 n)
      → IsFaithful (load LoadOp.lw rd rs1 n) m
      → round fresh (spelled 32 (encode (load LoadOp.lw rd rs1 n))) m
        ≡ meaning (load LoadOp.lw rd rs1 n) m
  unfolding meaning cut
  round-load rd rs1 n h faithful =
      let w = encode (load LoadOp.lw rd rs1 n) in
      let a = m.reg rs1 in
      let whole : w / 2 ^ 20 % 2 ^ 12 ≡ n = unfold encode in omega arith in
      round-ends fresh m valid near w rs1 _ rd _ (unfold encode in omega arith)
        (unfold encode in omega arith) refl (unfold encode in omega arith)
        (execute-load (cut (spelled 32 w)) m fresh rs1 _ rd
            (part-at 25 7 0 0x03 w (unfold encode in omega arith))
          ∙ loads-word (cut (spelled 32 w)) m fresh rd _
              (part-at 17 3 12 0b010 w (unfold encode in omega arith))
          ∙ ap (λ (v : ℕ). load_word fresh rd ((a + v) % 2 ^ 32) m)
              (signed_part 0 11 20 w (omega arith) ∙ ap (sext 12) whole))
      ∙ load_word-served m valid fresh rs1 _ rd ((a + sext 12 n) % 2 ^ 32) faithful

  round-store :
      (rs2 rs1 n : ℕ)
      → IsInstr (store StoreOp.sw rs2 rs1 n)
      → IsFaithful (store StoreOp.sw rs2 rs1 n) m
      → round fresh (spelled 32 (encode (store StoreOp.sw rs2 rs1 n))) m
        ≡ meaning (store StoreOp.sw rs2 rs1 n) m
  unfolding meaning cut
  round-store rs2 rs1 n h faithful =
      let w = encode (store StoreOp.sw rs2 rs1 n) in
      let a = m.reg rs1 in
      let b = m.reg rs2 in
      let whole : w / 2 ^ 25 % 128 * 2 ^ 5 + w / 2 ^ 7 % 32 ≡ n = unfold encode in omega arith in
      round-ends fresh m valid near w rs1 rs2 _ _ (unfold encode in omega arith)
        (unfold encode in omega arith) (unfold encode in omega arith) refl
        (execute-store (cut (spelled 32 w)) m fresh rs1 rs2 _
            (part-at 25 7 0 0x23 w (unfold encode in omega arith))
          ∙ stores-word (cut (spelled 32 w)) m b _
              (part-at 17 3 12 0b010 w (unfold encode in omega arith))
          ∙ ap (λ (v : ℕ). store_word b ((a + v) % 2 ^ 32) m) (store_offset w ∙ ap (sext 12) whole))
      ∙ store_word-served m valid rs1 rs2 _ b ((a + sext 12 n) % 2 ^ 32) faithful

  -- Whatever `malloc` leaves in a block: from a valid machine at an allowed address, on the 32 digits
  -- of the encoding of an instruction whose operands fit their fields and that is faithful there, a
  -- round ends in the machine that the manual says.
  pub round-meaning :
      (i : Instr) → IsInstr i → IsFaithful i m → round fresh (spelled 32 (encode i)) m ≡ meaning i m
  round-meaning (lui rd n) h f = round-lui fresh m valid near rd n h
  round-meaning (auipc rd n) h f = round-auipc fresh m valid near rd n h
  round-meaning (jal rd n) h f = round-jal fresh m valid near rd n h
  round-meaning (jalr rd rs1 n) h f = round-jalr fresh m valid near rd rs1 n h f.0 f.1
  round-meaning (branch o rs1 rs2 n) h f = round-branch fresh m valid near o rs1 rs2 n h
  round-meaning (load LoadOp.lw rd rs1 n) h f = round-load rd rs1 n h f
  round-meaning (load _ rd rs1 n) h f = elim f [ ]
  round-meaning (store StoreOp.sw rs2 rs1 n) h f = round-store rs2 rs1 n h f
  round-meaning (store _ rs2 rs1 n) h f = elim f [ ]
  round-meaning (imm o rd rs1 n) h f = round-imm fresh m valid near o rd rs1 n h
  round-meaning (shift o rd rs1 n) h f = round-shift fresh m valid near o rd rs1 n h
  round-meaning (reg o rd rs1 rs2) h f = round-reg fresh m valid near o rd rs1 rs2 h f

-- The instruction at the `pc`.
abbrev pub current : List Instr → Machine → Instr
current program m = get_or program (m.pc / 4) (lui 0 0)

-- So many steps of the manual from one machine to another, each from an address that the program
-- counter is allowed, and faithful there; the last one leaves the program, or is the last of all.
pub data Trace (program : List Instr) : ℕ → Machine → Machine → Type 0 where
  done : {m : Machine} → Trace program zero m m
  over : {n : ℕ} {m : Machine} → length program ≤ m.pc / 4 → m.pc ≤ 16384 → Trace program n m m
  follow :
      {n : ℕ} {m m' m'' : Machine}
      → m.pc / 4 < length program
      → m.pc ≤ 16384
      → IsFaithful (current program m) m
      → meaning (current program m) m ≡ next m'
      → Trace program n m' m''
      → Trace program (suc n) m m''

-- An instruction memory that holds the digits of a program's words, and ones behind them.
abbrev pub digits_of : List Instr → ℕ → List ℕ
digits_of program i =
    if ltb i (length program)
    then spelled 32 (encode (get_or program i (lui 0 0)))
    else spelled 32 0xFFFFFFFF
