-- ===== src/Handlers/Faithful.antt =====
-- This simulator against the manual: where it follows it, and where it does not.
use f_ca.Base.{ℕ, ◌+◌, ◌*◌, ◌/◌, ◌%◌, ◌^◌, ◌≡◌, ◌≢◌, arith, ◌∙◌, ltb, if◌then◌else◌}
use f_ca.Word.{sext, slt, add32}
use f_ca.Word.Laws.{clear_low}
use f_ca.Machine.{Machine, next, write_reg, IsValid}
use f_ca.Isa.{BranchOp, LoadOp, StoreOp, Instr, jalr, branch, load, store, encode, IsInstr}
use f_ca.Isa.Bounds.{encode-IsWord}
use f_ca.Isa.Meaning.{meaning, IsSupported, holds}
use f_ca.Simulator.Decode.{Fields}
use f_ca.Simulator.Roundtrip.{Reads, decode-encode}
use f_ca.Simulator.Refines.Round.{round-encode}
use f_ca.Handlers.Decode.{decode}
use f_ca.Handlers.Jump.{execute_jalr, execute_blt, execute_bge, execute_bltu, execute_bgeu}
use f_ca.Handlers.Dispatch.{b_type, dispatch, passes, advance, round}
use f_ca.Handlers.Agree.{decode-eq, Agrees, IsServed, SameOrder, round-eq}

pub reads : (i : Instr) → IsInstr i → Reads i (decode (encode i))
reads i h = rw (decode-eq (encode i)) (decode-encode i h)

-- The data address of an access lies in the range that is served, or is that of the user's numbers.
abbrev pub InRange : ℕ → ℕ → Type 0
InRange base n = IsServed base (sext 12 n)

-- The instructions that this simulator executes as the manual says, in the state that it is in.
abbrev pub IsFaithful : Instr → Machine → Type 0
IsFaithful (jalr rd rs1 n) m = rd ≢ rs1
IsFaithful (branch BranchOp.blt rs1 rs2 n) m = SameOrder (m.reg rs1) (m.reg rs2)
IsFaithful (branch BranchOp.bge rs1 rs2 n) m = SameOrder (m.reg rs1) (m.reg rs2)
IsFaithful (load LoadOp.lw rd rs1 n) m = InRange (m.reg rs1) n
IsFaithful (load _ rd rs1 n) m = ⊥
IsFaithful (store StoreOp.sw rs2 rs1 n) m = InRange (m.reg rs1) n
IsFaithful (store _ rs2 rs1 n) m = ⊥
IsFaithful _ m = Unit

-- The two unsigned branches, which project_2/main.c leaves out.
round_bltu :
    (f : Fields) (m : Machine) (rs1 rs2 n : ℕ)
    → Reads (branch BranchOp.bltu rs1 rs2 n) f
    → round f m ≡ meaning (branch BranchOp.bltu rs1 rs2 n) m
unfolding round dispatch b_type advance passes execute_bltu meaning holds
round_bltu f m rs1 rs2 n r = ground arith

round_bgeu :
    (f : Fields) (m : Machine) (rs1 rs2 n : ℕ)
    → Reads (branch BranchOp.bgeu rs1 rs2 n) f
    → round f m ≡ meaning (branch BranchOp.bgeu rs1 rs2 n) m
unfolding round dispatch b_type advance passes execute_bgeu meaning holds
round_bgeu f m rs1 rs2 n r = ground arith

agrees :
    (f : Fields) (m : Machine) (i : Instr) → IsSupported i → IsFaithful i m → Reads i f → Agrees f m
agrees f m (branch BranchOp.beq rs1 rs2 n) s c r = ground arith
agrees f m (load LoadOp.lw rd rs1 n) s c r = ground arith
agrees f m (store StoreOp.sw rs2 rs1 n) s c r = ground arith
agrees f m _ s c r = ground arith

module _ (m : Machine) (valid : IsValid m) where
  -- Where both programs agree, the other one's refinement carries over.
  carried :
      (i : Instr)
      → IsInstr i
      → IsSupported i
      → IsFaithful i m
      → round (decode (encode i)) m ≡ meaning i m
  carried i h s c =
      round-eq (encode i) m (encode-IsWord i h) (agrees (decode (encode i)) m i s c (reads i h))
      ∙ round-encode i m h s valid

  -- From a valid machine, a round on the encoding of an instruction ends as the manual says, but for
  -- byte and halfword accesses (not compared here), a word access out of range, a `jalr` over its
  -- own base register, and `blt` and `bge` on registers of different signs.
  pub round-faithful :
      (i : Instr) → IsInstr i → IsFaithful i m → round (decode (encode i)) m ≡ meaning i m
  round-faithful (branch BranchOp.bltu rs1 rs2 n) h s =
      round_bltu _ m rs1 rs2 n (reads (branch BranchOp.bltu rs1 rs2 n) h)
  round-faithful (branch BranchOp.bgeu rs1 rs2 n) h s =
      round_bgeu _ m rs1 rs2 n (reads (branch BranchOp.bgeu rs1 rs2 n) h)
  round-faithful (load LoadOp.lw rd rs1 n) h s = carried (load LoadOp.lw rd rs1 n) h tt s
  round-faithful (load _ rd rs1 n) h s = elim s [ ]
  round-faithful (store StoreOp.sw rs2 rs1 n) h s = carried (store StoreOp.sw rs2 rs1 n) h tt s
  round-faithful (store _ rs2 rs1 n) h s = elim s [ ]
  round-faithful i h s = carried i h tt s

-- A signed branch on registers of different signs is not executed as the manual says. If it is to
-- be taken, the `PC` then moves 4 too far; if not, the `PC` does not move at all.
pub round-blt_signs :
    (rs1 rs2 n : ℕ) (m : Machine)
    → IsInstr (branch BranchOp.blt rs1 rs2 n)
    → slt (m.reg rs1) (m.reg rs2) ≢ ltb (m.reg rs1) (m.reg rs2)
    → round (decode (encode (branch BranchOp.blt rs1 rs2 n))) m ≡ (
        if slt (m.reg rs1) (m.reg rs2)
        then next (record m { pc = add32 (add32 m.pc (sext 13 (n * 2))) 4 })
        else next m)
round-blt_signs rs1 rs2 n m h differ = signs _ (reads (branch BranchOp.blt rs1 rs2 n) h)
  where
    signs :
        (f : Fields)
        → Reads (branch BranchOp.blt rs1 rs2 n) f
        → round f m ≡ (
            if slt (m.reg rs1) (m.reg rs2)
            then next (record m { pc = add32 (add32 m.pc (sext 13 (n * 2))) 4 })
            else next m)
    signs f r = unfold round dispatch b_type advance passes execute_blt in ground arith

-- The same of `bge`: taken where the first register is not smaller as a signed number, and then 4
-- too far; else the `PC` stays.
pub round-bge_signs :
    (rs1 rs2 n : ℕ) (m : Machine)
    → IsInstr (branch BranchOp.bge rs1 rs2 n)
    → slt (m.reg rs1) (m.reg rs2) ≢ ltb (m.reg rs1) (m.reg rs2)
    → round (decode (encode (branch BranchOp.bge rs1 rs2 n))) m ≡ (
        if slt (m.reg rs1) (m.reg rs2)
        then next m
        else next (record m { pc = add32 (add32 m.pc (sext 13 (n * 2))) 4 }))
round-bge_signs rs1 rs2 n m h differ = signs _ (reads (branch BranchOp.bge rs1 rs2 n) h)
  where
    signs :
        (f : Fields)
        → Reads (branch BranchOp.bge rs1 rs2 n) f
        → round f m ≡ (
            if slt (m.reg rs1) (m.reg rs2)
            then next m
            else next (record m { pc = add32 (add32 m.pc (sext 13 (n * 2))) 4 }))
    signs f r = unfold round dispatch b_type advance passes execute_bge in ground arith

-- `jalr` over its own base register does not jump by the register's value: the target is counted
-- from the address of the next instruction, which the handler has stored there before.
pub round-jalr_self :
    (rd n : ℕ) (m : Machine)
    → IsInstr (jalr rd rd n)
    → round (decode (encode (jalr rd rd n))) m
      ≡ next
          (write_reg rd (add32 m.pc 4) (record m { pc = (m.pc + 4 + sext 12 n) % 2 ^ 32 / 2 * 2 }))
round-jalr_self rd n m h = self _ (reads (jalr rd rd n) h)
  where
    self :
        (f : Fields)
        → Reads (jalr rd rd n) f
        → round f m
          ≡ next (
              write_reg rd
                (add32 m.pc 4)
                (record m { pc = (m.pc + 4 + sext 12 n) % 2 ^ 32 / 2 * 2 }))
    self f r =
        unfold round dispatch advance execute_jalr in
        ground (arith, clear_low ((m.pc + 4 + sext 12 n) % 2 ^ 32))
