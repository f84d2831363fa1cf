-- ===== src/BigEndian/Faithful.antt =====
-- The machine of the manual that the state of proj2/my_project/ekdus.c stands for, and the
-- instructions that it executes as the manual says.
use mathlib.Core.Path.{fun_ext, subst}
use f_ca.Base.{ℕ, ◌+◌, ◌%◌, ◌^◌, ◌≤◌, ◌<◌, ◌≡◌, ◌≢◌, ◌⊎◌, arith, List, [], ◌∷◌, ltb}
use f_ca.Word.{IsWord, slt, sext}
use f_ca.Machine.{Machine, next, write_reg}
use f_ca.Isa.{
  RegOp, ImmOp, BranchOp, LoadOp, StoreOp, Instr, lui, auipc, jal, jalr, branch, load, store, imm,
  shift, reg, encode,
}
use f_ca.Isa.Meaning.{meaning}
use f_ca.BigEndian.Store.{update_regi}
use f_ca.BigEndian.Exec.{advance, execute_inst}

-- Data memory is the part of `memory` from 0x10000000 on.
pub record StandsFor (m d : Machine) : Type 0 where
  pub pc : d.pc ≡ m.pc
  pub reg : (i : ℕ) → d.reg i ≡ m.reg i
  pub mem : (a : ℕ) → a < 65536 → d.mem a ≡ m.mem (0x10000000 + a)
  pub input : d.input ≡ m.input
  pub output : d.output ≡ m.output

-- Registers and bytes fit their types, and x0 is 0.
pub record Fits (m : Machine) : Type 0 where
  pub reg_word : (i : ℕ) → IsWord (m.reg i)
  pub mem_byte : (i : ℕ) → m.mem i < 2 ^ 8
  pub zero_reg : m.reg 0 ≡ 0

-- The four bytes lie in data memory.
abbrev pub InData : ℕ → Type 0
InData a = (0x10000000 ≤ a) × (a < 0x1000FFFD)

abbrev pub IsTyped : List ℕ → Type 0
IsTyped [] = ⊥
IsTyped (n ∷ rest) = Unit

abbrev pub IsLoad : ℕ → List ℕ → Type 0
IsLoad a input = InData a ⊎ (a ≡ 0x20000000) × IsTyped input

abbrev pub IsStore : ℕ → ℕ → Type 0
IsStore a v = InData a ⊎ (a ≡ 0x20000000) × (v < 0x7F)

-- The instructions that are executed as the manual says, on these registers and this input. `n` counts
-- half words in `jal` and `branch`.
abbrev pub Serves : Instr → (ℕ → ℕ) → List ℕ → Type 0
Serves (lui rd n) x input = Unit
Serves (auipc rd n) x input = Unit
Serves (jal rd n) x input = (n < 2 ^ 18) ⊎ (2 ^ 20 ≤ n + 2 ^ 18)
Serves (jalr rd rs1 n) x input = ((rd ≡ 0) ⊎ (rd ≢ rs1)) × ((x rs1 + sext 12 n) % 2 ^ 32 % 2 ≡ 0)
Serves (branch BranchOp.blt rs1 rs2 n) x input =
    ((n < 2 ^ 10) ⊎ (2 ^ 12 ≤ n + 2 ^ 10)) × (ltb (x rs1) (x rs2) ≡ slt (x rs1) (x rs2))
Serves (branch BranchOp.bltu rs1 rs2 n) x input = ⊥
Serves (branch BranchOp.bgeu rs1 rs2 n) x input = ⊥
Serves (branch o rs1 rs2 n) x input = (n < 2 ^ 10) ⊎ (2 ^ 12 ≤ n + 2 ^ 10)
Serves (load LoadOp.lw rd rs1 n) x input = IsLoad ((x rs1 + sext 12 n) % 2 ^ 32) input
Serves (load _ rd rs1 n) x input = ⊥
Serves (store StoreOp.sw rs2 rs1 n) x input = IsStore ((x rs1 + sext 12 n) % 2 ^ 32) (x rs2)
Serves (store _ rs2 rs1 n) x input = ⊥
Serves (imm ImmOp.sltiu rd rs1 n) x input = ⊥
Serves (imm o rd rs1 n) x input = Unit
Serves (shift o rd rs1 n) x input = Unit
Serves (reg RegOp.sltu rd rs1 rs2) x input = ⊥
Serves (reg o rd rs1 rs2) x input = Unit

abbrev pub IsFaithful : Instr → Machine → Type 0
IsFaithful i m = Serves i m.reg m.input

-- The instruction goes on, so does the manual, and the new machines belong together.
abbrev pub Matches : Instr → Machine → Machine → Type 0
Matches i m d =
    (m' : Machine) × (d' : Machine) × (execute_inst (encode i) m ≡ next m')
    × (meaning i d ≡ next d')
    × StandsFor m' d'

-- What is faithful in a machine of the manual is faithful in a state that stands for it.
pub StandsFor-IsFaithful :
    (i : Instr) (m d : Machine) → StandsFor m d → IsFaithful i d → IsFaithful i m
StandsFor-IsFaithful i m d stands f =
    subst (λ x. Serves i m.reg x) stands.input
      (subst (λ x. Serves i x d.input) (fun_ext stands.reg) f)

module _ (m d : Machine) (fits : Fits m) (stands : StandsFor m d) where
  -- A value is written and the program goes on.
  pub advance-StandsFor :
      (rd v : ℕ)
      → StandsFor
          (advance (update_regi rd v m))
          (record (write_reg rd v d) { pc = (d.pc + 4) % 2 ^ 32 })
  unfolding update_regi
  advance-StandsFor rd v = record {
    pc = ground (arith, stands.pc);
    reg = λ i. ground (arith, stands.reg i, fits.zero_reg);
    mem = λ a h. ground (arith, stands.mem a h);
    input = ground (arith, stands.input);
    output = ground (arith, stands.output);
  }

  -- The same for a jump to `p`.
  pub jump-StandsFor :
      (rd v p q : ℕ)
      → p ≡ q
      → StandsFor (record (update_regi rd v m) { pc = p }) (record (write_reg rd v d) { pc = q })
  unfolding update_regi
  jump-StandsFor rd v p q e = record {
    pc = ground arith;
    reg = λ i. ground (arith, stands.reg i, fits.zero_reg);
    mem = λ a h. ground (arith, stands.mem a h);
    input = ground (arith, stands.input);
    output = ground (arith, stands.output);
  }

  pub pc-StandsFor : (p q : ℕ) → p ≡ q → StandsFor (record m { pc = p }) (record d { pc = q })
  pc-StandsFor p q e = record {
    pc = ground arith;
    reg = stands.reg;
    mem = stands.mem;
    input = stands.input;
    output = stands.output;
  }

  pub compute :
      (i : Instr) (rd v : ℕ)
      → execute_inst (encode i) m ≡ next (advance (update_regi rd v m))
      → meaning i d ≡ next (record (write_reg rd v d) { pc = (d.pc + 4) % 2 ^ 32 })
      → Matches i m d
  compute i rd v e e' = (
    advance (update_regi rd v m),
    record (write_reg rd v d) { pc = (d.pc + 4) % 2 ^ 32 },
    e,
    e',
    advance-StandsFor rd v,
  )
