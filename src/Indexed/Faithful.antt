-- ===== src/Indexed/Faithful.antt =====
-- For which instructions, and in which machines, a round of proj2/pa2/제출1.cc does what the manual says.
use mathlib.Core.Path.{fun_ext}
use f_ca.Base.{
  refl, ℕ, ◌+◌, ◌*◌, ◌%◌, ◌^◌, ◌≤◌, ◌<◌, ◌≡◌, ◌≢◌, ◌⊎◌, List, arith, true, false, some, [], ◌∷◌,
}
use f_ca.Word.{IsWord, add32, sext}
use f_ca.Machine.{Machine, next, write_reg}
use f_ca.Isa.{
  ImmOp, BranchOp, LoadOp, StoreOp, Instr, lui, auipc, jal, jalr, branch, load, store, imm, shift,
  reg, encode,
}
use f_ca.Isa.Meaning.{meaning, holds}
use f_ca.Tracer.Fields.{quarter}
use f_ca.Printer.Fields.{fields}
use f_ca.Indexed.State.{State, Flags}
use f_ca.Indexed.Exec.{round}
use f_ca.Indexed.Shows.{Shows}
use f_ca.Indexed.Valid.{read, written}
use f_ca.Indexed.Refines.{IsComputed}

-- The address of a whole word of data memory, in a mode in which `data` is used.
abbrev pub IsServed : Flags → ℕ → Type 0
IsServed flags a =
    ((flags.flag ≡ false) ⊎ (flags.proj3_flag ≡ true))
    × (0x10000000 ≤ a)
    × (a < 0x10010000)
    × (a % 4 ≡ 0)

-- Where something is left to read.
abbrev pub IsTyped : List ℕ → Type 0
IsTyped [] = ⊥
IsTyped (n ∷ rest) = Unit

-- `lw` from data memory, or from 0x20000000 for a number that is typed.
abbrev pub IsLoad : Flags → ℕ → List ℕ → Type 0
IsLoad flags a input =
    IsServed flags a ⊎ (flags.proj3_flag ≡ true) × (a ≡ 0x20000000) × IsTyped input

-- The address that an offset leads to is not below 0 and below 2 ^ 32.
abbrev pub IsInside : ℕ → ℕ → Type 0
IsInside pc v = (v < 2 ^ 31) × (pc + v < 2 ^ 32) ⊎ (2 ^ 31 ≤ v) × (2 ^ 32 ≤ pc + v)

-- The instructions, and the machines of the manual, for which a round does what the manual says. An
-- offset is a count of words, and `n` counts half words in `jal` and `branch`.
abbrev pub IsFaithful : Flags → Instr → Machine → Type 0
IsFaithful flags (lui rd n) m = Unit
IsFaithful flags (auipc rd n) m = Unit
IsFaithful flags (jal rd n) m =
    (n % 2 ≡ 0) × ((n < 2 ^ 18) ⊎ (2 ^ 20 ≤ n + 2 ^ 15)) × IsInside m.pc (sext 21 (n * 2))
IsFaithful flags (jalr rd rs1 n) m = (rd ≢ rs1) × (n < 2 ^ 11) × ((m.reg rs1 + n) % 2 ^ 32 % 4 ≡ 0)
IsFaithful flags (branch o rs1 rs2 n) m =
    (o ≢ BranchOp.bltu)
    × (o ≢ BranchOp.bgeu)
    × (n % 2 ≡ 0)
    × ((n < 2 ^ 10) ⊎ (2 ^ 12 ≤ n + 2 ^ 10))
    × ((holds o (m.reg rs1) (m.reg rs2) ≡ false) ⊎ IsInside m.pc (sext 13 (n * 2)))
IsFaithful flags (load LoadOp.lw rd rs1 n) m =
    IsLoad flags ((m.reg rs1 + sext 12 n) % 2 ^ 32) m.input
IsFaithful flags (load _ rd rs1 n) m = ⊥
IsFaithful flags (store StoreOp.sw rs2 rs1 n) m = IsServed flags ((m.reg rs1 + sext 12 n) % 2 ^ 32)
IsFaithful flags (store _ rs2 rs1 n) m = ⊥
IsFaithful flags (imm o rd rs1 n) m = o ≢ ImmOp.sltiu
IsFaithful flags (shift o rd rs1 n) m = 0 < n
IsFaithful flags (reg o rd rs1 rs2) m = IsComputed o (m.reg rs1) (m.reg rs2)

-- A machine with the program counter, the registers and the input of a state.
abbrev pub view : State → Machine → Machine
view s m = record m { pc = s.curr_i * 4; reg = read s; input = s.input }

pub view-eq : (s : State) (m : Machine) → Shows s m → view s m ≡ m
view-eq s m shows = rw (shows.pc, fun_ext shows.reg, shows.input) refl

-- The round is defined, the manual goes on, and the new state stands for the new machine.
abbrev pub Follows : Flags → Instr → State → Machine → Type 0
Follows flags i s m =
    (s' : State) × (m' : Machine) × (round flags (fields (encode i)) s ≡ some s')
    × (meaning i m ≡ next m')
    × Shows s' m'

pub sext21_four : (v : ℕ) → v < 2 ^ 21 → v % 4 ≡ 0 → sext 21 v % 4 ≡ 0
unfolding sext
sext21_four v h four = ground arith

-- A count of words, and the offset that it stands for, lead to the same place inside the addresses.
pub step_lem :
    (k v : ℕ)
    → IsWord v
    → v % 4 ≡ 0
    → k < 2 ^ 30
    → IsInside (k * 4) v
    → (k * 4 + v) % 2 ^ 32 ≡ add32 k (quarter v) * 4
unfolding quarter
step_lem k v h four lo there = ground arith

module _ (s : State) (m : Machine) (shows : Shows s m) (near : s.curr_i + 1 < 2 ^ 30) where
  pub written-Shows :
      (rd v : ℕ) → Shows (written rd v s) (record (write_reg rd v m) { pc = (m.pc + 4) % 2 ^ 32 })
  written-Shows rd v = record {
    pc = omega (arith, shows.pc);
    reg = λ i. ground (arith, shows.reg i);
    mem = shows.mem;
    input = shows.input;
    output = shows.output;
  }

  pub compute :
      (flags : Flags) (i : Instr) (rd v : ℕ)
      → round flags (fields (encode i)) s ≡ some (written rd v s)
      → meaning i m ≡ next (record (write_reg rd v m) { pc = (m.pc + 4) % 2 ^ 32 })
      → Follows flags i s m
  compute flags i rd v e e' = (
    written rd v s,
    record (write_reg rd v m) { pc = (m.pc + 4) % 2 ^ 32 },
    e,
    e',
    written-Shows rd v,
  )
