-- ===== src/Simulator/Faults.antt =====
-- When the behaviour of a round is undefined in C: only where `lw` and `sw` let it.
use f_ca.Base.{ℕ, ◌+◌, ◌%◌, ◌^◌, ◌≡◌, ◌≢◌, ◌⊎◌, ◌↔◌, arith, [], Option, none, some}
use f_ca.Machine.{Machine, Outcome, next, fault, ◌>>=◌}
use f_ca.Simulator.Decode.{Fields}
use f_ca.Simulator.Alu.{op_imm, op_reg}
use f_ca.Simulator.Exec.{assign, load, store, execute, advance, round}
use f_ca.Simulator.Memory.{load-eq-fault_iff, store-eq-fault_iff}

-- The word at the address passes the end of the 65536 bytes, and yet the guards let it through.
abbrev pub PassesEnd : ℕ → ℕ → Type 0
PassesEnd base off = ((base + off) % 2 ^ 32 ≡ 0x1000FFFD) ⊎ ((base + off) % 2 ^ 32 ≡ 0x1000FFFE)

abbrev pub LoadFaults : Fields → Machine → Type 0
LoadFaults f m =
    (f.opcode ≡ 0x03)
    × (f.func3 ≡ 2)
    × (((m.reg f.rs1 + f.imm_i) % 2 ^ 32 ≡ 0x20000000) × (m.input ≡ [])
        ⊎ PassesEnd (m.reg f.rs1) f.imm_i)

abbrev pub StoreFaults : Fields → Machine → Type 0
StoreFaults f m = (f.opcode ≡ 0x23) × (f.func3 ≡ 2) × PassesEnd (m.reg f.rs1) f.imm_s

assign-defined : (rd : ℕ) (o : Option ℕ) (m : Machine) → assign rd o m ≢ fault
unfolding assign
assign-defined rd none m e = ground arith
assign-defined rd (some v) m e = ground arith

bind_fault_iff :
    (o : Outcome) (k : Machine → Machine) → ((o >>= λ m. next (k m)) ≡ fault) ↔ (o ≡ fault)
bind_fault_iff (next m) k = ground arith
bind_fault_iff (Outcome.fails m) k = ground arith
bind_fault_iff fault k = ground arith

load-other : (func3 rd base off : ℕ) (m : Machine) → func3 ≢ 2 → load func3 rd base off m ≡ next m
unfolding load
load-other func3 rd base off m h = ground arith

store-other : (func3 v base off : ℕ) (m : Machine) → func3 ≢ 2 → store func3 v base off m ≡ next m
unfolding store
store-other func3 v base off m h = ground arith

module _ (f : Fields) (m : Machine) where
  execute-eq-fault_iff : (execute f m ≡ fault) ↔ (LoadFaults f m ⊎ StoreFaults f m)
  unfolding execute
  execute-eq-fault_iff = ground (
    arith,
    assign-defined f.rd (op_imm f.func3 f.func7 f.imm_i (m.reg f.rs1)) m,
    assign-defined f.rd (op_reg f.func3 f.func7 (m.reg f.rs1) (m.reg f.rs2)) m,
    load-other f.func3 f.rd (m.reg f.rs1) f.imm_i m,
    store-other f.func3 (m.reg f.rs2) (m.reg f.rs1) f.imm_s m,
    load-eq-fault_iff f.rd (m.reg f.rs1) f.imm_i m,
    store-eq-fault_iff (m.reg f.rs2) (m.reg f.rs1) f.imm_s m,
  )

  -- A round has a defined end on every instruction, in every state, but for exactly these: `lw` of a
  -- number when none is left to read, and `lw` and `sw` of a word that starts at 0x1000FFFD or
  -- 0x1000FFFE, which passes the end of the array.
  pub round-eq-fault_iff : (round f m ≡ fault) ↔ (LoadFaults f m ⊎ StoreFaults f m)
  unfolding round
  round-eq-fault_iff =
      ground (arith, bind_fault_iff (execute f m) (advance f), execute-eq-fault_iff)
