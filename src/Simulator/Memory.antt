-- ===== src/Simulator/Memory.antt =====
-- `lw` and `sw`: what is stored comes back, what lies elsewhere stays, and where C is undefined.
use f_ca.Base.{ℕ, ◌+◌, ◌*◌, ◌/◌, ◌%◌, ◌^◌, ◌≤◌, ◌<◌, ◌≡◌, ◌≢◌, ◌⊎◌, ◌↔◌, arith, []}
use f_ca.Bits.{bit_and_low}
use f_ca.Word.{IsWord}
use f_ca.Word.Laws.{guard_lem, guard_lem'}
use f_ca.Machine.{Machine, next, fault, write_reg}
use f_ca.Simulator.Exec.{data_addr, read_input, load_bytes, store_bytes, load, store}
use f_ca.Simulator.Refines.Memory.{join_bytes}

-- The address that an access names, from the register and the immediate.
abbrev address : ℕ → ℕ → ℕ
address base off = (base + off) % 2 ^ 32

split_bytes :
    (v : ℕ)
    → IsWord v
    → v % 256 + v / 2 ^ 8 % 256 * 2 ^ 8 + v / 2 ^ 16 % 256 * 2 ^ 16 + v / 2 ^ 24 % 256 * 2 ^ 24 ≡ v
split_bytes v h = omega arith

-- Wherever `sw` writes to memory, `lw` from the same address then puts the same word into its
-- register, and the rest of the machine stays as `sw` left it.
pub load-store :
    (v rd base off : ℕ) (m m' : Machine)
    → IsWord v
    → address base off ≢ 0x20000000
    → store 2 v base off m ≡ next m'
    → load 2 rd base off m' ≡ next (write_reg rd v m')
unfolding load store load_bytes store_bytes
load-store v rd base off m m' hv not_io e = ground (
  arith,
  guard_lem (data_addr base off),
  guard_lem' (data_addr base off) (omega arith),
  bit_and_low 8 v,
  bit_and_low 8 (v / 2 ^ 8),
  bit_and_low 8 (v / 2 ^ 16),
  bit_and_low 8 (v / 2 ^ 24),
  split_bytes v hv,
  join_bytes (v % 256) (v / 2 ^ 8 % 256) (v / 2 ^ 16 % 256) (v / 2 ^ 24 % 256),
)

-- `sw` that goes on leaves the `pc`, the registers and the input alone, and every byte of memory
-- that is not one of the four at its address.
pub store-frame :
    (v base off i : ℕ) (m m' : Machine)
    → store 2 v base off m ≡ next m'
    → (i < data_addr base off) ⊎ (data_addr base off + 4 ≤ i)
    → (m'.pc ≡ m.pc) × (m'.reg ≡ m.reg) × (m'.input ≡ m.input) × (m'.mem i ≡ m.mem i)
unfolding store store_bytes
store-frame v base off i m m' e elsewhere = (ground arith, ground arith, ground arith, ground arith)

read_input-eq-fault_iff : (rd : ℕ) (m : Machine) → (read_input rd m ≡ fault) ↔ (m.input ≡ [])
unfolding read_input
read_input-eq-fault_iff rd m = ground arith

-- `lw` is undefined in C exactly when it is a read of a number and none is left, or its word passes
-- the end of the array: the guard lets the last two of these addresses through.
pub load-eq-fault_iff :
    (rd base off : ℕ) (m : Machine)
    → (load 2 rd base off m ≡ fault) ↔ (
        (address base off ≡ 0x20000000) × (m.input ≡ [])
        ⊎ ((address base off ≡ 0x1000FFFD) ⊎ (address base off ≡ 0x1000FFFE)))
unfolding load load_bytes
load-eq-fault_iff rd base off m =
    ground (arith, guard_lem (data_addr base off), read_input-eq-fault_iff rd m)

-- `sw` is undefined in C exactly at two addresses inside the guard, where its word passes the end
-- of the array.
pub store-eq-fault_iff :
    (v base off : ℕ) (m : Machine)
    → (store 2 v base off m ≡ fault)
      ↔ ((address base off ≡ 0x1000FFFD) ⊎ (address base off ≡ 0x1000FFFE))
unfolding store store_bytes
store-eq-fault_iff v base off m = ground (arith, guard_lem' (data_addr base off) (omega arith))
