-- ===== src/Simulator.antt =====
-- project_2/main.c: a simulator of RV32I without byte and halfword accesses, FENCE, ECALL and EBREAK.
pub mod Decode
pub mod Alu
pub mod Exec
pub mod Run
pub mod Arith
pub mod Roundtrip
pub mod Refines
pub mod Valid
pub mod Effects
pub mod Memory
pub mod Main
pub mod Stuck
pub mod Faults
mod Examples
