-- ===== src/Disassembler.antt =====
-- project_1/main.c: a disassembler of RV32I, for which FENCE, ECALL and EBREAK are unknown.
pub mod Decode
pub mod Text
pub mod Main
pub mod Agree
pub mod Listing
mod Examples
