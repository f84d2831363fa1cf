-- ===== src/Indexed.antt =====
-- proj2/pa2/제출1.cc: a simulator in C++ that counts its program and its data in words.
pub mod State
pub mod Exec
pub mod Main
pub mod Shows
pub mod Valid
pub mod Refines
pub mod Jumps
pub mod Memory
pub mod Faithful
pub mod Turns
pub mod Access
pub mod Round
pub mod Keeps
pub mod Run
pub mod Whole
mod Examples
