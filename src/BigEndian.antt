-- ===== src/BigEndian.antt =====
-- proj2/my_project/ekdus.c: a simulator that keeps its program in memory, highest byte first.
pub mod Store
pub mod Fields
pub mod Exec
pub mod Run
pub mod Main
pub mod Laws
pub mod Digits
pub mod Faithful
pub mod Compute
pub mod Turns
pub mod Words
pub mod Access
pub mod Round
pub mod Keeps
pub mod Whole
pub mod Started
mod Examples
