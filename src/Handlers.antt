-- ===== src/Handlers.antt =====
-- proj2/my_project/dbswl.c: a simulator with a function for each instruction.
pub mod Decode
pub mod Arith
pub mod Jump
pub mod Data
pub mod Dispatch
pub mod Agree
pub mod Faithful
mod Examples
pub mod Trace
pub mod Main
pub mod Narrow
