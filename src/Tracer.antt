-- ===== src/Tracer.antt =====
-- proj1/icaproj1.c: a disassembler that executes what it prints, on registers of its own.
pub mod Fields
pub mod Text
pub mod Effect
pub mod Main
pub mod Agree
pub mod Values
pub mod Cut
pub mod Execute
pub mod Straight
mod Examples
