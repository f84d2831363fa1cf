-- ===== src/Printer.antt =====
-- proj1/main.cc: a disassembler in C++, which prints through `cout`.
pub mod Fields
pub mod Text
pub mod Main
pub mod Agree
pub mod Digits
pub mod Listing
pub mod Right
pub mod Lines
mod Examples
