-- ===== src/Strings.antt =====
-- proj2/pa2/태환.c: the helpers that turn numbers into strings of digits and back, and the loop of
-- `main` that works on the digits of the instructions. A string is the list of its characters, and a
-- `char` array the function from an index to its element.
pub mod Blocks
pub mod Binary
pub mod Digits
pub mod Halving
pub mod Arrays
pub mod Converted
pub mod Values
pub mod Roundtrip
pub mod Cut
pub mod Memory
pub mod Exec
pub mod Fields
pub mod Finish
pub mod Choose
pub mod Round
pub mod Meant
pub mod Faithful
pub mod Served
pub mod Whole
mod Examples
