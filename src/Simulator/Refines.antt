-- ===== src/Simulator/Refines.antt =====
-- A round of the loop does what the manual says.
pub mod Values
pub mod Memory
pub mod Round
