-- ===== src/Base/Bits.antt =====
-- Laws of the native bit operations at variables.
pub mod Step
pub mod Split
pub mod Sums
