-- ===== src/Large.antt =====
-- `vm/large_integer.cc` and the class `LargeInteger` of `vm/object.h` on a 64-bit machine.
pub mod Digits
pub mod Sum
pub mod Product
pub mod Signed
pub mod Bitwise
pub mod Shift
pub mod Number
pub mod Divide
mod Tests
