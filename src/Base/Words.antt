-- ===== src/Base/Words.antt =====
-- Machine words as native numbers: a 64-bit pattern, its wrap-around, and the shift of a signed one.
use Prim.Native.Nat.{ℕ, ◌+◌, ◌-◌, ◌/◌, ◌%◌}
use primordialsoup.Base.Tests.{ltb, if◌then◌else◌}

-- A cast to `uint64_t`.
abbrev pub u64 : ℕ → ℕ
u64 n = n % 18446744073709551616

-- `a - b` on `uint64_t`; 2 ^ 64 is added first since `-` stops at 0.
abbrev pub sub64 : ℕ → ℕ → ℕ
sub64 a b = u64 (a + 18446744073709551616 - b)

-- `x >> 32` on the pattern `x` of an `int64_t`: the sign bit fills the upper half.
abbrev pub sar32 : ℕ → ℕ
sar32 x =
    if ltb x 9223372036854775808 then x / 4294967296 else x / 4294967296 + 18446744069414584320
