-- ===== src/Math.antt =====
-- `vm/math.h`: arithmetic on `int64_t` that tells of overflow. A compiler with the builtins uses those,
-- any other the tests of the header; a client takes either as `OverflowChecks`.
pub mod Overflow
pub mod Division
pub mod Words
mod Tests
use primordialsoup.Base.{
  ℕ, zero, suc, ◌+◌, ◌-◌, ◌*◌, ◌/◌, ◌%◌, ◌≤◌, ◌<◌, ◌≡◌, Bool, true, false, ◌&&◌, ◌||◌, not, Option,
  none, some, ltb, ◌==◌, if◌then◌else◌,
}
use primordialsoup.Base.Int.{ℤ, pos, negsuc, eq_ℤ, ltb_ℤ, ◌+ℤ◌, ◌-ℤ◌, ◌*ℤ◌, pos_part, neg_part}
use primordialsoup.Large.Signed.{signed, same, is_negative}
use primordialsoup.Large.Number.{is_int64}

-- Each function yields the result that it stores, or `none` where it returns true.
pub record OverflowChecks : Type 0 where
  pub add : ℤ → ℤ → Option ℤ
  pub subtract : ℤ → ℤ → Option ℤ
  pub multiply : ℤ → ℤ → Option ℤ
  pub add_exact :
      (a b r : ℤ)
      → is_int64 a ≡ true
      → is_int64 b ≡ true
      → add a b ≡ some r
      → (r ≡ a +ℤ b) × (is_int64 r ≡ true)
  pub subtract_exact :
      (a b r : ℤ)
      → is_int64 a ≡ true
      → is_int64 b ≡ true
      → subtract a b ≡ some r
      → (r ≡ a -ℤ b) × (is_int64 r ≡ true)
  pub multiply_exact :
      (a b r : ℤ)
      → is_int64 a ≡ true
      → is_int64 b ≡ true
      → multiply a b ≡ some r
      → (r ≡ a *ℤ b) × (is_int64 r ≡ true)

-- `std::numeric_limits<int64_t>::max()` and `min()`.
abbrev pub max_int64 : ℤ
max_int64 = pos 9223372036854775807

abbrev pub min_int64 : ℤ
min_int64 = negsuc 9223372036854775807

unfoldable pub add_has_overflow : ℤ → ℤ → Option ℤ
add_has_overflow left right =
    if (ltb_ℤ (pos 0) right && ltb_ℤ (max_int64 -ℤ right) left)
      || (ltb_ℤ right (pos 0) && ltb_ℤ left (min_int64 -ℤ right))
    then none
    else some (left +ℤ right)

unfoldable pub subtract_has_overflow : ℤ → ℤ → Option ℤ
subtract_has_overflow left right =
    if (ltb_ℤ (pos 0) right && ltb_ℤ left (min_int64 +ℤ right))
      || (ltb_ℤ right (pos 0) && ltb_ℤ (max_int64 +ℤ right) left)
    then none
    else some (left -ℤ right)

-- `63 - std::countl_zero(x)` for a positive `x`: the place of its highest bit. The rounds are enough
-- for 64 bits.
unfoldable pub highest_bit_of : ℕ → ℕ → ℕ
highest_bit_of zero n = 0
highest_bit_of (suc rounds) n =
    let rest = highest_bit_of rounds (n / 2) in if ltb n 2 then 0 else suc rest

-- `Utils::HighestBit`.
unfoldable pub highest_bit : ℤ → ℕ
highest_bit v = highest_bit_of 64 (pos_part v + neg_part v)

unfoldable pub multiply_has_overflow : ℤ → ℤ → Option ℤ
multiply_has_overflow left right =
    if ltb (highest_bit left + highest_bit right) 62 then some (left *ℤ right) else none

abbrev pub is_zero : ℤ → Bool
is_zero (pos zero) = true
is_zero (pos (suc n)) = false
is_zero (negsuc n) = false

-- `kMinInt64` by -1, the quotient that is no word: the arm for 64-bit integers of the primitives falls
-- through, and the divisions below assert that it is not so.
abbrev pub quotient_overflows : ℤ → ℤ → Bool
quotient_overflows left right = eq_ℤ right (negsuc 0) && eq_ℤ left (negsuc 9223372036854775807)

-- `/` and `%` of C++, which truncate, on two `int64_t`. As the divisions assert, the divisor is not 0
-- and `quotient_overflows` is false; what they do for others is not modelled.
abbrev pub absolute_value : ℤ → ℕ
absolute_value a = pos_part a + neg_part a

unfoldable pub trunc_div : ℤ → ℤ → ℤ
trunc_div dividend divisor =
    signed (not (same (is_negative dividend) (is_negative divisor)))
      (absolute_value dividend / absolute_value divisor)

unfoldable pub trunc_mod : ℤ → ℤ → ℤ
trunc_mod dividend divisor =
    signed (is_negative dividend) (absolute_value dividend % absolute_value divisor)

unfoldable pub floor_div_word : ℤ → ℤ → ℤ
floor_div_word dividend divisor =
    if not (is_zero (trunc_mod dividend divisor))
      && not (same (is_negative dividend) (is_negative divisor))
    then trunc_div dividend divisor -ℤ pos 1
    else trunc_div dividend divisor

unfoldable pub floor_mod_word : ℤ → ℤ → ℤ
floor_mod_word dividend divisor =
    let remainder = trunc_mod dividend divisor in
    if not (is_zero remainder) && not (same (is_negative remainder) (is_negative divisor))
    then remainder +ℤ divisor
    else remainder
