-- ===== src/Large/Number.antt =====
-- The three representations of integers, and the conversions between them and with `uint64_t`:
-- `LargeInteger::Expand`, `Reduce`, `AsUint64` and `FromUint64`.
pub mod Expand
pub mod Reduce
pub mod Uint
pub mod Unique
mod Tests
use primordialsoup.Base.{
  ℕ, zero, suc, ◌+◌, ◌-◌, ◌*◌, ◌/◌, ◌%◌, ◌≤◌, ◌<◌, ◌≡◌, Bool, true, false, Option, none, some, List,
  [], ◌∷◌, ltb, leb, ◌==◌, if◌then◌else◌, length, bit_or, u64,
}
use primordialsoup.Base.Int.{ℤ, pos, negsuc, sub_ℕ}
use primordialsoup.Large.Digits.{digit_base}
use primordialsoup.Large.Signed.{LargeInteger, integer, IsVerified, is_negative, clamp}

-- An integer is a tagged word, a boxed `int64_t` or a large integer.
pub data Number : Type 0 where
  small medium : ℤ → Number
  large : LargeInteger → Number

abbrev pub number_value : Number → ℤ
number_value (small v) = v
number_value (medium v) = v
number_value (large l) = integer l

-- `SmallInteger::kMinValue` and `kMaxValue`: 62 bits and a sign.
unfoldable pub is_smi : ℤ → Bool
is_smi (pos n) = leb n 4611686018427387903
is_smi (negsuc n) = ltb n 4611686018427387904

unfoldable pub is_int64 : ℤ → Bool
is_int64 (pos n) = ltb n 9223372036854775808
is_int64 (negsuc n) = ltb n 9223372036854775808

-- The casts between `int64_t` and `uint64_t`.
unfoldable pub to_uint64 : ℤ → ℕ
to_uint64 (pos n) = n
to_uint64 (negsuc n) = 18446744073709551615 - n

unfoldable pub to_int64 : ℕ → ℤ
to_int64 p = if ltb p 9223372036854775808 then pos p else sub_ℕ p 18446744073709551616

-- `SmallInteger::IsSmiValue` on a 64-bit machine: the value survives a shift up and an arithmetic
-- shift down by `kSmiTagShift`.
unfoldable pub is_smi_value : ℤ → Bool
is_smi_value v =
    let tagged = u64 (to_uint64 v * 2) in
    let untagged =
      if ltb tagged 9223372036854775808 then tagged / 2 else tagged / 2 + 9223372036854775808 in
    untagged == to_uint64 v

-- The loop of `Expand` over an absolute value; the digits that it fills are all there are.
unfoldable pub digits_of : ℕ → ℕ → List ℕ
digits_of zero n = []
digits_of (suc fuel) n =
    let rest = digits_of fuel (n / digit_base) in if n == 0 then [] else n % digit_base ∷ rest

abbrev pub mint_digits : ℕ
mint_digits = 2

unfoldable pub expand_value : ℤ → LargeInteger
expand_value v = record {
  negative = is_negative v;
  digits =
      digits_of mint_digits
        (if is_negative v then u64 (18446744073709551616 - to_uint64 v) else to_uint64 v);
}

unfoldable pub expand : Number → LargeInteger
expand (small v) = expand_value v
expand (medium v) = expand_value v
expand (large l) = l

-- `value <<= kDigitShift; value |= digit`, from the most significant digit on.
unfoldable pub from_digits : List ℕ → ℕ
from_digits [] = 0
from_digits (d ∷ ds) = bit_or (u64 (from_digits ds * digit_base)) d

unfoldable pub new_integer : ℤ → Number
new_integer v = if is_smi_value v then small v else medium v

unfoldable pub reduce : LargeInteger → Number
reduce l =
    let absolute = from_digits l.digits in
    if ltb mint_digits (length l.digits)
    then large l
    else if l.negative
    then if ltb 9223372036854775808 absolute
      then large l
      else new_integer (to_int64 (u64 (18446744073709551616 - absolute)))
    else if ltb 9223372036854775807 absolute
    then large l
    else new_integer (to_int64 absolute)

unfoldable pub as_uint64_value : ℤ → Option ℕ
as_uint64_value v = if is_negative v then none else some (to_uint64 v)

-- `none` is the result `false`.
unfoldable pub as_uint64 : Number → Option ℕ
as_uint64 (small v) = as_uint64_value v
as_uint64 (medium v) = as_uint64_value v
as_uint64 (large l) =
    if l.negative
    then none
    else if ltb mint_digits (length l.digits)
    then none
    else some (from_digits l.digits)

unfoldable pub from_uint64 : ℕ → Number
from_uint64 raw =
    if ltb raw 4611686018427387903
    then small (pos raw)
    else if ltb raw 9223372036854775807
    then medium (to_int64 raw)
    else large (clamp false (raw % digit_base ∷ raw / digit_base % digit_base ∷ []))

-- Each representation with its range: what the primitives get.
unfoldable pub IsNumber : Number → Type 0
IsNumber (small v) = is_smi v ≡ true
IsNumber (medium v) = is_int64 v ≡ true
IsNumber (large l) = IsVerified l

-- Each integer in the smallest representation that holds it.
unfoldable pub IsCanonical : Number → Type 0
IsCanonical (small v) = is_smi v ≡ true
IsCanonical (medium v) = (is_smi v ≡ false) × (is_int64 v ≡ true)
IsCanonical (large l) = IsVerified l × (is_int64 (integer l) ≡ false)
