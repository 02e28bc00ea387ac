-- ===== src/Primitives/Shifts.antt =====
-- `Integer_bitShiftLeft` and `Integer_bitShiftRight`, with `Utils::BitLength` of `vm/utils.h` and
-- `Math::ShiftLeft` of `vm/math.h`.
pub mod Words
pub mod Left
pub mod Right
use primordialsoup.Base.{
  ℕ, ◌+◌, ◌*◌, ◌/◌, ◌^◌, Bool, true, false, Option, none, some, ltb, leb, ◌==◌, if◌then◌else◌,
  length, u64,
}
use primordialsoup.Base.Int.{ℤ, pos, negsuc, pos_part}
use primordialsoup.Large.Signed.{LargeInteger, is_negative}
use primordialsoup.Large.Number.{
  Number, small, medium, large, expand, reduce, new_integer, to_uint64, to_int64,
}
use primordialsoup.Large.Shift.{shift_left, shift_right}
use primordialsoup.Math.{highest_bit}
use primordialsoup.Primitives.{
  Outcome, next, failure, done, ◌orelse◌, both, small_value, mint_value, Object, number, float,
  boolean, other, number_of,
}

-- `value ^= value >> 63` flips the bits of a negative number.
unfoldable pub bit_length : ℤ → ℕ
bit_length (pos n) = if n == 0 then 0 else highest_bit (pos n) + 1
bit_length (negsuc n) = if n == 0 then 0 else highest_bit (pos n) + 1

-- `Math::ShiftLeft` on `int64_t`, by less than 64.
unfoldable pub shift_word_left : ℤ → ℕ → ℤ
shift_word_left left right = to_int64 (u64 (to_uint64 left * 2 ^ right))

-- `>>` on `int64_t`.
unfoldable pub shift_word_right : ℤ → ℕ → ℤ
shift_word_right (pos n) right = pos (n / 2 ^ right)
shift_word_right (negsuc n) right = negsuc (n / 2 ^ right)

-- What an arm of a shift does: it goes on, or fails, or ends the process (`OUT_OF_MEMORY`), or returns.
pub data Shifted : Type 0 where
  skip failed stopped : Shifted
  returned : Number → Shifted

infixr 20 ◌or_else◌
abbrev pub ◌or_else◌ : Shifted → Shifted → Shifted
skip or_else s = s
failed or_else s = failed
stopped or_else s = stopped
returned r or_else s = returned r

abbrev pub by_words : Option ℤ → Option ℤ → (ℤ → ℤ → Shifted) → Shifted
by_words none b f = skip
by_words (some a) none f = skip
by_words (some a) (some b) f = f a b

-- `kSmi`'s `kBits`.
abbrev pub smi_bits : ℕ
smi_bits = 62

abbrev pub smi_shift_left : ℤ → ℤ → Shifted
smi_shift_left left right =
    if is_negative right
    then failed
    else if ltb (bit_length left + pos_part right) smi_bits
    then returned (small (shift_word_left left (pos_part right)))
    else skip

-- The test is of `63 - raw_right`, which may be negative.
abbrev pub mint_shift_left : ℤ → ℤ → Shifted
mint_shift_left left right =
    if is_negative right
    then failed
    else if leb (bit_length left + pos_part right) 63
    then returned (new_integer (shift_word_left left (pos_part right)))
    else skip

-- The arm takes all that reach it.
abbrev pub lint_shift_left : LargeInteger → Number → Shifted
lint_shift_left left (large r) = if r.negative then failed else stopped
lint_shift_left left (medium b) = if is_negative b then failed else stopped
lint_shift_left left (small b) =
    if is_negative b then failed else returned (reduce (shift_left left (pos_part b)))

unfoldable pub shift_number_left : Number → Number → Shifted
shift_number_left left right =
    by_words (small_value left) (small_value right) smi_shift_left
    or_else by_words (mint_value left) (mint_value right) mint_shift_left
    or_else lint_shift_left (expand left) right

abbrev pub at_most_bits : ℕ → ℕ → ℕ
at_most_bits most b = if ltb most b then most else b

abbrev pub smi_shift_right : ℤ → ℤ → Shifted
smi_shift_right left right =
    if is_negative right
    then failed
    else returned (small (shift_word_right left (at_most_bits smi_bits (pos_part right))))

abbrev pub mint_shift_right : ℤ → ℤ → Shifted
mint_shift_right left right =
    if is_negative right
    then failed
    else returned (new_integer (shift_word_right left (at_most_bits 63 (pos_part right))))

-- `large_left->negative() ? -1 : 0`.
abbrev pub only_sign : LargeInteger → Shifted
only_sign left = returned (small (if left.negative then negsuc 0 else pos 0))

-- A read out of bounds in `ShiftRight` has no meaning: it would be `stopped`.
abbrev pub return_shifted : Option LargeInteger → Shifted
return_shifted none = stopped
return_shifted (some l) = returned (reduce l)

abbrev pub lint_shift_right : LargeInteger → Number → Shifted
lint_shift_right left (large r) = if r.negative then failed else only_sign left
lint_shift_right left (medium b) = if is_negative b then failed else only_sign left
lint_shift_right left (small b) =
    if is_negative b
    then failed
    else if leb (length left.digits * 32) (pos_part b)
    then only_sign left
    else return_shifted (shift_right left (pos_part b))

unfoldable pub shift_number_right : Number → Number → Shifted
shift_number_right left right =
    by_words (small_value left) (small_value right) smi_shift_right
    or_else by_words (mint_value left) (mint_value right) mint_shift_right
    or_else lint_shift_right (expand left) right

-- The primitives fail on all else. The outer `none` is the end of the process, the inner one
-- `kFailure`.
abbrev pub shift_result : {D : Type 0} → Shifted → Option (Option (Object D))
shift_result skip = some none
shift_result failed = some none
shift_result stopped = none
shift_result (returned r) = some (some (number r))

abbrev pub on_numbers :
    {D : Type 0} → (Number → Number → Shifted) → Object D → Object D → Option (Option (Object D))
on_numbers f (number x) (number y) = shift_result (f x y)
on_numbers f (number x) (float d) = some none
on_numbers f (number x) (boolean b) = some none
on_numbers f (number x) (other w) = some none
on_numbers f (float d) y = some none
on_numbers f (boolean b) y = some none
on_numbers f (other w) y = some none

unfoldable pub integer_bit_shift_left :
    {D : Type 0} → Object D → Object D → Option (Option (Object D))
integer_bit_shift_left left right = on_numbers shift_number_left left right

unfoldable pub integer_bit_shift_right :
    {D : Type 0} → Object D → Object D → Option (Option (Object D))
integer_bit_shift_right left right = on_numbers shift_number_right left right
