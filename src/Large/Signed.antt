-- ===== src/Large/Signed.antt =====
-- `LargeInteger` as a sign and digits, and `Clamp`, `Verify`, `AbsCompare`, `Compare`, `Add`,
-- `Subtract` and `Multiply`. Allocation and handles (`H`, `HandleScope`) leave the numbers alone.
pub mod Order
pub mod Signs
pub mod Ring
use primordialsoup.Base.{
  ℕ, zero, suc, ◌+◌, ◌-◌, ◌*◌, ◌≤◌, ◌<◌, ◌≡◌, refl, Bool, true, false, not, List, [], ◌∷◌, arith,
  ltb, leb, if◌then◌else◌, length,
}
use primordialsoup.Base.Int.{ℤ, pos, negsuc, sub_ℕ}
use primordialsoup.Large.Digits.{value, IsDigits, IsClamped, trim}
use primordialsoup.Large.Sum.{add_digits, subtract_digits}
use primordialsoup.Large.Product.{multiply_digits}

pub record LargeInteger : Type 0 where
  pub negative : Bool
  pub digits : List ℕ

-- The integer that it stands for.
abbrev pub signed : Bool → ℕ → ℤ
signed true n = sub_ℕ 0 n
signed false n = pos n

abbrev pub integer : LargeInteger → ℤ
integer a = signed a.negative (value a.digits)

-- What `Verify` asserts, with the digits in range: no leading zero digit, and zero is not negative.
abbrev pub SignOf : Bool → List ℕ → Type 0
SignOf negative [] = negative ≡ false
SignOf negative (d ∷ ds) = Unit {0}

pub record IsVerified (a : LargeInteger) : Type 0 where
  pub in_range : IsDigits a.digits
  pub top : IsClamped a.digits
  pub sign : SignOf a.negative a.digits

-- `Clamp`: leading zero digits go, and a number without digits is not negative.
abbrev clamped_sign : Bool → List ℕ → Bool
clamped_sign negative [] = false
clamped_sign negative (d ∷ ds) = negative

unfoldable pub clamp : Bool → List ℕ → LargeInteger
clamp negative digits =
    let kept = trim digits in record { negative = clamped_sign negative kept; digits = kept }

-- A difference found further up, or in the sizes, settles the comparison.
abbrev pub unless_zero : ℤ → ℤ → ℤ
unless_zero (pos zero) other = other
unless_zero (pos (suc n)) other = pos (suc n)
unless_zero (negsuc n) other = negsuc n

-- The loop of `AbsCompare` on numbers of one size: the digits above come first.
unfoldable pub compare_digits : List ℕ → List ℕ → ℤ
compare_digits [] rs = pos 0
compare_digits (l ∷ ls) [] = pos 0
compare_digits (l ∷ ls) (r ∷ rs) =
    unless_zero (compare_digits ls rs)
      (if ltb r l then negsuc 0 else if ltb l r then pos 1 else pos 0)

-- Negative if `left` is the greater.
unfoldable pub abs_compare : List ℕ → List ℕ → ℤ
unfolding compare_digits
abs_compare left right =
    unless_zero (sub_ℕ (length right) (length left)) (compare_digits left right)

abbrev pub is_negative : ℤ → Bool
is_negative (pos n) = false
is_negative (negsuc n) = true

unfoldable pub abs_greater : List ℕ → List ℕ → Bool
abs_greater left right = is_negative (abs_compare left right)

unfoldable pub compare : LargeInteger → LargeInteger → ℤ
compare left right =
    if left.negative
    then if right.negative then abs_compare right.digits left.digits else pos 1
    else if right.negative
    then negsuc 0
    else abs_compare left.digits right.digits

unfoldable pub add_absolutes_with_sign : List ℕ → List ℕ → Bool → LargeInteger
add_absolutes_with_sign left right negative =
    if leb (length left) (length right)
    then clamp negative (add_digits 0 left right)
    else clamp negative (add_digits 0 right left)

unfoldable pub subtract_absolutes_with_sign : List ℕ → List ℕ → Bool → LargeInteger
subtract_absolutes_with_sign left right negative = clamp negative (subtract_digits 0 left right)

unfoldable pub multiply_absolutes_with_sign : List ℕ → List ℕ → Bool → LargeInteger
multiply_absolutes_with_sign left right negative = clamp negative (multiply_digits left right)

abbrev pub same : Bool → Bool → Bool
same true b = b
same false b = not b

unfoldable pub add : LargeInteger → LargeInteger → LargeInteger
add left right =
    if same left.negative right.negative
    then add_absolutes_with_sign left.digits right.digits left.negative
    else if abs_greater left.digits right.digits
    then subtract_absolutes_with_sign left.digits right.digits left.negative
    else subtract_absolutes_with_sign right.digits left.digits right.negative

unfoldable pub subtract : LargeInteger → LargeInteger → LargeInteger
subtract left right =
    if not (same left.negative right.negative)
    then add_absolutes_with_sign left.digits right.digits left.negative
    else if abs_greater left.digits right.digits
    then subtract_absolutes_with_sign left.digits right.digits left.negative
    else subtract_absolutes_with_sign right.digits left.digits (not left.negative)

unfoldable pub multiply : LargeInteger → LargeInteger → LargeInteger
multiply left right =
    multiply_absolutes_with_sign left.digits right.digits (not (same left.negative right.negative))
