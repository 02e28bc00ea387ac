-- ===== src/Large/Divide.antt =====
-- `LargeInteger::Divide`. The three cases are that the dividend has fewer digits, that the divisor has
-- one digit, and the long division of the others.
pub mod Row
pub mod Single
pub mod Short
pub mod Spec
pub mod Subtract
pub mod Estimate
pub mod Round
pub mod Rounds
pub mod Normal
pub mod Loop
pub mod Long
pub mod Cases
pub mod Whole
mod Tests
use primordialsoup.Base.{
  ℕ, zero, suc, ◌+◌, ◌-◌, ◌*◌, ◌/◌, ◌%◌, ◌^◌, Bool, true, false, not, ◌&&◌, ◌||◌, Option, none,
  some, List, [], ◌∷◌, ◌++◌, ltb, leb, ◌==◌, if◌then◌else◌, length, get_or, take, drop, replicate,
  u64, sub64, sar32, bit_or,
}
use primordialsoup.Large.Digits.{digit_base}
use primordialsoup.Large.Sum.{add_one_in_place}
use primordialsoup.Large.Signed.{LargeInteger, clamp, same, add}
use primordialsoup.Math.{highest_bit_of}

-- `DivOperationType` and `DivResultType`.
pub data Rounding : Type 0 where
  truncated floored exact : Rounding

pub data Wanted : Type 0 where
  quotient remainder : Wanted

-- `nullptr` is the outcome of an exact division that is not.
pub data Division : Type 0 where
  result : LargeInteger → Division
  inexact unreachable : Division

abbrev pub large_zero : LargeInteger
large_zero = record { negative = false; digits = [] }

-- A number of one digit.
abbrev pub one_digit : Bool → ℕ → LargeInteger
one_digit negative d = record { negative = negative; digits = d ∷ [] }

abbrev pub is_nil : List ℕ → Bool
is_nil [] = true
is_nil (d ∷ ds) = false

-- The dividend has fewer digits than the divisor.
module _ (dividend divisor : LargeInteger) where
  abbrev pub rounds_to_zero : Bool
  rounds_to_zero = is_nil dividend.digits || same dividend.negative divisor.negative

  unfoldable pub divide_short : Rounding → Wanted → Division
  divide_short truncated quotient = result large_zero
  divide_short floored quotient =
      if rounds_to_zero then result large_zero else result (one_digit true 1)
  divide_short exact quotient = if is_nil dividend.digits then result dividend else inexact
  divide_short truncated remainder = result dividend
  divide_short floored remainder =
      if rounds_to_zero then result dividend else result (add dividend divisor)
  divide_short exact remainder = unreachable

-- The loop on a divisor of one digit, from the highest digit of the dividend down: the digits of the
-- quotient and `remainder_d`.
unfoldable pub divide_row : ℕ → List ℕ → List ℕ × ℕ
divide_row d [] = ([], 0)
divide_row d (x ∷ xs) =
    let (qs, r) = divide_row d xs in
    let n = u64 (u64 (r * digit_base) + x) in
    let q = (n / d) % digit_base in (q ∷ qs, sub64 n (u64 (q * d)))

-- What is returned for the quotient and the remainder of the absolute values. `negative` and `other`
-- are the signs of the dividend and of the divisor `d`.
module _ (negative other : Bool) (d : ℕ) where
  abbrev pub rounded_quotient : List ℕ × ℕ → LargeInteger
  rounded_quotient (qs, r) =
      let q = clamp (not (same negative other)) qs in
      if not (r == 0) && not (same negative other)
      then record { negative = q.negative; digits = add_one_in_place q.digits }
      else q

  abbrev pub single_result : Rounding → Wanted → List ℕ × ℕ → Division
  single_result truncated quotient (qs, r) = result (clamp (not (same negative other)) qs)
  single_result floored quotient (qs, r) = result (rounded_quotient (qs, r))
  single_result exact quotient (qs, r) =
      if r == 0 then result (clamp (not (same negative other)) qs) else inexact
  single_result truncated remainder (qs, r) =
      if r == 0 then result large_zero else result (one_digit negative r)
  single_result floored remainder (qs, r) =
      if r == 0
      then result large_zero
      else if not (same negative other)
      then result (one_digit other (d - r))
      else result (one_digit other r)
  single_result exact remainder (qs, r) = unreachable

unfoldable pub divide_single : LargeInteger → Bool → ℕ → Rounding → Wanted → Division
unfolding divide_row
divide_single dividend other d op wanted =
    single_result dividend.negative other d op wanted (divide_row d dividend.digits)

-- The long division by the digits `ds` of the divisor.
abbrev pub countl_zero : ℕ → ℕ
countl_zero d = 31 - highest_bit_of 32 d

-- The digits shifted up, with the bits that come in from below; `last` is the digit below.
unfoldable pub normalized : ℕ → ℕ → List ℕ → List ℕ
normalized shift carry [] = []
normalized shift carry (d ∷ ds) =
    bit_or (d * 2 ^ shift % digit_base) carry ∷ normalized shift (d / 2 ^ (32 - shift)) ds

abbrev pub highest_digit : List ℕ → ℕ
highest_digit ds = get_or ds (length ds - 1) 0

-- `norm_div`, and `norm_rem` with its digit more.
abbrev pub normalized_divisor : ℕ → List ℕ → List ℕ
normalized_divisor shift ds = normalized shift 0 ds

abbrev pub normalized_dividend : ℕ → List ℕ → List ℕ
normalized_dividend shift ds = normalized shift 0 ds ++ ((highest_digit ds / 2 ^ (32 - shift)) ∷ [])

-- `again`: the estimated digit, by the two highest digits `v1` and `v2` of the divisor. `r` grows by
-- `v1` each time, which is half of the base at least, so that two rounds are enough.
unfoldable pub estimate : ℕ → ℕ → ℕ → ℕ → ℕ → ℕ → ℕ
estimate zero v1 v2 u q r = q
estimate (suc rounds) v1 v2 u q r =
    let lowered = estimate rounds v1 v2 u (q - 1) (r + v1) in
    if leb digit_base q || ltb (u64 (digit_base * r) + u) (u64 (q * v2))
    then if ltb (r + v1) digit_base then lowered else q - 1
    else q

-- The digits from `j` on, less the product of `q` and the divisor; and whether `t < 0`.
unfoldable pub subtract_product : ℕ → ℕ → List ℕ → List ℕ → List ℕ × Bool
subtract_product q k [] [] = ([], false)
subtract_product q k [] (u ∷ us) =
    let t = sub64 u k in (t % digit_base ∷ us, leb 9223372036854775808 t)
subtract_product q k (v ∷ vs) [] = ([], false)
subtract_product q k (v ∷ vs) (u ∷ us) =
    let p = u64 (q * v) in
    let t = sub64 (sub64 u k) (p % digit_base) in
    let (rest, negative) = subtract_product q (sub64 (p / digit_base) (sar32 t)) vs us in
    (t % digit_base ∷ rest, negative)

unfoldable pub add_back : ℕ → List ℕ → List ℕ → List ℕ
add_back k [] [] = []
add_back k [] (u ∷ us) = (u + k) % digit_base ∷ us
add_back k (v ∷ vs) [] = []
add_back k (v ∷ vs) (u ∷ us) = let t = u64 (u + v + k) in t % digit_base ∷ add_back (sar32 t) vs us

-- One round of the loop on the digits from `j` on, with `v1` and `v2` the highest digits of `vs`.
unfoldable pub divide_round : List ℕ → List ℕ → ℕ × List ℕ
divide_round vs us =
    let n = length vs in
    let v1 = get_or vs (n - 1) 0 in
    let p = u64 (get_or us n 0 * digit_base + get_or us (n - 1) 0) in
    let q_est = p / v1 in
    let q = estimate 3 v1 (get_or vs (n - 2) 0) (get_or us (n - 2) 0) q_est (p - q_est * v1) in
    let (rest, negative) = subtract_product q 0 vs us in
    if negative
    then ((q % digit_base + digit_base - 1) % digit_base, add_back 0 vs rest)
    else (q % digit_base, rest)

-- The loop with `left` rounds to go, the next at `left - 1`: the digits of the quotient above are
-- there.
unfoldable pub divide_rounds : ℕ → List ℕ → List ℕ → List ℕ → List ℕ × List ℕ
divide_rounds zero vs qs us = (qs, us)
divide_rounds (suc j) vs qs us =
    let (q, rest) = divide_round vs (drop j us) in divide_rounds j vs (q ∷ qs) (take j us ++ rest)

-- The remainder, shifted back.
unfoldable pub denormalized : ℕ → ℕ → List ℕ → List ℕ
denormalized zero shift us = []
denormalized (suc zero) shift us = get_or us 0 0 / 2 ^ shift ∷ []
denormalized (suc (suc n)) shift us =
    bit_or (get_or us 0 0 / 2 ^ shift) (get_or us 1 0 * 2 ^ (32 - shift) % digit_base)
    ∷ denormalized (suc n) shift (drop 1 us)

abbrev pub all_zero : List ℕ → Bool
all_zero [] = true
all_zero (d ∷ ds) = (d == 0) && all_zero ds

module _ (dividend divisor : LargeInteger) where
  abbrev pub long_quotient : Rounding → List ℕ × List ℕ → Division
  long_quotient truncated (qs, us) =
      result (clamp (not (same dividend.negative divisor.negative)) qs)
  long_quotient floored (qs, us) =
      let q = clamp (not (same dividend.negative divisor.negative)) qs in
      if not (all_zero (take (length divisor.digits + 1) us))
        && not (same dividend.negative divisor.negative)
      then result (record { negative = true; digits = add_one_in_place q.digits })
      else result q
  long_quotient exact (qs, us) =
      if all_zero (take (length divisor.digits + 1) us)
      then result (clamp (not (same dividend.negative divisor.negative)) qs)
      else inexact

  abbrev pub long_remainder : Rounding → LargeInteger → Division
  long_remainder truncated r = result r
  long_remainder floored r =
      if not (is_nil r.digits) && not (same dividend.negative divisor.negative)
      then result (add r divisor)
      else result r
  long_remainder exact r = unreachable

  abbrev pub long_result : Rounding → Wanted → ℕ → List ℕ × List ℕ → Division
  long_result op quotient shift (qs, us) = long_quotient op (qs, us)
  long_result op remainder shift (qs, us) =
      long_remainder op (clamp dividend.negative (denormalized (length divisor.digits) shift us))

  unfoldable pub divide_long : Rounding → Wanted → Division
  unfolding normalized divide_rounds denormalized
  divide_long op wanted =
      let shift = countl_zero (highest_digit divisor.digits) in
      long_result op wanted shift (
        divide_rounds (length dividend.digits - length divisor.digits + 1)
          (normalized_divisor shift divisor.digits) [] (normalized_dividend shift dividend.digits))

unfoldable pub divide : Rounding → Wanted → LargeInteger → LargeInteger → Division
unfolding divide_short divide_single divide_long
divide op wanted dividend divisor =
    if ltb (length dividend.digits) (length divisor.digits)
    then divide_short dividend divisor op wanted
    else by_divisor divisor.digits
  where
    by_divisor : List ℕ → Division
    by_divisor [] = unreachable
    by_divisor (d ∷ []) = divide_single dividend divisor.negative d op wanted
    by_divisor (d ∷ e ∷ ds) = divide_long dividend divisor op wanted
