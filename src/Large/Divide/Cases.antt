-- ===== src/Large/Divide/Cases.antt =====
-- The cases of `Divide`, by the sizes of the dividend and the divisor.
use primordialsoup.Base.{
  ℕ, ◌+◌, ◌-◌, ◌/◌, ◌%◌, ◌≤◌, ◌<◌, ◌≡◌, ◌≢◌, refl, ap, ◌∙◌, Bool, false, List, [], ◌∷◌, ltb, length,
  if◌then◌else◌, lt→ltb, arith,
}
use primordialsoup.Base.Int.{ℤ}
use primordialsoup.Large.Digits.{value}
use primordialsoup.Large.Signed.{LargeInteger, integer, same}
use primordialsoup.Large.Shift.Round.{HasRoom}
use primordialsoup.Large.Divide.{
  Division, result, inexact, Rounding, Wanted, truncated, floored, exact, quotient, remainder,
  is_nil, long_result, divide_long, divide_rounds, countl_zero, highest_digit, normalized_divisor,
  normalized_dividend, divide, divide_row, divide_short, divide_single,
}
use primordialsoup.Large.Divide.Spec.{Divided}
use primordialsoup.Large.Divide.Single.{single_cases}
use primordialsoup.Large.Divide.Loop.{shift, run, last_index}

short_test : (n m : ℕ) → m ≤ n → ltb n m ≡ false
short_test n m h = ground arith

-- The cases that are decided by the sizes.
pub short_is :
    (a b : LargeInteger) (op : Rounding) (wanted : Wanted)
    → length a.digits < length b.digits
    → divide op wanted a b ≡ divide_short a b op wanted
unfolding divide
short_is a b op wanted h = rw (lt→ltb (length a.digits) (length b.digits) h)

pub single_is :
    (a : LargeInteger) (nb : Bool) (d : ℕ) (op : Rounding) (wanted : Wanted)
    → 1 ≤ length a.digits
    → divide op wanted a (record { negative = nb; digits = d ∷ [] })
      ≡ single_cases a.negative nb d (divide_row d a.digits) op wanted
unfolding divide divide_single
single_is a nb d op wanted h = rw (short_test (length a.digits) 1 h)

-- A division of which another computes the same.
abbrev pub Divided-same :
    {f g : Rounding → Wanted → Division} {op : Rounding} {like a b : ℤ}
    → ((op : Rounding) (wanted : Wanted) → f op wanted ≡ g op wanted)
    → Divided g op like a b
    → Divided f op like a b
Divided-same {op = op} same d = record {
  q = d.q;
  r = d.r;
  quotient_is = same op quotient ∙ d.quotient_is;
  remainder_is = same op remainder ∙ d.remainder_is;
  q_verified = d.q_verified;
  r_verified = d.r_verified;
  division = d.division;
}

-- All that `Divide` yields for two integers, with no rounding down.
abbrev pub Divides : LargeInteger → LargeInteger → Type 0
Divides a b =
    (d : Divided (λ op wanted. divide op wanted a b) truncated (integer a) (integer a) (integer b))
    × (divide exact quotient a b ≡ (if is_nil d.r.digits then result d.q else inexact))

-- What is left of the room that a quotient needs to be rounded down. The division by one digit
-- rounds no quotient that is 0.
abbrev pub RoundsDown : LargeInteger → LargeInteger → Type 0
RoundsDown a b =
    length b.digits ≤ length a.digits
    → same a.negative b.negative ≡ false
    → value a.digits % value b.digits ≢ 0
    → (length b.digits ≡ 1 → 0 < value a.digits / value b.digits)
      × HasRoom (value a.digits / value b.digits)

-- What `Divide` yields rounding down.
abbrev pub DividesDown : LargeInteger → LargeInteger → Type 0
DividesDown a b =
    Divided (λ op wanted. divide op wanted a b) floored (integer b) (integer a) (integer b)

module _ (na nb : Bool) (d : ℕ) (ds : List ℕ) (e f : ℕ) (es : List ℕ) where
  abbrev pub long_dividend : LargeInteger
  long_dividend = record { negative = na; digits = d ∷ ds }

  abbrev pub long_divisor : LargeInteger
  long_divisor = record { negative = nb; digits = e ∷ f ∷ es }

  by_top : Rounding → Wanted → ℕ → Division
  by_top op wanted t = long_result long_dividend long_divisor op wanted (countl_zero t) (
      divide_rounds (length (d ∷ ds) - length (e ∷ f ∷ es) + 1)
        (normalized_divisor (countl_zero t) (e ∷ f ∷ es)) []
        (normalized_dividend (countl_zero t) (d ∷ ds)))

  by_top_is :
      (op : Rounding) (wanted : Wanted)
      → length (e ∷ f ∷ es) ≤ length (d ∷ ds)
      → divide op wanted long_dividend long_divisor ≡ by_top op wanted (highest_digit (e ∷ f ∷ es))
  unfolding divide divide_long by_top
  by_top_is op wanted h = rw (short_test (length (d ∷ ds)) (length (e ∷ f ∷ es)) h) refl

  pub long_is :
      (op : Rounding) (wanted : Wanted)
      → length (e ∷ f ∷ es) ≤ length (d ∷ ds)
      → divide op wanted long_dividend long_divisor
        ≡ long_result long_dividend long_divisor op wanted (shift d ds e f es) (run d ds e f es)
  unfolding by_top
  long_is op wanted h = by_top_is op wanted h ∙ ap (by_top op wanted) (last_index e (f ∷ es))
