-- ===== src/Large/Number/Tests.antt =====
-- The conversions at concrete integers.
use primordialsoup.Base.{ℕ, ◌≡◌, ◌↔◌, refl, true, some, [], ◌∷◌, arith}
use primordialsoup.Base.Int.{pos, negsuc}
use primordialsoup.Large.Signed.{LargeInteger, integer, IsVerified}
use primordialsoup.Large.Number.{
  Number, medium, number_value, expand, reduce, as_uint64, from_uint64, IsNumber, IsCanonical,
  is_smi, is_int64,
}
use primordialsoup.Large.Number.Reduce.{reduce-Canonical}
use primordialsoup.Large.Number.Uint.{IsBoundary, from_uint64-Canonical, as_uint64-from_uint64}
use primordialsoup.Large.Number.Unique.{reduce-expand}

-- The least `int64_t`.
abbrev least : Number
least = medium (negsuc 9223372036854775807)

least-IsNumber : IsNumber least
unfolding IsNumber is_int64
least-IsNumber = refl

least-IsCanonical : IsCanonical least
unfolding IsCanonical is_smi is_int64
least-IsCanonical = (refl, refl)

below_int64 : is_int64 (negsuc 4611686018427387904) ≡ true
unfolding is_int64
below_int64 = refl

-- -(2 to the power of 63), which `Reduce` finds to be medium.
abbrev least_large : LargeInteger
least_large = record { negative = true; digits = 0 ∷ 2147483648 ∷ [] }

least_large-IsVerified : IsVerified least_large
least_large-IsVerified = record {
  in_range = (omega arith, (omega arith, tt));
  top = omega arith;
  sign = tt;
}

reduce-Canonical_example :
    (number_value (reduce least_large) ≡ integer least_large) × IsCanonical (reduce least_large)
reduce-Canonical_example = reduce-Canonical least_large least_large-IsVerified

reduce-expand_example : reduce (expand least) ≡ least
reduce-expand_example = reduce-expand least least-IsCanonical

-- The greatest small integer comes back as a medium one.
abbrev boundary : ℕ
boundary = 4611686018427387903

from_uint64-Canonical_example :
    (number_value (from_uint64 boundary) ≡ pos boundary)
    × IsNumber (from_uint64 boundary)
    × (IsCanonical (from_uint64 boundary) ↔ (IsBoundary boundary → ⊥))
from_uint64-Canonical_example = from_uint64-Canonical boundary (omega arith)

as_uint64-from_uint64_example : as_uint64 (from_uint64 boundary) ≡ some boundary
as_uint64-from_uint64_example = as_uint64-from_uint64 boundary (omega arith)
