-- ===== src/Large/Number/Uint.antt =====
-- `AsUint64` and `FromUint64`.
use primordialsoup.Base.{
  ℕ, ◌/◌, ◌%◌, ◌≤◌, ◌<◌, ◌≡◌, ◌↔◌, ◌⊎◌, refl, sym, ap, ◌∙◌, Bool, true, false, Option, none, some,
  List, [], ◌∷◌, ltb, leb, if◌then◌else◌, arith, length, Bool-cases, inl, inr, dec_lt,
}
use primordialsoup.Base.Int.{ℤ, pos, negsuc}
use primordialsoup.Large.Digits.{digit_base, value, IsDigits}
use primordialsoup.Large.Signed.{LargeInteger, IsVerified, signed, clamp}
use primordialsoup.Large.Signed.Ring.{Stands, clamp-Stands}
use primordialsoup.Large.Bitwise.Cases.{nonzero, negative_is}
use primordialsoup.Large.Number.{
  Number, small, medium, large, number_value, is_smi, is_int64, to_uint64, as_uint64_value,
  as_uint64, from_uint64, IsNumber, IsCanonical,
}
use primordialsoup.Large.Number.Reduce.{from_digits-is, to_int64-pos, wide}

-- The integer as a `uint64_t`, if it is one.
unfoldable pub uint64_of : ℤ → Option ℕ
uint64_of (pos n) = if ltb n 18446744073709551616 then some n else none
uint64_of (negsuc n) = none

as_uint64_value-is : (v : ℤ) → is_int64 v ≡ true → as_uint64_value v ≡ uint64_of v
unfolding as_uint64_value uint64_of is_int64 to_uint64
as_uint64_value-is (pos n) h = ground arith
as_uint64_value-is (negsuc n) h = refl

smi-int64 : (v : ℤ) → is_smi v ≡ true → is_int64 v ≡ true
unfolding is_smi is_int64
smi-int64 (pos n) h = ground arith
smi-int64 (negsuc n) h = ground arith

uint64_of-negative : (n : ℕ) → 1 ≤ n → uint64_of (signed true n) ≡ none
unfolding uint64_of
uint64_of-negative n h = rw (negative_is n h)

uint64_of-wide : (n : ℕ) → 18446744073709551616 ≤ n → uint64_of (pos n) ≡ none
unfolding uint64_of
uint64_of-wide n h = ground arith

uint64_of-narrow : (n : ℕ) → n < 18446744073709551616 → uint64_of (pos n) ≡ some n
unfolding uint64_of
uint64_of-narrow n h = ground arith

narrow : (ds : List ℕ) → IsDigits ds → length ds ≤ 2 → value ds < 18446744073709551616
narrow [] h le = omega arith
narrow (d ∷ []) h le = omega (arith, h.0)
narrow (d ∷ e ∷ []) h le = omega (arith, h.0, h.1.0)
narrow (d ∷ e ∷ f ∷ ds) h le = absurd (omega arith)

as_uint64-large :
    (negative : Bool) (ds : List ℕ)
    → IsVerified (record { negative = negative; digits = ds })
    → as_uint64 (large (record { negative = negative; digits = ds }))
      ≡ uint64_of (signed negative (value ds))
unfolding as_uint64
as_uint64-large true ds h = sym (uint64_of-negative (value ds) (nonzero ds h))
as_uint64-large false ds h = elim (Bool-cases (ltb 2 (length ds))) [
  | inl e ↦ rw (e, uint64_of-wide (value ds) (wide ds h.top (more (length ds) e)))
  | inr e ↦
      let le = fewer (length ds) e in
      rw (e, from_digits-is ds h.in_range le, uint64_of-narrow (value ds) (narrow ds h.in_range le))
]
  where
    more : (n : ℕ) → ltb 2 n ≡ true → 2 < n
    more n e = ground arith

    fewer : (n : ℕ) → ltb 2 n ≡ false → n ≤ 2
    fewer n e = ground arith

-- `AsUint64` yields the integer exactly if it is not negative and below 2 to the power of 64.
pub as_uint64-is : (n : Number) → IsNumber n → as_uint64 n ≡ uint64_of (number_value n)
unfolding IsNumber as_uint64
as_uint64-is (small v) h = as_uint64_value-is v (smi-int64 v h)
as_uint64-is (medium v) h = as_uint64_value-is v h
as_uint64-is (large l) h = as_uint64-large l.negative l.digits h

two_digits :
    (raw : ℕ)
    → raw < 18446744073709551616
    → value (raw % digit_base ∷ raw / digit_base % digit_base ∷ []) ≡ raw
two_digits raw h = omega arith

clamped :
    (raw : ℕ)
    → raw < 18446744073709551616
    → Stands false raw (clamp false (raw % digit_base ∷ raw / digit_base % digit_base ∷ []))
clamped raw h =
    let stands =
      clamp-Stands false (raw % digit_base ∷ raw / digit_base % digit_base ∷ [])
        (omega arith, (omega arith, tt)) in
    record { verified = stands.verified; is = stands.is ∙ ap pos (two_digits raw h) }

from_uint64-small : (raw : ℕ) → raw < 4611686018427387903 → from_uint64 raw ≡ small (pos raw)
unfolding from_uint64
from_uint64-small raw h = ground arith

from_uint64-medium :
    (raw : ℕ)
    → 4611686018427387903 ≤ raw
    → raw < 9223372036854775807
    → from_uint64 raw ≡ medium (pos raw)
unfolding from_uint64
from_uint64-medium raw h k = rw (to_int64-pos raw (omega arith)) (ground arith)

from_uint64-large :
    (raw : ℕ)
    → 9223372036854775807 ≤ raw
    → from_uint64 raw ≡ large (clamp false (raw % digit_base ∷ raw / digit_base % digit_base ∷ []))
unfolding from_uint64
from_uint64-large raw h =
    let not_small : ltb raw 4611686018427387903 ≡ false = ground arith in
    let not_medium : ltb raw 9223372036854775807 ≡ false = ground arith in
    rw (not_small, not_medium)

-- The greatest values of the two smaller representations.
abbrev pub IsBoundary : ℕ → Type 0
IsBoundary raw = (raw ≡ 4611686018427387903) ⊎ (raw ≡ 9223372036854775807)

small-Canonical : (raw : ℕ) → raw < 4611686018427387903 → IsCanonical (small (pos raw))
unfolding IsCanonical is_smi
small-Canonical raw h = ground arith

medium-Canonical :
    (raw : ℕ)
    → 4611686018427387903 ≤ raw
    → raw < 9223372036854775807
    → IsCanonical (medium (pos raw)) ↔ (IsBoundary raw → ⊥)
unfolding IsCanonical is_smi is_int64
medium-Canonical raw h k = (λ c b. at_most raw k c.0 b, λ f. (beyond raw h f, fits raw k))
  where
    at_most :
        (n : ℕ) → n < 9223372036854775807 → leb n 4611686018427387903 ≡ false → IsBoundary n → ⊥
    at_most n lt e (inl b) = ground arith
    at_most n lt e (inr b) = omega arith

    beyond :
        (n : ℕ) → 4611686018427387903 ≤ n → (IsBoundary n → ⊥) → leb n 4611686018427387903 ≡ false
    beyond n le f = ground arith

    fits : (n : ℕ) → n < 9223372036854775807 → ltb n 9223372036854775808 ≡ true
    fits n lt = ground arith

medium-IsNumber : (raw : ℕ) → raw < 9223372036854775807 → IsNumber (medium (pos raw))
unfolding IsNumber is_int64
medium-IsNumber raw h = ground arith

large-Canonical :
    (raw : ℕ) (l : LargeInteger)
    → 9223372036854775807 ≤ raw
    → Stands false raw l
    → IsCanonical (large l) ↔ (IsBoundary raw → ⊥)
unfolding IsCanonical is_int64
large-Canonical raw l h stands = (
  λ c b. at_least raw (rw (stands.is) at c.1) b,
  λ f. (stands.verified, rw (stands.is) (beyond raw h f)),
)
  where
    at_least : (n : ℕ) → ltb n 9223372036854775808 ≡ false → IsBoundary n → ⊥
    at_least n e (inl b) = ground arith
    at_least n e (inr b) = ground arith

    beyond :
        (n : ℕ) → 9223372036854775807 ≤ n → (IsBoundary n → ⊥) → ltb n 9223372036854775808 ≡ false
    beyond n le f = ground arith

large-IsNumber : (raw : ℕ) (l : LargeInteger) → Stands false raw l → IsNumber (large l)
unfolding IsNumber
large-IsNumber raw l stands = stands.verified

small-IsNumber : (raw : ℕ) → raw < 4611686018427387903 → IsNumber (small (pos raw))
unfolding IsNumber is_smi
small-IsNumber raw h = ground arith

-- A number that is read from an unsigned word.
abbrev IsRead : ℕ → Number → Type 0
IsRead raw n = (number_value n ≡ pos raw) × IsNumber n × (IsCanonical n ↔ (IsBoundary raw → ⊥))

-- `FromUint64` has the value of the word, and is the smallest representation that can hold it except
-- exactly at the greatest value of a small and at the greatest value of a medium integer.
pub from_uint64-Canonical :
    (raw : ℕ)
    → raw < 18446744073709551616
    → (number_value (from_uint64 raw) ≡ pos raw)
      × IsNumber (from_uint64 raw)
      × (IsCanonical (from_uint64 raw) ↔ (IsBoundary raw → ⊥))
from_uint64-Canonical raw h = elim (dec_lt raw 4611686018427387903) [
  | yes p ↦ rw (from_uint64-small raw p) (refl, small-IsNumber raw p, always p)
  | no p ↦ elim (dec_lt raw 9223372036854775807) [
    | yes q ↦
        rw (from_uint64-medium raw (omega arith) q)
          (refl, medium-IsNumber raw q, medium-Canonical raw (omega arith) q)
    | no q ↦
        let stands = clamped raw h in
        rw (from_uint64-large raw (omega arith))
          (stands.is, large-IsNumber raw _ stands, large-Canonical raw _ (omega arith) stands)
  ]
]
  where
    always : raw < 4611686018427387903 → IsCanonical (small (pos raw)) ↔ (IsBoundary raw → ⊥)
    always p =
        (λ c b. elim b [ inl e ↦ omega arith | inr e ↦ omega arith ], λ f. small-Canonical raw p)

-- A word that is written as a number is read back.
pub as_uint64-from_uint64 :
    (raw : ℕ) → raw < 18446744073709551616 → as_uint64 (from_uint64 raw) ≡ some raw
as_uint64-from_uint64 raw h =
    let (is, range, canonical) = from_uint64-Canonical raw h in
    as_uint64-is (from_uint64 raw) range ∙ ap uint64_of is ∙ uint64_of-narrow raw h
