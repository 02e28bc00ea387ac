-- ===== src/Large/Divide/Whole.antt =====
-- `Divide` of all integers.
use mathlib.Core.Path.{subst}
use native.Mathlib.Nat.{div-add-mod}
use primordialsoup.Base.{
  ℕ, ◌+◌, ◌*◌, ◌/◌, ◌%◌, ◌≤◌, ◌<◌, ◌≡◌, ◌≢◌, refl, sym, ap, ◌∙◌, Bool, false, List, [], ◌∷◌, length,
  if◌then◌else◌, arith, dec_lt,
}
use primordialsoup.Base.Int.{ℤ}
use primordialsoup.Large.Digits.{value, IsClamped-pos}
use primordialsoup.Large.Signed.{LargeInteger, integer, signed, same, IsVerified}
use primordialsoup.Large.Shift.Floor.{quotient as quotient_lem}
use primordialsoup.Large.Shift.Round.{HasRoom}
use primordialsoup.Large.Divide.{
  result, inexact, truncated, exact, quotient, is_nil, divide, divide_row,
}
use primordialsoup.Large.Divide.Row.{Parts, divide_row-Parts}
use primordialsoup.Large.Divide.Spec.{Divided}
use primordialsoup.Large.Divide.Single.{truncated-Divided, exact-is, floored-Divided}
use primordialsoup.Large.Divide.Loop.{IsLoop, shift, run, run-IsLoop}
use primordialsoup.Large.Divide.Short.{
  short_truncated-Divided, short_exact-is, short_floored-Divided,
}
use primordialsoup.Large.Divide.{denormalized}
use primordialsoup.Large.Divide.Long.{long_truncated-Divided, long_exact-is, long_floored-Divided}
use primordialsoup.Large.Divide.Cases.{
  Divided-same, Divides, RoundsDown, DividesDown, short_is, single_is, long_dividend, long_divisor,
  long_is,
}

one_digit_value : (d : ℕ) → d + 4294967296 * 0 ≡ d
one_digit_value d = omega arith

single_digit :
    (nb : Bool) (d : ℕ) → integer (record { negative = nb; digits = d ∷ [] }) ≡ signed nb d
single_digit nb d = ap (signed nb) (one_digit_value d)

module _ (a : LargeInteger) (nb : Bool) (d : ℕ) (ha : IsVerified a)
    (hb : IsVerified (record { negative = nb; digits = d ∷ [] })) (h : 1 ≤ length a.digits) where
  abbrev divisor : LargeInteger
  divisor = record { negative = nb; digits = d ∷ [] }

  parts : Parts d (value a.digits) (divide_row d a.digits)
  parts =
      divide_row-Parts d (omega (arith, IsClamped-pos d [] hb.top)) hb.in_range.0 a.digits
        ha.in_range

  single-Divides : Divides a divisor
  single-Divides =
      let e =
        truncated-Divided a.negative nb d (value a.digits) hb.in_range.0 (divide_row d a.digits)
          parts in
      let x =
        exact-is a.negative nb d (value a.digits) hb.in_range.0 (divide_row d a.digits) parts in
      subst
        (λ (z : ℤ).
          (f : Divided (λ op wanted. divide op wanted a divisor) truncated (integer a) (integer a)
            z)
          × (divide exact quotient a divisor ≡ (if is_nil f.r.digits then result f.q else inexact)))
        (sym (single_digit nb d))
        (
          Divided-same (λ op wanted. single_is a nb d op wanted h) e,
          single_is a nb d exact quotient h ∙ x,
        )

  whole_quotient : value a.digits / d ≡ value (divide_row d a.digits).0
  whole_quotient =
      ap (λ (t : ℕ). t / d) parts.is
      ∙ quotient_lem d (value (divide_row d a.digits).0) (divide_row d a.digits).1 parts.less

  whole_remainder : value a.digits % d ≡ (divide_row d a.digits).1
  whole_remainder =
      let division = div-add-mod (value a.digits) d in
      omega (arith, division, parts.is, ap (λ (t : ℕ). d * t) whole_quotient)

  fits_down :
      RoundsDown a divisor
      → same a.negative nb ≡ false
      → (divide_row d a.digits).1 ≢ 0
      → (0 < value (divide_row d a.digits).0) × HasRoom (value (divide_row d a.digits).0)
  fits_down room s nz =
      let (some_q, fits) =
        (rw (one_digit_value d) at room) h s (λ z. nz (sym whole_remainder ∙ z)) in
      (rw whole_quotient at (some_q refl), rw whole_quotient at fits)

  single-DividesDown : RoundsDown a divisor → DividesDown a divisor
  single-DividesDown room = rw (single_digit nb d) (
      Divided-same (λ op wanted. single_is a nb d op wanted h)
        (floored-Divided a.negative nb d (value a.digits) hb.in_range.0 (divide_row d a.digits)
          parts (fits_down room)))

module _ (na nb : Bool) (d : ℕ) (ds : List ℕ) (e f : ℕ) (es : List ℕ)
    (ha : IsVerified (long_dividend na nb d ds e f es))
    (hb : IsVerified (long_divisor na nb d ds e f es))
    (h : length (e ∷ f ∷ es) ≤ length (d ∷ ds)) where
  abbrev a : LargeInteger
  a = long_dividend na nb d ds e f es

  abbrev b : LargeInteger
  b = long_divisor na nb d ds e f es

  loop :
      IsLoop
        (shift d ds e f es)
        (length b.digits)
        a.digits
        b.digits
        (run d ds e f es).0
        (run d ds e f es).1
  loop = run-IsLoop d ds e f es ha.in_range hb.in_range hb.top h

  long-Divides : Divides a b
  long-Divides = (
    Divided-same (λ op wanted. long_is na nb d ds e f es op wanted h)
        (long_truncated-Divided a b ha hb (shift d ds e f es) (run d ds e f es) loop),
    long_is na nb d ds e f es exact quotient h
        ∙ long_exact-is a b ha hb (shift d ds e f es) (run d ds e f es) loop,
  )

  long-DividesDown : RoundsDown a b → DividesDown a b
  long-DividesDown room =
      let l = loop in
      let v = value a.digits in
      let w = value b.digits in
      let rest = denormalized (length b.digits) (shift d ds e f es) (run d ds e f es).1 in
      let whole : v / w ≡ value (run d ds e f es).0 =
        ap (λ (t : ℕ). t / w) l.is
        ∙ quotient_lem w (value (run d ds e f es).0) (value rest) l.smaller in
      let left : v % w ≡ value rest =
        let division = div-add-mod v w in
        omega (arith, division, l.is, ap (λ (t : ℕ). w * t) whole) in
      Divided-same (λ op wanted. long_is na nb d ds e f es op wanted h)
        (long_floored-Divided a b ha hb (shift d ds e f es) (run d ds e f es) l
          (λ s nz. rw whole at (room h s (λ z. nz (sym left ∙ z))).1))

-- A divisor of no more digits than the dividend.
by_digits :
    (na nb : Bool) (ds es : List ℕ)
    → IsVerified (record { negative = na; digits = ds })
    → IsVerified (record { negative = nb; digits = es })
    → 0 < length es
    → length es ≤ length ds
    → Divides (record { negative = na; digits = ds }) (record { negative = nb; digits = es })
      × (RoundsDown (record { negative = na; digits = ds }) (record { negative = nb; digits = es })
          → DividesDown
              (record { negative = na; digits = ds })
              (record { negative = nb; digits = es }))
by_digits na nb ds [] ha hb some_b h = absurd (omega arith)
by_digits na nb [] (e ∷ es) ha hb some_b h = absurd (omega arith)
by_digits na nb (d ∷ ds) (e ∷ []) ha hb some_b h =
    let a : LargeInteger = record { negative = na; digits = d ∷ ds } in
    (single-Divides a nb e ha hb h, single-DividesDown a nb e ha hb h)
by_digits na nb (d ∷ ds) (e ∷ f ∷ es) ha hb some_b h =
    (long-Divides na nb d ds e f es ha hb h, long-DividesDown na nb d ds e f es ha hb h)

module _ (a b : LargeInteger) (ha : IsVerified a) (hb : IsVerified b) where
  -- `Divide` truncating, by a divisor that is not 0, yields a verified quotient and remainder: the
  -- dividend is the product of the quotient and the divisor and the remainder, which is smaller than
  -- the divisor and has the sign of the dividend or is 0. The exact quotient is that quotient if the
  -- remainder is 0, and none otherwise.
  pub divide-Divides : 0 < length b.digits → Divides a b
  divide-Divides some_b = elim (dec_lt (length a.digits) (length b.digits)) [
    | yes h ↦ (
      Divided-same (λ op wanted. short_is a b op wanted h) (short_truncated-Divided a b ha hb h),
      short_is a b exact quotient h ∙ short_exact-is a b ha hb h,
    )
    | no h ↦ (by_digits a.negative b.negative a.digits b.digits ha hb some_b (omega arith)).0
  ]

  -- `Divide` rounding down, by a divisor that is not 0, yields a verified quotient and remainder of
  -- which the same holds, but that the remainder has the sign of the divisor or is 0. Where the signs
  -- differ and the remainder is not 0, the successor of the truncated quotient must not need a digit
  -- more, and the truncated quotient by one digit must not be 0.
  pub divide-DividesDown : 0 < length b.digits → RoundsDown a b → DividesDown a b
  divide-DividesDown some_b room = elim (dec_lt (length a.digits) (length b.digits)) [
    | yes h ↦
        Divided-same (λ op wanted. short_is a b op wanted h) (short_floored-Divided a b ha hb h)
    | no h ↦ (by_digits a.negative b.negative a.digits b.digits ha hb some_b (omega arith)).1 room
  ]
