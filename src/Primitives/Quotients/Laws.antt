-- ===== src/Primitives/Quotients/Laws.antt =====
-- What the division primitives return for two integers.
use primordialsoup.Base.{
  ℕ, ◌<◌, ◌≡◌, ◌≢◌, refl, sym, ◌∙◌, true, false, Option, none, some, inl, inr, length, List, [],
  ◌∷◌, Bool-cases, arith, if◌then◌else◌,
}
use primordialsoup.Base.Int.{ℤ, pos}
use primordialsoup.Large.Signed.{LargeInteger, integer, IsVerified}
use primordialsoup.Large.Signed.Ring.{StandsFor}
use primordialsoup.Large.Number.{Number, number_value, is_int64, expand, IsNumber}
use primordialsoup.Large.Number.Expand.{expand-StandsFor}
use primordialsoup.Large.Divide.{
  Division, result, Rounding, Wanted, truncated, floored, exact, quotient, remainder, is_nil,
}
use primordialsoup.Large.Divide.Spec.{IsDivision}
use primordialsoup.Large.Divide.Cases.{Divides, RoundsDown}
use primordialsoup.Large.Divide.Whole.{divide-Divides, divide-DividesDown}
use primordialsoup.Math.{
  OverflowChecks, is_zero, trunc_div, trunc_mod, floor_div_word, floor_mod_word,
}
use primordialsoup.Math.Division.{divisions-are}
use primordialsoup.Primitives.{
  Floats, Outcome, next, failure, done, ◌orelse◌, Object, number, float, float_arm, finish,
  return_mint, return_lint,
}
use primordialsoup.Primitives.Ring.{mint-IsInteger, lint-IsInteger, Yields, integer_result}
use primordialsoup.Primitives.Bits.{IfLarge}
use primordialsoup.Primitives.Quotients.{
  Ending, aborts, returns, returning, number_divide, number_div, number_mod, number_quo, number_rem,
  return_division, divide_words, by_word, floor_arm,
}
use primordialsoup.Primitives.Quotients.Paths.{
  zero-is_nil, arms, TakesWords, TakesLarge, takes, zero-fails, nonzero-nil,
}
use primordialsoup.Math.Words.{smaller-int64, trunc_div-int64, floor_div-int64}

-- A division returns the integer in the smallest representation.
abbrev pub EndsIn : {D : Type 0} → ℤ → Option (Ending (Object D)) → Type 0
EndsIn v none = ⊥
EndsIn v (some aborts) = ⊥
EndsIn v (some (returns a)) = Yields v (some a)

-- Two primitives yield a quotient and a remainder.
pub record YieldsBoth {D : Type 0} (like a b : ℤ) (quotient_of rest_of : Option (Ending (Object D)))
    : Type 0 where
  pub q : ℤ
  pub r : ℤ
  pub quotient_is : EndsIn q quotient_of
  pub rest_is : EndsIn r rest_of
  pub division : IsDivision like a b q r

module _ (fs : Floats) (checks : OverflowChecks) (x y : Number) (hx : IsNumber x) (hy : IsNumber y)
    (nz : number_value y ≢ pos 0) where
  abbrev a : ℤ
  a = number_value x

  abbrev b : ℤ
  b = number_value y

  abbrev outcome :
      (ℤ → ℤ → Outcome (Object fs.Double)) → Rounding → Wanted → Outcome (Ending (Object fs.Double))
  outcome = arms fs checks x y

  left_stands : StandsFor a (expand x)
  left_stands = expand-StandsFor x hx

  right_stands : StandsFor b (expand y)
  right_stands = expand-StandsFor y hy

  some_digits : 0 < length (expand y).digits
  some_digits = some_list _ (nonzero-nil (expand y) (λ e. nz (sym right_stands.is ∙ e)))
    where
      some_list : (ds : List ℕ) → is_nil ds ≡ false → 0 < length ds
      some_list [] h = cc
      some_list (d ∷ ds) h = omega arith

  large-Divides : Divides (expand x) (expand y)
  large-Divides =
      divide-Divides (expand x) (expand y) left_stands.verified right_stands.verified some_digits

  -- A word, and the outcome of `Divide`.
  word-Yields :
      (r : ℤ) (o p : Outcome (Ending (Object fs.Double)))
      → is_int64 r ≡ true
      → o ≡ returning (return_mint fs checks r)
      → EndsIn r (finish (o orelse p))
  word-Yields r o p h e =
      rw e (integer_result r (return_mint fs checks r) next (mint-IsInteger fs.Double r r refl h))

  large-Yields :
      (l : LargeInteger) (d : Division) (o p : Outcome (Ending (Object fs.Double)))
      → IsVerified l
      → d ≡ result l
      → o ≡ return_division fs checks d
      → EndsIn (integer l) (finish (o orelse p))
  large-Yields l d o p h e f =
      rw (f, e)
        (integer_result (integer l) (return_lint fs checks l) next
          (lint-IsInteger fs.Double (integer l) l (record { verified = h; is = refl })))

  finish_next :
      (o : Outcome (Ending (Object fs.Double))) (v : ℤ)
      → EndsIn v (finish (o orelse next))
      → EndsIn v (finish o)
  finish_next next v h = h
  finish_next failure v h = h
  finish_next (done r) v h = h

  abbrev float_divided : Outcome (Object fs.Double)
  float_divided = float_arm fs checks (λ p q. float (fs.over p q)) (number x) (number y)

  restated :
      {q r : ℤ}
      → IsDivision (integer (expand x)) (integer (expand x)) (integer (expand y)) q r
      → IsDivision a a b q r
  restated d = rw (left_stands.is, right_stands.is) at d

  restated_down :
      {q r : ℤ}
      → IsDivision (integer (expand y)) (integer (expand x)) (integer (expand y)) q r
      → IsDivision b a b q r
  restated_down d = rw (left_stands.is, right_stands.is) at d

  -- What `Number_quo` and `Number_rem` yield, and with the same quotient `Number_divide`.
  abbrev pub Truncates : Type 0
  Truncates =
      (t : YieldsBoth a a b (number_quo fs checks (number x) (number y))
        (number_rem fs checks (number x) (number y)))
      × (number_divide fs checks (number x) (number y)
          ≡ (if is_zero t.r then number_quo fs checks (number x) (number y) else none))

  words_truncated : TakesWords fs checks x y → Truncates
  unfolding number_quo number_rem number_divide
  words_truncated w =
      let d = (divisions-are a b nz).0 in
      let fits = trunc_div-int64 a b w.left_fits w.quotient_fits in
      (
        record {
          q = trunc_div a b;
          r = trunc_mod a b;
          quotient_is = finish_next _ _ (
              word-Yields _ _ next fits (w.is (by_word fs checks trunc_div) truncated quotient tt));
          rest_is = finish_next _ _ (
              word-Yields _ _ next (smaller-int64 b _ w.right_fits d.smaller)
                (w.is (by_word fs checks trunc_mod) truncated remainder tt));
          division = d;
        },
        elim (Bool-cases (is_zero (trunc_mod a b))) [
          | inl z ↦
              rw
                (
                  w.is (divide_words fs checks) exact quotient (rw z tt),
                  w.is (by_word fs checks trunc_div) truncated quotient tt,
                  z,
                )
                refl
          | inr z ↦ rw (w.is (divide_words fs checks) exact quotient (rw z tt), z) refl
        ],
      )

  large_truncated : TakesLarge fs checks x y → Truncates
  unfolding number_quo number_rem number_divide
  large_truncated l =
      let (d, whole) = large-Divides in
      (
        record {
          q = integer d.q;
          r = integer d.r;
          quotient_is = finish_next _ _ (
              large-Yields d.q _ _ next d.q_verified d.quotient_is
                (l.is (by_word fs checks trunc_div) truncated quotient));
          rest_is = finish_next _ _ (
              large-Yields d.r _ _ next d.r_verified d.remainder_is
                (l.is (by_word fs checks trunc_mod) truncated remainder));
          division = restated d.division;
        },
        rw
            (
              l.is (divide_words fs checks) exact quotient,
              l.is (by_word fs checks trunc_div) truncated quotient,
              whole,
              d.quotient_is,
              zero-is_nil d.r d.r_verified,
            )
            (elim (Bool-cases (is_nil d.r.digits)) [ inl z ↦ rw z refl | inr z ↦ rw z refl ]),
      )

  -- `Number_div` and `Number_mod` return a quotient and a remainder in the smallest representation, of
  -- which the same holds, but that the remainder has the sign of the divisor or is 0; where one of the
  -- two integers is large, if the quotient can be rounded down.
  pub floored_quotients-are :
      IfLarge RoundsDown x y
      → YieldsBoth b a b
          (number_div fs checks (number x) (number y))
          (number_mod fs checks (number x) (number y))
  unfolding number_div number_mod
  floored_quotients-are room = elim (takes fs checks x y hx hy nz) [
    | inl w ↦
        let d = (divisions-are a b nz).1 in
        record {
          q = floor_div_word a b;
          r = floor_mod_word a b;
          quotient_is =
              word-Yields _ _ (returning (floor_arm fs checks (number x) (number y)))
                (floor_div-int64 a b w.left_fits nz w.quotient_fits)
                (w.is (by_word fs checks floor_div_word) floored quotient tt);
          rest_is = finish_next _ _ (
              word-Yields _ _ next (smaller-int64 b _ w.right_fits d.smaller)
                (w.is (by_word fs checks floor_mod_word) floored remainder tt));
          division = d;
        }
    | inr l ↦
        let d =
          divide-DividesDown (expand x) (expand y) left_stands.verified right_stands.verified
            some_digits (l.rounds room) in
        record {
          q = integer d.q;
          r = integer d.r;
          quotient_is =
              large-Yields d.q _ _ (returning (floor_arm fs checks (number x) (number y)))
                d.q_verified d.quotient_is
                (l.is (by_word fs checks floor_div_word) floored quotient);
          rest_is = finish_next _ _ (
              large-Yields d.r _ _ next d.r_verified d.remainder_is
                (l.is (by_word fs checks floor_mod_word) floored remainder));
          division = restated_down d.division;
        }
  ]

  -- By a divisor that is not 0, `Number_quo` and `Number_rem` of two integers, in any representation,
  -- return a quotient and a remainder in the smallest representation: the dividend is the product of
  -- the quotient and the divisor and the remainder, which is smaller than the divisor and has the sign
  -- of the dividend or is 0. `Number_divide` returns that quotient if the remainder is 0, and fails if
  -- not.
  pub truncated_quotients-are : Truncates
  truncated_quotients-are = elim (takes fs checks x y hx hy nz) [
    | inl w ↦ words_truncated w
    | inr l ↦ large_truncated l
  ]

module _ (fs : Floats) (checks : OverflowChecks) (x y : Number) (hy : IsNumber y)
    (zero_divisor : number_value y ≡ pos 0) where
  -- By 0, all five divisions of integers fail; none gets to `Divide`, which would end the process.
  pub divisions_by_zero :
      (number_divide fs checks (number x) (number y) ≡ none)
      × (number_div fs checks (number x) (number y) ≡ none)
      × (number_mod fs checks (number x) (number y) ≡ none)
      × (number_quo fs checks (number x) (number y) ≡ none)
      × (number_rem fs checks (number x) (number y) ≡ none)
  unfolding number_divide number_div number_mod number_quo number_rem
  divisions_by_zero = (
    rw (zero-fails fs checks x y (divide_words fs checks) exact quotient hy zero_divisor) refl,
    rw
        (zero-fails fs checks x y (by_word fs checks floor_div_word) floored quotient hy
          zero_divisor)
        refl,
    rw
        (zero-fails fs checks x y (by_word fs checks floor_mod_word) floored remainder hy
          zero_divisor)
        refl,
    rw (zero-fails fs checks x y (by_word fs checks trunc_div) truncated quotient hy zero_divisor)
        refl,
    rw (zero-fails fs checks x y (by_word fs checks trunc_mod) truncated remainder hy zero_divisor)
        refl,
  )
