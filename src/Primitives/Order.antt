-- ===== src/Primitives/Order.antt =====
-- The comparisons of `vm/primitives.cc` on integers.
use primordialsoup.Base.{zero, suc, ◌≡◌, refl, ap, ap₂, ◌∙◌, Bool, not, some, arith}
use primordialsoup.Base.Int.{eq_ℤ, ℤ, pos, negsuc, ltb_ℤ, ◌+ℤ◌}
use primordialsoup.Large.Signed.{compare, is_negative}
use primordialsoup.Large.Signed.Order.{Tellsℤ, compare-Tells}
use primordialsoup.Large.Number.{Number, number_value, expand, IsNumber}
use primordialsoup.Math.{OverflowChecks, is_zero}
use primordialsoup.Primitives.{
  Floats, Outcome, next, failure, done, ◌orelse◌, tag, is_positive, Object, number, float, boolean,
  other, finish, comparison, number_less, number_greater, number_less_or_equal,
  number_greater_or_equal, number_equal,
}
use primordialsoup.Primitives.Arms.{Meets, integer_arms-Meets}

tag-less : (a b : ℤ) → ltb_ℤ (tag a) (tag b) ≡ ltb_ℤ a b
unfolding ◌+ℤ◌
tag-less (pos a) (pos b) = ground arith
tag-less (pos a) (negsuc b) = ground arith
tag-less (negsuc a) (pos b) = ground arith
tag-less (negsuc a) (negsuc b) = ground arith

tag-equal : (a b : ℤ) → eq_ℤ (tag a) (tag b) ≡ eq_ℤ a b
unfolding eq_ℤ ◌+ℤ◌
tag-equal (pos a) (pos b) = ground arith
tag-equal (pos a) (negsuc b) = ground arith
tag-equal (negsuc a) (pos b) = ground arith
tag-equal (negsuc a) (negsuc b) = ground arith

-- What the sign of `Compare` says, as the tests on words say it.
less_sign : (c a b : ℤ) → Tellsℤ c a b → is_positive c ≡ ltb_ℤ a b
less_sign (pos zero) (pos a) (pos b) h = ground arith
less_sign (pos zero) (pos a) (negsuc b) h = ground arith
less_sign (pos zero) (negsuc a) (pos b) h = ground arith
less_sign (pos zero) (negsuc a) (negsuc b) h = ground arith
less_sign (pos (suc n)) (pos a) (pos b) h = ground arith
less_sign (pos (suc n)) (pos a) (negsuc b) h = ground arith
less_sign (pos (suc n)) (negsuc a) (pos b) h = ground arith
less_sign (pos (suc n)) (negsuc a) (negsuc b) h = ground arith
less_sign (negsuc n) (pos a) (pos b) h = ground arith
less_sign (negsuc n) (pos a) (negsuc b) h = ground arith
less_sign (negsuc n) (negsuc a) (pos b) h = ground arith
less_sign (negsuc n) (negsuc a) (negsuc b) h = ground arith

opposite : ℤ → ℤ
opposite (pos zero) = pos zero
opposite (pos (suc n)) = negsuc n
opposite (negsuc n) = pos (suc n)

opposite-Tells : (c a b : ℤ) → Tellsℤ c a b → Tellsℤ (opposite c) b a
unfolding opposite
opposite-Tells (pos zero) a b h = omega arith
opposite-Tells (pos (suc n)) a b h = omega arith
opposite-Tells (negsuc n) a b h = omega arith

opposite_sign : (c : ℤ) → is_negative c ≡ is_positive (opposite c)
unfolding opposite
opposite_sign (pos zero) = refl
opposite_sign (pos (suc n)) = refl
opposite_sign (negsuc n) = refl

greater_sign : (c a b : ℤ) → Tellsℤ c a b → is_negative c ≡ ltb_ℤ b a
greater_sign c a b h = opposite_sign c ∙ less_sign (opposite c) b a (opposite-Tells c a b h)

equal_sign : (c a b : ℤ) → Tellsℤ c a b → is_zero c ≡ eq_ℤ a b
unfolding eq_ℤ
equal_sign (pos zero) (pos a) (pos b) h = ground arith
equal_sign (pos zero) (pos a) (negsuc b) h = ground arith
equal_sign (pos zero) (negsuc a) (pos b) h = ground arith
equal_sign (pos zero) (negsuc a) (negsuc b) h = ground arith
equal_sign (pos (suc n)) (pos a) (pos b) h = ground arith
equal_sign (pos (suc n)) (pos a) (negsuc b) h = ground arith
equal_sign (pos (suc n)) (negsuc a) (pos b) h = ground arith
equal_sign (pos (suc n)) (negsuc a) (negsuc b) h = ground arith
equal_sign (negsuc n) (pos a) (pos b) h = ground arith
equal_sign (negsuc n) (pos a) (negsuc b) h = ground arith
equal_sign (negsuc n) (negsuc a) (pos b) h = ground arith
equal_sign (negsuc n) (negsuc a) (negsuc b) h = ground arith

abbrev IsBoolean : {D : Type 0} → Bool → Object D → Type 0
IsBoolean b (number n) = ⊥
IsBoolean b (float x) = ⊥
IsBoolean b (boolean c) = c ≡ b
IsBoolean b (other w) = ⊥

boolean_result :
    {D : Type 0} (b : Bool) (o p : Outcome (Object D))
    → Meets (IsBoolean b) o
    → finish (o orelse p) ≡ some (boolean b)
boolean_result b next p h = absurd h
boolean_result b failure p h = absurd h
boolean_result b (done (number n)) p h = absurd h
boolean_result b (done (float x)) p h = absurd h
boolean_result b (done (boolean c)) p h = ap (λ t. some (boolean t)) h
boolean_result b (done (other w)) p h = absurd h

module _ (fs : Floats) (checks : OverflowChecks) (test : ℤ → ℤ → Bool) (sign : ℤ → Bool)
    (tags : (a b : ℤ) → test (tag a) (tag b) ≡ test a b)
    (signs : (c a b : ℤ) → Tellsℤ c a b → sign c ≡ test a b) (x y : Number) (hx : IsNumber x)
    (hy : IsNumber y) (rest : Outcome (Object fs.Double)) where
  comparison-is :
      finish (comparison fs checks test sign (number x) (number y) orelse rest)
      ≡ some (boolean (test (number_value x) (number_value y)))
  comparison-is = boolean_result _ _ _ (
      integer_arms-Meets (IsBoolean (test (number_value x) (number_value y))) _ _ _ x y
        (record {
          smi_may = λ a b h k e f. tags a b ∙ ap₂ test e f;
          mint_may = λ a b h k e f. ap₂ test e f;
          lint_meets = λ l r.
              signs (compare (expand x) (expand y)) _ _
                (compare-Tells (expand x) (expand y) l.verified r.verified)
              ∙ ap₂ test l.is r.is;
        })
        hx hy)

module _ (fs : Floats) (checks : OverflowChecks) (x y : Number) (hx : IsNumber x)
    (hy : IsNumber y) where
  -- The five comparisons of two integers compare their values, whatever their representations.
  pub comparisons-are :
      (number_less fs checks (number x) (number y)
        ≡ some (boolean (ltb_ℤ (number_value x) (number_value y))))
      × (number_greater fs checks (number x) (number y)
          ≡ some (boolean (ltb_ℤ (number_value y) (number_value x))))
      × (number_less_or_equal fs checks (number x) (number y)
          ≡ some (boolean (not (ltb_ℤ (number_value y) (number_value x)))))
      × (number_greater_or_equal fs checks (number x) (number y)
          ≡ some (boolean (not (ltb_ℤ (number_value x) (number_value y)))))
      × (number_equal fs checks (number x) (number y)
          ≡ some (boolean (eq_ℤ (number_value x) (number_value y))))
  unfolding number_less number_greater number_less_or_equal number_greater_or_equal number_equal
  comparisons-are = (
    comparison-is fs checks ltb_ℤ is_positive tag-less less_sign x y hx hy _,
    comparison-is fs checks (λ a b. ltb_ℤ b a) is_negative (λ a b. tag-less b a) greater_sign x y hx
        hy _,
    comparison-is fs checks (λ a b. not (ltb_ℤ b a)) (λ c. not (is_negative c))
        (λ a b. ap not (tag-less b a)) (λ c a b h. ap not (greater_sign c a b h)) x y hx hy _,
    comparison-is fs checks (λ a b. not (ltb_ℤ a b)) (λ c. not (is_positive c))
        (λ a b. ap not (tag-less a b)) (λ c a b h. ap not (less_sign c a b h)) x y hx hy _,
    comparison-is fs checks eq_ℤ is_zero tag-equal equal_sign x y hx hy _,
  )
