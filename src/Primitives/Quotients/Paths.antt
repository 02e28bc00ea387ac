-- ===== src/Primitives/Quotients/Paths.antt =====
-- Which arm of a division two integers take.
use native.Mathlib.Nat.{mod-one}
use primordialsoup.Base.{
  true-false, ℕ, zero, suc, ◌%◌, ◌≡◌, ◌≢◌, refl, sym, ap, ◌∙◌, Bool, true, false, ◌⊎◌, inl, inr,
  List, [], ◌∷◌, Bool-cases, arith,
}
use primordialsoup.Base.Int.{eq_ℤ, ℤ, pos, negsuc}
use primordialsoup.Large.Digits.{value, IsClamped, IsClamped-pos}
use primordialsoup.Large.Signed.{LargeInteger, integer, signed, IsVerified}
use primordialsoup.Large.Number.{
  Number, small, medium, large, number_value, is_smi, is_int64, expand, IsNumber,
}
use primordialsoup.Large.Number.Expand.{expand-StandsFor, smi-int64}
use primordialsoup.Large.Divide.{Rounding, Wanted, is_nil, divide}
use primordialsoup.Large.Divide.Spec.{absolute, signed-absolute, signed_zero}
use primordialsoup.Large.Divide.Cases.{RoundsDown}
use primordialsoup.Math.{quotient_overflows, OverflowChecks, is_zero}
use primordialsoup.Primitives.{
  Floats, Outcome, next, failure, done, ◌orelse◌, Object, number, integer_arms,
}
use primordialsoup.Primitives.Bits.{IfLarge}
use primordialsoup.Primitives.Quotients.{
  Ending, returning, return_division, division_arms, mint_division, lint_division,
}

pub zero-nil : (l : LargeInteger) → IsVerified l → integer l ≡ pos 0 → is_nil l.digits ≡ true
zero-nil l h e =
    none_left l.digits h.top (sym (signed-absolute l.negative (value l.digits)) ∙ ap absolute e)
  where
    none_left : (ds : List ℕ) → IsClamped ds → value ds ≡ 0 → is_nil ds ≡ true
    none_left [] c z = refl
    none_left (d ∷ ds) c z = let p = IsClamped-pos d ds c in absurd (omega (arith, p, z))

pub nonzero-nil : (l : LargeInteger) → integer l ≢ pos 0 → is_nil l.digits ≡ false
nonzero-nil l nz = some_left l.negative l.digits nz
  where
    some_left : (b : Bool) (ds : List ℕ) → signed b (value ds) ≢ pos 0 → is_nil ds ≡ false
    some_left b [] nz = absurd (nz (signed_zero b))
    some_left b (d ∷ ds) nz = refl

is_zero-true : (r : ℤ) → is_zero r ≡ true → r ≡ pos 0
is_zero-true (pos zero) h = refl
is_zero-true (pos (suc n)) h = absurd (true-false (sym h))
is_zero-true (negsuc n) h = absurd (true-false (sym h))

pub zero-is_nil : (l : LargeInteger) → IsVerified l → is_zero (integer l) ≡ is_nil l.digits
zero-is_nil l h = elim (Bool-cases (is_zero (integer l))) [
  | inl z ↦ z ∙ sym (zero-nil l h (is_zero-true (integer l) z))
  | inr z ↦ z ∙ sym (nonzero-nil l (λ e. true-false (sym (ap is_zero e) ∙ z)))
]

is_zero-false : (b : ℤ) → b ≢ pos 0 → is_zero b ≡ false
is_zero-false (pos zero) nz = absurd (nz refl)
is_zero-false (pos (suc n)) nz = refl
is_zero-false (negsuc n) nz = refl

smi-overflows : (a b : ℤ) → is_smi a ≡ true → quotient_overflows a b ≡ false
unfolding is_smi eq_ℤ
smi-overflows (pos a) (pos b) h = refl
smi-overflows (negsuc a) (pos b) h = refl
smi-overflows (pos a) (negsuc b) h = ground arith
smi-overflows (negsuc a) (negsuc b) h = ground arith

-- The divisor of the quotient that is no word is -1.
overflows-minus_one : (a b : ℤ) → quotient_overflows a b ≡ true → absolute b ≡ 1
unfolding eq_ℤ
overflows-minus_one a (pos b) h = absurd (true-false (sym h))
overflows-minus_one a (negsuc zero) h = refl
overflows-minus_one a (negsuc (suc b)) h = ground arith

exact_rounds : (l r : LargeInteger) → value r.digits ≡ 1 → RoundsDown l r
exact_rounds l r one le s nz =
    absurd (nz (ap (λ (t : ℕ). value l.digits % t) one ∙ mod-one (value l.digits)))

-- An outcome that does not fall through.
abbrev pub Decides : {A : Type 0} → Outcome A → Type 0
Decides next = ⊥
Decides failure = Unit {0}
Decides (done a) = Unit {0}

decided :
    {A : Type 0} (o : Outcome A) (p : Outcome (Ending A))
    → Decides o
    → (returning o orelse p) ≡ returning o
decided next p h = absurd h
decided failure p h = refl
decided (done a) p h = refl

module _ (fs : Floats) (checks : OverflowChecks) (x y : Number) where
  abbrev pub arms :
      (ℤ → ℤ → Outcome (Object fs.Double)) → Rounding → Wanted → Outcome (Ending (Object fs.Double))
  arms op rounding wanted = division_arms fs checks op rounding wanted (number x) (number y)

  -- The operation on words decides.
  pub record TakesWords : Type 0 where
    pub left_fits : is_int64 (number_value x) ≡ true
    pub right_fits : is_int64 (number_value y) ≡ true
    pub quotient_fits : quotient_overflows (number_value x) (number_value y) ≡ false
    pub is :
        (op : ℤ → ℤ → Outcome (Object fs.Double)) (rounding : Rounding) (wanted : Wanted)
        → Decides (op (number_value x) (number_value y))
        → arms op rounding wanted ≡ returning (op (number_value x) (number_value y))

  -- `Divide` does.
  pub record TakesLarge : Type 0 where
    pub rounds : IfLarge RoundsDown x y → RoundsDown (expand x) (expand y)
    pub is :
        (op : ℤ → ℤ → Outcome (Object fs.Double)) (rounding : Rounding) (wanted : Wanted)
        → arms op rounding wanted
          ≡ return_division fs checks (divide rounding wanted (expand x) (expand y))

  to_large :
      (op : ℤ → ℤ → Outcome (Object fs.Double)) (rounding : Rounding) (wanted : Wanted)
      → IsNumber y
      → number_value y ≢ pos 0
      → lint_division fs checks op rounding wanted (expand x) (expand y)
        ≡ return_division fs checks (divide rounding wanted (expand x) (expand y))
  to_large op rounding wanted h nz =
      rw (nonzero-nil (expand y) (λ e. nz (sym (expand-StandsFor y h).is ∙ e))) refl

  -- Two words that are not both small.
  take_mints :
      is_int64 (number_value x) ≡ true
      → is_int64 (number_value y) ≡ true
      → IsNumber y
      → number_value y ≢ pos 0
      → ((op : ℤ → ℤ → Outcome (Object fs.Double)) (rounding : Rounding) (wanted : Wanted)
          → arms op rounding wanted ≡ (
              mint_division fs checks op rounding wanted (number_value x) (number_value y)
              orelse lint_division fs checks op rounding wanted (expand x) (expand y)))
      → TakesWords ⊎ TakesLarge
  take_mints hx hy h nz e =
      elim (Bool-cases (quotient_overflows (number_value x) (number_value y))) [
        | inr o ↦ inl (record {
          left_fits = hx;
          right_fits = hy;
          quotient_fits = o;
          is = λ op rounding wanted d.
              e op rounding wanted ∙ rw (is_zero-false (number_value y) nz, o) (decided _ _ d);
        })
        | inl o ↦ inr (record {
          rounds = λ r. exact_rounds (expand x) (expand y) (
              sym (signed-absolute (expand y).negative (value (expand y).digits))
              ∙ ap absolute (expand-StandsFor y h).is
              ∙ overflows-minus_one (number_value x) (number_value y) o);
          is = λ op rounding wanted.
              e op rounding wanted
              ∙ rw (is_zero-false (number_value y) nz, o) (to_large op rounding wanted h nz);
        })
      ]

  take_large :
      IsNumber y
      → number_value y ≢ pos 0
      → (IfLarge RoundsDown x y → RoundsDown (expand x) (expand y))
      → ((op : ℤ → ℤ → Outcome (Object fs.Double)) (rounding : Rounding) (wanted : Wanted)
          → arms op rounding wanted
            ≡ lint_division fs checks op rounding wanted (expand x) (expand y))
      → TakesWords ⊎ TakesLarge
  take_large h nz r e = inr (record {
    rounds = r;
    is = λ op rounding wanted. e op rounding wanted ∙ to_large op rounding wanted h nz;
  })

module _ (fs : Floats) (checks : OverflowChecks) where
  pub takes :
      (x y : Number)
      → IsNumber x
      → IsNumber y
      → number_value y ≢ pos 0
      → TakesWords fs checks x y ⊎ TakesLarge fs checks x y
  unfolding integer_arms IsNumber expand
  takes (small a) (small b) h k nz = inl (record {
    left_fits = smi-int64 a h;
    right_fits = smi-int64 b k;
    quotient_fits = smi-overflows a b h;
    is = λ op rounding wanted d. rw (is_zero-false b nz) (decided _ _ d);
  })
  takes (small a) (medium b) h k nz =
      take_mints fs checks (small a) (medium b) (smi-int64 a h) k k nz (λ op r w. refl)
  takes (medium a) (small b) h k nz =
      take_mints fs checks (medium a) (small b) h (smi-int64 b k) k nz (λ op r w. refl)
  takes (medium a) (medium b) h k nz =
      take_mints fs checks (medium a) (medium b) h k k nz (λ op r w. refl)
  takes (small a) (large r) h k nz =
      take_large fs checks (small a) (large r) k nz (λ f. f) (λ op r w. refl)
  takes (medium a) (large r) h k nz =
      take_large fs checks (medium a) (large r) k nz (λ f. f) (λ op r w. refl)
  takes (large l) y h k nz = take_large fs checks (large l) y k nz (λ f. f) (λ op r w. refl)

  nil_of_zero : (y : Number) → IsNumber y → number_value y ≡ pos 0 → is_nil (expand y).digits ≡ true
  nil_of_zero y k z = let s = expand-StandsFor y k in zero-nil (expand y) s.verified (s.is ∙ z)

  pub zero-fails :
      (x y : Number) (op : ℤ → ℤ → Outcome (Object fs.Double)) (rounding : Rounding)
      (wanted : Wanted)
      → IsNumber y
      → number_value y ≡ pos 0
      → arms fs checks x y op rounding wanted ≡ failure
  unfolding integer_arms
  zero-fails (small a) (small b) op rounding wanted k z = rw (ap is_zero z) refl
  zero-fails (small a) (medium b) op rounding wanted k z = rw (ap is_zero z) refl
  zero-fails (medium a) (small b) op rounding wanted k z = rw (ap is_zero z) refl
  zero-fails (medium a) (medium b) op rounding wanted k z = rw (ap is_zero z) refl
  zero-fails (small a) (large r) op rounding wanted k z = rw (nil_of_zero (large r) k z) refl
  zero-fails (medium a) (large r) op rounding wanted k z = rw (nil_of_zero (large r) k z) refl
  zero-fails (large l) y op rounding wanted k z = rw (nil_of_zero y k z) refl
