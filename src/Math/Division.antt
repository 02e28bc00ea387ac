-- ===== src/Math/Division.antt =====
-- The divisions of `vm/math.h`.
use mathlib.Core.Path.{subst}
use native.Mathlib.Nat.{div-add-mod, mod-lt}
use primordialsoup.Base.{
  ℕ, zero, suc, ◌+◌, ◌-◌, ◌*◌, ◌/◌, ◌%◌, ◌<◌, ◌≡◌, ◌≢◌, refl, sym, ap, ◌∙◌, Bool, true, false, not,
  inl, inr, Bool-cases, arith, ℕ_discrete,
}
use primordialsoup.Base.Int.{ℤ, pos, negsuc, ◌+ℤ◌, ◌-ℤ◌}
use primordialsoup.Large.Signed.{signed, same, is_negative}
use primordialsoup.Large.Signed.Signs.{signed-add_less, signed-subtract}
use primordialsoup.Large.Divide.Spec.{
  IsDivision, signed_zero, signed_sign, same_sign, opposite, truncated-IsDivision,
  floored_other-IsDivision,
}
use primordialsoup.Math.{
  absolute_value, is_zero, trunc_div, trunc_mod, floor_div_word, floor_mod_word,
}

signed_parts : (a : ℤ) → signed (is_negative a) (absolute_value a) ≡ a
signed_parts (pos n) = ap pos (omega arith)
signed_parts (negsuc n) = ground arith

nonzero : (a : ℤ) → a ≢ pos 0 → 0 < absolute_value a
nonzero (pos zero) h = absurd (h refl)
nonzero (pos (suc n)) h = omega arith
nonzero (negsuc n) h = omega arith

some_left : (b : Bool) (n : ℕ) → 0 < n → is_zero (signed b n) ≡ false
some_left b zero h = absurd (omega arith)
some_left true (suc n) h = ground arith
some_left false (suc n) h = refl

restated :
    {b c a d q p r s : ℤ}
    → b ≡ c
    → a ≡ d
    → q ≡ p
    → r ≡ s
    → IsDivision b a b q r
    → IsDivision c d c p s
restated {b} {c} {a} {d} {q} {p} {r} {s} eb ea eq er h =
    subst (λ (x : ℤ). IsDivision x d x p s) eb
      (subst (λ (x : ℤ). IsDivision b x b p s) ea
        (subst (λ (x : ℤ). IsDivision b a b x s) eq (subst (λ (x : ℤ). IsDivision b a b q x) er h)))

module _ (a b : ℤ) (some_b : b ≢ pos 0) where
  quotient_of : ℕ
  quotient_of = absolute_value a / absolute_value b

  rest : ℕ
  rest = absolute_value a % absolute_value b

  is : absolute_value a ≡ absolute_value b * quotient_of + rest
  unfolding quotient_of rest
  is = sym (div-add-mod (absolute_value a) (absolute_value b))

  less : rest < absolute_value b
  unfolding rest
  less = mod-lt (absolute_value a) (nonzero b some_b)

  truncates : IsDivision a a b (trunc_div a b) (trunc_mod a b)
  unfolding trunc_div trunc_mod quotient_of rest
  truncates =
      subst (λ (y : ℤ). IsDivision a a y (trunc_div a b) (trunc_mod a b)) (signed_parts b)
        (subst
          (λ (x : ℤ).
            IsDivision x x (signed (is_negative b) (absolute_value b)) (trunc_div a b)
              (trunc_mod a b))
          (signed_parts a)
          (truncated-IsDivision (is_negative a) (is_negative b) (absolute_value a)
            (absolute_value b) quotient_of rest is less))

  floors_other :
      same (is_negative a) (is_negative b) ≡ false
      → 0 < rest
      → IsDivision b a b (trunc_div a b -ℤ pos 1) (trunc_mod a b +ℤ b)
  unfolding trunc_div trunc_mod quotient_of rest
  floors_other s some_r =
      let signs = opposite (is_negative a) (is_negative b) s in
      let q : signed true (quotient_of + 1) ≡ trunc_div a b -ℤ pos 1 =
        signed-subtract true quotient_of 1
        ∙ ap (λ (c : Bool). signed (not c) quotient_of -ℤ pos 1) (sym s) in
      let r : signed (is_negative b) (absolute_value b - rest) ≡ trunc_mod a b +ℤ b =
        ap (λ (c : Bool). signed c (absolute_value b - rest)) (sym signs.1)
        ∙ signed-add_less (is_negative a) rest (absolute_value b) (omega (arith, less))
        ∙ ap (λ (c : Bool). trunc_mod a b +ℤ signed c (absolute_value b)) signs.1
        ∙ ap (λ (t : ℤ). trunc_mod a b +ℤ t) (signed_parts b) in
      let signs_kept =
        floored_other-IsDivision (is_negative a) (is_negative b) (absolute_value a)
          (absolute_value b) quotient_of rest is less s some_r in
      restated (signed_parts b) (signed_parts a) q r signs_kept

  rest_is_zero : rest ≡ 0 → trunc_mod a b ≡ pos 0
  unfolding trunc_mod rest
  rest_is_zero z = ap (signed (is_negative a)) z ∙ signed_zero (is_negative a)

  rest_is_left :
      0 < rest → (is_zero (trunc_mod a b) ≡ false) × (is_negative (trunc_mod a b) ≡ is_negative a)
  unfolding trunc_mod rest
  rest_is_left h = (some_left (is_negative a) rest h, signed_sign (is_negative a) rest h)

  floors : IsDivision b a b (floor_div_word a b) (floor_mod_word a b)
  unfolding floor_div_word floor_mod_word
  floors = elim (ℕ_discrete rest 0) [
    | yes z ↦
        let r = rest_is_zero z in
        rw (ap is_zero r) (record { is = truncates.is; smaller = truncates.smaller; sign = inl r })
    | no nz ↦
        let (left, sign) = rest_is_left (omega arith) in
        elim (Bool-cases (same (is_negative a) (is_negative b))) [
          | inl s ↦
              rw (left, sign, s)
                (record {
                  is = truncates.is;
                  smaller = truncates.smaller;
                  sign = inr (sign ∙ same_sign (is_negative a) (is_negative b) s);
                })
          | inr s ↦ rw (left, sign, s) (floors_other s (omega arith))
        ]
  ]

  -- The four functions on integers of any size, by a divisor that is not 0.
  pub divisions-are :
      IsDivision a a b (trunc_div a b) (trunc_mod a b)
      × IsDivision b a b (floor_div_word a b) (floor_mod_word a b)
  divisions-are = (truncates, floors)
