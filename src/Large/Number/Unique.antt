-- ===== src/Large/Number/Unique.antt =====
-- The smallest representation of an integer is unique, so that `Reduce` undoes `Expand`.
use primordialsoup.Base.{
  ℕ, ◌-◌, ◌≤◌, ◌≡◌, refl, sym, ap, ap₂, ◌∙◌, Bool, true, false, List, [], ◌∷◌, arith,
}
use primordialsoup.Base.Int.{pos, negsuc}
use primordialsoup.Large.Digits.{value, IsDigits, IsClamped, IsClamped-pos, IsClamped-tail}
use primordialsoup.Large.Signed.{LargeInteger, IsVerified, signed}
use primordialsoup.Large.Bitwise.Cases.{nonzero, negative_is}
use primordialsoup.Large.Number.{
  Number, small, medium, large, number_value, is_smi, is_int64, expand, reduce, IsNumber,
  IsCanonical,
}
use primordialsoup.Large.Number.Expand.{expand-StandsFor, smi-int64}
use primordialsoup.Large.Number.Reduce.{reduce-Canonical}

value_unique :
    (ds es : List ℕ)
    → IsDigits ds
    → IsDigits es
    → IsClamped ds
    → IsClamped es
    → value ds ≡ value es
    → ds ≡ es
value_unique [] [] h k c t e = refl
value_unique [] (y ∷ ys) h k c t e = absurd (omega (arith, IsClamped-pos y ys t))
value_unique (x ∷ xs) [] h k c t e = absurd (omega (arith, IsClamped-pos x xs c))
value_unique (x ∷ xs) (y ∷ ys) h k c t e =
    let low : x ≡ y = omega (arith, h.0, k.0) in
    let high : value xs ≡ value ys = omega (arith, h.0, k.0) in
    ap₂ (λ (a : ℕ) (b : List ℕ). a ∷ b) low
      (value_unique xs ys h.1 k.1 (IsClamped-tail x xs c) (IsClamped-tail y ys t) high)

pos-inj : (a b : ℕ) → pos a ≡ pos b → a ≡ b
pos-inj a b e = cc

signs_differ : (v w : ℕ) → 1 ≤ v → signed true v ≡ pos w → ⊥
signs_differ v w h e = contra (v - 1) (sym (negative_is v h) ∙ e)
  where
    contra : (n : ℕ) → negsuc n ≡ pos w → ⊥
    contra n k = cc

negative_inj : (v w : ℕ) → 1 ≤ v → 1 ≤ w → signed true v ≡ signed true w → v ≡ w
negative_inj v w h k e =
    let p : v - 1 ≡ w - 1 = inj (v - 1) (w - 1) (sym (negative_is v h) ∙ e ∙ negative_is w k) in
    omega arith
  where
    inj : (a b : ℕ) → negsuc a ≡ negsuc b → a ≡ b
    inj a b z = cc

-- The value and `Verify` determine the sign and the digits.
large_unique :
    (bl br : Bool) (ls rs : List ℕ)
    → IsVerified (record { negative = bl; digits = ls })
    → IsVerified (record { negative = br; digits = rs })
    → signed bl (value ls) ≡ signed br (value rs)
    → Path LargeInteger
        (record { negative = bl; digits = ls })
        (record { negative = br; digits = rs })
large_unique true true ls rs h k e =
    ap (λ (t : List ℕ). record { negative = true; digits = t })
      (value_unique ls rs h.in_range k.in_range h.top k.top
        (negative_inj (value ls) (value rs) (nonzero ls h) (nonzero rs k) e))
large_unique false false ls rs h k e =
    ap (λ (t : List ℕ). record { negative = false; digits = t })
      (value_unique ls rs h.in_range k.in_range h.top k.top (pos-inj _ _ e))
large_unique true false ls rs h k e = absurd (signs_differ (value ls) (value rs) (nonzero ls h) e)
large_unique false true ls rs h k e =
    absurd (signs_differ (value rs) (value ls) (nonzero rs k) (sym e))

both : {b : Bool} → b ≡ true → b ≡ false → ⊥
both h k = cc

-- A representation of the same integer in another form would be out of range.
canonical_unique :
    (a b : Number) → IsCanonical a → IsCanonical b → number_value a ≡ number_value b → a ≡ b
unfolding IsCanonical
canonical_unique (small v) (small w) h k e = ap small e
canonical_unique (small v) (medium w) h k e = absurd (both h (ap is_smi e ∙ k.0))
canonical_unique (small v) (large l) h k e = absurd (both (smi-int64 v h) (ap is_int64 e ∙ k.1))
canonical_unique (medium v) (small w) h k e = absurd (both k (ap is_smi (sym e) ∙ h.0))
canonical_unique (medium v) (medium w) h k e = ap medium e
canonical_unique (medium v) (large l) h k e = absurd (both h.1 (ap is_int64 e ∙ k.1))
canonical_unique (large l) (small w) h k e =
    absurd (both (smi-int64 w k) (ap is_int64 (sym e) ∙ h.1))
canonical_unique (large l) (medium w) h k e = absurd (both k.1 (ap is_int64 (sym e) ∙ h.1))
canonical_unique (large l) (large m) h k e =
    ap large (large_unique l.negative m.negative l.digits m.digits h.0 k.0 e)

canonical-IsNumber : (n : Number) → IsCanonical n → IsNumber n
unfolding IsCanonical IsNumber
canonical-IsNumber (small v) h = h
canonical-IsNumber (medium v) h = h.1
canonical-IsNumber (large l) h = h.0

-- `Reduce` of what `Expand` yields for an integer in its smallest representation is that representation.
pub reduce-expand : (n : Number) → IsCanonical n → reduce (expand n) ≡ n
reduce-expand n h =
    let wide = expand-StandsFor n (canonical-IsNumber n h) in
    let (is, canonical) = reduce-Canonical (expand n) wide.verified in
    canonical_unique (reduce (expand n)) n canonical h (is ∙ wide.is)
