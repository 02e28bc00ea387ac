-- ===== src/Large/Divide/Spec.antt =====
-- What a division is to yield, and what it takes on absolute values.
use native.Mathlib.Nat.{mul-add}
use primordialsoup.Base.{
  ℕ, zero, suc, ◌+◌, ◌-◌, ◌*◌, ◌<◌, ◌≡◌, refl, sym, ap, ap₂, ◌∙◌, Bool, true, false, not, ◌⊎◌, inl,
  inr, arith, ℕ_discrete,
}
use primordialsoup.Base.Int.{ℤ, pos, ◌+ℤ◌, ◌*ℤ◌, pos_part, neg_part}
use primordialsoup.Large.Signed.{LargeInteger, integer, signed, same, is_negative, IsVerified}
use primordialsoup.Large.Divide.{Division, result, Rounding, Wanted, quotient, remainder}
use primordialsoup.Large.Signed.Signs.{signed-add, signed-add_more, signed-multiply}

abbrev pub absolute : ℤ → ℕ
absolute a = pos_part a + neg_part a

-- `a` is `b` times `q` and `r`, which is smaller than `b` and has the sign of `like` or is 0.
pub record IsDivision (like a b q r : ℤ) : Type 0 where
  pub is : a ≡ b *ℤ q +ℤ r
  pub smaller : absolute r < absolute b
  pub sign : (r ≡ pos 0) ⊎ (is_negative r ≡ is_negative like)

pub signed-absolute : (b : Bool) (n : ℕ) → absolute (signed b n) ≡ n
signed-absolute true n = ground arith
signed-absolute false n = omega arith

pub signed_sign : (b : Bool) (n : ℕ) → 0 < n → is_negative (signed b n) ≡ b
signed_sign true zero h = absurd (omega arith)
signed_sign true (suc n) h = ground arith
signed_sign false n h = refl

sign_or_zero : (b : Bool) (n : ℕ) → (signed b n ≡ pos 0) ⊎ (is_negative (signed b n) ≡ b)
sign_or_zero true zero = inl refl
sign_or_zero false zero = inl refl
sign_or_zero b (suc n) = inr (signed_sign b (suc n) (omega arith))

back : (b c : Bool) → not (same c (not (same b c))) ≡ b
back true true = refl
back true false = refl
back false true = refl
back false false = refl

pub signed_zero : (b : Bool) → signed b 0 ≡ pos 0
signed_zero true = refl
signed_zero false = refl

pub same_sign : (b c : Bool) → same b c ≡ true → b ≡ c
same_sign true true h = refl
same_sign true false h = sym h
same_sign false true h = h
same_sign false false h = refl

pub opposite : (b c : Bool) → same b c ≡ false → (not (same c true) ≡ b) × (not b ≡ c)
opposite true true h = (sym h, sym h)
opposite true false h = (refl, refl)
opposite false true h = (refl, refl)
opposite false false h = (h, h)

module _ (na nb : Bool) (v d q r : ℕ) (e : v ≡ d * q + r) (h : r < d) where
  times : (c : Bool) (k : ℕ) → not (same nb c) ≡ na → signed nb d *ℤ signed c k ≡ signed na (d * k)
  times c k f = sym (signed-multiply nb c d k) ∙ ap (λ (b : Bool). signed b (d * k)) f

  -- The sign of the remainder is that of the dividend.
  pub truncated-IsDivision :
      IsDivision
        (signed na v)
        (signed na v)
        (signed nb d)
        (signed (not (same na nb)) q)
        (signed na r)
  truncated-IsDivision = record {
    is =
        ap (signed na) e
        ∙ signed-add na (d * q) r
        ∙ ap (λ (t : ℤ). t +ℤ signed na r) (sym (times (not (same na nb)) q (back na nb)));
    smaller = rw (signed-absolute na r, signed-absolute nb d) h;
    sign = elim (ℕ_discrete r 0) [
      | yes z ↦ inl (rw z (signed_zero na))
      | no nz ↦ inr (signed_sign na r (omega arith) ∙ sym (signed_sign na v (omega arith)))
    ];
  }

  -- The sign of the remainder is that of the divisor, if the signs are the same
  pub floored_same-IsDivision :
      same na nb ≡ true
      → IsDivision
          (signed nb d)
          (signed na v)
          (signed nb d)
          (signed (not (same na nb)) q)
          (signed nb r)
  floored_same-IsDivision s = record {
    is =
        truncated-IsDivision.is
        ∙ ap (λ (b : Bool). signed nb d *ℤ signed (not (same na nb)) q +ℤ signed b r)
            (same_sign na nb s);
    smaller = rw (signed-absolute nb r, signed-absolute nb d) h;
    sign = elim (ℕ_discrete r 0) [
      | yes z ↦ inl (rw z (signed_zero nb))
      | no nz ↦ inr (signed_sign nb r (omega arith) ∙ sym (signed_sign nb d (omega arith)))
    ];
  }

  -- or the quotient is rounded.
  pub floored_other-IsDivision :
      same na nb ≡ false
      → 0 < r
      → IsDivision
          (signed nb d)
          (signed na v)
          (signed nb d)
          (signed true (q + 1))
          (signed nb (d - r))
  floored_other-IsDivision s some_r = record {
    is =
        ap (signed na) (let f : v ≡ d * (q + 1) - (d - r) = omega (arith, e, mul-add d q 1) in f)
        ∙ signed-add_more na (d * (q + 1)) (d - r) (omega (arith, mul-add d q 1))
        ∙ ap₂ ◌+ℤ◌ (sym (times true (q + 1) (opposite na nb s).0))
            (ap (λ (b : Bool). signed b (d - r)) (opposite na nb s).1);
    smaller = rw (signed-absolute nb (d - r), signed-absolute nb d) (omega arith);
    sign = inr (signed_sign nb (d - r) (omega arith) ∙ sym (signed_sign nb d (omega arith)));
  }

-- A division that yields a quotient and a remainder, which are verified.
pub record Divided (outcome : Rounding → Wanted → Division) (op : Rounding) (like a b : ℤ)
    : Type 0 where
  pub q : LargeInteger
  pub r : LargeInteger
  pub quotient_is : outcome op quotient ≡ result q
  pub remainder_is : outcome op remainder ≡ result r
  pub q_verified : IsVerified q
  pub r_verified : IsVerified r
  pub division : IsDivision like a b (integer q) (integer r)
