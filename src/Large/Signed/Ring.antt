-- ===== src/Large/Signed/Ring.antt =====
-- `Clamp`, `Add`, `Subtract` and `Multiply` on verified integers: the results are verified, and stand
-- for the sum, the difference and the product.
use primordialsoup.Base.{
  ℕ, ◌+◌, ◌-◌, ◌*◌, ◌≤◌, ◌<◌, ◌≡◌, refl, ap, Bool, true, false, not, List, [], ◌∷◌, arith, length,
  leb, inl, inr, Bool-cases, leb→le, if◌then◌else◌, ◌∙◌,
}
use primordialsoup.Large.Digits.{
  value, IsDigits, IsClamped, trim, value-trim, trim-IsDigits, trim-IsClamped, value-lt_of_length,
}
use primordialsoup.Large.Sum.{value-add_digits, value-subtract_digits}
use primordialsoup.Large.Product.{value-multiply_digits}
use primordialsoup.Large.Signed.{
  LargeInteger, integer, IsVerified, SignOf, clamp, clamped_sign, add, subtract, multiply, signed,
  abs_greater, add_absolutes_with_sign, subtract_absolutes_with_sign, multiply_absolutes_with_sign,
}
use primordialsoup.Base.Int.{ℤ, ◌+ℤ◌, ◌-ℤ◌, ◌*ℤ◌}
use primordialsoup.Large.Signed.Signs.{
  signed-add, signed-subtract, signed-add_more, signed-add_less, signed-subtract_more,
  signed-subtract_less, signed-multiply,
}
use primordialsoup.Large.Signed.Order.{abs_greater_lem}

leb-false : (a b : ℕ) → leb a b ≡ false → b ≤ a
leb-false a b h = ground arith

not-lt-le : (a b : ℕ) → (a < b → ⊥) → b ≤ a
not-lt-le a b h = ground arith

absurd-lt : {a b : ℕ} → a < b → b ≤ a → ⊥
absurd-lt h k = omega arith

-- `result` is verified and stands for `n` with the sign `negative`.
pub record Stands (negative : Bool) (n : ℕ) (result : LargeInteger) : Type 0 where
  pub verified : IsVerified result
  pub is : integer result ≡ signed negative n

signed-clamped_sign :
    (b : Bool) (ds : List ℕ) → signed (clamped_sign b ds) (value ds) ≡ signed b (value ds)
signed-clamped_sign true [] = refl
signed-clamped_sign false [] = refl
signed-clamped_sign b (d ∷ ds) = refl

clamped_sign-SignOf : (b : Bool) (ds : List ℕ) → SignOf (clamped_sign b ds) ds
clamped_sign-SignOf b [] = refl
clamped_sign-SignOf b (d ∷ ds) = tt

-- `Clamp` makes any digits verified, and keeps the number.
pub clamp-Stands : (b : Bool) (ds : List ℕ) → IsDigits ds → Stands b (value ds) (clamp b ds)
unfolding clamp
clamp-Stands b ds h = record {
  verified = record {
    in_range = trim-IsDigits ds h;
    top = trim-IsClamped ds;
    sign = clamped_sign-SignOf b (trim ds);
  };
  is = signed-clamped_sign b (trim ds) ∙ ap (signed b) (value-trim ds);
}

pub Stands-eq :
    {b : Bool} (m n : ℕ) (result : LargeInteger) → m ≡ n → Stands b m result → Stands b n result
Stands-eq {b} m n result e h = record { verified = h.verified; is = h.is ∙ ap (signed b) e }

clamped_sign-pos : (b : Bool) (ds : List ℕ) → 0 < value ds → clamped_sign b ds ≡ b
clamped_sign-pos b [] h = absurd (omega arith)
clamped_sign-pos b (d ∷ ds) h = refl

-- A number that is not 0 keeps its sign, and its digits its value.
pub clamp-pos :
    (b : Bool) (ds : List ℕ)
    → 0 < value ds
    → ((clamp b ds).negative ≡ b) × (value (clamp b ds).digits ≡ value ds)
unfolding clamp
clamp-pos b ds h = (clamped_sign-pos b (trim ds) (rw (value-trim ds) h), value-trim ds)

module _ (ls rs : List ℕ) (hl : IsDigits ls) (hr : IsDigits rs) (b : Bool) where
  -- `AddAbsolutesWithSign` adds the absolute values.
  pub add_absolutes-Stands : Stands b (value ls + value rs) (add_absolutes_with_sign ls rs b)
  unfolding add_absolutes_with_sign
  add_absolutes-Stands = elim (Bool-cases (leb (length ls) (length rs))) [
    | inl e ↦
        let sum = value-add_digits 0 ls rs (omega arith) (leb→le _ _ e) hl hr in
        rw e (Stands-eq _ _ _ (omega (arith, sum.0)) (clamp-Stands b _ sum.1))
    | inr e ↦
        let sum = value-add_digits 0 rs ls (omega arith) (leb-false _ _ e) hr hl in
        rw e (Stands-eq _ _ _ (omega (arith, sum.0)) (clamp-Stands b _ sum.1))
  ]

  -- `SubtractAbsolutesWithSign` subtracts them, if the left one is not the smaller.
  pub subtract_absolutes-Stands :
      IsClamped rs
      → value rs ≤ value ls
      → Stands b (value ls - value rs) (subtract_absolutes_with_sign ls rs b)
  unfolding subtract_absolutes_with_sign
  subtract_absolutes-Stands c le =
      let fits =
        not-lt-le (length ls) (length rs) (λ h. absurd-lt (value-lt_of_length ls rs hl c h) le) in
      let all = value-subtract_digits 0 ls rs (omega arith) fits (omega arith) hl hr in
      Stands-eq _ _ _ (omega (arith, all.0)) (clamp-Stands b _ all.1)

  pub multiply_absolutes-Stands :
      Stands b (value ls * value rs) (multiply_absolutes_with_sign ls rs b)
  unfolding multiply_absolutes_with_sign
  multiply_absolutes-Stands =
      let product = value-multiply_digits ls rs hl hr in
      Stands-eq _ _ _ product.0 (clamp-Stands b _ product.1)

-- The result is verified, and stands for the integer `n`.
pub record StandsFor (n : ℤ) (result : LargeInteger) : Type 0 where
  pub verified : IsVerified result
  pub is : integer result ≡ n

pub to_StandsFor :
    {b : Bool} {n : ℕ} {z : ℤ} (result : LargeInteger)
    → signed b n ≡ z
    → Stands b n result
    → StandsFor z result
to_StandsFor result e h = record { verified = h.verified; is = h.is ∙ e }

-- Where the signs differ, `Add` and `Subtract` take the smaller number from the larger.
module _ (ls rs : List ℕ) (hl : IsDigits ls) (hr : IsDigits rs) (cl : IsClamped ls)
    (cr : IsClamped rs) where
  difference-StandsFor :
      (b : Bool) (z : ℤ)
      → (value rs ≤ value ls → signed b (value ls - value rs) ≡ z)
      → (value ls ≤ value rs → signed (not b) (value rs - value ls) ≡ z)
      → StandsFor z (
          if abs_greater ls rs
          then subtract_absolutes_with_sign ls rs b
          else subtract_absolutes_with_sign rs ls (not b))
  difference-StandsFor b z more less =
      let test = abs_greater_lem ls rs hl hr cl cr in
      elim (Bool-cases (abs_greater ls rs)) [
        | inl e ↦
            let le : value rs ≤ value ls = omega (arith, test.0 e) in
            rw e (to_StandsFor _ (more le) (subtract_absolutes-Stands ls rs hl hr b cr le))
        | inr e ↦
            let le = test.1 e in
            rw e (to_StandsFor _ (less le) (subtract_absolutes-Stands rs ls hr hl (not b) cl le))
      ]

module _ (ls rs : List ℕ) where
  add_signs :
      (nl nr : Bool)
      → IsVerified (record { negative = nl; digits = ls })
      → IsVerified (record { negative = nr; digits = rs })
      → StandsFor
          (signed nl (value ls) +ℤ signed nr (value rs))
          (add (record { negative = nl; digits = ls }) (record { negative = nr; digits = rs }))
  unfolding add
  add_signs true true hl hr =
      to_StandsFor _ (signed-add true (value ls) (value rs))
        (add_absolutes-Stands ls rs hl.in_range hr.in_range true)
  add_signs false false hl hr =
      to_StandsFor _ (signed-add false (value ls) (value rs))
        (add_absolutes-Stands ls rs hl.in_range hr.in_range false)
  add_signs true false hl hr =
      difference-StandsFor ls rs hl.in_range hr.in_range hl.top hr.top true _
        (signed-add_more true (value ls) (value rs)) (signed-add_less true (value ls) (value rs))
  add_signs false true hl hr =
      difference-StandsFor ls rs hl.in_range hr.in_range hl.top hr.top false _
        (signed-add_more false (value ls) (value rs)) (signed-add_less false (value ls) (value rs))

  subtract_signs :
      (nl nr : Bool)
      → IsVerified (record { negative = nl; digits = ls })
      → IsVerified (record { negative = nr; digits = rs })
      → StandsFor
          (signed nl (value ls) -ℤ signed nr (value rs))
          (subtract (record { negative = nl; digits = ls }) (record { negative = nr; digits = rs }))
  unfolding subtract
  subtract_signs true false hl hr =
      to_StandsFor _ (signed-subtract true (value ls) (value rs))
        (add_absolutes-Stands ls rs hl.in_range hr.in_range true)
  subtract_signs false true hl hr =
      to_StandsFor _ (signed-subtract false (value ls) (value rs))
        (add_absolutes-Stands ls rs hl.in_range hr.in_range false)
  subtract_signs true true hl hr =
      difference-StandsFor ls rs hl.in_range hr.in_range hl.top hr.top true _
        (signed-subtract_more true (value ls) (value rs))
        (signed-subtract_less true (value ls) (value rs))
  subtract_signs false false hl hr =
      difference-StandsFor ls rs hl.in_range hr.in_range hl.top hr.top false _
        (signed-subtract_more false (value ls) (value rs))
        (signed-subtract_less false (value ls) (value rs))

-- `Add` of verified integers is verified and stands for their sum, whatever the signs.
pub add-StandsFor :
    (left right : LargeInteger)
    → IsVerified left
    → IsVerified right
    → StandsFor (integer left +ℤ integer right) (add left right)
add-StandsFor left right hl hr =
    add_signs left.digits right.digits left.negative right.negative hl hr

-- `Subtract` of verified integers is verified and stands for their difference, whatever the signs.
pub subtract-StandsFor :
    (left right : LargeInteger)
    → IsVerified left
    → IsVerified right
    → StandsFor (integer left -ℤ integer right) (subtract left right)
subtract-StandsFor left right hl hr =
    subtract_signs left.digits right.digits left.negative right.negative hl hr

-- `Multiply` of verified integers is verified and stands for their product, whatever the signs.
pub multiply-StandsFor :
    (left right : LargeInteger)
    → IsVerified left
    → IsVerified right
    → StandsFor (integer left *ℤ integer right) (multiply left right)
unfolding multiply
multiply-StandsFor left right hl hr =
    to_StandsFor _
      (signed-multiply left.negative right.negative (value left.digits) (value right.digits))
      (multiply_absolutes-Stands left.digits right.digits hl.in_range hr.in_range _)
