-- ===== src/Large/Product.antt =====
-- The digit loops of `MultiplyAbsolutesWithSign`, in place on the digits of `result`.
use native.Mathlib.Nat.{mul-le-mul}
use primordialsoup.Base.{
  ℕ, zero, suc, ◌+◌, ◌*◌, ◌/◌, ◌%◌, ◌≤◌, ◌<◌, ◌≡◌, refl, List, [], ◌∷◌, arith, length, u64,
  replicate, length-replicate,
}
use primordialsoup.Large.Digits.{digit_base, value, IsDigits}

-- The loop over `j` for one digit of `right`: `target` is `result` from digit `i` to digit
-- `i + left->size() - 1`, and the digit at `i + left->size()` is set to what is carried over.
unfoldable pub multiply_row : ℕ → ℕ → List ℕ → List ℕ → List ℕ
multiply_row carry right_digit [] target = carry % digit_base ∷ []
multiply_row carry right_digit (l ∷ ls) [] = []
multiply_row carry right_digit (l ∷ ls) (t ∷ ts) =
    let sum = u64 (carry + u64 (u64 (l * right_digit) + t)) in
    sum % digit_base ∷ multiply_row (sum / digit_base) right_digit ls ts

-- The loop over `i`. After a round the digit at `i` is final, and the next round works on those above.
abbrev keep_digit : List ℕ → (List ℕ → List ℕ) → List ℕ
keep_digit [] next = []
keep_digit (d ∷ ds) next = d ∷ next ds

unfoldable pub multiply_rows : List ℕ → List ℕ → List ℕ → List ℕ
unfolding multiply_row
multiply_rows left [] target = target
multiply_rows left (r ∷ rs) target =
    keep_digit (multiply_row 0 r left target) (multiply_rows left rs)

unfoldable pub multiply_digits : List ℕ → List ℕ → List ℕ
unfolding multiply_rows
multiply_digits left right = multiply_rows left right (replicate (length left) 0)

product-le : (l r : ℕ) → l < 4294967296 → r < 4294967296 → l * r ≤ 18446744065119617025
product-le l r hl hr = mul-le-mul {n₂ = 4294967295} {m₂ = 4294967295} (omega arith) (omega arith)

-- One round adds a multiple of `left`; the carry never exceeds a digit, as the assertion says.
value-multiply_row :
    (carry r : ℕ) (ls ts : List ℕ)
    → carry < 4294967296
    → r < 4294967296
    → length ts ≡ length ls
    → IsDigits ls
    → IsDigits ts
    → (value (multiply_row carry r ls ts) ≡ carry + r * value ls + value ts)
      × (length (multiply_row carry r ls ts) ≡ suc (length ls))
      × IsDigits (multiply_row carry r ls ts)
unfolding multiply_row
value-multiply_row carry r [] [] hc hr e hl ht = (omega arith, refl, (omega arith, tt))
value-multiply_row carry r [] (t ∷ ts) hc hr e hl ht = absurd (omega arith)
value-multiply_row carry r (l ∷ ls) [] hc hr e hl ht = absurd (omega arith)
value-multiply_row carry r (l ∷ ls) (t ∷ ts) hc hr e hl ht =
    let bound = product-le l r hl.0 hr in
    let ih =
      value-multiply_row (u64 (carry + u64 (u64 (l * r) + t)) / digit_base) r ls ts (omega arith) hr
        (omega arith) hl.1 ht.1 in
    (omega (arith, ih.0), omega (arith, ih.1), (omega arith, ih.2))

abbrev IsProduct : List ℕ → List ℕ → (List ℕ → List ℕ) → Type 0
IsProduct left right next =
    (target : List ℕ)
    → length target ≡ length left
    → IsDigits target
    → (value (next target) ≡ value left * value right + value target) × IsDigits (next target)

value-keep_digit :
    (left right row : List ℕ) (next : List ℕ → List ℕ)
    → IsProduct left right next
    → length row ≡ suc (length left)
    → IsDigits row
    → (value (keep_digit row next) ≡ 4294967296 * (value left * value right) + value row)
      × IsDigits (keep_digit row next)
value-keep_digit left right [] next ih e h = absurd (omega arith)
value-keep_digit left right (d ∷ ds) next ih e h =
    let rest = ih ds (omega arith) h.1 in (omega (arith, rest.0), (h.0, rest.1))

multiply_rows-IsProduct :
    (left right : List ℕ)
    → IsDigits left
    → IsDigits right
    → IsProduct left right (multiply_rows left right)
unfolding multiply_rows
multiply_rows-IsProduct left [] hl hr target e ht = (omega arith, ht)
multiply_rows-IsProduct left (r ∷ rs) hl hr target e ht =
    let row = value-multiply_row 0 r left target (omega arith) hr.0 e hl ht in
    let rest =
      value-keep_digit left rs (multiply_row 0 r left target) (multiply_rows left rs)
        (multiply_rows-IsProduct left rs hl hr.1) row.1 row.2 in
    (omega (arith, row.0, rest.0), rest.1)

replicate-IsDigits : (n : ℕ) → IsDigits (replicate n 0)
replicate-IsDigits zero = tt
replicate-IsDigits (suc n) = (omega arith, replicate-IsDigits n)

value-replicate : (n : ℕ) → value (replicate n 0) ≡ 0
value-replicate zero = refl
value-replicate (suc n) = omega (arith, value-replicate n)

-- The schoolbook product is the product.
pub value-multiply_digits :
    (left right : List ℕ)
    → IsDigits left
    → IsDigits right
    → (value (multiply_digits left right) ≡ value left * value right)
      × IsDigits (multiply_digits left right)
unfolding multiply_digits
value-multiply_digits left right hl hr =
    let zeros = replicate (length left) 0 in
    let all =
      multiply_rows-IsProduct left right hl hr zeros (length-replicate (length left) 0)
        (replicate-IsDigits (length left)) in
    (omega (arith, all.0, value-replicate (length left)), all.1)
