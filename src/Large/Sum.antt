-- ===== src/Large/Sum.antt =====
-- The digit loops of `AddAbsolutesWithSign`, `SubtractAbsolutesWithSign` and `AbsAddOneInPlace`. A
-- loop that fills `result` from digit 0 on is a recursion that yields the list of its digits.
use primordialsoup.Base.{
  ℕ, ◌+◌, ◌*◌, ◌/◌, ◌%◌, ◌≤◌, ◌<◌, ◌≡◌, List, [], ◌∷◌, arith, ltb, if◌then◌else◌, length, u64,
  sub64, sar32,
}
use primordialsoup.Large.Digits.{digit_base, value, weight, IsDigits, value-lt-weight}

-- The second loop of the addition, over the digits that only `longer` has, and the last digit.
unfoldable pub add_rest : ℕ → List ℕ → List ℕ
add_rest carry [] = carry % digit_base ∷ []
add_rest carry (l ∷ ls) =
    let sum = u64 (carry + l) in sum % digit_base ∷ add_rest (sum / digit_base) ls

-- The first loop, over the digits that both have. `shorter` never has more digits than `longer`.
unfoldable pub add_digits : ℕ → List ℕ → List ℕ → List ℕ
add_digits carry [] longer = add_rest carry longer
add_digits carry (s ∷ ss) [] = []
add_digits carry (s ∷ ss) (l ∷ ls) =
    let sum = u64 (carry + u64 (s + l)) in sum % digit_base ∷ add_digits (sum / digit_base) ss ls

-- The second loop of the subtraction; `borrow` is the pattern of an `sddigit_t`, 0 or -1.
unfoldable pub subtract_rest : ℕ → List ℕ → List ℕ
subtract_rest borrow [] = []
subtract_rest borrow (l ∷ ls) =
    let difference = u64 (borrow + l) in
    difference % digit_base ∷ subtract_rest (sar32 difference) ls

-- The first loop. `right` never has more digits than `left`.
unfoldable pub subtract_digits : ℕ → List ℕ → List ℕ → List ℕ
subtract_digits borrow left [] = subtract_rest borrow left
subtract_digits borrow [] (r ∷ rs) = []
subtract_digits borrow (l ∷ ls) (r ∷ rs) =
    let difference = u64 (borrow + sub64 l r) in
    difference % digit_base ∷ subtract_digits (sar32 difference) ls rs

-- The loop of `AbsAddOneInPlace`; what is left of `carry` at the end is dropped.
unfoldable pub increment_digits : ℕ → List ℕ → List ℕ
increment_digits carry [] = []
increment_digits carry (d ∷ ds) =
    let sum = u64 (carry + d) in sum % digit_base ∷ increment_digits (sum / digit_base) ds

unfoldable pub add_one_in_place : List ℕ → List ℕ
unfolding increment_digits
add_one_in_place [] = 1 ∷ []
add_one_in_place (d ∷ ds) = increment_digits 1 (d ∷ ds)

value-add_rest :
    (carry : ℕ) (ls : List ℕ)
    → carry ≤ 1
    → IsDigits ls
    → (value (add_rest carry ls) ≡ carry + value ls) × IsDigits (add_rest carry ls)
unfolding add_rest
value-add_rest carry [] h k = omega arith
value-add_rest carry (l ∷ ls) h k =
    let ih = value-add_rest (u64 (carry + l) / digit_base) ls (omega arith) k.1 in
    (omega (arith, ih.0), (omega arith, ih.1))

pub value-add_digits :
    (carry : ℕ) (ss ls : List ℕ)
    → carry ≤ 1
    → length ss ≤ length ls
    → IsDigits ss
    → IsDigits ls
    → (value (add_digits carry ss ls) ≡ carry + value ss + value ls)
      × IsDigits (add_digits carry ss ls)
unfolding add_digits
value-add_digits carry [] ls h le hs hl =
    let r = value-add_rest carry ls h hl in (omega (arith, r.0), r.1)
value-add_digits carry (s ∷ ss) [] h le hs hl = absurd (omega arith)
value-add_digits carry (s ∷ ss) (l ∷ ls) h le hs hl =
    let ih =
      value-add_digits (u64 (carry + u64 (s + l)) / digit_base) ss ls (omega arith) (omega arith)
        hs.1 hl.1 in
    (omega (arith, ih.0), (omega arith, ih.1))

-- A borrow of `b`, 0 or 1, as the code's pattern of 0 or -1.
abbrev pub borrow_word : ℕ → ℕ
borrow_word b = 18446744073709551615 * b

abbrev pub borrow_out : ℕ → ℕ → ℕ
borrow_out l r = if ltb l r then 1 else 0

-- One digit of a subtraction: the digit, and the borrow into the next.
pub subtract_step :
    (b l r : ℕ)
    → b ≤ 1
    → l < 4294967296
    → r < 4294967296
    → (u64 (borrow_word b + sub64 l r) % digit_base + r + b ≡ l + 4294967296 * borrow_out l (r + b))
      × (sar32 (u64 (borrow_word b + sub64 l r)) ≡ borrow_word (borrow_out l (r + b)))
subtract_step b l r hb hl hr = ground arith

-- The same where `right` has no digit left.
pub subtract_rest_step :
    (b l : ℕ)
    → b ≤ 1
    → l < 4294967296
    → (u64 (borrow_word b + l) % digit_base + b ≡ l + 4294967296 * borrow_out l b)
      × (sar32 (u64 (borrow_word b + l)) ≡ borrow_word (borrow_out l b))
subtract_rest_step b l hb hl = ground arith

borrow_out-le-one : (l r : ℕ) → borrow_out l r ≤ 1
borrow_out-le-one l r = ground arith

value-subtract_rest :
    (b : ℕ) (ls : List ℕ)
    → b ≤ 1
    → b ≤ value ls
    → IsDigits ls
    → (value (subtract_rest (borrow_word b) ls) + b ≡ value ls)
      × IsDigits (subtract_rest (borrow_word b) ls)
unfolding subtract_rest
value-subtract_rest b [] hb le k = omega arith
value-subtract_rest b (l ∷ ls) hb le k =
    let (here, out) = subtract_rest_step b l hb k.0 in
    let small = borrow_out-le-one l b in
    let ih = value-subtract_rest (borrow_out l b) ls small (omega arith) k.1 in
    rw out (omega (arith, ih.0), (omega arith, ih.1))

-- The subtraction loops compute the difference, as long as it is not negative.
pub value-subtract_digits :
    (b : ℕ) (ls rs : List ℕ)
    → b ≤ 1
    → length rs ≤ length ls
    → value rs + b ≤ value ls
    → IsDigits ls
    → IsDigits rs
    → (value (subtract_digits (borrow_word b) ls rs) + value rs + b ≡ value ls)
      × IsDigits (subtract_digits (borrow_word b) ls rs)
unfolding subtract_digits
value-subtract_digits b ls [] hb len le hl hr =
    let r = value-subtract_rest b ls hb (omega arith) hl in (omega (arith, r.0), r.1)
value-subtract_digits b [] (r ∷ rs) hb len le hl hr = absurd (omega arith)
value-subtract_digits b (l ∷ ls) (r ∷ rs) hb len le hl hr =
    let (here, out) = subtract_step b l r hb hl.0 hr.0 in
    let small = borrow_out-le-one l (r + b) in
    let ih =
      value-subtract_digits (borrow_out l (r + b)) ls rs small (omega arith) (omega arith) hl.1
        hr.1 in
    rw out (omega (arith, ih.0), (omega arith, ih.1))

pub increment_digits-IsDigits : (c : ℕ) (ds : List ℕ) → IsDigits (increment_digits c ds)
unfolding increment_digits
increment_digits-IsDigits c [] = tt
increment_digits-IsDigits c (d ∷ ds) =
    (omega arith, increment_digits-IsDigits (u64 (c + d) / digit_base) ds)

-- The increment is exact as long as the sum fits the digits that there are,
pub value-increment_digits :
    (c : ℕ) (ds : List ℕ)
    → c ≤ 1
    → IsDigits ds
    → value ds + c < weight ds
    → value (increment_digits c ds) ≡ value ds + c
unfolding increment_digits
value-increment_digits c [] h k lt = omega arith
value-increment_digits c (d ∷ ds) h k lt =
    omega
      (arith, value-increment_digits (u64 (c + d) / digit_base) ds (omega arith) k.1 (omega arith))

-- and is zero where it does not fit.
pub value-increment_digits_wrap :
    (c : ℕ) (ds : List ℕ)
    → c ≤ 1
    → IsDigits ds
    → weight ds ≤ value ds + c
    → value (increment_digits c ds) ≡ 0
unfolding increment_digits
value-increment_digits_wrap c [] h k lt = omega arith
value-increment_digits_wrap c (d ∷ ds) h k lt =
    let below = value-lt-weight ds k.1 in
    omega (
      arith,
      value-increment_digits_wrap (u64 (c + d) / digit_base) ds (omega arith) k.1 (omega arith),
    )
