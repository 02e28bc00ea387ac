-- ===== src/Large/Signed/Order.antt =====
-- `AbsCompare` and `Compare` order the numbers.
use primordialsoup.Base.{
  ℕ, zero, suc, ◌+◌, ◌*◌, ◌≤◌, ◌<◌, ◌≡◌, refl, ap, Bool, true, false, List, [], ◌∷◌, arith, length,
  ltb, if◌then◌else◌,
}
use primordialsoup.Base.Int.{ℤ, pos, negsuc, sub_ℕ, pos_part, neg_part}
use primordialsoup.Large.Digits.{value, IsDigits, IsClamped, value-lt_of_length, IsClamped-pos}
use primordialsoup.Large.Signed.{
  LargeInteger, integer, IsVerified, SignOf, unless_zero, compare_digits, abs_compare, abs_greater,
  compare, is_negative, signed,
}

-- What the sign of a comparison says of two numbers: negative if the first is the greater.
abbrev pub Tells : ℤ → ℕ → ℕ → Type 0
Tells (pos zero) a b = a ≡ b
Tells (pos (suc n)) a b = a < b
Tells (negsuc n) a b = b < a

sub_ℕ-suc : (a b : ℕ) → sub_ℕ (suc a) (suc b) ≡ sub_ℕ a b
sub_ℕ-suc a b = ground arith

sub_ℕ-zero : (a : ℕ) → sub_ℕ a 0 ≡ pos a
sub_ℕ-zero a = ground arith

zero-sub_ℕ : (a : ℕ) → sub_ℕ 0 (suc a) ≡ negsuc a
zero-sub_ℕ a = ground arith

digit-Tells :
    (c : ℤ) (l r v w : ℕ)
    → l < 4294967296
    → r < 4294967296
    → Tells c v w
    → Tells
        (unless_zero c (if ltb r l then negsuc 0 else if ltb l r then pos 1 else pos 0))
        (l + 4294967296 * v)
        (r + 4294967296 * w)
digit-Tells (pos zero) l r v w hl hr h = ground arith
digit-Tells (pos (suc n)) l r v w hl hr h = omega arith
digit-Tells (negsuc n) l r v w hl hr h = omega arith

compare_digits-Tells :
    (ls rs : List ℕ)
    → length ls ≡ length rs
    → IsDigits ls
    → IsDigits rs
    → Tells (compare_digits ls rs) (value ls) (value rs)
unfolding compare_digits
compare_digits-Tells [] [] e hl hr = refl
compare_digits-Tells [] (r ∷ rs) e hl hr = absurd (omega arith)
compare_digits-Tells (l ∷ ls) [] e hl hr = absurd (omega arith)
compare_digits-Tells (l ∷ ls) (r ∷ rs) e hl hr =
    digit-Tells (compare_digits ls rs) l r (value ls) (value rs) hl.0 hr.0
      (compare_digits-Tells ls rs (omega arith) hl.1 hr.1)

size-Tells :
    (m n a b : ℕ) (c : ℤ)
    → (m < n → a < b)
    → (n < m → b < a)
    → (m ≡ n → Tells c a b)
    → Tells (unless_zero (sub_ℕ n m) c) a b
size-Tells zero zero a b c lt gt eq = eq refl
size-Tells zero (suc n) a b c lt gt eq = rw (sub_ℕ-zero (suc n)) (lt (omega arith))
size-Tells (suc m) zero a b c lt gt eq = rw (zero-sub_ℕ m) (gt (omega arith))
size-Tells (suc m) (suc n) a b c lt gt eq =
    rw (sub_ℕ-suc n m)
      (size-Tells m n a b c (λ h. lt (omega arith)) (λ h. gt (omega arith)) (λ e. eq (ap suc e)))

-- `AbsCompare` of verified numbers: its sign tells their order.
pub abs_compare-Tells :
    (ls rs : List ℕ)
    → IsDigits ls
    → IsDigits rs
    → IsClamped ls
    → IsClamped rs
    → Tells (abs_compare ls rs) (value ls) (value rs)
unfolding abs_compare
abs_compare-Tells ls rs hl hr cl cr =
    size-Tells (length ls) (length rs) (value ls) (value rs) (compare_digits ls rs)
      (value-lt_of_length ls rs hl cr) (value-lt_of_length rs ls hr cl)
      (λ e. compare_digits-Tells ls rs e hl hr)

pub abs_greater_lem :
    (ls rs : List ℕ)
    → IsDigits ls
    → IsDigits rs
    → IsClamped ls
    → IsClamped rs
    → (abs_greater ls rs ≡ true → value rs < value ls)
      × (abs_greater ls rs ≡ false → value ls ≤ value rs)
unfolding abs_greater
abs_greater_lem ls rs hl hr cl cr = go (abs_compare ls rs) (abs_compare-Tells ls rs hl hr cl cr)
  where
    go :
        (c : ℤ)
        → Tells c (value ls) (value rs)
        → (is_negative c ≡ true → value rs < value ls)
          × (is_negative c ≡ false → value ls ≤ value rs)
    go (pos zero) h = (λ e. cc, λ e. omega arith)
    go (pos (suc n)) h = (λ e. cc, λ e. omega arith)
    go (negsuc n) h = (λ e. h, λ e. cc)

-- The same for the integers.
abbrev pub Tellsℤ : ℤ → ℤ → ℤ → Type 0
Tellsℤ c a b = Tells c (pos_part a + neg_part b) (pos_part b + neg_part a)

signed_pos : (ds : List ℕ) (b : Bool) → SignOf b ds → IsClamped ds → b ≡ true → 0 < value ds
signed_pos [] b h c e = cc
signed_pos (d ∷ ds) b h c e = IsClamped-pos d ds c

both_negative : (c : ℤ) (v w : ℕ) → Tells c w v → Tellsℤ c (sub_ℕ 0 v) (sub_ℕ 0 w)
both_negative (pos zero) v w h = ground arith
both_negative (pos (suc n)) v w h = ground arith
both_negative (negsuc n) v w h = ground arith

both_pos : (c : ℤ) (v w : ℕ) → Tells c v w → Tellsℤ c (pos v) (pos w)
both_pos (pos zero) v w h = omega arith
both_pos (pos (suc n)) v w h = omega arith
both_pos (negsuc n) v w h = omega arith

compare_signs :
    (nl nr : Bool) (ls rs : List ℕ)
    → IsVerified (record { negative = nl; digits = ls })
    → IsVerified (record { negative = nr; digits = rs })
    → Tellsℤ
        (compare (record { negative = nl; digits = ls }) (record { negative = nr; digits = rs }))
        (signed nl (value ls))
        (signed nr (value rs))
unfolding compare
compare_signs true true ls rs hl hr =
    both_negative (abs_compare rs ls) (value ls) (value rs)
      (abs_compare-Tells rs ls hr.in_range hl.in_range hr.top hl.top)
compare_signs true false ls rs hl hr = ground (arith, signed_pos ls true hl.sign hl.top refl)
compare_signs false true ls rs hl hr = ground (arith, signed_pos rs true hr.sign hr.top refl)
compare_signs false false ls rs hl hr =
    both_pos (abs_compare ls rs) (value ls) (value rs)
      (abs_compare-Tells ls rs hl.in_range hr.in_range hl.top hr.top)

-- `Compare` of verified integers is negative exactly if `left` is greater than `right`, zero exactly
-- if they are equal and positive exactly if `left` is less.
pub compare-Tells :
    (left right : LargeInteger)
    → IsVerified left
    → IsVerified right
    → Tellsℤ (compare left right) (integer left) (integer right)
compare-Tells left right hl hr =
    compare_signs left.negative right.negative left.digits right.digits hl hr
