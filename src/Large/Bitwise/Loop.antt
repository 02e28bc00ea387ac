-- ===== src/Large/Bitwise/Loop.antt =====
-- What the loops of `And`, `Or` and `Xor` compute.
use primordialsoup.Base.{
  ℕ, ◌+◌, ◌-◌, ◌*◌, ◌/◌, ◌%◌, ◌≤◌, ◌<◌, ◌≡◌, refl, ap, Bool, true, false, List, [], ◌∷◌, length,
  u64, arith,
}
use primordialsoup.Large.Digits.{digit_base, value, weight, IsDigits}
use primordialsoup.Large.Sum.{increment_digits, borrow_word, borrow_out, subtract_rest_step}
use primordialsoup.Large.Bitwise.{operand, next_borrow, combine_rest, combine}

-- A negative result is the digits of a positive one, incremented.
module _ (ns nl : Bool) (op rest : ℕ → ℕ → ℕ) where
  combine_rest-increment :
      (sb lb carry : ℕ) (ls : List ℕ)
      → combine_rest ns nl true op rest sb lb carry ls
        ≡ increment_digits carry (combine_rest ns nl false op rest sb lb 0 ls)
  unfolding combine_rest increment_digits
  combine_rest-increment sb lb carry [] = refl
  combine_rest-increment sb lb carry (l ∷ ls) =
      let r = rest (operand ns sb 0) (operand nl lb l) in
      ap (λ (t : List ℕ). u64 (carry + r) % digit_base ∷ t)
        (combine_rest-increment (next_borrow ns sb 0) (next_borrow nl lb l)
          (u64 (carry + r) / digit_base) ls)

  pub combine-increment :
      (sb lb carry : ℕ) (ss ls : List ℕ)
      → combine ns nl true op rest sb lb carry ss ls
        ≡ increment_digits carry (combine ns nl false op rest sb lb 0 ss ls)
  unfolding combine increment_digits
  combine-increment sb lb carry [] ls = combine_rest-increment sb lb carry ls
  combine-increment sb lb carry (s ∷ ss) [] = refl
  combine-increment sb lb carry (s ∷ ss) (l ∷ ls) =
      let r = op (operand ns sb s) (operand nl lb l) in
      ap (λ (t : List ℕ). u64 (carry + r) % digit_base ∷ t)
        (combine-increment (next_borrow ns sb s) (next_borrow nl lb l)
          (u64 (carry + r) / digit_base) ss ls)

-- A borrow of `b` that an operand's loop may hold: none, unless the operand is negative.
abbrev pub MayBorrow : Bool → ℕ → Type 0
MayBorrow true b = b ≤ 1
MayBorrow false b = b ≡ 0

operand-digit :
    (neg : Bool) (b d : ℕ)
    → MayBorrow neg b
    → d < 4294967296
    → (operand neg (borrow_word b) d + b ≡ d + 4294967296 * borrow_out d b)
      × (operand neg (borrow_word b) d < 4294967296)
      × (next_borrow neg (borrow_word b) d ≡ borrow_word (borrow_out d b))
      × MayBorrow neg (borrow_out d b)
unfolding operand next_borrow
operand-digit true b d h k =
    let s = subtract_rest_step b d h k in (s.0, omega arith, s.1, ground arith)
operand-digit false b d h k = ground arith

-- The operation `full` on numbers that the loops compute digit by digit.
pub record IsDigitwise (op rest full : ℕ → ℕ → ℕ) : Type 0 where
  pub split :
      (p q a b : ℕ)
      → a < 4294967296
      → b < 4294967296
      → full (a + 4294967296 * p) (b + 4294967296 * q) ≡ full a b + 4294967296 * full p q
  pub digit : (a b : ℕ) → a < 4294967296 → b < 4294967296 → op a b ≡ full a b
  pub tail : (b : ℕ) → b < 4294967296 → rest 0 b ≡ full 0 b
  pub small : (a b : ℕ) → a < 4294967296 → b < 4294967296 → full a b < 4294967296
  pub none : full 0 0 ≡ 0

-- The digits `out` stand for `n`, as many as `ls` has.
pub record Computes (ls : List ℕ) (n : ℕ) (out : List ℕ) : Type 0 where
  pub is : value out ≡ n
  pub in_range : IsDigits out
  pub width : weight out ≡ weight ls

operand-zero : (neg : Bool) → operand neg 0 0 ≡ 0
unfolding operand
operand-zero true = refl
operand-zero false = refl

next_borrow-zero : (neg : Bool) → next_borrow neg 0 0 ≡ 0
unfolding next_borrow
next_borrow-zero true = refl
next_borrow-zero false = refl

-- A number less its borrow, by its lowest digit.
less_borrow :
    (b d x b' v : ℕ)
    → x + b ≡ d + 4294967296 * b'
    → b' ≤ v
    → d + 4294967296 * v - b ≡ x + 4294967296 * (v - b')
less_borrow b d x b' v e le = omega arith

borrow-fits : (b d v : ℕ) → b ≤ 1 → b ≤ d + 4294967296 * v → borrow_out d b ≤ v
borrow-fits b d v h le = ground arith

may-le-one : (neg : Bool) (b : ℕ) → MayBorrow neg b → b ≤ 1
may-le-one true b h = h
may-le-one false b h = omega arith

module _ (ns nl : Bool) {op rest full : ℕ → ℕ → ℕ} (good : IsDigitwise op rest full) where
  combine_rest-Computes :
      (bl : ℕ) (ls : List ℕ)
      → MayBorrow nl bl
      → bl ≤ value ls
      → IsDigits ls
      → Computes ls
          (full 0 (value ls - bl))
          (combine_rest ns nl false op rest 0 (borrow_word bl) 0 ls)
  unfolding combine_rest
  combine_rest-Computes bl [] m le h = record {
    is = ground (arith, good.none);
    in_range = tt;
    width = refl;
  }
  combine_rest-Computes bl (l ∷ ls) m le h =
      let (here, small, next, may) = operand-digit nl bl l m h.0 in
      let x = operand nl (borrow_word bl) l in
      let fits = borrow-fits bl l (value ls) (may-le-one nl bl m) le in
      let ih = combine_rest-Computes (borrow_out l bl) ls may fits h.1 in
      let whole = less_borrow bl l x (borrow_out l bl) (value ls) here fits in
      let apart = good.split 0 (value ls - borrow_out l bl) 0 x (omega arith) small in
      rw (operand-zero, next_borrow-zero, next, good.tail x small)
        (record {
          is = rw whole (omega (arith, ih.is, apart));
          in_range = (good.small 0 x (omega arith) small, ih.in_range);
          width = omega (arith, ih.width);
        })

  -- With a result that is not negative, the loops compute the operation on the operands' absolute
  -- values, less one where an operand is negative.
  pub combine-Computes :
      (bs bl : ℕ) (ss ls : List ℕ)
      → MayBorrow ns bs
      → MayBorrow nl bl
      → bs ≤ value ss
      → bl ≤ value ls
      → IsDigits ss
      → IsDigits ls
      → length ss ≤ length ls
      → Computes ls
          (full (value ss - bs) (value ls - bl))
          (combine ns nl false op rest (borrow_word bs) (borrow_word bl) 0 ss ls)
  unfolding combine
  combine-Computes bs bl [] ls ms ml ps pl hs hl len =
      let none : bs ≡ 0 = omega arith in rw (none) (combine_rest-Computes bl ls ml pl hl)
  combine-Computes bs bl (s ∷ ss) [] ms ml ps pl hs hl len = absurd (omega arith)
  combine-Computes bs bl (s ∷ ss) (l ∷ ls) ms ml ps pl hs hl len =
      let (here, small, next, may) = operand-digit ns bs s ms hs.0 in
      let (here', small', next', may') = operand-digit nl bl l ml hl.0 in
      let x = operand ns (borrow_word bs) s in
      let y = operand nl (borrow_word bl) l in
      let fits = borrow-fits bs s (value ss) (may-le-one ns bs ms) ps in
      let fits' = borrow-fits bl l (value ls) (may-le-one nl bl ml) pl in
      let ih =
        combine-Computes (borrow_out s bs) (borrow_out l bl) ss ls may may' fits fits' hs.1 hl.1
          (omega arith) in
      let whole = less_borrow bs s x (borrow_out s bs) (value ss) here fits in
      let whole' = less_borrow bl l y (borrow_out l bl) (value ls) here' fits' in
      let apart =
        good.split (value ss - borrow_out s bs) (value ls - borrow_out l bl) x y small small' in
      rw (next, next', good.digit x y small small')
        (record {
          is = rw (whole, whole', apart) (omega (arith, ih.is));
          in_range = (good.small x y small small', ih.in_range);
          width = omega (arith, ih.width);
        })
