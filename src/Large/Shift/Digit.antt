-- ===== src/Large/Shift/Digit.antt =====
-- The loop of the shifts: what number its digits stand for.
use Prim.Native.Nat.{bit_or-bitwise}
use native.Mathlib.Nat.{
  mul_left_comm, mul-le-mul_right, div-lt_iff_lt-mul, mod-lt, div-add-mod, mul-zero, mul-pos,
  le-mul_of_pos_right, mul-add, add-mul, mul_comm,
}
use primordialsoup.Base.{
  ℕ, ◌+◌, ◌*◌, ◌/◌, ◌%◌, ◌^◌, ◌≤◌, ◌<◌, ◌≡◌, sym, ap, ◌∙◌, List, [], ◌∷◌, ◌==◌, if◌then◌else◌,
  arith, Bool-cases, inl, inr, bit_or,
}
use primordialsoup.Base.Powers.{two-pow_add, two-pow_pos, mul-mod-mul, parts}
use primordialsoup.Base.Bits.Split.{bit_or-split, bit_or_comm}
use primordialsoup.Large.Digits.{value, IsDigits, IsClamped}
use primordialsoup.Large.Shift.{shift_loop}

bit_or-zero : (a : ℕ) → bit_or a 0 ≡ a
bit_or-zero a = bit_or_comm a 0 ∙ bit_or-bitwise 0 a

pub bit_or-add : (k p b : ℕ) → b < 2 ^ k → bit_or (p * 2 ^ k) b ≡ p * 2 ^ k + b
bit_or-add k p b h =
    let e : bit_or (2 ^ k * p + 0) (2 ^ k * 0 + b) ≡ 2 ^ k * bit_or p 0 + bit_or 0 b =
      bit_or-split k p 0 0 b (two-pow_pos k) h in
    let l : 2 ^ k * p + 0 ≡ p * 2 ^ k = grind (arith, mul_comm p (2 ^ k)) in
    let m : 2 ^ k * 0 + b ≡ b = grind arith in
    rw (l, m, bit_or-zero p, bit_or-bitwise 0 b, mul_comm (2 ^ k) p) at e

-- One round, with `u * w` for the base of the digits.
pub round_value :
    (u w d carry v : ℕ)
    → u * w ≡ 4294967296
    → (d % w) * u + carry + 4294967296 * (d / w + u * v) ≡ carry + u * (d + 4294967296 * v)
round_value u w d carry v e =
    let split = parts d u w (d / w) (d % w) (div-add-mod d w) in
    let split' : d * u ≡ 4294967296 * (d / w) + (d % w) * u = rw e at split in
    let all : u * (d + 4294967296 * v) ≡ d * u + 4294967296 * (u * v) =
      mul-add u d (4294967296 * v)
      ∙ ap (λ (t : ℕ). t + u * (4294967296 * v)) (mul_comm u d)
      ∙ ap (λ (t : ℕ). d * u + t) (mul_left_comm u 4294967296 v) in
    omega (arith, split', all)

pub digit_bound :
    (u w d carry : ℕ) → u * w ≡ 4294967296 → 0 < w → carry < u → (d % w) * u + carry < 4294967296
digit_bound u w d carry e hw h =
    let le : (d % w + 1) * u ≤ w * u = mul-le-mul_right u (omega (arith, mod-lt d hw)) in
    omega (arith, le, mul_comm w u, add-mul (d % w) 1 u, e)

pub carry_bound : (u w d : ℕ) → u * w ≡ 4294967296 → 0 < w → d < 4294967296 → d / w < u
carry_bound u w d e hw h = (div-lt_iff_lt-mul hw).1 (omega (arith, e))

word_above : (u w carry : ℕ) → u * w ≡ 4294967296 → 0 < w → carry < u → carry < 4294967296
word_above u w carry e hw h = omega (arith, e, le-mul_of_pos_right u hw)

last_digit :
    (carry u : ℕ)
    → carry < 4294967296
    → (value (if carry == 0 then [] else carry ∷ []) ≡ carry + u * 0)
      × IsDigits (if carry == 0 then [] else carry ∷ [])
last_digit carry u h = (grind (arith, mul-zero u), ground arith)

last-IsClamped : (carry : ℕ) → IsClamped (if carry == 0 then [] else carry ∷ [])
last-IsClamped carry = ground arith

-- The last digit of the number itself: if nothing is carried out of it, it stays positive.
top-IsClamped :
    (d x u w carry : ℕ)
    → 0 < d
    → 0 < u
    → x ≡ (d % w) * u + carry
    → 0 < w
    → IsClamped (x ∷ (if d / w == 0 then [] else d / w ∷ []))
top-IsClamped d x u w carry hd hu e hw = elim (Bool-cases (d / w == 0)) [
  | inl h ↦
      let low : d / w ≡ 0 = ground arith in
      let split = div-add-mod d w in
      let split' : w * 0 + d % w ≡ d = rw low at split in
      let positive : 0 < d % w = omega (arith, split', mul-zero w) in
      rw h (omega (arith, e, mul-pos positive hu))
  | inr h ↦ rw h (ground arith)
]

module _ (up down : ℕ) (both : up + down ≡ 32) where
  pub word : 2 ^ up * 2 ^ down ≡ 4294967296
  word = sym (two-pow_add up down) ∙ ap (λ (t : ℕ). 2 ^ t) both

  -- The digit that the loop writes.
  pub digit-is :
      (d carry : ℕ)
      → carry < 2 ^ up
      → bit_or (d * 2 ^ up % 4294967296) carry ≡ (d % 2 ^ down) * 2 ^ up + carry
  digit-is d carry h =
      rw (← word, mul-mod-mul d (2 ^ up) (2 ^ down) (two-pow_pos up) (two-pow_pos down))
        (bit_or-add up (d % 2 ^ down) carry h)

  pub value-shift_loop :
      (carry : ℕ) (ds : List ℕ)
      → carry < 2 ^ up
      → IsDigits ds
      → (value (shift_loop up down carry ds) ≡ carry + 2 ^ up * value ds)
        × IsDigits (shift_loop up down carry ds)
  unfolding shift_loop
  value-shift_loop carry [] h k =
      last_digit carry (2 ^ up) (word_above (2 ^ up) (2 ^ down) carry word (two-pow_pos down) h)
  value-shift_loop carry (d ∷ ds) h k =
      let ih =
        value-shift_loop (d / 2 ^ down) ds
          (carry_bound (2 ^ up) (2 ^ down) d word (two-pow_pos down) k.0) k.1 in
      rw (digit-is d carry h, ih.0)
        (
          round_value (2 ^ up) (2 ^ down) d carry (value ds) word,
          (digit_bound (2 ^ up) (2 ^ down) d carry word (two-pow_pos down) h, ih.1),
        )

  pub shift_loop-IsClamped :
      (carry d : ℕ) (ds : List ℕ)
      → carry < 2 ^ up
      → IsDigits (d ∷ ds)
      → IsClamped (d ∷ ds)
      → IsClamped (shift_loop up down carry (d ∷ ds))
  unfolding shift_loop
  shift_loop-IsClamped carry d [] h k c =
      top-IsClamped d _ (2 ^ up) (2 ^ down) carry c (two-pow_pos up) (digit-is d carry h)
        (two-pow_pos down)
  shift_loop-IsClamped carry d (e ∷ ds) h k c =
      shift_loop-IsClamped (d / 2 ^ down) e ds
        (carry_bound (2 ^ up) (2 ^ down) d word (two-pow_pos down) k.0) k.1 c

  -- The same where the first carry is the only digit left.
  pub shift_rest-IsClamped :
      (carry : ℕ) (ds : List ℕ)
      → carry < 2 ^ up
      → IsDigits ds
      → IsClamped ds
      → IsClamped (shift_loop up down carry ds)
  unfolding shift_loop
  shift_rest-IsClamped carry [] h k c = last-IsClamped carry
  shift_rest-IsClamped carry (d ∷ ds) h k c = shift_loop-IsClamped carry d ds h k c
