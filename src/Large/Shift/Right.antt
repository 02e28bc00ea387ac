-- ===== src/Large/Shift/Right.antt =====
-- `ShiftRight`: the digits of the quotient, and whether there is a remainder.
use native.Mathlib.Nat.{
  zero-mul, mod-lt, div-add-mod, mul_assoc, mul_comm, mul-pos, mul-zero, mul-add, mul-le-mul_left,
}
use primordialsoup.Base.{
  ℕ, zero, suc, ◌+◌, ◌-◌, ◌*◌, ◌/◌, ◌%◌, ◌^◌, ◌≤◌, ◌<◌, ◌≡◌, ◌≢◌, refl, sym, ap, ◌∙◌, Bool, true,
  false, not, ◌||◌, some, List, [], ◌∷◌, ◌==◌, ltb, if◌then◌else◌, length, arith, ◌⊎◌, Bool-cases,
  inl, inr, take, drop, length-drop,
}
use primordialsoup.Base.Powers.{two-pow_pos, mul-mod-mul}
use primordialsoup.Large.Digits.{value, IsDigits, IsClamped, IsClamped-tail}
use primordialsoup.Large.Shift.{any_nonzero, shift_down, shift_right_digits}
use primordialsoup.Large.Shift.Digit.{value-shift_loop, shift_rest-IsClamped, word, carry_bound}
use primordialsoup.Large.Shift.Left.{word-pow_suc, pow-digits}

-- The digits below and above a place.
record Cut (k : ℕ) (ds : List ℕ) : Type 0 where
  sum : value ds ≡ value (take k ds) + 2 ^ (32 * k) * value (drop k ds)
  small : value (take k ds) < 2 ^ (32 * k)
  above : IsDigits (drop k ds)
  top : IsClamped (drop k ds)
  clear : any_nonzero k ds ≡ false → value (take k ds) ≡ 0
  set : any_nonzero k ds ≡ true → 0 < value (take k ds)

cut : (k : ℕ) (ds : List ℕ) → IsDigits ds → IsClamped ds → Cut k ds
unfolding any_nonzero
cut zero ds h c = record {
  sum = grind arith;
  small = grind arith;
  above = h;
  top = c;
  clear = λ e. refl;
  set = λ e. cc;
}
cut (suc k) [] h c = record {
  sum = omega (arith, mul-zero (2 ^ (32 * suc k)));
  small = two-pow_pos (32 * suc k);
  above = tt;
  top = tt;
  clear = λ e. refl;
  set = λ e. cc;
}
cut (suc k) (d ∷ ds) h c =
    let ih = cut k ds h.1 (IsClamped-tail d ds c) in
    let next = word-pow_suc k in
    record {
      sum = omega (
        arith,
        ih.sum,
        ap (λ (t : ℕ). t * value (drop k ds)) next,
        mul_assoc 4294967296 (2 ^ (32 * k)) (value (drop k ds)),
      );
      small = omega (arith, ih.small, next, h.0);
      above = ih.above;
      top = ih.top;
      clear = λ e. clear_digit d _ _ ih.clear e;
      set = λ e. set_digit d _ _ ih.set e;
    }
  where
    clear_digit :
        (d n : ℕ) (b : Bool)
        → (b ≡ false → n ≡ 0)
        → (if d == 0 then b else true) ≡ false
        → d + 4294967296 * n ≡ 0
    clear_digit d n b f e = ground arith

    set_digit :
        (d n : ℕ) (b : Bool)
        → (b ≡ true → 0 < n)
        → (if d == 0 then b else true) ≡ true
        → 0 < d + 4294967296 * n
    set_digit d n b f e = ground arith

-- `quotient` and a remainder: the remainder is 0 unless `lost`.
pub record Divides (v m : ℕ) (quotient : List ℕ) (lost : Bool) : Type 0 where
  pub range : IsDigits quotient
  pub top : IsClamped quotient
  pub remainder : ℕ
  pub is : v ≡ m * value quotient + remainder
  pub small : remainder < m
  pub exact : lost ≡ false → remainder ≡ 0
  pub inexact : lost ≡ true → 0 < remainder

-- The digits above the place, divided once more.
module _ (t w v p q r : ℕ) (ht : t < w) (e : v ≡ p * q + r) (hr : r < p) where
  compose : t + w * v ≡ (w * p) * q + (t + w * r)
  compose =
      let all : w * v ≡ w * (p * q) + w * r = ap (λ (x : ℕ). w * x) e ∙ mul-add w (p * q) r in
      omega (arith, all, mul_assoc w p q)

  compose_small : t + w * r < w * p
  compose_small =
      let le : w * (r + 1) ≤ w * p = mul-le-mul_left w (omega arith) in
      omega (arith, le, mul-add w r 1)

-- The digit at the place gives its high bits to the quotient and its low bits to the remainder.
split_digit : (u p d v : ℕ) → u * p ≡ 4294967296 → d + 4294967296 * v ≡ p * (d / p + u * v) + d % p
split_digit u p d v e =
    let all : p * (d / p + u * v) ≡ p * (d / p) + 4294967296 * v =
      mul-add p (d / p) (u * v)
      ∙ ap (λ (x : ℕ). p * (d / p) + x)
          (sym (mul_assoc p u v) ∙ ap (λ (x : ℕ). x * v) (mul_comm p u ∙ e)) in
    omega (arith, all, div-add-mod d p)

-- The test on the bits that the digit loses.
low_bits :
    (u p d : ℕ)
    → 0 < u
    → 0 < p
    → u * p ≡ 4294967296
    → (d * u % 4294967296 ≡ 0 → d % p ≡ 0) × (d % p ≡ 0 → d * u % 4294967296 ≡ 0)
low_bits u p d hu hp e =
    let is : d * u % 4294967296 ≡ (d % p) * u =
      ap (λ (t : ℕ). d * u % t) (sym e) ∙ mul-mod-mul d u p hu hp in
    rw is (zero_left (d % p), λ z. rw z (zero-mul u))
  where
    zero_left : (a : ℕ) → a * u ≡ 0 → a ≡ 0
    zero_left zero z = refl
    zero_left (suc a) z = absurd (omega (arith, z, mul-pos {m = suc a} {n = u} (omega arith) hu))

neither : (x : ℕ) (b : Bool) → (not (x == 0) || b) ≡ false → (x ≡ 0) × (b ≡ false)
neither x b h = ground arith

either : (x : ℕ) (b : Bool) → (not (x == 0) || b) ≡ true → (x ≢ 0) ⊎ (b ≡ true)
either x true h = inr refl
either x false h = inl (λ e. contra x e h)
  where
    contra : (n : ℕ) → n ≡ 0 → (not (n == 0) || false) ≡ true → ⊥
    contra n e k = ground arith

nothing_lost : (t w r : ℕ) → t ≡ 0 → r ≡ 0 → t + w * r ≡ 0
nothing_lost t w r h k = rw (h, k, mul-zero w) refl

something_lost : (t w r : ℕ) → 0 < w → (0 < r) ⊎ (0 < t) → 0 < t + w * r
something_lost t w r hw (inl h) = omega (arith, mul-pos hw h)
something_lost t w r hw (inr h) = omega arith

module _ (all : List ℕ) (k down : ℕ) (h : IsDigits all) (c : IsClamped all) (hd : down ≤ 32)
    (some_bits : 0 < down) where
  shift_down-Divides :
      (kept : List ℕ)
      → drop k all ≡ kept
      → k < length all
      → (q : List ℕ) × (lost : Bool) × (shift_down all k down kept ≡ some (q, lost))
        × Divides (value all) (2 ^ (32 * k) * 2 ^ down) q lost
  unfolding shift_down
  shift_down-Divides [] e lt = absurd (omega (arith, length-drop k all, ap (length) e))
  shift_down-Divides (d ∷ ds) e lt =
      let ct = cut k all h c in
      let above : IsDigits (d ∷ ds) = rw e at ct.above in
      let top : IsClamped (d ∷ ds) = rw e at ct.top in
      let sum : value all ≡ value (take k all) + 2 ^ (32 * k) * value (d ∷ ds) = rw e at ct.sum in
      let both : 32 - down + down ≡ 32 = omega arith in
      let base = word (32 - down) down both in
      let carry = carry_bound (2 ^ (32 - down)) (2 ^ down) d base (two-pow_pos down) above.0 in
      let (is, range) = value-shift_loop (32 - down) down both (d / 2 ^ down) ds carry above.1 in
      let parted =
        split_digit (2 ^ (32 - down)) (2 ^ down) d (value ds) base
        ∙ ap (λ (x : ℕ). 2 ^ down * x + d % 2 ^ down) (sym is) in
      let low = low_bits (2 ^ (32 - down)) (2 ^ down) d (two-pow_pos _) (two-pow_pos down) base in
      (
        _,
        _,
        refl,
        record {
          range = range;
          top =
              shift_rest-IsClamped (32 - down) down both (d / 2 ^ down) ds carry above.1
                (IsClamped-tail d ds top);
          remainder = value (take k all) + 2 ^ (32 * k) * (d % 2 ^ down);
          is =
              sum
              ∙ compose (value (take k all)) (2 ^ (32 * k)) (value (d ∷ ds)) (2 ^ down) _
                  (d % 2 ^ down) ct.small parted (mod-lt d (two-pow_pos down));
          small =
              compose_small (value (take k all)) (2 ^ (32 * k)) (value (d ∷ ds)) (2 ^ down) _
                (d % 2 ^ down) ct.small parted (mod-lt d (two-pow_pos down));
          exact = λ z.
              let no = neither (d * 2 ^ (32 - down) % 4294967296) (any_nonzero k all) z in
              nothing_lost _ _ _ (ct.clear no.1) (low.0 no.0);
          inexact = λ z.
              something_lost _ _ _ (two-pow_pos (32 * k))
                (elim (either (d * 2 ^ (32 - down) % 4294967296) (any_nonzero k all) z) [
                  | inl a ↦ inl (positive (d % 2 ^ down) (λ b. a (low.1 b)))
                  | inr a ↦ inr (ct.set a)
                ]);
        },
      )
    where
      positive : (n : ℕ) → (n ≡ 0 → ⊥) → 0 < n
      positive zero f = absurd (f refl)
      positive (suc n) f = omega arith

ltb-false : (a b : ℕ) → b ≤ a → ltb a b ≡ false
ltb-false a b h = ground arith

-- What `ShiftRight` computes from digits that the shift does not leave behind altogether, before it
-- rounds: the quotient by the power of two, and whether there is a remainder.
pub shift_right_digits-Divides :
    (ds : List ℕ) (right : ℕ)
    → IsDigits ds
    → IsClamped ds
    → right < 32 * length ds
    → (q : List ℕ) × (lost : Bool) × (shift_right_digits ds right ≡ some (q, lost))
      × Divides (value ds) (2 ^ right) q lost
unfolding shift_right_digits
shift_right_digits-Divides ds right h c lt = elim (Bool-cases (right % 32 == 0)) [
  | inl e ↦
      let none_left : right % 32 ≡ 0 = ground arith in
      let ct = cut (right / 32) ds h c in
      let pow : 2 ^ (32 * (right / 32)) ≡ 2 ^ right =
        ap (λ (t : ℕ). 2 ^ t) (let whole : 32 * (right / 32) ≡ right = omega arith in whole) in
      (
        _,
        _,
        rw (e, ltb-false (length ds) (right / 32) (omega arith)) refl,
        record {
          range = ct.above;
          top = ct.top;
          remainder = value (take (right / 32) ds);
          is = omega (arith, ct.sum, ap (λ (t : ℕ). t * value (drop (right / 32) ds)) pow);
          small = omega (arith, ct.small, pow);
          exact = ct.clear;
          inexact = ct.set;
        },
      )
  | inr e ↦
      let some_left : 0 < right % 32 = ground arith in
      let (q, lost, run, divides) =
        shift_down-Divides ds (right / 32) (right % 32) h c (omega arith) some_left
          (drop (right / 32) ds) refl (omega arith) in
      (q, lost, rw (e) run, rw (pow-digits right) at divides)
]
