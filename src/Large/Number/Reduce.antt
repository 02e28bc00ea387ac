-- ===== src/Large/Number/Reduce.antt =====
-- `Reduce` keeps the integer, and yields its smallest representation.
use primordialsoup.Base.{
  ℕ, suc, ◌+◌, ◌-◌, ◌*◌, ◌≤◌, ◌<◌, ◌≡◌, refl, sym, ap, ◌∙◌, Bool, true, false, List, [], ◌∷◌, ltb,
  u64, arith, length, bit_or, Bool-cases, inl, inr,
}
use primordialsoup.Base.Int.{ℤ, pos, negsuc}
use primordialsoup.Large.Digits.{value, IsDigits, IsClamped, IsClamped-pos}
use primordialsoup.Large.Signed.{LargeInteger, integer, IsVerified, signed}
use primordialsoup.Large.Shift.Digit.{bit_or-add}
use primordialsoup.Large.Bitwise.Cases.{nonzero, negative_is}
use primordialsoup.Large.Number.{
  large, number_value, is_smi, is_int64, to_int64, to_uint64, is_smi_value, from_digits,
  new_integer, reduce, IsCanonical,
}

-- A round of the loop does not lose bits as long as the number fits.
from_digits-cons :
    (n d : ℕ)
    → n < 4294967296
    → d < 4294967296
    → bit_or (u64 (n * 4294967296)) d ≡ d + 4294967296 * n
from_digits-cons n d h k =
    let e : u64 (n * 4294967296) ≡ n * 4294967296 = omega arith in
    ap (λ (t : ℕ). bit_or t d) e
    ∙ bit_or-add 32 n d k
    ∙ (let f : n * 4294967296 + d ≡ d + 4294967296 * n = omega arith in f)

pub from_digits-is : (ds : List ℕ) → IsDigits ds → length ds ≤ 2 → from_digits ds ≡ value ds
unfolding from_digits
from_digits-is [] h le = refl
from_digits-is (d ∷ []) h le = from_digits-cons 0 d (omega arith) h.0
from_digits-is (d ∷ e ∷ []) h le =
    let top = from_digits-cons 0 e (omega arith) h.1.0 in
    rw top (from_digits-cons (e + 0) d (omega (arith, h.1.0)) h.0)
from_digits-is (d ∷ e ∷ f ∷ ds) h le = absurd (omega arith)

pub wide : (ds : List ℕ) → IsClamped ds → 2 < length ds → 18446744073709551616 ≤ value ds
wide [] c lt = absurd (omega arith)
wide (d ∷ []) c lt = absurd (omega arith)
wide (d ∷ e ∷ []) c lt = absurd (omega arith)
wide (d ∷ e ∷ f ∷ ds) c lt = omega (arith, IsClamped-pos f ds c)

-- For an `int64_t` the shifts of `IsSmiValue` test the range of small integers.
pub is_smi_value-is : (v : ℤ) → is_int64 v ≡ true → is_smi_value v ≡ is_smi v
unfolding is_smi_value is_smi is_int64 to_uint64
is_smi_value-is (pos n) h = ground arith
is_smi_value-is (negsuc n) h = ground arith

pub new_integer-Canonical :
    (v : ℤ) → is_int64 v ≡ true → (number_value (new_integer v) ≡ v) × IsCanonical (new_integer v)
unfolding new_integer IsCanonical
new_integer-Canonical v h = elim (Bool-cases (is_smi v)) [
  | inl e ↦ rw (is_smi_value-is v h ∙ e) (refl, e)
  | inr e ↦ rw (is_smi_value-is v h ∙ e) (refl, (e, h))
]

not_int64 :
    (negative : Bool) (n : ℕ) → 9223372036854775808 < n → is_int64 (signed negative n) ≡ false
unfolding is_int64
not_int64 true n h = ground arith
not_int64 false n h = ground arith

not_int64_pos : (n : ℕ) → 9223372036854775807 < n → is_int64 (pos n) ≡ false
unfolding is_int64
not_int64_pos n h = ground arith

pub to_int64-pos : (n : ℕ) → n ≤ 9223372036854775807 → to_int64 n ≡ pos n
unfolding to_int64
to_int64-pos n h = ground arith

is_int64-pos : (n : ℕ) → n ≤ 9223372036854775807 → is_int64 (pos n) ≡ true
unfolding is_int64
is_int64-pos n h = ground arith

-- A negated absolute value, as a pattern.
to_int64-negsuc :
    (n : ℕ) → n < 9223372036854775808 → to_int64 (u64 (18446744073709551616 - suc n)) ≡ negsuc n
unfolding to_int64
to_int64-negsuc n h =
    let e : u64 (18446744073709551616 - suc n) ≡ 18446744073709551616 - suc n = omega arith in
    rw e (ground arith)

is_int64-negsuc : (n : ℕ) → n < 9223372036854775808 → is_int64 (negsuc n) ≡ true
unfolding is_int64
is_int64-negsuc n h = ground arith

ltb-true : (a b : ℕ) → ltb a b ≡ true → a < b
ltb-true a b h = ground arith

ltb-false : (a b : ℕ) → ltb a b ≡ false → b ≤ a
ltb-false a b h = ground arith

-- `Reduce` of a verified integer.
abbrev Reduces : Bool → List ℕ → Type 0
Reduces negative ds =
    (number_value (reduce (record { negative = negative; digits = ds }))
      ≡ signed negative (value ds))
    × IsCanonical (reduce (record { negative = negative; digits = ds }))

kept :
    (negative : Bool) (ds : List ℕ)
    → IsVerified (record { negative = negative; digits = ds })
    → is_int64 (signed negative (value ds)) ≡ false
    → reduce (record { negative = negative; digits = ds })
      ≡ large (record { negative = negative; digits = ds })
    → Reduces negative ds
unfolding IsCanonical
kept negative ds h out e = rw e (refl, (h, out))

reduced :
    (negative : Bool) (ds : List ℕ) (v : ℤ)
    → v ≡ signed negative (value ds)
    → is_int64 v ≡ true
    → reduce (record { negative = negative; digits = ds }) ≡ new_integer v
    → Reduces negative ds
reduced negative ds v is fits e = let c = new_integer-Canonical v fits in rw e (c.0 ∙ is, c.1)

module _ (ds : List ℕ) where
  reduce-long :
      (negative : Bool)
      → IsVerified (record { negative = negative; digits = ds })
      → ltb 2 (length ds) ≡ true
      → Reduces negative ds
  unfolding reduce
  reduce-long negative h e =
      kept negative ds h
        (not_int64 negative (value ds) (omega (arith, wide ds h.top (ltb-true 2 (length ds) e))))
        (rw (reduce, e))

  reduce-short :
      (negative : Bool)
      → IsVerified (record { negative = negative; digits = ds })
      → ltb 2 (length ds) ≡ false
      → Reduces negative ds
  unfolding reduce
  reduce-short false h e =
      let is = from_digits-is ds h.in_range (ltb-false 2 (length ds) e) in
      elim (Bool-cases (ltb 9223372036854775807 (value ds))) [
        | inl f ↦
            kept false ds h (not_int64_pos (value ds) (ltb-true _ _ f)) (rw (reduce, e, is, f))
        | inr f ↦
            reduced false ds (pos (value ds)) refl (is_int64-pos (value ds) (ltb-false _ _ f))
              (rw (reduce, e, is, f) (ap new_integer (to_int64-pos (value ds) (ltb-false _ _ f))))
      ]
  reduce-short true h e =
      let is = from_digits-is ds h.in_range (ltb-false 2 (length ds) e) in
      elim (Bool-cases (ltb 9223372036854775808 (value ds))) [
        | inl f ↦
            kept true ds h (not_int64 true (value ds) (ltb-true _ _ f)) (rw (reduce, e, is, f))
        | inr f ↦
            let below = ltb-false _ _ f in
            let one_less : value ds ≡ suc (value ds - 1) = omega (arith, nonzero ds h) in
            reduced true ds (negsuc (value ds - 1)) (sym (negative_is (value ds) (nonzero ds h)))
              (is_int64-negsuc (value ds - 1) (omega (arith, below, nonzero ds h)))
              (rw (reduce, e, is, f)
                (ap (λ (t : ℕ). new_integer (to_int64 (u64 (18446744073709551616 - t)))) one_less
                  ∙ ap new_integer
                      (to_int64-negsuc (value ds - 1) (omega (arith, below, nonzero ds h)))))
      ]

-- `Reduce` of a verified integer has its value, and is the smallest representation that can hold it.
pub reduce-Canonical :
    (l : LargeInteger)
    → IsVerified l
    → (number_value (reduce l) ≡ integer l) × IsCanonical (reduce l)
reduce-Canonical l h = elim (Bool-cases (ltb 2 (length l.digits))) [
  | inl e ↦ reduce-long l.digits l.negative h e
  | inr e ↦ reduce-short l.digits l.negative h e
]
