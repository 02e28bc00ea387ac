-- ===== src/Large/Divide/Loop.antt =====
-- The quotient and the remainder that the loop of the long division leaves.
use native.Mathlib.Nat.{
  mul-add, mul_comm, mul_assoc, mul-le-mul_left, mul-le-mul_right, pow-le-pow_right, mod-eq_of_lt,
  div-eq_of_lt, mul-zero, mod-lt, div-le_self, mul-lt-mul_of_pos_right,
}
use primordialsoup.Base.{
  ℕ, suc, ◌+◌, ◌-◌, ◌*◌, ◌/◌, ◌^◌, ◌≤◌, ◌<◌, ◌≡◌, refl, sym, ap, ◌∙◌, List, [], ◌∷◌, ◌==◌, length,
  get_or, take, drop, arith, dec_lt, length-append,
}
use primordialsoup.Base.Powers.{two-pow_pos, pow_add}
use primordialsoup.Large.Digits.{value, weight, IsDigits, IsClamped, value-lt-weight}
use primordialsoup.Large.Divide.{
  normalized_divisor, normalized_dividend, divide_rounds, denormalized, highest_digit, countl_zero,
  all_zero, normalized,
}
use primordialsoup.Large.Divide.Round.{digits-Splits, get_or-drop}
use primordialsoup.Large.Divide.Rounds.{
  AreRounds, divide_rounds-AreRounds, value-append, append-IsDigits,
}
use primordialsoup.Large.Divide.Normal.{
  last, carried, carried-last, normalized-is, highest-normalized, denormalized-is, weight-pow,
  value-take, all_zero-is, countl_zero-is,
}

cancel : (p a b c rest : ℕ) → p * a ≡ b * p + rest + p * c → rest < p → a ≡ b + c
cancel p a b c rest e h = elim (dec_lt a (b + c)) [
  | yes l ↦
      let le : p * (a + 1) ≤ p * (b + c) = mul-le-mul_left p (omega arith) in
      absurd (omega (arith, le, e, mul-add p a 1, mul-add p b c, mul_comm p b))
  | no g ↦ elim (dec_lt (b + c) a) [
    | yes l ↦
        let le : p * (b + c + 1) ≤ p * a = mul-le-mul_left p (omega arith) in
        absurd (omega (arith, le, e, mul-add p (b + c) 1, mul-add p b c, mul_comm p b))
    | no l ↦ omega arith
  ]
]

cancel_lt : (p a b : ℕ) → p * a < p * b → a < b
cancel_lt p a b h = elim (dec_lt a b) [
  | yes l ↦ l
  | no l ↦ let le : p * b ≤ p * a = mul-le-mul_left p (omega arith) in absurd (omega (arith, le))
]

first_digit : (xs : List ℕ) → get_or xs 0 0 ≤ value xs
first_digit [] = omega arith
first_digit (x ∷ xs) = omega arith

last_range : (d : ℕ) (ds : List ℕ) → IsDigits (d ∷ ds) → last d ds < 4294967296
last_range d [] h = h.0
last_range d (e ∷ ds) h = last_range e ds h.1

clamped_last :
    (d : ℕ) (ds : List ℕ)
    → IsDigits (d ∷ ds)
    → IsClamped (d ∷ ds)
    → (0 < last d ds) × (last d ds < 4294967296)
clamped_last d [] h c = (c, h.0)
clamped_last d (e ∷ ds) h c = clamped_last e ds h.1 c

-- The divisor, shifted until its highest bit is set.
pub record IsNormal (s : ℕ) (es vs : List ℕ) (k : ℕ) : Type 0 where
  pub shift : s ≤ 31
  pub is : value vs ≡ 2 ^ s * value es
  pub in_range : IsDigits vs
  pub width : length vs ≡ suc k
  pub top : 2147483648 ≤ get_or vs k 0

divisor-IsNormal :
    (d : ℕ) (ds : List ℕ)
    → IsDigits (d ∷ ds)
    → IsClamped (d ∷ ds)
    → IsNormal
        (countl_zero (last d ds))
        (d ∷ ds)
        (normalized_divisor (countl_zero (last d ds)) (d ∷ ds))
        (length ds)
divisor-IsNormal d ds h c =
    let (pos, small) = clamped_last d ds h c in
    let (shift, fits, top) = countl_zero-is (last d ds) pos small in
    let s = countl_zero (last d ds) in
    let both : s + (32 - s) ≡ 32 = omega (arith, shift) in
    let n = normalized-is s (32 - s) both refl 0 (d ∷ ds) (two-pow_pos s) h in
    let none_left : carried (32 - s) 0 (d ∷ ds) ≡ 0 =
      carried-last (32 - s) 0 d ds ∙ div-eq_of_lt fits in
    record {
      shift = shift;
      is =
          omega
            (arith, n.0, ap (λ (t : ℕ). weight (d ∷ ds) * t) none_left, mul-zero (weight (d ∷ ds)));
      in_range = n.1;
      width = n.2;
      top = omega (
        arith,
        highest-normalized s (32 - s) both refl 0 d ds (two-pow_pos s) h,
        top,
        ap (λ (t : ℕ). t * 2 ^ s) (mod-eq_of_lt fits),
      );
    }

-- The dividend, shifted, with the digit that is carried out of it.
record IsShifted (s : ℕ) (ds us : List ℕ) : Type 0 where
  is : value us ≡ 2 ^ s * value ds
  in_range : IsDigits us
  width : length us ≡ suc (length ds)

append_value : (w v n t : ℕ) → n + w * t ≡ 0 + v → w * (t + 4294967296 * 0) + n ≡ v
append_value w v n t e =
    let f : t + 4294967296 * 0 ≡ t = omega arith in omega (arith, e, ap (λ (x : ℕ). w * x) f)

pub last_index : (d : ℕ) (ds : List ℕ) → highest_digit (d ∷ ds) ≡ last d ds
last_index d ds =
    let e : suc (length ds) - 1 ≡ length ds = omega arith in ap (λ (i : ℕ). get_or (d ∷ ds) i 0) e

dividend-IsShifted :
    (s d : ℕ) (ds : List ℕ)
    → s ≤ 31
    → IsDigits (d ∷ ds)
    → IsShifted s (d ∷ ds) (normalized_dividend s (d ∷ ds))
dividend-IsShifted s d ds shift h =
    let both : s + (32 - s) ≡ 32 = omega (arith, shift) in
    let (is, range, width) = normalized-is s (32 - s) both refl 0 (d ∷ ds) (two-pow_pos s) h in
    let top : carried (32 - s) 0 (d ∷ ds) ≡ highest_digit (d ∷ ds) / 2 ^ (32 - s) =
      carried-last (32 - s) 0 d ds ∙ ap (λ (t : ℕ). t / 2 ^ (32 - s)) (sym (last_index d ds)) in
    let power : weight (d ∷ ds) ≡ 4294967296 ^ length (normalized s 0 (d ∷ ds)) =
      weight-pow (d ∷ ds) ∙ ap (λ (t : ℕ). 4294967296 ^ t) (sym width) in
    let small : highest_digit (d ∷ ds) / 2 ^ (32 - s) < 4294967296 = omega (
      arith,
      div-le_self (highest_digit (d ∷ ds)) (2 ^ (32 - s)),
      last_index d ds,
      last_range d ds h,
    ) in
    record {
      is = value-append (normalized s 0 (d ∷ ds)) _ ∙ append_value _ _ _ _ (rw (top, power) at is);
      in_range = append-IsDigits _ _ range (small, tt);
      width = length-append (normalized s 0 (d ∷ ds)) _ ∙ omega (arith, width);
    }

high_part :
    (s j k m v u hi lo top vlo : ℕ)
    → s ≤ 31
    → m ≡ j + k
    → u < 2 ^ s * 4294967296 ^ m
    → u ≡ 4294967296 ^ j * hi + lo
    → v ≡ 4294967296 ^ k * top + vlo
    → 2147483648 ≤ top
    → hi < v
high_part s j k m v u hi lo top vlo hs hm hu eu ev ht =
    let p : 2 ^ s ≤ 2 ^ 31 = pow-le-pow_right {n = 2} (omega arith) {i = s} {j = 31} hs in
    let a : 2 ^ s * 4294967296 ^ m ≤ 2147483648 * 4294967296 ^ m =
      mul-le-mul_right (4294967296 ^ m) p in
    let b : 4294967296 ^ m ≡ 4294967296 ^ j * 4294967296 ^ k =
      ap (λ (t : ℕ). 4294967296 ^ t) hm ∙ pow_add 4294967296 j k in
    let c : 4294967296 ^ k * 2147483648 ≤ 4294967296 ^ k * top =
      mul-le-mul_left (4294967296 ^ k) ht in
    let below : hi < 4294967296 ^ k * 2147483648 =
      cancel_lt (4294967296 ^ j) hi (4294967296 ^ k * 2147483648) (
        omega (
          arith,
          a,
          hu,
          eu,
          ap (λ (t : ℕ). 2147483648 * t) b,
          mul_assoc (4294967296 ^ j) (4294967296 ^ k) 2147483648,
        )) in
    omega (arith, below, c, ev)

-- The digits of the quotient, and the remainder, shifted, in the digits `us`.
pub record IsLoop (s n : ℕ) (ds es qs us : List ℕ) : Type 0 where
  pub quotient_range : IsDigits qs
  pub in_range : IsDigits (denormalized n s us)
  pub is : value ds ≡ value es * value qs + value (denormalized n s us)
  pub smaller : value (denormalized n s us) < value es
  pub zero_test : all_zero (take (n + 1) us) ≡ (value (denormalized n s us) == 0)

zero_product : (s u d : ℕ) → u ≡ d * 2 ^ s → (u == 0) ≡ (d == 0)
zero_product s u d e = elim (dec_lt 0 d) [
  | yes h ↦
      let le : 1 * 2 ^ s ≤ d * 2 ^ s = mul-le-mul_right (2 ^ s) (omega arith) in
      let pos = two-pow_pos s in ground arith
  | no h ↦
      let z : u ≡ 0 = e ∙ ap (λ (t : ℕ). t * 2 ^ s) {y = 0} (omega arith) ∙ omega arith in
      ground arith
]

regroup :
    (s vd ve v u q dn rest : ℕ)
    → 2 ^ s * vd + v * 0 ≡ u + v * q
    → v ≡ 2 ^ s * ve
    → dn * 2 ^ s + rest ≡ u
    → 2 ^ s * vd ≡ dn * 2 ^ s + rest + 2 ^ s * (ve * q)
regroup s vd ve v u q dn rest e f g =
    omega (arith, e, g, ap (λ (t : ℕ). t * q) f, mul_assoc (2 ^ s) ve q, mul-zero v)

exact_part :
    (p u dn rest vd c : ℕ)
    → dn * p + rest ≡ u
    → p * vd ≡ dn * p + rest + p * c
    → vd ≡ dn + c
    → u ≡ dn * p
exact_part p u dn rest vd c e f g =
    omega (arith, e, f, ap (λ (t : ℕ). p * t) g, mul-add p dn c, mul_comm p dn)

module _ (d : ℕ) (ds : List ℕ) (e f : ℕ) (es : List ℕ) where
  abbrev pub shift : ℕ
  shift = countl_zero (last e (f ∷ es))

  abbrev pub run : List ℕ × List ℕ
  run =
      divide_rounds (length (d ∷ ds) - length (e ∷ f ∷ es) + 1)
        (normalized_divisor shift (e ∷ f ∷ es)) [] (normalized_dividend shift (d ∷ ds))

module _ (d : ℕ) (ds : List ℕ) (e f : ℕ) (es : List ℕ) (hd : IsDigits (d ∷ ds))
    (he : IsDigits (e ∷ f ∷ es)) (clamped : IsClamped (e ∷ f ∷ es))
    (fits : length (e ∷ f ∷ es) ≤ length (d ∷ ds)) where
  rounds :
      AreRounds
        (normalized_divisor (shift d ds e f es) (e ∷ f ∷ es))
        (normalized_dividend (shift d ds e f es) (d ∷ ds))
        (length (d ∷ ds) - length (e ∷ f ∷ es) + 1)
        []
        (run d ds e f es)
  rounds =
      let v = divisor-IsNormal e (f ∷ es) he clamped in
      let u = dividend-IsShifted (shift d ds e f es) d ds v.shift hd in
      let vs = normalized_divisor (shift d ds e f es) (e ∷ f ∷ es) in
      let us = normalized_dividend (shift d ds e f es) (d ∷ ds) in
      let left = length (d ∷ ds) - length (e ∷ f ∷ es) + 1 in
      let k = length (f ∷ es) in
      let us_split = digits-Splits left us u.in_range in
      let vs_split = digits-Splits k vs v.in_range in
      let top : get_or (drop k vs) 0 0 ≡ get_or vs k 0 = get_or-drop k 0 k vs (omega arith) in
      let bound : value us < 2 ^ (shift d ds e f es) * 4294967296 ^ length (d ∷ ds) = omega (
        arith,
        u.is,
        ap (λ (t : ℕ). 2 ^ (shift d ds e f es) * t) (weight-pow (d ∷ ds)),
        mul-lt-mul_of_pos_right (value-lt-weight (d ∷ ds) hd) (two-pow_pos (shift d ds e f es)),
        mul_comm (2 ^ (shift d ds e f es)) (value (d ∷ ds)),
        mul_comm (2 ^ (shift d ds e f es)) (weight (d ∷ ds)),
      ) in
      divide_rounds-AreRounds vs (length es) v.in_range v.width v.top left [] us tt u.in_range
        (omega (arith, v.width, u.width))
        (high_part (shift d ds e f es) left k (length (d ∷ ds)) (value vs) (value us) _ _
          (value (drop k vs)) _ v.shift (omega arith) bound us_split.is vs_split.is
          (omega (arith, first_digit (drop k vs), top, v.top)))

  pub run-IsLoop :
      IsLoop
        (shift d ds e f es)
        (length (e ∷ f ∷ es))
        (d ∷ ds)
        (e ∷ f ∷ es)
        (run d ds e f es).0
        (run d ds e f es).1
  run-IsLoop =
      let v = divisor-IsNormal e (f ∷ es) he clamped in
      let u = dividend-IsShifted (shift d ds e f es) d ds v.shift hd in
      let r = rounds in
      let vs = normalized_divisor (shift d ds e f es) (e ∷ f ∷ es) in
      let (qs, us) = (run d ds e f es) in
      let n = length (e ∷ f ∷ es) in
      let rest = denormalized n (shift d ds e f es) us in
      let bound : value us < 4294967296 ^ n = omega (
        arith,
        r.smaller,
        value-lt-weight vs v.in_range,
        weight-pow vs,
        ap (λ (t : ℕ). 4294967296 ^ t) v.width,
      ) in
      let (back, range) =
        denormalized-is (shift d ds e f es) (32 - (shift d ds e f es)) (omega (arith, v.shift)) refl
          (length (f ∷ es)) us r.in_range (omega (arith, r.width, u.width)) in
      let all = back ∙ value-take n us r.in_range bound in
      let whole =
        regroup (shift d ds e f es) (value (d ∷ ds)) (value (e ∷ f ∷ es)) (value vs) (value us)
          (value qs) (value rest) _
          (ap (λ (t : ℕ). t + value vs * 0) (sym u.is)
            ∙ ap
                (λ (t : ℕ). value (normalized_dividend (shift d ds e f es) (d ∷ ds)) + value vs * t)
                (sym (mul-zero _))
            ∙ r.is)
          v.is all in
      let is =
        cancel (2 ^ (shift d ds e f es)) _ (value rest) _ _ whole
          (mod-lt (get_or us 0 0) (two-pow_pos (shift d ds e f es))) in
      let divides : value us ≡ value rest * 2 ^ (shift d ds e f es) =
        exact_part _ _ _ _ _ _ all whole is in
      record {
        quotient_range = r.quotient_range;
        in_range = range;
        is = omega (arith, is);
        smaller = cancel_lt (2 ^ (shift d ds e f es)) _ _ (
            omega
              (arith, divides, r.smaller, v.is, mul_comm (2 ^ (shift d ds e f es)) (value rest)));
        zero_test =
            all_zero-is (take (n + 1) us)
            ∙ ap (λ (t : ℕ). t == 0)
                (value-take (n + 1) us r.in_range (
                  omega (
                    arith,
                    bound,
                    pow-le-pow_right {n = 4294967296} (omega arith) {i = n} {j = n + 1}
                        (omega arith),
                  )))
            ∙ zero_product (shift d ds e f es) _ _ divides;
      }
