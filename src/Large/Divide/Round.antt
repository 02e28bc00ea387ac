-- ===== src/Large/Divide/Round.antt =====
-- A round of the long division: a digit of the quotient, and what is left.
use native.Mathlib.Nat.{
  mul-add, mul_comm, add-mul, mul-le-mul_left, div-add-mod', mod-lt, pow-suc, mul_assoc, one-le-pow,
}
use primordialsoup.Base.{
  ℕ, zero, suc, ◌+◌, ◌-◌, ◌*◌, ◌/◌, ◌%◌, ◌^◌, ◌≤◌, ◌<◌, ◌≡◌, refl, ap, ◌∙◌, Bool, true, false, List,
  [], ◌∷◌, length, get_or, take, drop, u64, arith, if◌then◌else◌, length-drop, dec_lt,
}
use primordialsoup.Large.Digits.{digit_base, value, weight, IsDigits, value-lt-weight}
use primordialsoup.Large.Divide.{estimate, add_back, divide_round}
use primordialsoup.Large.Divide.Subtract.{Subtracts, subtract_product-Subtracts, add_back-Adds}
use primordialsoup.Large.Divide.Estimate.{
  IsLeading, IsEstimate, estimate-IsEstimate, first_estimate,
}

suc_times : (q v : ℕ) → suc q * v ≡ q * v + v
suc_times q v =
    ap (λ (t : ℕ). t * v) (let f : suc q ≡ q + 1 = omega arith in f) ∙ omega (arith, add-mul q 1 v)

-- Digits by the lowest `k` of them and the others.
pub record Splits (k : ℕ) (ds : List ℕ) : Type 0 where
  pub is : value ds ≡ 4294967296 ^ k * value (drop k ds) + value (take k ds)
  pub low : value (take k ds) < 4294967296 ^ k
  pub in_range : IsDigits (drop k ds)
  pub low_range : IsDigits (take k ds)

pub shift_is :
    (d t h l w : ℕ)
    → t ≡ w * h + l
    → d + 4294967296 * t ≡ (w * 4294967296) * h + (d + 4294967296 * l)
shift_is d t h l w e = omega (
  arith,
  e,
  mul_comm w 4294967296,
  mul_assoc 4294967296 w h,
  ap (λ (t : ℕ). t * h) (mul_comm w 4294967296),
)

pub digits-Splits : (k : ℕ) (ds : List ℕ) → IsDigits ds → Splits k ds
digits-Splits zero ds h = record {
  is = omega arith;
  low = omega arith;
  in_range = h;
  low_range = tt;
}
digits-Splits (suc k) [] h = record {
  is = omega (arith);
  low = omega (arith, one-le-pow (suc k) 4294967296 (omega arith));
  in_range = tt;
  low_range = tt;
}
digits-Splits (suc k) (d ∷ ds) h =
    let ih = digits-Splits k ds h.1 in
    record {
      is = rw (pow-suc 4294967296 k) (shift_is d _ _ _ _ ih.is);
      low =
          rw (pow-suc 4294967296 k)
            (omega (arith, ih.low, h.0, mul_comm (4294967296 ^ k) 4294967296));
      in_range = ih.in_range;
      low_range = (h.0, ih.low_range);
    }

pub get_or-drop : (k i j : ℕ) (ds : List ℕ) → j ≡ i + k → get_or (drop k ds) i 0 ≡ get_or ds j 0
get_or-drop zero i j ds e = rw (let f : j ≡ i = omega (arith, e) in f) refl
get_or-drop (suc k) i j [] e = refl
get_or-drop (suc k) i j (d ∷ ds) e =
    let f : j ≡ suc (i + k) = omega (arith, e) in rw f (get_or-drop k i (i + k) ds refl)

two_digits :
    (xs : List ℕ)
    → IsDigits xs
    → length xs ≡ 2
    → (value xs ≡ get_or xs 1 0 * 4294967296 + get_or xs 0 0)
      × (get_or xs 0 0 < 4294967296)
      × (get_or xs 1 0 < 4294967296)
two_digits [] h e = absurd (omega arith)
two_digits (x ∷ []) h e = absurd (omega arith)
two_digits (x ∷ y ∷ []) h e = (omega arith, h.0, h.1.0)
two_digits (x ∷ y ∷ z ∷ xs) h e = absurd (omega arith)

three_digits :
    (xs : List ℕ)
    → IsDigits xs
    → 2 < length xs
    → value xs < 79228162514264337593543950336
    → (value xs ≡ 4294967296 * (get_or xs 2 0 * 4294967296 + get_or xs 1 0) + get_or xs 0 0)
      × (get_or xs 0 0 < 4294967296)
      × (get_or xs 2 0 * 4294967296 + get_or xs 1 0 < 18446744073709551616)
three_digits [] h e l = absurd (omega arith)
three_digits (x ∷ []) h e l = absurd (omega arith)
three_digits (x ∷ y ∷ []) h e l = absurd (omega arith)
three_digits (x ∷ y ∷ z ∷ xs) h e l =
    (omega (arith, h.0, h.1.0, h.1.1.0), h.0, omega (arith, h.1.0, h.1.1.0))

three_bound :
    (u v w hu hv lu lv : ℕ)
    → u ≡ w * hu + lu
    → v ≡ w * hv + lv
    → lv < w
    → hv < 18446744073709551616
    → u < 4294967296 * v
    → hu < 79228162514264337593543950336
three_bound u v w hu hv lu lv eu ev l h less = elim (dec_lt hu 79228162514264337593543950336) [
  | yes p ↦ p
  | no p ↦
      let le : w * 79228162514264337593543950336 ≤ w * hu = mul-le-mul_left w (omega arith) in
      let up : w * (hv + 1) ≤ w * 18446744073709551616 = mul-le-mul_left w (omega arith) in
      absurd (omega (arith, le, up, mul-add w hv 1))
]

module _ (vs us : List ℕ) (k : ℕ) (hv : IsDigits vs) (hu : IsDigits us)
    (size : length vs ≡ suc (suc k)) (longer : length vs < length us)
    (top : 2147483648 ≤ get_or vs (suc k) 0) (less : value us < 4294967296 * value vs) where
  abbrev top_digits : ℕ
  top_digits = get_or us (suc (suc k)) 0 * 4294967296 + get_or us (suc k) 0

  leading :
      (top_digits < 18446744073709551616)
      × IsLeading
          (get_or vs (suc k) 0)
          (get_or vs k 0)
          (get_or us k 0)
          top_digits
          (value us)
          (value vs)
          (4294967296 ^ k)
  leading =
      let v = digits-Splits k vs hv in
      let u = digits-Splits k us hu in
      let (v_is, v0, v1) = two_digits (drop k vs) v.in_range (omega (arith, length-drop k vs)) in
      let small = three_bound _ _ _ _ _ _ _ u.is v.is v.low (omega (arith, v_is, v0, v1)) less in
      let (u_is, u0, u1) =
        three_digits (drop k us) u.in_range (omega (arith, length-drop k us)) small in
      let vk : get_or (drop k vs) 0 0 ≡ get_or vs k 0 = get_or-drop k 0 k vs (omega arith) in
      let vs1 : get_or (drop k vs) 1 0 ≡ get_or vs (suc k) 0 =
        get_or-drop k 1 (suc k) vs (omega arith) in
      let uk : get_or (drop k us) 0 0 ≡ get_or us k 0 = get_or-drop k 0 k us (omega arith) in
      let us1 : get_or (drop k us) 1 0 ≡ get_or us (suc k) 0 =
        get_or-drop k 1 (suc k) us (omega arith) in
      let us2 : get_or (drop k us) 2 0 ≡ get_or us (suc (suc k)) 0 =
        get_or-drop k 2 (suc (suc k)) us (omega arith) in
      (
        omega (arith, u1, us1, us2),
        record {
          vl = value (take k vs);
          ul = value (take k us);
          v_is =
              v.is
              ∙ ap (λ (t : ℕ). 4294967296 ^ k * t + value (take k vs))
                  (omega (arith, v_is, vk, vs1));
          u_is =
              u.is
              ∙ ap (λ (t : ℕ). 4294967296 ^ k * t + value (take k us))
                  (omega (arith, u_is, uk, us1, us2));
          vl_less = v.low;
          ul_less = u.low;
          less = less;
          v1_least = top;
          v1_digit = omega (arith, v1, vs1);
          v2_digit = omega (arith, v0, vk);
          a_digit = omega (arith, u0, uk);
        },
      )

  abbrev estimated : ℕ
  estimated =
      let v1 = get_or vs (suc k) 0 in
      estimate 3 v1 (get_or vs k 0) (get_or us k 0) (top_digits / v1)
        (top_digits - top_digits / v1 * v1)

  round-IsEstimate : IsEstimate (value us) (value vs) estimated
  round-IsEstimate =
      let v1 = get_or vs (suc k) 0 in
      let p = top_digits in
      let l = leading.1 in
      let division = div-add-mod' p v1 in
      let rest : p % v1 < v1 = mod-lt p (omega (arith, top)) in
      let next = suc_times (p / v1) v1 in
      let above = first_estimate l (suc (p / v1)) (omega (arith, next, division, rest)) in
      estimate-IsEstimate l 3 (p / v1) (p - p / v1 * v1) (omega (arith, division))
        (omega (arith, above, suc_times (p / v1) (value vs)))
        (omega (arith, division, rest, l.v1_digit)) (omega (arith, top))

-- What a round leaves.
pub record IsRound (vs us : List ℕ) (p : ℕ × List ℕ) : Type 0 where
  pub digit : p.0 < 4294967296
  pub is : value us ≡ p.0 * value vs + value p.1
  pub smaller : value p.1 < value vs
  pub in_range : IsDigits p.1
  pub width : length p.1 ≡ length us

no_carry :
    (u b w v r qv rr c : ℕ)
    → u + 4294967296 * w ≡ r + qv
    → qv ≤ u + v
    → r < 4294967296 * w
    → r + v ≡ rr + c * (4294967296 * w)
    → c ≤ 1
    → rr < 4294967296 * w
    → r + v ≡ rr + 4294967296 * w
no_carry u b w v r qv rr zero e l s f c t = absurd (omega (arith))
no_carry u b w v r qv rr (suc zero) e l s f c t = omega arith
no_carry u b w v r qv rr (suc (suc n)) e l s f c t = absurd (omega arith)

lowered :
    (q v u w r : ℕ)
    → u + 4294967296 * w ≡ r + q * v
    → u < 4294967296 * w
    → r < 4294967296 * w
    → (0 < q) × (q * v ≡ (q - 1) * v + v)
lowered zero v u w r e h k = absurd (omega arith)
lowered (suc q) v u w r e h k =
    let m : suc q - 1 ≡ q = omega arith in (omega arith, rw m (suc_times q v))

module _ (vs us : List ℕ) (hv : IsDigits vs) (hu : IsDigits us) (longer : length vs < length us)
    (less : value us < 4294967296 * value vs) (q : ℕ) (e : IsEstimate (value us) (value vs) q) where
  abbrev subtracted : (p : List ℕ × Bool) → Subtracts q 0 vs us p → ℕ × List ℕ
  subtracted (rest, negative) s =
      if negative
      then ((q % digit_base + digit_base - 1) % digit_base, add_back 0 vs rest)
      else (q % digit_base, rest)

  subtracted-IsRound :
      (p : List ℕ × Bool) (s : Subtracts q 0 vs us p) → IsRound vs us (subtracted p s)
  subtracted-IsRound (rest, false) s =
      let d : q % 4294967296 ≡ q = omega (arith, e.digit) in
      rw d (record {
        digit = e.digit;
        is = omega (arith, s.is);
        smaller = omega (arith, s.is, e.not_less);
        in_range = s.in_range;
        width = s.width;
      })
  subtracted-IsRound (rest, true) s =
      let a = add_back-Adds vs rest 0 hv s.in_range (omega (arith, s.width)) (omega arith) in
      let bound : value us < 4294967296 * weight vs = omega (arith, value-lt-weight vs hv) in
      let (some_q, split) =
        lowered q (value vs) (value us) (weight vs) (value rest) (omega (arith, s.is)) bound
          (s.bounded bound) in
      let sum =
        no_carry (value us) 0 (weight vs) (value vs) (value rest) (q * value vs) _ a.carry
          (omega (arith, s.is)) e.not_more (s.bounded bound) (omega (arith, a.is)) a.small_carry
          (a.bounded (s.bounded bound)) in
      let d : (q % 4294967296 + 4294967296 - 1) % 4294967296 ≡ q - 1 = omega (arith, e.digit) in
      rw d (record {
        digit = omega (arith, e.digit);
        is = omega (arith, sum, split, s.is);
        smaller = omega (arith, sum, split, s.is, s.bounded bound);
        in_range = a.in_range;
        width = a.width ∙ s.width;
      })

at_size : (n k : ℕ) → n ≡ suc (suc k) → (n - 1 ≡ suc k) × (n - 2 ≡ k)
at_size n k e = (omega arith, omega arith)

pub divide_round-IsRound :
    (vs us : List ℕ) (k : ℕ)
    → IsDigits vs
    → IsDigits us
    → length vs ≡ suc (suc k)
    → length vs < length us
    → 2147483648 ≤ get_or vs (suc k) 0
    → value us < 4294967296 * value vs
    → IsRound vs us (divide_round vs us)
unfolding divide_round
divide_round-IsRound vs us k hv hu size longer top less =
    let e = round-IsEstimate vs us k hv hu size longer top less in
    let wide : u64 (get_or us (suc (suc k)) 0 * digit_base + get_or us (suc k) 0)
        ≡ top_digits vs us k hv hu size longer top less =
      omega (arith, (leading vs us k hv hu size longer top less).0) in
    let (one, two) = at_size _ k size in
    rw (one, two, size, wide)
      (subtracted-IsRound vs us hv hu longer less _ e _
        (subtract_product-Subtracts vs us _ 0 hv hu longer e.digit (omega arith)))
