-- ===== src/Large/Divide/Rounds.antt =====
-- The loop of the long division.
use native.Mathlib.Nat.{mul-add, mul_left_comm, mul_comm, mul_assoc, pow-suc}
use primordialsoup.Base.{
  ℕ, zero, suc, ◌+◌, ◌*◌, ◌^◌, ◌≤◌, ◌<◌, ◌≡◌, refl, ap, ◌∙◌, List, [], ◌∷◌, ◌++◌, length, get_or,
  take, drop, length-take, length-drop, length-append, arith,
}
use primordialsoup.Large.Digits.{value, IsDigits}
use primordialsoup.Large.Divide.{divide_round, divide_rounds}
use primordialsoup.Large.Divide.Round.{digits-Splits, shift_is, divide_round-IsRound}

pub value-append :
    (xs ys : List ℕ) → value (xs ++ ys) ≡ 4294967296 ^ length xs * value ys + value xs
value-append [] ys = omega arith
value-append (x ∷ xs) ys =
    rw (pow-suc 4294967296 (length xs)) (shift_is x _ _ _ _ (value-append xs ys))

pub append-IsDigits : (xs ys : List ℕ) → IsDigits xs → IsDigits ys → IsDigits (xs ++ ys)
append-IsDigits [] ys h k = k
append-IsDigits (x ∷ xs) ys h k = (h.0, append-IsDigits xs ys h.1 k)

drop-append : (n : ℕ) (xs ys : List ℕ) → length xs ≡ n → drop n (xs ++ ys) ≡ ys
drop-append zero [] ys e = refl
drop-append zero (x ∷ xs) ys e = absurd (omega arith)
drop-append (suc n) [] ys e = absurd (omega arith)
drop-append (suc n) (x ∷ xs) ys e = drop-append n xs ys (omega arith)

drop_digit :
    (j : ℕ) (us : List ℕ)
    → IsDigits us
    → value (drop j us) < 4294967296 + 4294967296 * value (drop (suc j) us)
drop_digit zero [] h = omega arith
drop_digit zero (u ∷ us) h = omega (arith, h.0)
drop_digit (suc j) [] h = omega arith
drop_digit (suc j) (u ∷ us) h = drop_digit j us h.1

-- What the loop leaves, on the digits `us` and with the digits `qs` of the quotient.
pub record AreRounds (vs us : List ℕ) (left : ℕ) (qs : List ℕ) (p : List ℕ × List ℕ) : Type 0 where
  pub is : value us + value vs * (4294967296 ^ left * value qs) ≡ value p.1 + value vs * value p.0
  pub smaller : value p.1 < value vs
  pub quotient_range : IsDigits p.0
  pub in_range : IsDigits p.1
  pub width : length p.1 ≡ length us

compose :
    (us us1 us2 v w ds t q rest qs q2 : ℕ)
    → us ≡ w * ds + t
    → ds ≡ q * v + rest
    → us1 ≡ w * rest + t
    → us1 + v * (w * (q + 4294967296 * qs)) ≡ us2 + v * q2
    → us + v * (w * 4294967296 * qs) ≡ us2 + v * q2
compose us us1 us2 v w ds t q rest qs q2 a b c d = omega (
  arith,
  a,
  c,
  d,
  ap (λ (x : ℕ). w * x) b,
  mul-add w (q * v) rest,
  ap (λ (x : ℕ). v * x) (mul-add w q (4294967296 * qs)),
  mul-add v (w * q) (w * (4294967296 * qs)),
  ap (λ (x : ℕ). v * x) (mul_assoc w 4294967296 qs),
  mul_left_comm v w q,
  ap (λ (x : ℕ). w * x) (mul_comm v q),
)

module _ (vs : List ℕ) (k : ℕ) (hv : IsDigits vs) (size : length vs ≡ suc (suc k))
    (top : 2147483648 ≤ get_or vs (suc k) 0) where
  pub divide_rounds-AreRounds :
      (left : ℕ) (qs us : List ℕ)
      → IsDigits qs
      → IsDigits us
      → left + length vs ≤ length us
      → value (drop left us) < value vs
      → AreRounds vs us left qs (divide_rounds left vs qs us)
  unfolding divide_rounds
  divide_rounds-AreRounds zero qs us hq hu fits less = record {
    is = omega arith;
    smaller = less;
    quotient_range = hq;
    in_range = hu;
    width = refl;
  }
  divide_rounds-AreRounds (suc j) qs us hq hu fits less =
      let s = digits-Splits j us hu in
      let r =
        divide_round-IsRound vs (drop j us) k hv s.in_range size (omega (arith, length-drop j us))
          top (omega (arith, drop_digit j us hu)) in
      let (q, rest) = divide_round vs (drop j us) in
      let low : length (take j us) ≡ j = omega (arith, length-take j us) in
      let next = take j us ++ rest in
      let ih =
        divide_rounds-AreRounds j (q ∷ qs) next (r.digit, hq)
          (append-IsDigits (take j us) rest s.low_range r.in_range)
          (omega (arith, length-append (take j us) rest, r.width, length-drop j us, low))
          (rw (drop-append j (take j us) rest low) (r.smaller)) in
      record {
        is = rw (pow-suc 4294967296 j) (
            compose _ _ _ (value vs) _ _ _ q _ (value qs) _ s.is r.is
              (value-append (take j us) rest
                ∙ ap (λ (x : ℕ). 4294967296 ^ x * value rest + value (take j us)) low)
              ih.is);
        smaller = ih.smaller;
        quotient_range = ih.quotient_range;
        in_range = ih.in_range;
        width =
            ih.width
            ∙ omega (arith, length-append (take j us) rest, r.width, length-drop j us, low);
      }
