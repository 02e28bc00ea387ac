-- ===== src/Large/Divide/Subtract.antt =====
-- The two loops of a round of the long division: the product is subtracted, and the divisor added back.
use native.Mathlib.Nat.{mul-add, mul-zero, mul_left_comm, mul-le-mul}
use primordialsoup.Base.{
  ℕ, suc, ◌+◌, ◌*◌, ◌/◌, ◌%◌, ◌≤◌, ◌<◌, ◌≡◌, refl, ap, Bool, true, false, List, [], ◌∷◌, leb,
  length, u64, sub64, sar32, arith,
}
use primordialsoup.Large.Digits.{digit_base, value, weight, IsDigits}
use primordialsoup.Large.Divide.{subtract_product, add_back}

-- One digit less a digit of the product and what is carried.
borrow_step :
    (u k p : ℕ)
    → u < 4294967296
    → k ≤ 4294967296
    → p ≤ 18446744065119617025
    → let t = sub64 (sub64 u k) (p % digit_base) in
      let c = sub64 (p / digit_base) (sar32 t) in
      (u + 4294967296 * c ≡ t % digit_base + k + p) × (c ≤ 4294967296)
borrow_step u k p hu hk hp = ground arith

product_bound : (q v : ℕ) → q < 4294967296 → v < 4294967296 → q * v ≤ 18446744065119617025
product_bound q v h k =
    let le : q * v ≤ 4294967295 * 4294967295 =
      mul-le-mul {n₂ = 4294967295} {m₂ = 4294967295} (omega arith) (omega arith) in
    omega arith

-- What is borrowed from beyond the digits.
abbrev pub borrowed : Bool → ℕ → ℕ
borrowed true w = w
borrowed false w = 0

last_borrow :
    (u k : ℕ)
    → u < 4294967296
    → k ≤ 4294967296
    → (b : Bool) → leb 9223372036854775808 (sub64 u k) ≡ b
    → u + borrowed b 4294967296 ≡ sub64 u k % digit_base + k
last_borrow u k hu hk true e = ground arith
last_borrow u k hu hk false e = ground arith

-- The digits `us`, of which there is one more than of `vs`, less `k` and the product.
pub record Subtracts (q k : ℕ) (vs us : List ℕ) (p : List ℕ × Bool) : Type 0 where
  pub in_range : IsDigits p.0
  pub width : length p.0 ≡ length us
  pub is : value us + borrowed p.1 (4294967296 * weight vs) ≡ value p.0 + k + q * value vs
  pub bounded : value us < 4294967296 * weight vs → value p.0 < 4294967296 * weight vs

borrow_above : (b : Bool) (w : ℕ) → borrowed b (4294967296 * w) ≡ 4294967296 * borrowed b w
borrow_above true w = refl
borrow_above false w = refl

compose :
    (u k q v us vs rest w c t : ℕ) (b : Bool)
    → u + 4294967296 * c ≡ t + k + q * v
    → us + borrowed b (4294967296 * w) ≡ rest + c + q * vs
    → u + 4294967296 * us + borrowed b (4294967296 * (4294967296 * w))
      ≡ t + 4294967296 * rest + k + q * (v + 4294967296 * vs)
compose u k q v us vs rest w c t b e f = omega (
  arith,
  e,
  f,
  borrow_above b (4294967296 * w),
  mul-add q v (4294967296 * vs),
  mul_left_comm q 4294967296 vs,
)

keep : (t rest w : ℕ) → t < 4294967296 → rest < w → t + 4294967296 * rest < 4294967296 * w
keep t rest w h k = omega arith

pub subtract_product-Subtracts :
    (vs us : List ℕ) (q k : ℕ)
    → IsDigits vs
    → IsDigits us
    → length vs < length us
    → q < 4294967296
    → k ≤ 4294967296
    → Subtracts q k vs us (subtract_product q k vs us)
unfolding subtract_product
subtract_product-Subtracts [] [] q k hv hu lt hq hk = absurd (omega arith)
subtract_product-Subtracts (v ∷ vs) [] q k hv hu lt hq hk = absurd (omega arith)
subtract_product-Subtracts [] (u ∷ us) q k hv hu lt hq hk =
    let last = last_borrow u k hu.0 hk _ refl in
    record {
      in_range = (omega arith, hu.1);
      width = refl;
      is = omega (arith, last, mul-zero q);
      bounded = λ h. omega arith;
    }
subtract_product-Subtracts (v ∷ vs) (u ∷ us) q k hv hu lt hq hk =
    let product = product_bound q v hq hv.0 in
    let p : u64 (q * v) ≡ q * v = omega (arith, product) in
    let (step, small) = borrow_step u k (q * v) hu.0 hk product in
    rw p (
      let ih = subtract_product-Subtracts vs us q _ hv.1 hu.1 (omega arith) hq small in
      record {
        in_range = (omega arith, ih.in_range);
        width = ap suc ih.width;
        is = compose u k q v _ _ _ _ _ _ _ step ih.is;
        bounded = λ h. keep _ _ _ (omega arith) (ih.bounded (omega arith));
      })

-- The digits `us` and the divisor, with what is carried out of them.
pub record Adds (k : ℕ) (vs us rest : List ℕ) : Type 0 where
  pub in_range : IsDigits rest
  pub width : length rest ≡ length us
  pub carry : ℕ
  pub is : value us + value vs + k ≡ value rest + carry * (4294967296 * weight vs)
  pub small_carry : carry ≤ 1
  pub bounded : value us < 4294967296 * weight vs → value rest < 4294967296 * weight vs

add_step :
    (u v k : ℕ)
    → u < 4294967296
    → v < 4294967296
    → k ≤ 1
    → (sar32 (u64 (u + v + k)) ≤ 1)
      × (u + v + k ≡ u64 (u + v + k) % digit_base + 4294967296 * sar32 (u64 (u + v + k)))
add_step u v k hu hv hk = ground arith

add_last :
    (u us k : ℕ)
    → (u + k) % 4294967296 + 4294967296 * us + (u + k) / 4294967296 * 4294967296
      ≡ u + 4294967296 * us + k
add_last u us k = omega arith

add_compose :
    (u v k us vs rest w c carry t : ℕ)
    → u + v + k ≡ t + 4294967296 * c
    → us + vs + c ≡ rest + carry * w
    → u + 4294967296 * us + (v + 4294967296 * vs) + k
      ≡ t + 4294967296 * rest + carry * (4294967296 * w)
add_compose u v k us vs rest w c carry t e f = omega (arith, e, f, mul_left_comm carry 4294967296 w)

pub add_back-Adds :
    (vs us : List ℕ) (k : ℕ)
    → IsDigits vs
    → IsDigits us
    → length vs < length us
    → k ≤ 1
    → Adds k vs us (add_back k vs us)
unfolding add_back
add_back-Adds [] [] k hv hu lt hk = absurd (omega arith)
add_back-Adds (v ∷ vs) [] k hv hu lt hk = absurd (omega arith)
add_back-Adds [] (u ∷ us) k hv hu lt hk = record {
  in_range = (omega arith, hu.1);
  width = refl;
  carry = (u + k) / 4294967296;
  is = omega (arith, add_last u (value us) k);
  small_carry = omega (arith, hu.0);
  bounded = λ h. omega arith;
}
add_back-Adds (v ∷ vs) (u ∷ us) k hv hu lt hk =
    let (small, step) = add_step u v k hu.0 hv.0 hk in
    let ih = add_back-Adds vs us (sar32 (u64 (u + v + k))) hv.1 hu.1 (omega arith) small in
    record {
      in_range = (omega arith, ih.in_range);
      width = ap suc ih.width;
      carry = ih.carry;
      is = add_compose u v k _ _ _ _ _ ih.carry _ step ih.is;
      small_carry = ih.small_carry;
      bounded = λ h. keep _ _ _ (omega arith) (ih.bounded (omega arith));
    }
