-- ===== src/Base/Powers.antt =====
-- Powers of two, and what a factor does to a quotient and a remainder.
use Prim.Native.Nat.{ℕ, zero, suc, ◌+◌, ◌*◌, ◌/◌, ◌%◌, ◌^◌, ◌<◌}
use mathlib.Core.Path.{◌≡◌, sym, ap, ◌∙◌}
use native.Mathlib.Omega.{arith}
use native.Mathlib.Nat.{
  pow-zero, pow-suc, one-le-pow, mul_comm, mul_assoc, add-mul, div-add-mod, mul-add-mod_self_left,
  mod-eq_of_lt, mod-lt, mul-lt-mul_of_pos_right,
}

pub pow_add : (n a b : ℕ) → n ^ (a + b) ≡ n ^ a * n ^ b
pow_add n a zero = let e : a + 0 ≡ a = omega arith in rw (e, pow-zero n) (omega arith)
pow_add n a (suc b) =
    let e : a + suc b ≡ suc (a + b) = omega arith in
    rw (e, pow-suc n (a + b), pow-suc n b, pow_add n a b) (mul_assoc (n ^ a) (n ^ b) n)

pub two-pow_add : (a b : ℕ) → 2 ^ (a + b) ≡ 2 ^ a * 2 ^ b
two-pow_add = pow_add 2

pub two-pow_pos : (k : ℕ) → 0 < 2 ^ k
two-pow_pos k = omega (arith, one-le-pow k 2 (omega arith))

pub parts : (d u w q r : ℕ) → w * q + r ≡ d → d * u ≡ (u * w) * q + r * u
parts d u w q r e =
    rw (← e)
      (add-mul (w * q) r u ∙ ap (λ (t : ℕ). t + r * u) (mul_comm (w * q) u ∙ sym (mul_assoc u w q)))

-- The low digits of a number, shifted: a shift by `u` in words of `u * w`.
pub mul-mod-mul : (d u w : ℕ) → 0 < u → 0 < w → d * u % (u * w) ≡ (d % w) * u
mul-mod-mul d u w hu hw =
    rw (parts d u w (d / w) (d % w) (div-add-mod d w))
      (mul-add-mod_self_left (u * w) (d / w) ((d % w) * u) ∙ mod-eq_of_lt (small (mod-lt d hw)))
  where
    small : d % w < w → d % w * u < u * w
    small h = rw (mul_comm u w) (mul-lt-mul_of_pos_right h hu)
