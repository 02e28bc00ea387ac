-- ===== src/Large/Signed/Signs.antt =====
-- A sign and a number, under the operations of the integers.
use primordialsoup.Base.{ℕ, ◌+◌, ◌-◌, ◌*◌, ◌≤◌, ◌≡◌, Bool, true, false, not, arith}
use primordialsoup.Base.Int.{◌+ℤ◌, ◌-ℤ◌, ◌*ℤ◌}
use primordialsoup.Large.Signed.{signed, same}

pub signed-add : (b : Bool) (v w : ℕ) → signed b (v + w) ≡ signed b v +ℤ signed b w
unfolding ◌+ℤ◌
signed-add true v w = ground arith
signed-add false v w = ground arith

pub signed-subtract : (b : Bool) (v w : ℕ) → signed b (v + w) ≡ signed b v -ℤ signed (not b) w
unfolding ◌-ℤ◌
signed-subtract true v w = ground arith
signed-subtract false v w = ground arith

pub signed-add_more :
    (b : Bool) (v w : ℕ) → w ≤ v → signed b (v - w) ≡ signed b v +ℤ signed (not b) w
unfolding ◌+ℤ◌
signed-add_more true v w h = ground arith
signed-add_more false v w h = ground arith

pub signed-add_less :
    (b : Bool) (v w : ℕ) → v ≤ w → signed (not b) (w - v) ≡ signed b v +ℤ signed (not b) w
unfolding ◌+ℤ◌
signed-add_less true v w h = ground arith
signed-add_less false v w h = ground arith

pub signed-subtract_more :
    (b : Bool) (v w : ℕ) → w ≤ v → signed b (v - w) ≡ signed b v -ℤ signed b w
unfolding ◌-ℤ◌
signed-subtract_more true v w h = ground arith
signed-subtract_more false v w h = ground arith

pub signed-subtract_less :
    (b : Bool) (v w : ℕ) → v ≤ w → signed (not b) (w - v) ≡ signed b v -ℤ signed b w
unfolding ◌-ℤ◌
signed-subtract_less true v w h = ground arith
signed-subtract_less false v w h = ground arith

pub signed-multiply :
    (b c : Bool) (v w : ℕ) → signed (not (same b c)) (v * w) ≡ signed b v *ℤ signed c w
unfolding ◌*ℤ◌
signed-multiply true true v w = grind arith
signed-multiply true false v w = grind arith
signed-multiply false true v w = grind arith
signed-multiply false false v w = grind arith
