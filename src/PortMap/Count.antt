-- ===== src/PortMap/Count.antt =====
-- How many entries are in use, deleted and free.
use primordialsoup.Base.{
  ℕ, zero, suc, ◌+◌, ◌≤◌, ◌<◌, ◌≡◌, refl, Bool, true, false, not, List, [], ◌∷◌, ◌==◌, set,
  replicate, length, Bool-cases, inl, inr, arith,
}
use primordialsoup.PortMap.{Entry, empty_entry, is_null, is_deleted, entry_at}
use primordialsoup.PortMap.Table.{port_at, null_at, IsTable}

abbrev pub one_if : Bool → ℕ
one_if true = 1
one_if false = 0

abbrev pub count_if : (Entry → Bool) → List Entry → ℕ
count_if p [] = 0
count_if p (e ∷ es) = one_if (p e) + count_if p es

abbrev pub in_use : Entry → Bool
in_use e = not (e.port == 0)

abbrev pub gone : Entry → Bool
gone e = is_deleted e.target

abbrev full : Entry → Bool
full e = not (is_null e.target)

pub count_if-set :
    (p : Entry → Bool) (es : List Entry) (r : ℕ) (e : Entry)
    → r < length es
    → count_if p (set es r e) + one_if (p (entry_at es r)) ≡ count_if p es + one_if (p e)
count_if-set p [] r e h = absurd (omega arith)
count_if-set p (x ∷ es) zero e h = omega arith
count_if-set p (x ∷ es) (suc r) e h = omega (arith, count_if-set p es r e (omega arith))

pub count_if-replicate :
    (p : Entry → Bool) (n : ℕ) → p empty_entry ≡ false → count_if p (replicate n empty_entry) ≡ 0
count_if-replicate p zero h = refl
count_if-replicate p (suc n) h = rw h (omega (arith, count_if-replicate p n h))

below : (b : Bool) {n m : ℕ} → b ≡ true → one_if b + n < suc m → n < m
below b t h = let k = rw t at h in omega arith

-- With fewer such entries than there are entries, one of them is not such.
pub count_if-lt :
    (p : Entry → Bool) (es : List Entry)
    → count_if p es < length es
    → (i : ℕ) × (i < length es) × (p (entry_at es i) ≡ false)
count_if-lt p [] h = absurd (omega arith)
count_if-lt p (e ∷ es) h = elim (Bool-cases (p e)) [
  | inl t ↦ let (i, lt, f) = count_if-lt p es (below (p e) t h) in (suc i, omega arith, f)
  | inr f ↦ (0, omega arith, f)
]

-- Entries that are not free are in use or deleted.
count-full :
    (es : List Entry)
    → ((i : ℕ) → port_at es i ≡ 0 → null_at es i ≡ false → is_deleted (entry_at es i).target ≡ true)
    → count_if full es ≤ count_if in_use es + count_if gone es
count-full [] h = omega arith
count-full (e ∷ es) h = ground (arith, count-full es (λ i. h (suc i)), h 0)

-- A table that is not full of used and deleted entries has a free one.
pub free_entry :
    (es : List Entry)
    → IsTable es
    → count_if in_use es + count_if gone es < length es
    → (j : ℕ) × (j < length es) × (null_at es j ≡ true)
free_entry es t lt =
    let (j, bound, f) = count_if-lt full es (omega (arith, count-full es t.occupied)) in
    (j, bound, ground arith)
