-- ===== src/LookupCache/Fields.antt =====
-- What an insertion does to the entries, and what a lookup finds in them.
use native.Mathlib.Nat.{mod-lt}
use primordialsoup.Base.{
  ℕ, ◌≤◌, ◌<◌, ◌≡◌, sym, ap, ◌∙◌, Bool, true, none, some, List, set, length, length-set,
  get_or-set_self, get_or-set_ne, get_or_beyond, arith, Bool-cases, inl, inr, ℕ_discrete, dec_lt,
}
use primordialsoup.LookupCache.{Entry, size, blank, entry_at, probe1, probe2, insert, lookup}

-- Every entry has the property.
abbrev pub All : (Entry → Type 0) → List Entry → Type 0
All P entries = (i : ℕ) → P (entry_at entries i)

set-All :
    (P : Entry → Type 0) (entries : List Entry) (i : ℕ) (e : Entry)
    → All P entries
    → P e
    → All P (set entries i e)
set-All P entries i e all p j =
    let at_end : P (entry_at entries (length entries)) = all (length entries) in
    let spare : P blank =
      rw (get_or_beyond entries (length entries) blank (omega arith)) at at_end in
    elim (ℕ_discrete i j) [
      | yes same ↦ elim (dec_lt i (length entries)) [
        | yes lt ↦ rw (← same, get_or-set_self entries i e blank lt) p
        | no ge ↦ rw (get_or_beyond (set entries i e) j blank (beyond j same ge)) spare
      ]
      | no differs ↦ rw (get_or-set_ne entries i j e blank differs) (all j)
    ]
  where
    beyond : (k : ℕ) → i ≡ k → (i < length entries → ⊥) → length (set entries i e) ≤ k
    beyond k s ge = omega (arith, length-set entries i e)

pub insert-All :
    (P : Entry → Type 0) (assign : Entry → Entry) (hash : ℕ) (entries : List Entry)
    → ((e : Entry) → P e → P (assign e))
    → All P entries
    → All P (insert assign hash entries)
unfolding insert
insert-All P assign hash entries step all =
    let first = set-All P entries (probe1 hash) _ all (step _ (all (probe1 hash))) in
    set-All P _ (probe2 hash) _ first (step _ (first (probe2 hash)))

pub length-insert :
    (assign : Entry → Entry) (hash : ℕ) (entries : List Entry)
    → length (insert assign hash entries) ≡ length entries
unfolding insert
length-insert assign hash entries = length-set _ _ _ ∙ length-set _ _ _

-- A lookup finds an entry of the list that passes the test, or none.
pub lookup-found :
    (P : Entry → Type 0) (test : Entry → Bool) (hash : ℕ) (entries : List Entry) (e : Entry)
    → All P entries
    → lookup test hash entries ≡ some e
    → P e × (test e ≡ true)
unfolding lookup
lookup-found P test hash entries e all run =
    elim (Bool-cases (test (entry_at entries (probe1 hash)))) [
      | inl h ↦
          let is = inj (entry_at entries (probe1 hash)) e (rw h at run) in
          rw (← is) (all (probe1 hash), h)
      | inr h ↦ elim (Bool-cases (test (entry_at entries (probe2 hash)))) [
        | inl k ↦
            let is = inj (entry_at entries (probe2 hash)) e (rw (h, k) at run) in
            rw (← is) (all (probe2 hash), k)
        | inr k ↦ absurd (no_entry e (rw (h, k) at run))
      ]
    ]
  where
    inj : (a b : Entry) → some a ≡ some b → a ≡ b
    inj a b h = cc

    no_entry : (a : Entry) → none ≡ some a → ⊥
    no_entry a h = cc

-- After an insertion the first place has been assigned to, once or twice.
pub insert-first :
    (assign : Entry → Entry) (hash : ℕ) (entries : List Entry)
    → length entries ≡ size
    → (e : Entry) × (entry_at (insert assign hash entries) (probe1 hash) ≡ assign e)
unfolding insert
insert-first assign hash entries len = elim (ℕ_discrete (probe2 hash) (probe1 hash)) [
  | yes same ↦ (
    _,
    ap (λ (i : ℕ). entry_at (set first (probe2 hash) again) i) (sym same)
        ∙ get_or-set_self first (probe2 hash) again blank
            (omega (arith, length-set entries (probe1 hash) once, within)),
  )
  | no differs ↦ (
    _,
    get_or-set_ne first (probe2 hash) (probe1 hash) again blank differs
        ∙ get_or-set_self entries (probe1 hash) once blank (omega arith),
  )
]
  where
    once : Entry
    once = assign (entry_at entries (probe1 hash))

    first : List Entry
    first = set entries (probe1 hash) once

    again : Entry
    again = assign (entry_at first (probe2 hash))

    within : probe2 hash < size
    within = unfold probe2 in mod-lt _ (omega arith)

pub lookup-first :
    (test : Entry → Bool) (hash : ℕ) (entries : List Entry) (e : Entry)
    → entry_at entries (probe1 hash) ≡ e
    → test e ≡ true
    → lookup test hash entries ≡ some e
unfolding lookup
lookup-first test hash entries e is h = rw (is, h)
