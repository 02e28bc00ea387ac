-- ===== src/PortMap/Negative.antt =====
-- `Rehash` computes `entry.port % new_capacity` on signed numbers, where the other operations cast the
-- port to `uintptr_t` first. What becomes of a port that is negative as an `int64_t`.
use native.Mathlib.Nat.{mod-lt}
use primordialsoup.Base.{
  refl, Bool, true, ◌⊎◌, set, length, length-set, length-replicate, ℕ_discrete, dec_lt, ◌+◌, ◌<◌, ℕ,
  zero, suc, ◌-◌, ◌%◌, ◌≤◌, ◌≡◌, ◌≢◌, false, inl, inr, List, [], ◌∷◌, ◌==◌, arith, replicate,
}
use primordialsoup.PortMap.{
  Entry, PortMap, empty_entry, out_of_bounds, fails, copies, is_unused, entry_at, signed_index,
  rehash_entry, rehash_entries, rehash,
}
use primordialsoup.PortMap.Count.{one_if, count_if, in_use, count_if-lt, count_if-replicate}
use primordialsoup.PortMap.Bound.{in_use-nonzero, set-used}
use primordialsoup.Probe.{probe-Stops}
use primordialsoup.PortMap.Table.{port_at}

-- The port is negative and not a multiple of the capacity, so that its remainder is negative.
abbrev pub HasNegativeIndex : ℕ → ℕ → Type 0
HasNegativeIndex port capacity =
    (9223372036854775808 ≤ port) × ((18446744073709551616 - port) % capacity ≢ 0)

signed_index_negative :
    (port capacity : ℕ)
    → 0 < capacity
    → HasNegativeIndex port capacity
    → signed_index port capacity ≡ fails out_of_bounds
unfolding signed_index
signed_index_negative port capacity some_capacity h = ground (arith, h.0, h.1)

-- Any other port has an index.
signed_index_other :
    (port capacity : ℕ)
    → 0 < capacity
    → ¬ HasNegativeIndex port capacity
    → (start : ℕ) × (signed_index port capacity ≡ copies start) × (start < capacity)
unfolding signed_index
signed_index_other port capacity some_capacity h = elim (dec_lt port 9223372036854775808) [
  | yes p ↦ (port % capacity, ground arith, mod-lt port some_capacity)
  | no p ↦ elim (ℕ_discrete ((18446744073709551616 - port) % capacity) 0) [
    | yes z ↦ (0, ground arith, some_capacity)
    | no nz ↦ absurd (h (omega arith, nz))
  ]
]

HasNegativeIndex-cases :
    (port capacity : ℕ) → HasNegativeIndex port capacity ⊎ (¬ HasNegativeIndex port capacity)
HasNegativeIndex-cases port capacity = elim (dec_lt port 9223372036854775808) [
  | yes p ↦ inr (λ h. omega (arith, h.0))
  | no p ↦ elim (ℕ_discrete ((18446744073709551616 - port) % capacity) 0) [
    | yes z ↦ inr (λ h. h.1 z)
    | no nz ↦ inl (omega arith, nz)
  ]
]

-- The copy of an entry, by its port: it is skipped, is out of bounds, or takes one free slot.
data Copy (e : Entry) (nt : List Entry) : Type 0 where
  skipped : e.port ≡ 0 → rehash_entry (length nt) e nt ≡ copies nt → Copy e nt
  out : rehash_entry (length nt) e nt ≡ fails out_of_bounds → Copy e nt
  put :
      (r : ℕ)
      → ¬ HasNegativeIndex e.port (length nt)
      → rehash_entry (length nt) e nt ≡ copies (set nt r e)
      → count_if in_use (set nt r e) ≡ count_if in_use nt + 1
      → in_use e ≡ true
      → Copy e nt

rehash_entry-Copy : (e : Entry) (nt : List Entry) → count_if in_use nt < length nt → Copy e nt
unfolding rehash_entry
rehash_entry-Copy e nt lt = elim (ℕ_discrete e.port 0) [
  | yes z ↦ skipped z (rw z refl)
  | no nz ↦ elim (HasNegativeIndex-cases e.port (length nt)) [
    | inl h ↦ out (rw (test_false e nz, signed_index_negative e.port (length nt) (omega arith) h))
    | inr h ↦
        let (start, index, low) = signed_index_other e.port (length nt) (omega arith) h in
        let (j, bound, f) = count_if-lt in_use nt lt in
        let (r, run, stops) =
          probe-Stops (is_unused nt) (length nt) start j low bound (unused nt j f) in
        put r h (rw (test_false e nz, index, run) refl)
          (set-used nt r e
            (omega (
              arith,
              stops.there,
              mod-lt (start + stops.steps) {m = length nt} (omega (arith, low)),
            ))
            (free nt r stops.holds) nz)
          (in_use-nonzero e nz)
  ]
]
  where
    test_false : (x : Entry) → x.port ≢ 0 → (x.port == 0) ≡ false
    test_false x h = ground arith

    unused : (es : List Entry) (k : ℕ) → in_use (entry_at es k) ≡ false → is_unused es k ≡ true
    unused es k h = ground arith

    free : (es : List Entry) (k : ℕ) → is_unused es k ≡ true → port_at es k ≡ 0
    free es k h = ground arith

-- The negative port stands after an entry with another.
later :
    (e : Entry) (es : List Entry) (i capacity : ℕ)
    → ¬ HasNegativeIndex e.port capacity
    → HasNegativeIndex (port_at (e ∷ es) i) capacity
    → (j : ℕ) × HasNegativeIndex (port_at es j) capacity
later e es zero capacity other h = absurd (other h)
later e es (suc i) capacity other h = (i, h)

one_more : (b : Bool) (n n' k m : ℕ) → b ≡ true → n' ≡ n + 1 → n + (one_if b + k) < m → n' + k < m
one_more b n n' k m e f h = let h' = rw e at h in omega (arith, h')

rehash_entries_negative :
    (es : List Entry) (i : ℕ) (nt : List Entry)
    → count_if in_use nt + count_if in_use es < length nt
    → HasNegativeIndex (port_at es i) (length nt)
    → rehash_entries (length nt) es nt ≡ fails out_of_bounds
unfolding rehash_entries
rehash_entries_negative [] i nt lt h = absurd (omega (arith, h.0))
rehash_entries_negative (e ∷ es) i nt lt h = elim (rehash_entry-Copy e nt (omega arith)) [
  | skipped z run ↦
      let (j, k) = later e es i (length nt) (λ n. omega (arith, n.0, z)) h in
      rw run (rehash_entries_negative es j nt (omega arith) k)
  | out run ↦ rw run refl
  | put r other run used u ↦
      let (j, k) = later e es i (length nt) other h in
      let wide = length-set nt r e in
      let fits =
        one_more (in_use e) (count_if in_use nt) _ (count_if in_use es) (length nt) u used lt in
      let rest =
        rehash_entries_negative es j (set nt r e) (omega (arith, wide, fits)) (rw wide k) in
      rw run (rw wide at rest)
]

-- `Rehash` to a capacity above the number of entries in use accesses `new_ports` out of bounds if the
-- table holds a port that is negative as an `int64_t` and not a multiple of the new capacity.
pub rehash_negative :
    (m : PortMap) (i capacity : ℕ)
    → count_if in_use m.map < capacity
    → HasNegativeIndex (port_at m.map i) capacity
    → rehash m capacity ≡ fails out_of_bounds
unfolding rehash
rehash_negative m i capacity lt h =
    let nt = replicate capacity empty_entry in
    let wide = length-replicate capacity empty_entry in
    let none_used = count_if-replicate in_use capacity refl in
    let run = rehash_entries_negative m.map i nt (omega (arith, wide, none_used)) (rw wide h) in
    rw (rw wide at run)
