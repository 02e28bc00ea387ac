-- ===== src/PortMap/Invariant.antt =====
-- The invariant of the port map, and that `MaintainInvariants` restores it.
use primordialsoup.Base.{
  ℕ, suc, ◌+◌, ◌*◌, ◌/◌, ◌%◌, ◌≤◌, ◌<◌, ◌≡◌, ◌≢◌, ◌↔◌, refl, ap, ◌∙◌, Bool, true, false, inl, inr,
  some, List, [], ◌∷◌, ltb, length, Bool-cases, arith, ℕ_discrete,
}
use primordialsoup.PortMap.{
  LoopPointer, Entry, PortMap, entry_at, copies, unless_fault, rehash, maintain_invariants,
}
use primordialsoup.PortMap.Table.{port_at, IsTable}
use primordialsoup.PortMap.Count.{one_if, count_if, in_use, gone}
use primordialsoup.PortMap.Bound.{Holds}
use primordialsoup.PortMap.Rehash.{Rehashed, rehash_entries-Rehashed}

-- The fields agree with the table, and no port is negative as an `int64_t`.
pub record IsCounted (m : PortMap) : Type 0 where
  pub table : IsTable m.map
  pub width : length m.map ≡ m.capacity
  pub used_is : count_if in_use m.map ≡ m.used
  pub deleted_is : count_if gone m.map ≡ m.deleted_count
  pub quarters : m.capacity % 4 ≡ 0
  pub some_capacity : 4 ≤ m.capacity
  pub nonnegative : (i : ℕ) → port_at m.map i < 9223372036854775808

-- Between operations at most three quarters of the entries are used, and no more are deleted than free.
pub record IsPortMap (m : PortMap) : Type 0 where
  pub counted : IsCounted m
  pub roomy : m.used ≤ m.capacity / 4 * 3
  pub flushed : m.used + m.deleted_count + m.deleted_count ≤ m.capacity

-- The same ports are bound to the same loops.
abbrev pub SameBindings : PortMap → PortMap → Type 0
SameBindings m n = (q : ℕ) (t : LoopPointer) → q ≢ 0 → Holds m.map q t ↔ Holds n.map q t

pub count-le-length : (p : Entry → Bool) (es : List Entry) → count_if p es ≤ length es
count-le-length p [] = omega arith
count-le-length p (e ∷ es) = one (p e) (count-le-length p es)
  where
    one : (b : Bool) {n m : ℕ} → n ≤ m → one_if b + n ≤ suc m
    one true h = omega arith
    one false h = omega arith

small_kept :
    (es out : List Entry) (capacity : ℕ)
    → Rehashed es out capacity
    → ((i : ℕ) → port_at es i < 9223372036854775808)
    → (i : ℕ) → port_at out i < 9223372036854775808
small_kept es out capacity r small i = elim (ℕ_discrete (port_at out i) 0) [
  | yes z ↦ rw z (omega arith)
  | no nz ↦
      let (j, p, u) = (r.same (port_at out i) (entry_at out i).target nz).1 (i, refl, refl) in
      rw (← p) (small j)
]

-- `Rehash` to a capacity that is large enough gives a map of that capacity with the same bindings and
-- no deleted entry.
pub rehash-IsPortMap :
    (m : PortMap) (capacity : ℕ)
    → IsCounted m
    → capacity % 4 ≡ 0
    → 4 ≤ capacity
    → m.used ≤ capacity / 4 * 3
    → (n : PortMap) × (rehash m capacity ≡ copies n)
      × IsPortMap n
      × SameBindings m n
      × (n.capacity ≡ capacity)
      × (n.used ≡ m.used)
      × (n.deleted_count ≡ 0)
unfolding rehash
rehash-IsPortMap m capacity c q4 four room =
    let (out, run, r) =
      rehash_entries-Rehashed m.map capacity c.table c.nonnegative (omega (arith, c.used_is)) in
    (
      record m { map = out; capacity = capacity; deleted_count = 0 },
      rw run,
      record {
        counted = record {
          table = r.table;
          width = r.width;
          used_is = r.used ∙ c.used_is;
          deleted_is = r.none_gone;
          quarters = q4;
          some_capacity = four;
          nonnegative = small_kept m.map out capacity r c.nonnegative;
        };
        roomy = room;
        flushed = omega arith;
      },
      r.same,
      refl,
      refl,
      refl,
    )

-- `MaintainInvariants` restores the invariant and keeps the bindings.
pub maintain_invariants-IsPortMap :
    (m : PortMap)
    → IsCounted m
    → (n : PortMap) × (maintain_invariants m ≡ some n) × IsPortMap n × SameBindings m n
unfolding maintain_invariants
maintain_invariants-IsPortMap m c =
    let most = count-le-length in_use m.map in
    elim (Bool-cases (ltb (m.capacity / 4 * 3) m.used)) [
      | inl e ↦
          let (n, run, valid, same, cap, kept, none_deleted) =
            rehash-IsPortMap m (m.capacity * 2) c (omega (arith, c.quarters))
              (omega (arith, c.some_capacity))
              (omega (arith, most, c.used_is, c.width, c.quarters)) in
          (n, rw e (ap unless_fault run), valid, same)
      | inr e ↦ elim (Bool-cases (ltb m.capacity (m.used + m.deleted_count + m.deleted_count))) [
        | inl e' ↦
            let (n, run, valid, same, cap, kept, none_deleted) =
              rehash-IsPortMap m m.capacity c c.quarters c.some_capacity (not-lt-le _ _ e) in
            (n, rw (e, e') (ap unless_fault run), valid, same)
        | inr e' ↦ (
          m,
          rw (e, e'),
          record { counted = c; roomy = not-lt-le _ _ e; flushed = not-lt-le _ _ e' },
          λ q t nz. (λ h. h, λ h. h),
        )
      ]
    ]
  where
    not-lt-le : (a b : ℕ) → ltb a b ≡ false → b ≤ a
    not-lt-le a b h = ground arith
