-- ===== src/PortMap/CloseAll.antt =====
-- `CloseAllPorts` removes the bindings to its loop.
use primordialsoup.Base.{
  ℕ, zero, suc, ◌+◌, ◌≤◌, ◌<◌, ◌≡◌, ◌≢◌, refl, sym, ap, ◌∙◌, Bool, true, false, inl, inr, some,
  if◌then◌else◌, get_or_beyond, ◌==◌, Bool-cases, arith, dec_lt,
}
use primordialsoup.PortMap.{
  LoopPointer, null, deleted, loop, Entry, PortMap, empty_entry, deleted_entry, is_loop, is_null,
  is_deleted, entry_at, delete_at, close_entries, close_all_ports,
}
use primordialsoup.PortMap.Table.{port_at, IsTable}
use primordialsoup.PortMap.Update.{entry_set}
use primordialsoup.PortMap.Bound.{Holds}
use primordialsoup.PortMap.Invariant.{
  IsCounted, IsPortMap, SameBindings, maintain_invariants-IsPortMap,
}
use primordialsoup.PortMap.Bindings.{delete_at-IsCounted}
use primordialsoup.PortMap.Table.{in_bounds}

loop-live :
    (l : ℕ) (t : LoopPointer) → is_loop l t ≡ true → (is_null t ≡ false) × (is_deleted t ≡ false)
loop-live l null h = cc
loop-live l deleted h = cc
loop-live l (loop k) h = (refl, refl)

true-false : (b : Bool) → b ≡ true → b ≡ false → ⊥
true-false b h k = cc

-- An entry with a loop has a port.
loop-port :
    (m : PortMap) (l i : ℕ)
    → IsTable m.map
    → is_loop l (entry_at m.map i).target ≡ true
    → port_at m.map i ≢ 0
loop-port m l i t h z =
    let (full, alive) = loop-live l (entry_at m.map i).target h in
    true-false _ (t.occupied i z full) alive

abbrev cleared : ℕ → Entry → Entry
cleared l e = if is_loop l e.target then deleted_entry else e

-- The entries from `index` on are cleared, as many as there are rounds.
record Clears (l index left : ℕ) (m n : PortMap) : Type 0 where
  counted : IsCounted n
  capacity_is : n.capacity ≡ m.capacity
  before : (i : ℕ) → i < index → entry_at n.map i ≡ entry_at m.map i
  within : (i : ℕ) → index ≤ i → i < index + left → entry_at n.map i ≡ cleared l (entry_at m.map i)
  after : (i : ℕ) → index + left ≤ i → entry_at n.map i ≡ entry_at m.map i

one_round :
    (l index : ℕ) (m : PortMap)
    → IsCounted m
    → Clears l index 1 m (if is_loop l (entry_at m.map index).target then delete_at m index else m)
one_round l index m c = elim (Bool-cases (is_loop l (entry_at m.map index).target)) [
  | inl e ↦
      let nz = loop-port m l index c.table e in
      let lt = in_bounds m.map index nz in
      let kept : (i : ℕ) → i ≢ index → entry_at (delete_at m index).map i ≡ entry_at m.map i =
        λ i ne. elim (entry_set m.map index deleted_entry lt i) [
          | inl (a, b) ↦ absurd (ne a)
          | inr (a, b) ↦ b
        ] in
      rw e (record {
        counted = delete_at-IsCounted m index c nz;
        capacity_is = refl;
        before = λ i h. kept i (omega arith);
        within = λ i h k. elim (entry_set m.map index deleted_entry lt i) [
          | inl (a, b) ↦ b ∙ sym (rw (a, e) refl)
          | inr (a, b) ↦ absurd (a (omega arith))
        ];
        after = λ i h. kept i (omega arith);
      })
  | inr e ↦ rw e (record {
    counted = c;
    capacity_is = refl;
    before = λ i h. refl;
    within = λ i h k. let a : i ≡ index = omega arith in rw (a, e) refl;
    after = λ i h. refl;
  })
]

Clears-suc :
    (l index left : ℕ) (m k n : PortMap)
    → Clears l index 1 m k
    → Clears l (index + 1) left k n
    → Clears l index (suc left) m n
Clears-suc l index left m k n first rest = record {
  counted = rest.counted;
  capacity_is = rest.capacity_is ∙ first.capacity_is;
  before = λ i h. rest.before i (omega arith) ∙ first.before i h;
  within = λ i h lt. elim (dec_lt index i) [
    | yes p ↦
        rest.within i (omega arith) (omega arith) ∙ ap (cleared l) (first.after i (omega arith))
    | no p ↦ rest.before i (omega arith) ∙ first.within i h (omega arith)
  ];
  after = λ i h. rest.after i (omega arith) ∙ first.after i (omega arith);
}

close_entries-Clears :
    (left index l : ℕ) (m : PortMap)
    → IsCounted m
    → Clears l index left m (close_entries left index l m)
unfolding close_entries
close_entries-Clears zero index l m c = record {
  counted = c;
  capacity_is = refl;
  before = λ i h. refl;
  within = λ i h k. absurd (omega arith);
  after = λ i h. refl;
}
close_entries-Clears (suc left) index l m c =
    let first = one_round l index m c in
    Clears-suc l index left m _ _ first (close_entries-Clears left (index + 1) l _ first.counted)

-- All entries are cleared, those out of bounds too.
all_cleared :
    (l : ℕ) (m n : PortMap)
    → IsCounted m
    → Clears l 0 m.capacity m n
    → (i : ℕ) → entry_at n.map i ≡ cleared l (entry_at m.map i)
all_cleared l m n c k i = elim (dec_lt i m.capacity) [
  | yes p ↦ k.within i (omega arith) (omega arith)
  | no p ↦
      let beyond : entry_at m.map i ≡ empty_entry =
        get_or_beyond m.map i empty_entry (omega (arith, c.width)) in
      k.after i (omega arith) ∙ beyond ∙ sym (rw beyond refl)
]

-- `n` has the bindings of `m` but those to the loop `l`.
pub record RemovesLoop (m n : PortMap) (l : ℕ) : Type 0 where
  pub kept : (q k : ℕ) → q ≢ 0 → k ≢ l → Holds m.map q (loop k) → Holds n.map q (loop k)
  pub only : (q k : ℕ) → q ≢ 0 → Holds n.map q (loop k) → (k ≢ l) × Holds m.map q (loop k)

other_test : (l k : ℕ) → k ≢ l → (k == l) ≡ false
other_test l k h = ground arith

other_number : (l k : ℕ) → (k == l) ≡ false → k ≢ l
other_number l k h = ground arith

deleted-loop : (k : ℕ) → deleted ≡ loop k → ⊥
deleted-loop k h = cc

cleared-other : (l k : ℕ) (e : Entry) → k ≢ l → e.target ≡ loop k → cleared l e ≡ e
cleared-other l k e ne h = rw (h, other_test l k ne)

cleared-only :
    (l k : ℕ) (e : Entry)
    → (cleared l e).target ≡ loop k
    → (is_loop l e.target ≡ false) × (cleared l e ≡ e)
cleared-only l k e h = elim (Bool-cases (is_loop l e.target)) [
  | inl t ↦ absurd (deleted-loop k (rw t at h))
  | inr f ↦ (f, rw f)
]

cleared-RemovesLoop :
    (m n : PortMap) (l : ℕ)
    → ((i : ℕ) → entry_at n.map i ≡ cleared l (entry_at m.map i))
    → RemovesLoop m n l
cleared-RemovesLoop m n l all = record {
  kept = λ q k nz ne (i, p, t).
      let same = all i ∙ cleared-other l k (entry_at m.map i) ne t in
      (i, ap (λ (e : Entry). e.port) same ∙ p, ap (λ (e : Entry). e.target) same ∙ t);
  only = λ q k nz (i, p, t).
      let (f, keep) =
        cleared-only l k (entry_at m.map i) (sym (ap (λ (e : Entry). e.target) (all i)) ∙ t) in
      let same = all i ∙ keep in
      let target : (entry_at m.map i).target ≡ loop k =
        sym (ap (λ (e : Entry). e.target) same) ∙ t in
      (
        other_number l k (sym (ap (is_loop l) target) ∙ f),
        (i, sym (ap (λ (e : Entry). e.port) same) ∙ p, target),
      );
}

RemovesLoop-Same :
    (m n k : PortMap) (l : ℕ) → RemovesLoop m n l → SameBindings n k → RemovesLoop m k l
RemovesLoop-Same m n k l r s = record {
  kept = λ q t nz ne h. (s q (loop t) nz).0 (r.kept q t nz ne h);
  only = λ q t nz h. r.only q t nz ((s q (loop t) nz).1 h);
}

-- `CloseAllPorts` ends without a fault, keeps the invariant, and removes the bindings to its loop and
-- no other.
pub close_all_ports-RemovesLoop :
    (m : PortMap) (l : ℕ)
    → IsPortMap m
    → (n : PortMap) × (close_all_ports m l ≡ some n) × IsPortMap n × RemovesLoop m n l
unfolding close_all_ports
close_all_ports-RemovesLoop m l v =
    let after = close_entries m.capacity 0 l m in
    let k = close_entries-Clears m.capacity 0 l m v.counted in
    let (n, run, valid, same) =
      maintain_invariants-IsPortMap (close_entries m.capacity 0 l m) k.counted in
    (
      n,
      run,
      valid,
      RemovesLoop-Same m after n l
          (cleared-RemovesLoop m after l (all_cleared l m after v.counted k)) same,
    )
