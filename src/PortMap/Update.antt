-- ===== src/PortMap/Update.antt =====
-- Writes to the table: a new port at an unused entry, and the deletion of an entry.
use native.Mathlib.Nat.{mod-lt}
use primordialsoup.Base.{
  ℕ, ◌+◌, ◌<◌, ◌≡◌, ◌≢◌, refl, sym, ap, ◌∙◌, true, false, ◌⊎◌, inl, inr, some, List, set, length,
  length-set, get_or-set_self, get_or-set_ne, Bool-cases, arith, ℕ_discrete,
}
use primordialsoup.Probe.{probe, probe-Stops}
use primordialsoup.PortMap.{
  LoopPointer, Entry, empty_entry, deleted_entry, is_null, is_deleted, entry_at, is_unused,
}
use primordialsoup.PortMap.Table.{port_at, null_at, home, Reaches, IsTable}

pub entry_set :
    (es : List Entry) (r : ℕ) (e : Entry)
    → r < length es
    → (i : ℕ)
    → ((i ≡ r) × (entry_at (set es r e) i ≡ e))
      ⊎ ((i ≢ r) × (entry_at (set es r e) i ≡ entry_at es i))
entry_set es r e h i = elim (ℕ_discrete r i) [
  | yes p ↦ inl (sym p, rw (← p) (get_or-set_self es r e empty_entry h))
  | no p ↦ inr (λ q. p (sym q), get_or-set_ne es r i e empty_entry p)
]

pub port_set :
    (es : List Entry) (r : ℕ) (e : Entry)
    → r < length es
    → (i : ℕ)
    → ((i ≡ r) × (port_at (set es r e) i ≡ e.port))
      ⊎ ((i ≢ r) × (port_at (set es r e) i ≡ port_at es i))
port_set es r e h i = elim (entry_set es r e h i) [
  | inl (p, q) ↦ inl (p, ap (λ (x : Entry). x.port) q)
  | inr (p, q) ↦ inr (p, ap (λ (x : Entry). x.port) q)
]

module _ (es : List Entry) (r : ℕ) (e : Entry) (bound : r < length es)
    (full : is_null e.target ≡ false) where
  null_kept : (i : ℕ) → null_at es i ≡ false → null_at (set es r e) i ≡ false
  null_kept i h = elim (entry_set es r e bound i) [ inl (p, q) ↦ rw q full | inr (p, q) ↦ rw q h ]

  Reaches-kept : (port i : ℕ) → Reaches es port i → Reaches (set es r e) port i
  Reaches-kept port i s = record {
    steps = s.steps;
    few = rw length-set s.few;
    there = rw length-set s.there;
    before = λ m h. rw length-set (null_kept _ (s.before m h));
  }

  free_kept :
      ((i : ℕ) → null_at es i ≡ true → port_at es i ≡ 0)
      → (i : ℕ) → null_at (set es r e) i ≡ true
      → port_at (set es r e) i ≡ 0
  free_kept free i h = elim (entry_set es r e bound i) [
    | inl (p, q) ↦ cc (full, h, ap (λ (x : Entry). is_null x.target) q)
    | inr (p, q) ↦ ap (λ (x : Entry). x.port) q ∙ free i (rw q at h)
  ]

  unique_kept :
      IsTable es
      → (e.port ≢ 0 → (i : ℕ) → port_at es i ≢ e.port)
      → (i j : ℕ) → port_at (set es r e) i ≡ port_at (set es r e) j
      → port_at (set es r e) i ≢ 0
      → i ≡ j
  unique_kept t fresh i j same h = elim (port_set es r e bound i) [
    | inl (p, q) ↦ elim (port_set es r e bound j) [
      | inl (p', q') ↦ p ∙ sym p'
      | inr (p', q') ↦ absurd (fresh (rw q at h) j (sym q' ∙ sym same ∙ q))
    ]
    | inr (p, q) ↦ elim (port_set es r e bound j) [
      | inl (p', q') ↦ let at_r = sym q ∙ same ∙ q' in absurd (fresh (λ z. h (q ∙ at_r ∙ z)) i at_r)
      | inr (p', q') ↦ t.unique i j (sym q ∙ same ∙ q') (rw q at h)
    ]
  ]

  -- A write keeps a table, if the ports that it leaves are in order.
  pub set-IsTable :
      IsTable es
      → (e.port ≢ 0 → is_deleted e.target ≡ false)
      → (e.port ≡ 0 → is_deleted e.target ≡ true)
      → (e.port ≢ 0 → Reaches es e.port r)
      → (e.port ≢ 0 → (i : ℕ) → port_at es i ≢ e.port)
      → IsTable (set es r e)
  set-IsTable t alive dead reaches fresh = record {
    free_port = free_kept t.free_port;
    live = λ i h. elim (entry_set es r e bound i) [
      | inl (p, q) ↦ rw q (alive (rw (ap (λ (x : Entry). x.port) q) at h))
      | inr (p, q) ↦ rw q (t.live i (rw (ap (λ (x : Entry). x.port) q) at h))
    ];
    occupied = λ i z h. elim (entry_set es r e bound i) [
      | inl (p, q) ↦ rw q (dead (sym (ap (λ (x : Entry). x.port) q) ∙ z))
      | inr (p, q) ↦ rw q (
          t.occupied i (sym (ap (λ (x : Entry). x.port) q) ∙ z)
            (sym (ap (λ (x : Entry). is_null x.target) q) ∙ h))
    ];
    unique = unique_kept t fresh;
    reach = λ i h. elim (port_set es r e bound i) [
      | inl (p, q) ↦ rw (q, p) (Reaches-kept e.port r (reaches (rw q at h)))
      | inr (p, q) ↦ rw q (Reaches-kept (port_at es i) i (t.reach i (rw q at h)))
    ];
  }

stop_unused : (es : List Entry) (i : ℕ) → port_at es i ≡ 0 → is_unused es i ≡ true
stop_unused es i h = ground arith

unused_stop : (es : List Entry) (i : ℕ) → is_unused es i ≡ true → port_at es i ≡ 0
unused_stop es i h = ground arith

full_of_used :
    (es : List Entry) (i : ℕ) → IsTable es → is_unused es i ≡ false → null_at es i ≡ false
full_of_used es i t h = elim (Bool-cases (null_at es i)) [
  | inl e ↦ cc (h, stop_unused es i (t.free_port i e))
  | inr e ↦ e
]

-- A new port goes to the first unused entry of its probe.
pub probe-insert :
    (es : List Entry) (port j : ℕ)
    → IsTable es
    → port ≢ 0
    → ((i : ℕ) → port_at es i ≢ port)
    → j < length es
    → port_at es j ≡ 0
    → (r : ℕ) × (probe (is_unused es) (length es) (length es) (home es port) ≡ some r)
      × (r < length es)
      × (port_at es r ≡ 0)
      × ((t : LoopPointer)
          → is_null t ≡ false
          → is_deleted t ≡ false
          → IsTable (set es r (record { port = port; target = t })))
probe-insert es port j t nz fresh bound unused =
    let (r, run, s) =
      probe-Stops (is_unused es) (length es) (home es port) j (mod-lt port (omega arith)) bound
        (stop_unused es j unused) in
    let lt : r < length es = rw (s.there) (mod-lt (home es port + s.steps) (omega arith)) in
    (
      r,
      run,
      lt,
      unused_stop es r s.holds,
      λ target n d.
          set-IsTable es r (record { port = port; target = target }) lt n t (λ h. d)
            (λ h. absurd (nz h))
            (λ h. record {
              steps = s.steps;
              few = s.few;
              there = s.there;
              before = λ m k. full_of_used es _ t (s.before m k);
            })
            (λ h. fresh),
    )

-- Deleting an entry keeps the table.
pub delete-IsTable :
    (es : List Entry) (r : ℕ) → IsTable es → r < length es → IsTable (set es r deleted_entry)
delete-IsTable es r t lt =
    set-IsTable es r deleted_entry lt refl t (λ h. absurd (h refl)) (λ h. refl)
      (λ h. absurd (h refl)) (λ h. absurd (h refl))
