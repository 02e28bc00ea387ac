-- ===== src/PortMap/Copied.antt =====
-- The loop of `Rehash`: what the copy of the entries does to `new_ports`.
use primordialsoup.Base.{
  ℕ, zero, suc, ◌+◌, ◌%◌, ◌<◌, ◌≡◌, ◌≢◌, refl, sym, ◌∙◌, Bool, true, false, ◌⊎◌, inl, inr, List, [],
  ◌∷◌, ◌==◌, set, length, length-set, arith, ℕ_discrete,
}
use primordialsoup.PortMap.{
  LoopPointer, Entry, is_null, is_deleted, entry_at, copies, signed_index, rehash_entry,
  rehash_entries,
}
use primordialsoup.PortMap.Table.{port_at, null_at, IsTable}
use primordialsoup.PortMap.Update.{port_set, probe-insert}
use primordialsoup.PortMap.Count.{one_if, count_if, in_use, gone, count_if-lt}
use primordialsoup.PortMap.Bound.{
  Holds, set-keeps, set-new, set-only, set-used, set-gone, in_use-nonzero, in_use-zero, unused-zero,
}

-- Entries that `Rehash` can copy: a loop at each port, no port twice, and none negative.
pub record IsSource (es : List Entry) : Type 0 where
  pub nonnegative : (i : ℕ) → port_at es i < 9223372036854775808
  pub full : (i : ℕ) → port_at es i ≢ 0 → null_at es i ≡ false
  pub alive : (i : ℕ) → port_at es i ≢ 0 → is_deleted (entry_at es i).target ≡ false
  pub once : (i j : ℕ) → port_at es i ≡ port_at es j → port_at es i ≢ 0 → i ≡ j

IsSource-tail : (e : Entry) (es : List Entry) → IsSource (e ∷ es) → IsSource es
IsSource-tail e es s = record {
  nonnegative = λ i. s.nonnegative (suc i);
  full = λ i. s.full (suc i);
  alive = λ i. s.alive (suc i);
  once = λ i j p q. omega (arith, s.once (suc i) (suc j) p q);
}

-- No port of `es` stands in `nt`.
abbrev pub Apart : List Entry → List Entry → Type 0
Apart es nt = (i j : ℕ) → port_at es i ≢ 0 → port_at nt j ≢ port_at es i

-- `out` is the table `nt` with the entries `es` copied into it.
pub record Copied (es nt out : List Entry) : Type 0 where
  pub table : IsTable out
  pub width : length out ≡ length nt
  pub used : count_if in_use out ≡ count_if in_use nt + count_if in_use es
  pub none_gone : count_if gone out ≡ count_if gone nt
  pub keeps : (q : ℕ) (t : LoopPointer) → q ≢ 0 → Holds nt q t ⊎ Holds es q t → Holds out q t
  pub only : (q : ℕ) (t : LoopPointer) → q ≢ 0 → Holds out q t → Holds nt q t ⊎ Holds es q t

signed_index-nonnegative :
    (port capacity : ℕ)
    → port < 9223372036854775808
    → 0 < capacity
    → signed_index port capacity ≡ copies (port % capacity)
unfolding signed_index
signed_index-nonnegative port capacity h some_capacity = ground arith

-- One entry.
rehash_entry-Copied :
    (e : Entry) (nt : List Entry)
    → IsTable nt
    → e.port < 9223372036854775808
    → e.port ≢ 0
    → is_null e.target ≡ false
    → is_deleted e.target ≡ false
    → ((j : ℕ) → port_at nt j ≢ e.port)
    → count_if in_use nt < length nt
    → (r : ℕ) × (rehash_entry (length nt) e nt ≡ copies (set nt r e))
      × (r < length nt)
      × (port_at nt r ≡ 0)
      × IsTable (set nt r e)
unfolding rehash_entry
rehash_entry-Copied e nt t small nz full alive fresh lt =
    let (j, bound, f) = count_if-lt in_use nt lt in
    let (r, run, rb, free, keep) = probe-insert nt e.port j t nz fresh bound (unused-zero nt j f) in
    (
      r,
      rw (
        test_false e nz,
        signed_index-nonnegative e.port (length nt) small (omega (arith, lt)),
        run,
      ),
      rb,
      free,
      keep e.target full alive,
    )
  where
    test_false : (x : Entry) → x.port ≢ 0 → (x.port == 0) ≡ false
    test_false x h = ground arith

not_gone : (nt : List Entry) (r : ℕ) → count_if gone nt ≡ 0 → gone (entry_at nt r) ≡ false
not_gone [] r h = refl
not_gone (x ∷ nt) zero h = ground arith
not_gone (x ∷ nt) (suc r) h = not_gone nt r (omega arith)

Holds-tail :
    (e : Entry) (es : List Entry) (q : ℕ) (t : LoopPointer) → Holds es q t → Holds (e ∷ es) q t
Holds-tail e es q t (i, p, u) = (suc i, p, u)

Holds-cons :
    (e : Entry) (es : List Entry) (q : ℕ) (t : LoopPointer)
    → Holds (e ∷ es) q t
    → ((e.port ≡ q) × (e.target ≡ t)) ⊎ Holds es q t
Holds-cons e es q t (i, p, u) = go i p u
  where
    go :
        (k : ℕ)
        → port_at (e ∷ es) k ≡ q
        → (entry_at (e ∷ es) k).target ≡ t
        → ((e.port ≡ q) × (e.target ≡ t)) ⊎ Holds es q t
    go zero a b = inl (a, b)
    go (suc k) a b = inr (k, a, b)

-- A free or deleted entry is skipped.
skip-Copied :
    (e : Entry) (es nt out : List Entry) → e.port ≡ 0 → Copied es nt out → Copied (e ∷ es) nt out
skip-Copied e es nt out z c = record {
  table = c.table;
  width = c.width;
  used = rw (in_use-zero e z) (omega (arith, c.used));
  none_gone = c.none_gone;
  keeps = λ q t nz h. c.keeps q t nz (elim h [
    | inl a ↦ inl a
    | inr b ↦ elim (Holds-cons e es q t b) [ inl (p, u) ↦ absurd (nz (sym p ∙ z)) | inr d ↦ inr d ]
  ]);
  only = λ q t nz h. elim (c.only q t nz h) [ inl a ↦ inl a | inr b ↦ inr (Holds-tail e es q t b) ];
}

copy-Copied :
    (e : Entry) (es nt out : List Entry) (r : ℕ)
    → r < length nt
    → port_at nt r ≡ 0
    → e.port ≢ 0
    → is_deleted e.target ≡ false
    → gone (entry_at nt r) ≡ false
    → Copied es (set nt r e) out
    → Copied (e ∷ es) nt out
copy-Copied e es nt out r bound free nz alive old c = record {
  table = c.table;
  width = c.width ∙ length-set nt r e;
  used = rw (in_use-nonzero e nz) (omega (arith, c.used, set-used nt r e bound free nz));
  none_gone = c.none_gone ∙ set-gone nt r e bound old alive;
  keeps = λ q t nz h. c.keeps q t nz (elim h [
    | inl a ↦ inl (set-keeps nt r e bound free q t nz a)
    | inr b ↦ elim (Holds-cons e es q t b) [
      | inl (p, u) ↦ inl (rw (← p, ← u) (set-new nt r e bound free))
      | inr d ↦ inr d
    ]
  ]);
  only = λ q t nz h. elim (c.only q t nz h) [
    | inl a ↦ elim (set-only nt r e bound free q t a) [
      | inl b ↦ inl b
      | inr (p, u) ↦ inr (0, sym p, sym u)
    ]
    | inr b ↦ inr (Holds-tail e es q t b)
  ];
}

fewer : (b : Bool) (n m k : ℕ) → b ≡ false → n + (one_if b + m) < k → n + m < k
fewer b n m k e h = let h' = rw e at h in omega (arith, h')

more : (b : Bool) (n n' m k : ℕ) → b ≡ true → n' ≡ n + 1 → n + (one_if b + m) < k → n' + m < k
more b n n' m k e u h = let h' = rw e at h in omega (arith, h')

skip : (e : Entry) (nt : List Entry) → e.port ≡ 0 → rehash_entry (length nt) e nt ≡ copies nt
unfolding rehash_entry
skip e nt z = rw z

-- The other entries' ports are not in the table after the copy of one.
Apart-after :
    (e : Entry) (es nt : List Entry) (r : ℕ)
    → IsSource (e ∷ es)
    → Apart (e ∷ es) nt
    → r < length nt
    → e.port ≢ 0
    → Apart es (set nt r e)
Apart-after e es nt r s apart bound nz i j h = elim (port_set nt r e bound j) [
  | inl (a, b) ↦ λ same. absurd (zero-ne-suc (s.once 0 (suc i) (sym b ∙ same) nz))
  | inr (a, b) ↦ λ same. apart (suc i) j h (sym b ∙ same)
]
  where
    zero-ne-suc : {n : ℕ} → 0 ≡ suc n → ⊥
    zero-ne-suc e' = omega arith

pub rehash_entries-Copied :
    (es nt : List Entry)
    → IsTable nt
    → count_if gone nt ≡ 0
    → count_if in_use nt + count_if in_use es < length nt
    → IsSource es
    → Apart es nt
    → (out : List Entry) × (rehash_entries (length nt) es nt ≡ copies out) × Copied es nt out
unfolding rehash_entries
rehash_entries-Copied [] nt t g lt s apart = (
  nt,
  refl,
  record {
    table = t;
    width = refl;
    used = omega arith;
    none_gone = refl;
    keeps = λ q u nz h. elim h [ inl a ↦ a | inr (i, p, x) ↦ absurd (nz (sym p)) ];
    only = λ q u nz h. inl h;
  },
)
rehash_entries-Copied (e ∷ es) nt t g lt s apart = elim (ℕ_discrete e.port 0) [
  | yes z ↦
      let (out, run, c) =
        rehash_entries-Copied es nt t g
          (fewer (in_use e) (count_if in_use nt) (count_if in_use es) (length nt) (in_use-zero e z)
            lt)
          (IsSource-tail e es s) (λ i. apart (suc i)) in
      (out, rw (skip e nt z) run, skip-Copied e es nt out z c)
  | no nz ↦
      let (r, step, bound, free, table) =
        rehash_entry-Copied e nt t (s.nonnegative 0) nz (s.full 0 nz) (s.alive 0 nz)
          (λ j. apart 0 j nz) (omega arith) in
      let old = not_gone nt r g in
      let used = set-used nt r e bound free nz in
      let (out, run, c) =
        rehash_entries-Copied es (set nt r e) table (set-gone nt r e bound old (s.alive 0 nz) ∙ g)
          (rw length-set (
            more (in_use e) (count_if in_use nt) _ (count_if in_use es) (length nt)
              (in_use-nonzero e nz) used lt))
          (IsSource-tail e es s) (Apart-after e es nt r s apart bound nz) in
      (
        out,
        rw step (rw length-set at run),
        copy-Copied e es nt out r bound free nz (s.alive 0 nz) old c,
      )
]
