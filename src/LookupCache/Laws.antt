-- ===== src/LookupCache/Laws.antt =====
-- The cache never answers with anything but what the uncached lookups, `ordinary` and `ns`, yield.
use primordialsoup.Base.{
  ℕ, zero, suc, ◌+◌, ◌*◌, ◌<◌, u64, ◌≡◌, ◌≢◌, refl, sym, ap, ◌∙◌, true, ◌&&◌, none, some, List, [],
  ◌∷◌, ◌==◌, length, arith, Option-cases, inl, inr,
}
use primordialsoup.Large.Shift.Digit.{bit_or-add}
use primordialsoup.LookupCache.{
  Entry, size, blank, insert, lookup, ordinary_hash, ordinary_test, lookup_ordinary,
  assign_ordinary, insert_ordinary, ns_hash, cid_and_rule, ns_test, lookup_ns, assign_ns, insert_ns,
  clear, clear_entry,
}
use primordialsoup.LookupCache.Fields.{
  All, insert-All, length-insert, lookup-found, insert-first, lookup-first,
}

-- The class ids and the rules that fit in a word together.
abbrev pub InRange : ℕ → ℕ → Type 0
InRange cid rule = (cid < 281474976710656) × (rule < 65536)

cid_and_rule-is : (cid rule : ℕ) → InRange cid rule → cid_and_rule cid rule ≡ cid * 65536 + rule
unfolding cid_and_rule
cid_and_rule-is cid rule h =
    let e : u64 (cid * 65536) ≡ cid * 65536 = ground arith in rw e (bit_or-add 16 cid rule h.1)

-- Two class ids or two rules have two words.
cid_and_rule_inj :
    (cid rule cid' rule' : ℕ)
    → InRange cid rule
    → InRange cid' rule'
    → cid_and_rule cid rule ≡ cid_and_rule cid' rule'
    → (cid ≡ cid') × (rule ≡ rule')
cid_and_rule_inj cid rule cid' rule' h h' e =
    let f : cid * 65536 + rule ≡ cid' * 65536 + rule' =
      sym (cid_and_rule-is cid rule h) ∙ e ∙ cid_and_rule-is cid' rule' h' in
    (omega arith, omega arith)

module _ (ordinary : ℕ → ℕ → ℕ) (ns : ℕ → ℕ → ℕ → ℕ → ℕ × ℕ) where
  -- The fields of an entry whose class id is legal are an answer of the uncached lookup. A key of the
  -- other lookups is that of any class id and rule that it is the word of.
  pub record IsTrue (e : Entry) : Type 0 where
    pub ordinary_is :
        e.ordinary_cid ≢ 0 → e.ordinary_target ≡ ordinary e.ordinary_cid e.ordinary_selector
    pub ns_is :
        (cid rule : ℕ)
        → InRange cid rule
        → cid ≢ 0
        → e.ns_cid_and_rule ≡ cid_and_rule cid rule
        → Path (ℕ × ℕ) (e.ns_absent_receiver, e.ns_target) (ns cid rule e.ns_selector e.ns_caller)

  pub record IsCache (entries : List Entry) : Type 0 where
    pub full : length entries ≡ size
    pub answers : All IsTrue entries

  length-clear : (entries : List Entry) → length (clear entries) ≡ length entries
  unfolding clear
  length-clear [] = refl
  length-clear (e ∷ es) = ap suc (length-clear es)

  nothing : (e : Entry) → e.ordinary_cid ≡ 0 → e.ns_cid_and_rule ≡ 0 → IsTrue e
  nothing e h k = record {
    ordinary_is = λ z. absurd (z h);
    ns_is = λ cid rule b z is. absurd (z (omega (arith, cid_and_rule-is cid rule b, sym k ∙ is)));
  }

  clear-All : (entries : List Entry) → All IsTrue (clear entries)
  unfolding clear
  clear-All [] i = nothing blank refl refl
  clear-All (e ∷ es) zero = nothing (clear_entry e) refl refl
  clear-All (e ∷ es) (suc i) = clear-All es i

  -- `Clear` makes a cache of any entries.
  pub clear-IsCache : (entries : List Entry) → length entries ≡ size → IsCache (clear entries)
  clear-IsCache entries h = record { full = length-clear entries ∙ h; answers = clear-All entries }

  -- `InsertOrdinary` and `InsertNS` of answers of the uncached lookups keep it one, for a class id
  -- below 2 ^ 48 and a rule below 2 ^ 16.
  pub insert-IsCache :
      (entries : List Entry) (cid selector caller rule : ℕ)
      → IsCache entries
      → InRange cid rule
      → IsCache (insert_ordinary entries cid selector (ordinary cid selector))
        × IsCache (insert_ns entries cid selector caller rule (ns cid rule selector caller))
  unfolding insert_ordinary insert_ns
  insert-IsCache entries cid selector caller rule c b = (
    record {
      full = length-insert _ _ entries ∙ c.full;
      answers =
          insert-All IsTrue (assign_ordinary cid selector (ordinary cid selector)) _ entries
            (λ e h. record { ordinary_is = λ z. refl; ns_is = h.ns_is }) c.answers;
    },
    record {
      full = length-insert _ _ entries ∙ c.full;
      answers =
          insert-All IsTrue
            (assign_ns (cid_and_rule cid rule) selector caller (ns cid rule selector caller)) _
            entries
            (λ e h. record {
              ordinary_is = h.ordinary_is;
              ns_is = λ cid' rule' b' z is.
                  let (same_id, same_rule) = cid_and_rule_inj cid rule cid' rule' b b' is in
                  ap (λ (x : ℕ). ns x rule selector caller) same_id
                  ∙ ap (λ (x : ℕ). ns cid' x selector caller) same_rule;
            })
            c.answers;
    },
  )

  ordinary_key :
      (e : Entry) (cid selector : ℕ)
      → ordinary_test cid selector e ≡ true
      → (e.ordinary_cid ≡ cid) × (e.ordinary_selector ≡ selector)
  ordinary_key e cid selector h = ground arith

  ns_key :
      (e : Entry) (key selector caller : ℕ)
      → ns_test key selector caller e ≡ true
      → (e.ns_cid_and_rule ≡ key) × (e.ns_selector ≡ selector) × (e.ns_caller ≡ caller)
  ns_key e key selector caller h = ground arith

  some_inj : {A : Type 0} (a b : A) → some a ≡ some b → a ≡ b
  some_inj a b h = cc

  none-some : {A : Type 0} (a : A) → none ≡ some a → ⊥
  none-some a h = cc

  -- What `LookupOrdinary` finds in a cache, for a legal class id, is what the uncached lookup yields.
  pub lookup_ordinary-is :
      (entries : List Entry) (cid selector target : ℕ)
      → IsCache entries
      → cid ≢ 0
      → lookup_ordinary entries cid selector ≡ some target
      → target ≡ ordinary cid selector
  unfolding lookup_ordinary
  lookup_ordinary-is entries cid selector target c legal run =
      elim (Option-cases
        (lookup (ordinary_test cid selector) (ordinary_hash cid selector) entries)) [
          | inl h ↦ absurd (none-some target (rw (lookup_ordinary, h) at run))
          | inr (e, h) ↦
              let (true_entry, passed) =
                lookup-found IsTrue (ordinary_test cid selector) (ordinary_hash cid selector)
                  entries e c.answers h in
              let (id, name) = ordinary_key e cid selector passed in
              let is = some_inj e.ordinary_target target (rw (lookup_ordinary, h) at run) in
              sym is
              ∙ true_entry.ordinary_is (λ z. legal (sym id ∙ z))
              ∙ ap (λ (x : ℕ). ordinary x e.ordinary_selector) id
              ∙ ap (ordinary cid) name
        ]

  -- What `LookupNS` finds in a cache, for a legal class id below 2 ^ 48 and a rule below 2 ^ 16, is what
  -- the uncached lookup yields for this class id and rule, the selector and the caller.
  pub lookup_ns-is :
      (entries : List Entry) (cid selector caller rule : ℕ) (found : ℕ × ℕ)
      → IsCache entries
      → InRange cid rule
      → cid ≢ 0
      → lookup_ns entries cid selector caller rule ≡ some found
      → found ≡ ns cid rule selector caller
  unfolding lookup_ns
  lookup_ns-is entries cid selector caller rule found c b legal run =
      let test = ns_test (cid_and_rule cid rule) selector caller in
      elim (Option-cases (lookup test (ns_hash cid selector caller) entries)) [
        | inl h ↦ absurd (none-some found (rw (lookup_ns, h) at run))
        | inr (e, h) ↦
            let (true_entry, passed) =
              lookup-found IsTrue test (ns_hash cid selector caller) entries e c.answers h in
            let (id, name, from) = ns_key e (cid_and_rule cid rule) selector caller passed in
            let is =
              some_inj (e.ns_absent_receiver, e.ns_target) found (rw (lookup_ns, h) at run) in
            sym is
            ∙ true_entry.ns_is cid rule b legal id
            ∙ ap (λ (x : ℕ). ns cid rule x e.ns_caller) name
            ∙ ap (ns cid rule selector) from
      ]

same_test : (cid selector : ℕ) → ((cid == cid) && (selector == selector)) ≡ true
same_test cid selector = ground arith

same_ns_test :
    (key selector caller : ℕ)
    → ((key == key) && ((selector == selector) && (caller == caller))) ≡ true
same_ns_test key selector caller = ground arith

-- What was inserted last for a key is found, in as many entries as there are, of any content.
pub lookup-insert :
    (entries : List Entry) (cid selector target caller rule : ℕ) (found : ℕ × ℕ)
    → length entries ≡ size
    → (lookup_ordinary (insert_ordinary entries cid selector target) cid selector ≡ some target)
      × (lookup_ns (insert_ns entries cid selector caller rule found) cid selector caller rule
          ≡ some found)
unfolding lookup_ordinary insert_ordinary lookup_ns insert_ns
lookup-insert entries cid selector target caller rule found h =
    let (e, is) =
      insert-first (assign_ordinary cid selector target) (ordinary_hash cid selector) entries h in
    let (e', is') =
      insert-first (assign_ns (cid_and_rule cid rule) selector caller found)
        (ns_hash cid selector caller) entries h in
    (
      rw (
        lookup_ordinary,
        insert_ordinary,
        lookup-first (ordinary_test cid selector) (ordinary_hash cid selector)
            (insert (assign_ordinary cid selector target) (ordinary_hash cid selector) entries)
            (assign_ordinary cid selector target e) is (same_test cid selector),
      ),
      rw (
        lookup_ns,
        insert_ns,
        lookup-first (ns_test (cid_and_rule cid rule) selector caller) (ns_hash cid selector caller)
            (insert (assign_ns (cid_and_rule cid rule) selector caller found)
              (ns_hash cid selector caller) entries)
            (assign_ns (cid_and_rule cid rule) selector caller found e') is'
            (same_ns_test (cid_and_rule cid rule) selector caller),
      ),
    )
