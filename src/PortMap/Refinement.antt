-- ===== src/PortMap/Refinement.antt =====
-- The table refines the directory.
use primordialsoup.Base.{
  ℕ, ◌≡◌, ◌≢◌, ◌↔◌, refl, sym, ap, ◌∙◌, Bool, true, false, ◌⊎◌, inl, inr, Option, none, some, List,
  [], ◌∷◌, ◌==◌, Bool-cases, Option-cases, arith, ℕ_discrete,
}
use primordialsoup.PortMap.{
  LoopPointer, null, deleted, loop, PortMap, is_null, is_deleted, entry_at, post_message,
  close_port, find_port,
}
use primordialsoup.PortMap.Table.{port_at, IsTable}
use primordialsoup.PortMap.Bound.{Holds}
use primordialsoup.PortMap.Invariant.{IsPortMap}
use primordialsoup.PortMap.Operations.{Absent, find_port-cases, allocate_port-Absent}
use primordialsoup.PortMap.Bindings.{
  create_port-Adds, close_port-Removes, close_port-Absent, post_message_lem,
}
use primordialsoup.PortMap.CloseAll.{close_all_ports-RemovesLoop}
use primordialsoup.PortMap.Directory.{
  Directory, bind, unbind, unless_loop, unbind_loop, Call, create, post, close, close_all, Reply,
  created, posted, closed, closed_all, call, as_pointer, is_bound, Allows, creates, posts, closes,
  closes_all, Shows, IsReady, run, AllowsAll, done, then_calls, AllReady,
}

-- The result of a call.
pub record Refines (m : PortMap) (f : Directory) (c : Call) : Type 0 where
  pub reply : Reply
  pub after : PortMap
  pub view : Directory
  pub run : call m c ≡ some (reply, after)
  pub allowed : Allows f c reply view
  pub valid : IsPortMap after
  pub shows : Shows after view

live_loop : (t : LoopPointer) → is_null t ≡ false → is_deleted t ≡ false → (l : ℕ) × (t ≡ loop l)
live_loop null h k = cc
live_loop deleted h k = cc
live_loop (loop l) h k = (l, refl)

none-some : {l : ℕ} → none ≡ some l → ⊥
none-some h = cc

some_inj : {k l : ℕ} → some k ≡ some l → k ≡ l
some_inj h = cc

loop_inj : {k l : ℕ} → loop k ≡ loop l → k ≡ l
loop_inj h = cc

true-false : {b : Bool} → b ≡ true → b ≡ false → ⊥
true-false h k = cc

same_test : (p q : ℕ) → q ≡ p → (q == p) ≡ true
same_test p q h = ground arith

other_test : (p q : ℕ) → q ≢ p → (q == p) ≡ false
other_test p q h = ground arith

-- An entry with a port has a loop.
entry_loop :
    (m : PortMap) (i : ℕ)
    → IsTable m.map
    → port_at m.map i ≢ 0
    → (l : ℕ) × ((entry_at m.map i).target ≡ loop l)
entry_loop m i t nz = elim (Bool-cases (is_null (entry_at m.map i).target)) [
  | inl e ↦ absurd (nz (t.free_port i e))
  | inr e ↦ live_loop (entry_at m.map i).target e (t.live i nz)
]

post_zero : (m : PortMap) → post_message m 0 ≡ some none
unfolding post_message find_port
post_zero m = refl

close_zero : (m : PortMap) → close_port m 0 ≡ some (false, m)
unfolding close_port find_port
close_zero m = refl

unbind-none : (f : Directory) (p q : ℕ) → f q ≡ none → unbind p f q ≡ none
unbind-none f p q h = elim (Bool-cases (q == p)) [ inl e ↦ rw e refl | inr e ↦ rw e h ]

unless_loop-some : (l k : ℕ) (o : Option ℕ) → unless_loop l o ≡ some k → (o ≡ some k) × (k ≢ l)
unless_loop-some l k none h = absurd (none-some h)
unless_loop-some l k (some j) h = ground arith

module _ (m : PortMap) (f : Directory) (v : IsPortMap m) (s : Shows m f) where
  nonzero : (q l : ℕ) → f q ≡ some l → q ≢ 0
  nonzero q l h z = none-some (sym s.nothing ∙ ap f (sym z) ∙ h)

  -- A port has an entry, or neither an entry nor a loop.
  Shows-cases :
      (q : ℕ)
      → q ≢ 0
      → ((i : ℕ) × (l : ℕ) × (port_at m.map i ≡ q)
          × ((entry_at m.map i).target ≡ loop l)
          × (f q ≡ some l))
        ⊎ (Absent m q × (f q ≡ none))
  Shows-cases q nz = elim (find_port-cases m q v nz) [
    | inl (i, e, run) ↦
        let (l, t) = entry_loop m i v.counted.table (λ z. nz (sym e ∙ z)) in
        inl (i, l, e, t, s.only q l nz (i, e, t))
    | inr (absent, run) ↦ elim (Option-cases (f q)) [
      | inl h ↦ inr (absent, h)
      | inr (l, h) ↦ let (i, e, t) = s.bound q l h in absurd (absent i e)
    ]
  ]

  create-Refines :
      (random : List ℕ) (l : ℕ) → IsReady m (create random l) → Refines m f (create random l)
  unfolding call
  create-Refines random l (p, gets, small) =
      let (n, run, valid, absent, adds) = create_port-Adds m random p l v gets small in
      let (nz, fresh) = allocate_port-Absent m random p v gets in
      record {
        reply = created p;
        after = n;
        view = bind p l f;
        run = rw run;
        allowed = elim (Shows-cases p nz) [
          | inl (i, k, e, t, h) ↦ absurd (absent i e)
          | inr (a, h) ↦ creates random l p nz h
        ];
        valid = valid;
        shows = record {
          nothing = rw (other_test p 0 (λ z. nz (sym z))) s.nothing;
          bound = λ q k. elim (ℕ_discrete q p) [
            | yes e ↦ λ h.
                let same : l ≡ k = some_inj (rw (same_test p q e) at h) in rw (e, ← same) adds.new
            | no e ↦ λ h.
                let old : f q ≡ some k = rw (other_test p q e) at h in
                adds.old q (loop k) (nonzero q k old) (s.bound q k old)
          ];
          only = λ q k z h. elim (adds.only q (loop k) z h) [
            | inl (i, e, t) ↦
                rw (other_test p q (λ same. absent i (e ∙ same))) (s.only q k z (i, e, t))
            | inr (e, t) ↦ rw (same_test p q e) (ap some (sym (loop_inj t)))
          ];
        };
      }

  post-Refines : (p : ℕ) → Refines m f (post p)
  unfolding call
  post-Refines p = record {
    reply = posted (as_pointer (f p));
    after = m;
    view = f;
    run = elim (ℕ_discrete p 0) [
      | yes z ↦ rw (z, s.nothing, post_zero m)
      | no nz ↦ elim (Shows-cases p nz) [
        | inl (i, l, e, t, h) ↦ rw (h, (post_message_lem m p v).0 (loop l) nz (i, e, t))
        | inr (absent, h) ↦ rw (h, (post_message_lem m p v).1 absent)
      ]
    ];
    allowed = posts p;
    valid = v;
    shows = s;
  }

  -- The directory without a port, of a table that has no such entry.
  Shows-unbind :
      (p : ℕ) (n : PortMap)
      → ((q k : ℕ) → q ≢ 0 → q ≢ p → Holds m.map q (loop k) ↔ Holds n.map q (loop k))
      → (p ≢ 0 → Absent n p)
      → Shows n (unbind p f)
  Shows-unbind p n others left = record {
    nothing = unbind-none f p 0 s.nothing;
    bound = λ q k h. elim (ℕ_discrete q p) [
      | yes e ↦ absurd (none-some (rw (same_test p q e) at h))
      | no e ↦
          let old : f q ≡ some k = rw (other_test p q e) at h in
          (others q k (nonzero q k old) e).0 (s.bound q k old)
    ];
    only = λ q k z b. elim (ℕ_discrete q p) [
      | yes e ↦ absurd (left (λ w. z (e ∙ w)) (b.0) (b.1 ∙ e))
      | no e ↦ rw (other_test p q e) (s.only q k z ((others q k z e).1 b))
    ];
  }

  close_none :
      (p : ℕ)
      → f p ≡ none
      → (p ≢ 0 → Absent m p)
      → close_port m p ≡ some (false, m)
      → Refines m f (close p)
  unfolding call
  close_none p h absent run = record {
    reply = closed (is_bound (f p));
    after = m;
    view = unbind p f;
    run = rw (run, h);
    allowed = closes p;
    valid = v;
    shows = Shows-unbind p m (λ q k z ne. (λ b. b, λ b. b)) absent;
  }

  close-Refines : (p : ℕ) → Refines m f (close p)
  unfolding call
  close-Refines p = elim (ℕ_discrete p 0) [
    | yes z ↦
        close_none p (ap f z ∙ s.nothing) (λ nz. absurd (nz z)) (ap (close_port m) z ∙ close_zero m)
    | no nz ↦ elim (Shows-cases p nz) [
      | inl (i, l, e, t, h) ↦
          let (n, run, valid, removes) = close_port-Removes m p i v nz e in
          record {
            reply = closed (is_bound (f p));
            after = n;
            view = unbind p f;
            run = rw (run, h);
            allowed = closes p;
            valid = valid;
            shows = Shows-unbind p n (λ q k. removes.others q (loop k)) (λ w. removes.closed);
          }
      | inr (absent, h) ↦ close_none p h (λ w. absent) (close_port-Absent m p v absent)
    ]
  ]

  close_all-Refines : (l : ℕ) → Refines m f (close_all l)
  unfolding call
  close_all-Refines l =
      let (n, run, valid, removes) = close_all_ports-RemovesLoop m l v in
      record {
        reply = closed_all;
        after = n;
        view = unbind_loop l f;
        run = rw run;
        allowed = closes_all l;
        valid = valid;
        shows = record {
          nothing = rw (s.nothing) refl;
          bound = λ q k h.
              let (old, ne) = unless_loop-some l k (f q) h in
              removes.kept q k (nonzero q k old) ne (s.bound q k old);
          only = λ q k z b.
              let (ne, old) = removes.only q k z b in rw (s.only q k z old, other_test l k ne) refl;
        };
      }

  -- A call on the table ends without a fault, returns what the directory allows, and leaves a table
  -- that keeps the invariant and has the bindings of the directory after the call; `CreatePort` if the
  -- random numbers have a port that is free and the first such is not negative.
  pub call-Refines : (c : Call) → IsReady m c → Refines m f c
  call-Refines (create random l) ready = create-Refines random l ready
  call-Refines (post p) ready = post-Refines p
  call-Refines (close p) ready = close-Refines p
  call-Refines (close_all l) ready = close_all-Refines l

-- No sequence of calls tells a table that keeps the invariant from the directory of its bindings: it
-- ends without a fault, returns what the directory allows, and leaves a table that keeps the invariant
-- and has the bindings of the directory after it. Each `CreatePort` must get random numbers that have
-- a port that is free, and the first such, which it takes, must not be negative.
pub run-AllowsAll :
    (cs : List Call) (m : PortMap) (f : Directory)
    → IsPortMap m
    → Shows m f
    → AllReady m cs
    → (rs : List Reply) × (n : PortMap) × (g : Directory) × (run m cs ≡ some (rs, n))
      × AllowsAll f cs rs g
      × IsPortMap n
      × Shows n g
unfolding run
run-AllowsAll [] m f v s ready = ([], m, f, refl, done f, v, s)
run-AllowsAll (c ∷ cs) m f v s (ready, later) =
    let one = call-Refines m f v s c ready in
    let (rs, n, g, runs, allowed, valid, shows) =
      run-AllowsAll cs one.after one.view one.valid one.shows (later one.reply one.after one.run) in
    (
      one.reply ∷ rs,
      n,
      g,
      rw (one.run, runs) refl,
      then_calls f one.view g c cs one.reply rs one.allowed allowed,
      valid,
      shows,
    )
