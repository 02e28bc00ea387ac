-- ===== src/PortMap/Bindings.antt =====
-- `CreatePort` adds one binding, `ClosePort` removes one, and `PostMessage` follows them.
use primordialsoup.Base.{
  ℕ, ◌+◌, ◌-◌, ◌<◌, ◌≡◌, ◌≢◌, ◌↔◌, refl, sym, ap, ◌∙◌, Bool, true, false, ◌⊎◌, inl, inr, none, some,
  List, if◌then◌else◌, length-set, arith,
}
use primordialsoup.PortMap.{
  LoopPointer, loop, Entry, PortMap, deleted_entry, is_deleted, entry_at, insert_entry, create_port,
  allocate_port, post_message, close_port, delete_at,
}
use primordialsoup.PortMap.Table.{port_at, IsTable, in_bounds}
use primordialsoup.PortMap.Update.{probe-insert, delete-IsTable, entry_set, port_set}
use primordialsoup.PortMap.Count.{one_if, in_use, gone, count_if-set}
use primordialsoup.PortMap.Bound.{Holds, set-keeps, set-new, set-only, set-used, in_use-nonzero}
use primordialsoup.PortMap.Invariant.{
  IsCounted, IsPortMap, SameBindings, maintain_invariants-IsPortMap,
}
use primordialsoup.PortMap.Operations.{
  Absent, some_free, find_port-present, find_port-Absent, allocate_port-Absent,
}

-- `n` has the bindings of `m` and one more.
pub record Adds (m n : PortMap) (port : ℕ) (target : LoopPointer) : Type 0 where
  pub new : Holds n.map port target
  pub old : (q : ℕ) (t : LoopPointer) → q ≢ 0 → Holds m.map q t → Holds n.map q t
  pub only :
      (q : ℕ) (t : LoopPointer)
      → q ≢ 0
      → Holds n.map q t
      → Holds m.map q t ⊎ ((q ≡ port) × (t ≡ target))

gone-step : (n k : ℕ) (b : Bool) → n + one_if b ≡ k + 0 → n ≡ (if b then k - 1 else k)
gone-step n k true h = omega arith
gone-step n k false h = omega arith

insert_entry-IsCounted :
    (m : PortMap) (port l : ℕ)
    → IsPortMap m
    → port ≢ 0
    → port < 9223372036854775808
    → Absent m port
    → (n : PortMap) × (insert_entry m port l ≡ some n) × IsCounted n × Adds m n port (loop l)
unfolding insert_entry
insert_entry-IsCounted m port l v nz small fresh =
    let (j, bound, free) = some_free m v in
    let c = v.counted in
    let (r, run, lt, unused, keep) =
      probe-insert m.map port j c.table nz fresh bound (c.table.free_port j free) in
    let e : Entry = record { port = port; target = loop l } in
    (
      _,
      rw (rw (c.width) at run),
      record {
        table = keep (loop l) refl refl;
        width = length-set m.map r e ∙ c.width;
        used_is = set-used m.map r e lt unused nz ∙ ap (λ (t : ℕ). t + 1) c.used_is;
        deleted_is =
            gone-step _ _ (is_deleted (entry_at m.map r).target)
              (count_if-set gone m.map r e lt ∙ ap (λ (t : ℕ). t + 0) c.deleted_is);
        quarters = c.quarters;
        some_capacity = c.some_capacity;
        nonnegative = λ i. elim (port_set m.map r e lt i) [
          | inl (a, b) ↦ rw b small
          | inr (a, b) ↦ rw b (c.nonnegative i)
        ];
      },
      record {
        new = set-new m.map r e lt unused;
        old = set-keeps m.map r e lt unused;
        only = λ q t nz'. set-only m.map r e lt unused q t;
      },
    )

Adds-Same :
    (m n k : PortMap) (port : ℕ) (t : LoopPointer)
    → port ≢ 0
    → Adds m n port t
    → SameBindings n k
    → Adds m k port t
Adds-Same m n k port t nz a s = record {
  new = (s port t nz).0 a.new;
  old = λ q u h z. (s q u h).0 (a.old q u h z);
  only = λ q u h z. a.only q u h ((s q u h).1 z);
}

-- If `AllocatePort` gets a port that is not negative, `CreatePort` returns it without a fault, keeps
-- the invariant, and adds the binding of this port, which was not bound, to the loop, and no other.
pub create_port-Adds :
    (m : PortMap) (random : List ℕ) (port l : ℕ)
    → IsPortMap m
    → allocate_port m random ≡ some port
    → port < 9223372036854775808
    → (n : PortMap) × (create_port m random l ≡ some (port, n))
      × IsPortMap n
      × Absent m port
      × Adds m n port (loop l)
unfolding create_port
create_port-Adds m random port l v h small =
    let (nz, fresh) = allocate_port-Absent m random port v h in
    let (n, run, counted, adds) = insert_entry-IsCounted m port l v nz small fresh in
    let (k, run', valid, same) = maintain_invariants-IsPortMap n counted in
    (k, rw (h, run, run'), valid, fresh, Adds-Same m n k port (loop l) nz adds same)

-- `n` has the bindings of `m` but that of `port`.
pub record Removes (m n : PortMap) (port : ℕ) : Type 0 where
  pub closed : Absent n port
  pub others : (q : ℕ) (t : LoopPointer) → q ≢ 0 → q ≢ port → Holds m.map q t ↔ Holds n.map q t

pub delete_at-IsCounted :
    (m : PortMap) (i : ℕ) → IsCounted m → port_at m.map i ≢ 0 → IsCounted (delete_at m i)
delete_at-IsCounted m i c nz =
    let lt = in_bounds m.map i nz in
    let used = count_if-set in_use m.map i deleted_entry lt in
    let dead = count_if-set gone m.map i deleted_entry lt in
    let used' = rw (in_use-nonzero (entry_at m.map i) nz) at used in
    let dead' = rw (c.table.live i nz) at dead in
    record {
      table = delete-IsTable m.map i c.table lt;
      width = length-set m.map i deleted_entry ∙ c.width;
      used_is = omega (arith, used', c.used_is);
      deleted_is = omega (arith, dead', c.deleted_is);
      quarters = c.quarters;
      some_capacity = c.some_capacity;
      nonnegative = λ j. elim (port_set m.map i deleted_entry lt j) [
        | inl (a, b) ↦ rw b (omega arith)
        | inr (a, b) ↦ rw b (c.nonnegative j)
      ];
    }

delete_at-Removes :
    (m : PortMap) (port i : ℕ)
    → IsTable m.map
    → port ≢ 0
    → port_at m.map i ≡ port
    → Removes m (delete_at m i) port
delete_at-Removes m port i t nz e =
    let lt = in_bounds m.map i (λ z. nz (sym e ∙ z)) in
    record {
      closed = λ j same. elim (port_set m.map i deleted_entry lt j) [
        | inl (a, b) ↦ nz (sym same ∙ b)
        | inr (a, b) ↦ a (t.unique j i (sym b ∙ same ∙ sym e) (λ z. nz (sym same ∙ b ∙ z)))
      ];
      others = λ q u h ne. (
        λ z. (
          z.0,
          elim (entry_set m.map i deleted_entry lt z.0) [
            | inl (a, b) ↦ absurd (ne (sym z.1 ∙ ap (port_at m.map) a ∙ e))
            | inr (a, b) ↦ ap (λ (x : Entry). x.port) b ∙ z.1
          ],
          elim (entry_set m.map i deleted_entry lt z.0) [
            | inl (a, b) ↦ absurd (ne (sym z.1 ∙ ap (port_at m.map) a ∙ e))
            | inr (a, b) ↦ ap (λ (x : Entry). x.target) b ∙ z.2
          ],
        ),
        λ z. (
          z.0,
          elim (entry_set m.map i deleted_entry lt z.0) [
            | inl (a, b) ↦ absurd (h (sym z.1 ∙ ap (λ (x : Entry). x.port) b))
            | inr (a, b) ↦ sym (ap (λ (x : Entry). x.port) b) ∙ z.1
          ],
          elim (entry_set m.map i deleted_entry lt z.0) [
            | inl (a, b) ↦ absurd (h (sym z.1 ∙ ap (λ (x : Entry). x.port) b))
            | inr (a, b) ↦ sym (ap (λ (x : Entry). x.target) b) ∙ z.2
          ],
        ),
      );
    }

Removes-Same :
    (m n k : PortMap) (port : ℕ) → port ≢ 0 → Removes m n port → SameBindings n k → Removes m k port
Removes-Same m n k port nz r s = record {
  closed = λ j e.
      let back = (s port (entry_at k.map j).target nz).1 (j, e, refl) in r.closed back.0 back.1;
  others = λ q t h ne.
      (λ z. (s q t h).0 ((r.others q t h ne).0 z), λ z. (r.others q t h ne).1 ((s q t h).1 z));
}

-- `ClosePort` on a bound port returns true, keeps the invariant, and removes its binding and no other.
pub close_port-Removes :
    (m : PortMap) (port i : ℕ)
    → IsPortMap m
    → port ≢ 0
    → port_at m.map i ≡ port
    → (n : PortMap) × (close_port m port ≡ some (true, n)) × IsPortMap n × Removes m n port
unfolding close_port
close_port-Removes m port i v nz e =
    let c = v.counted in
    let (n, run, valid, same) =
      maintain_invariants-IsPortMap (delete_at m i)
        (delete_at-IsCounted m i c (λ z. nz (sym e ∙ z))) in
    (
      n,
      rw (find_port-present m port i v nz e, run),
      valid,
      Removes-Same m (delete_at m i) n port nz (delete_at-Removes m port i c.table nz e) same,
    )

-- `ClosePort` on a port that is not bound returns false, and changes nothing.
pub close_port-Absent :
    (m : PortMap) (port : ℕ) → IsPortMap m → Absent m port → close_port m port ≡ some (false, m)
unfolding close_port
close_port-Absent m port v absent = rw (find_port-Absent m port v absent)

-- `PostMessage` hands the message to the loop that the port is bound to, and to none if there is none.
pub post_message_lem :
    (m : PortMap) (port : ℕ)
    → IsPortMap m
    → ((t : LoopPointer) → port ≢ 0 → Holds m.map port t → post_message m port ≡ some (some t))
      × (Absent m port → post_message m port ≡ some none)
unfolding post_message
post_message_lem m port v = (
  λ t nz (i, e, u). rw (find_port-present m port i v nz e, u),
  λ absent. rw (find_port-Absent m port v absent),
)
