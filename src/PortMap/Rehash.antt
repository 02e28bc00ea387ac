-- ===== src/PortMap/Rehash.antt =====
-- `Rehash` copies a table whose ports are not negative as an `int64_t`.
use primordialsoup.Base.{
  ℕ, ◌<◌, ◌≡◌, ◌≢◌, ◌↔◌, refl, sym, ap, ◌∙◌, false, inl, inr, List, replicate, length,
  length-replicate, Bool-cases, arith, get_or-replicate,
}
use primordialsoup.PortMap.{LoopPointer, Entry, empty_entry, is_null, copies, rehash_entries}
use primordialsoup.PortMap.Table.{port_at, null_at, IsTable}
use primordialsoup.PortMap.Count.{count_if, in_use, gone, count_if-replicate}
use primordialsoup.PortMap.Bound.{Holds}
use primordialsoup.PortMap.Copied.{IsSource, Apart, rehash_entries-Copied}

-- The fresh table.
pub fresh-IsTable : (n : ℕ) → IsTable (replicate n empty_entry)
fresh-IsTable n = record {
  free_port = λ i h. ap (λ (x : Entry). x.port) (get_or-replicate n i empty_entry);
  live = λ i h. absurd (h (ap (λ (x : Entry). x.port) (get_or-replicate n i empty_entry)));
  occupied =
      λ i z h. cc (h, ap (λ (x : Entry). is_null x.target) (get_or-replicate n i empty_entry));
  unique = λ i j e h. absurd (h (ap (λ (x : Entry). x.port) (get_or-replicate n i empty_entry)));
  reach = λ i h. absurd (h (ap (λ (x : Entry). x.port) (get_or-replicate n i empty_entry)));
}

IsTable-IsSource :
    (es : List Entry) → IsTable es → ((i : ℕ) → port_at es i < 9223372036854775808) → IsSource es
IsTable-IsSource es t small = record {
  nonnegative = small;
  full = λ i h. not_free es i t h;
  alive = t.live;
  once = t.unique;
}
  where
    not_free : (xs : List Entry) (i : ℕ) → IsTable xs → port_at xs i ≢ 0 → null_at xs i ≡ false
    not_free xs i u h = elim (Bool-cases (null_at xs i)) [
      | inl e ↦ absurd (h (u.free_port i e))
      | inr e ↦ e
    ]

-- `new_ports` after `Rehash`: a table of the new capacity with the same bindings, and nothing deleted.
pub record Rehashed (es out : List Entry) (capacity : ℕ) : Type 0 where
  pub table : IsTable out
  pub width : length out ≡ capacity
  pub used : count_if in_use out ≡ count_if in_use es
  pub none_gone : count_if gone out ≡ 0
  pub same : (q : ℕ) (t : LoopPointer) → q ≢ 0 → Holds es q t ↔ Holds out q t

pub rehash_entries-Rehashed :
    (es : List Entry) (capacity : ℕ)
    → IsTable es
    → ((i : ℕ) → port_at es i < 9223372036854775808)
    → count_if in_use es < capacity
    → (out : List Entry) × (rehash_entries capacity es (replicate capacity empty_entry)
        ≡ copies out)
      × Rehashed es out capacity
rehash_entries-Rehashed es capacity t small lt =
    let nt = replicate capacity empty_entry in
    let wide = length-replicate capacity empty_entry in
    let none_used = count_if-replicate in_use capacity refl in
    let none_gone = count_if-replicate gone capacity refl in
    let (out, run, c) =
      rehash_entries-Copied es nt (fresh-IsTable capacity) none_gone
        (omega (arith, wide, none_used)) (IsTable-IsSource es t small) (apart_fresh es capacity) in
    (
      out,
      rw wide at run,
      record {
        table = c.table;
        width = c.width ∙ wide;
        used = omega (arith, c.used, none_used);
        none_gone = c.none_gone ∙ none_gone;
        same = λ q u nz. (
          λ h. c.keeps q u nz (inr h),
          λ h. elim (c.only q u nz h) [
            | inl (i, p, x) ↦
                absurd (
                  nz (sym p ∙ ap (λ (y : Entry). y.port) (get_or-replicate capacity i empty_entry)))
            | inr b ↦ b
          ],
        );
      },
    )
  where
    apart_fresh : (xs : List Entry) (n : ℕ) → Apart xs (replicate n empty_entry)
    apart_fresh xs n i j h same =
        h (sym same ∙ ap (λ (y : Entry). y.port) (get_or-replicate n j empty_entry))
