-- ===== src/LookupCache/Tests.antt =====
-- The cache at concrete keys: a class id, and words for a selector, a method and an object.
use primordialsoup.Base.{ℕ, ◌+◌, ◌≡◌, some, List, replicate, length-replicate, arith}
use primordialsoup.LookupCache.{
  Entry, blank, size, lookup_ordinary, insert_ordinary, lookup_ns, insert_ns, clear,
}
use primordialsoup.LookupCache.Laws.{
  InRange, IsCache, clear-IsCache, insert-IsCache, lookup_ordinary-is, lookup_ns-is, lookup-insert,
}

abbrev ordinary : ℕ → ℕ → ℕ
ordinary cid selector = cid + selector

abbrev ns : ℕ → ℕ → ℕ → ℕ → ℕ × ℕ
ns cid rule selector caller = (selector + rule, cid + caller)

abbrev entries : List Entry
entries = replicate size blank

cleared-IsCache : IsCache ordinary ns (clear entries)
cleared-IsCache = clear-IsCache ordinary ns entries (length-replicate 512 blank)

in_range : InRange 23 257
in_range = (omega arith, omega arith)

insert-IsCache_example :
    IsCache ordinary ns (insert_ordinary (clear entries) 23 4096 4119)
    × IsCache ordinary ns (insert_ns (clear entries) 23 4096 8192 257 (ns 23 257 4096 8192))
insert-IsCache_example =
    insert-IsCache ordinary ns (clear entries) 23 4096 8192 257 cleared-IsCache in_range

lookup-insert_example :
    (lookup_ordinary (insert_ordinary (clear entries) 23 4096 4119) 23 4096 ≡ some 4119)
    × (lookup_ns (insert_ns (clear entries) 23 4096 8192 257 (7, 9)) 23 4096 8192 257 ≡ some (7, 9))
lookup-insert_example =
    lookup-insert (clear entries) 23 4096 4119 8192 257 (7, 9) cleared-IsCache.full

lookup_ordinary-is_example : 4119 ≡ ordinary 23 4096
lookup_ordinary-is_example =
    lookup_ordinary-is ordinary ns (insert_ordinary (clear entries) 23 4096 4119) 23 4096 4119
      insert-IsCache_example.0 (λ e. omega (arith, e)) lookup-insert_example.0

lookup_ns-is_example : Path (ℕ × ℕ) (ns 23 257 4096 8192) (ns 23 257 4096 8192)
lookup_ns-is_example =
    lookup_ns-is ordinary ns (insert_ns (clear entries) 23 4096 8192 257 (ns 23 257 4096 8192)) 23
      4096 8192 257 (ns 23 257 4096 8192) insert-IsCache_example.1 in_range (λ e. omega (arith, e))
      (lookup-insert (clear entries) 23 4096 4119 8192 257 (ns 23 257 4096 8192)
        cleared-IsCache.full).1
