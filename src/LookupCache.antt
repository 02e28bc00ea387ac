-- ===== src/LookupCache.antt =====
-- `vm/lookup_cache.h` and `vm/lookup_cache.cc`: the cache of method lookups, two places for each key.
-- A class id, a selector, a method and an object are 64-bit words; a method is the word that points to
-- it. The ordinary and the other lookups share the entries, but not their fields.
pub mod Fields
pub mod Laws
mod Tests
use primordialsoup.Base.{
  ℕ, zero, suc, ◌+◌, ◌-◌, ◌*◌, ◌/◌, ◌%◌, ◌^◌, Bool, true, false, ◌&&◌, Option, none, some, List, [],
  ◌∷◌, ltb, ◌==◌, if◌then◌else◌, get_or, set, replicate, map, bit_or, bit_xor, u64,
}

pub record Entry : Type 0 where
  pub ordinary_cid : ℕ
  pub ordinary_selector : ℕ
  pub ordinary_target : ℕ
  pub ns_cid_and_rule : ℕ
  pub ns_selector : ℕ
  pub ns_caller : ℕ
  pub ns_absent_receiver : ℕ
  pub ns_target : ℕ

abbrev pub size : ℕ
size = 512

-- `x >> bits` on the pattern of an `intptr_t`.
unfoldable pub sar : ℕ → ℕ → ℕ
sar x bits =
    if ltb x 9223372036854775808
    then x / 2 ^ bits
    else x / 2 ^ bits + (18446744073709551616 - 2 ^ (64 - bits))

-- `hash & kMask` and `(hash >> 3) & kMask`.
abbrev pub probe1 : ℕ → ℕ
probe1 hash = hash % size

unfoldable pub probe2 : ℕ → ℕ
probe2 hash = sar hash 3 % size

abbrev pub blank : Entry
blank = record {
  ordinary_cid = 0;
  ordinary_selector = 0;
  ordinary_target = 0;
  ns_cid_and_rule = 0;
  ns_selector = 0;
  ns_caller = 0;
  ns_absent_receiver = 0;
  ns_target = 0;
}

abbrev pub entry_at : List Entry → ℕ → Entry
entry_at entries i = get_or entries i blank

-- The assignments to some fields of the entries at both places.
unfoldable pub insert : (Entry → Entry) → ℕ → List Entry → List Entry
insert assign hash entries =
    let first = set entries (probe1 hash) (assign (entry_at entries (probe1 hash))) in
    set first (probe2 hash) (assign (entry_at first (probe2 hash)))

-- The entry that passes the test, at the first place or else at the second.
unfoldable pub lookup : (Entry → Bool) → ℕ → List Entry → Option Entry
lookup test hash entries =
    if test (entry_at entries (probe1 hash))
    then some (entry_at entries (probe1 hash))
    else if test (entry_at entries (probe2 hash))
    then some (entry_at entries (probe2 hash))
    else none

unfoldable pub ordinary_hash : ℕ → ℕ → ℕ
ordinary_hash cid selector = bit_xor cid (sar selector 4)

abbrev pub ordinary_test : ℕ → ℕ → Entry → Bool
ordinary_test cid selector e = (e.ordinary_cid == cid) && (e.ordinary_selector == selector)

unfoldable pub lookup_ordinary : List Entry → ℕ → ℕ → Option ℕ
lookup_ordinary entries cid selector =
    elim (lookup (ordinary_test cid selector) (ordinary_hash cid selector) entries) [
      | none ↦ none
      | some e ↦ some e.ordinary_target
    ]

abbrev pub assign_ordinary : ℕ → ℕ → ℕ → Entry → Entry
assign_ordinary cid selector target e = record e {
  ordinary_cid = cid;
  ordinary_selector = selector;
  ordinary_target = target;
}

unfoldable pub insert_ordinary : List Entry → ℕ → ℕ → ℕ → List Entry
insert_ordinary entries cid selector target =
    insert (assign_ordinary cid selector target) (ordinary_hash cid selector) entries

unfoldable pub ns_hash : ℕ → ℕ → ℕ → ℕ
ns_hash cid selector caller = bit_xor (bit_xor cid (sar selector 4)) (sar caller 4)

-- `(cid << 16) | rule`.
unfoldable pub cid_and_rule : ℕ → ℕ → ℕ
cid_and_rule cid rule = bit_or (u64 (cid * 65536)) rule

abbrev pub ns_test : ℕ → ℕ → ℕ → Entry → Bool
ns_test key selector caller e =
    (e.ns_cid_and_rule == key) && ((e.ns_selector == selector) && (e.ns_caller == caller))

-- The absent receiver and the method.
unfoldable pub lookup_ns : List Entry → ℕ → ℕ → ℕ → ℕ → Option (ℕ × ℕ)
lookup_ns entries cid selector caller rule =
    elim (lookup (ns_test (cid_and_rule cid rule) selector caller) (ns_hash cid selector caller)
      entries) [ none ↦ none | some e ↦ some (e.ns_absent_receiver, e.ns_target) ]

abbrev pub assign_ns : ℕ → ℕ → ℕ → ℕ × ℕ → Entry → Entry
assign_ns key selector caller (receiver, target) e = record e {
  ns_cid_and_rule = key;
  ns_selector = selector;
  ns_caller = caller;
  ns_absent_receiver = receiver;
  ns_target = target;
}

unfoldable pub insert_ns : List Entry → ℕ → ℕ → ℕ → ℕ → ℕ × ℕ → List Entry
insert_ns entries cid selector caller rule found =
    insert (assign_ns (cid_and_rule cid rule) selector caller found) (ns_hash cid selector caller)
      entries

-- `kIllegalCid` is 0.
abbrev pub clear_entry : Entry → Entry
clear_entry e = record e { ordinary_cid = 0; ns_cid_and_rule = 0 }

unfoldable pub clear : List Entry → List Entry
clear [] = []
clear (e ∷ es) = clear_entry e ∷ clear es
