-- ===== src/PortMap.antt =====
-- `vm/port.cc`: the table from ports to message loops, open addressing with deleted entries.
-- A `Port` is the pattern of an `int64_t`. The mutex makes each operation one step. `none` as the
-- outcome of an operation is a fault: a probe that never ends, or one of those that `Rehash` tells apart.
pub mod Table
pub mod Update
pub mod Count
pub mod Bound
pub mod Copied
pub mod Rehash
pub mod Invariant
pub mod Operations
pub mod Bindings
pub mod Negative
pub mod CloseAll
pub mod Directory
pub mod Refinement
mod Tests
use primordialsoup.Base.{
  ℕ, zero, suc, ◌+◌, ◌-◌, ◌*◌, ◌/◌, ◌%◌, Bool, true, false, not, ◌||◌, Option, none, some, List, [],
  ◌∷◌, ltb, ◌==◌, if◌then◌else◌, get_or, set, replicate,
}
use primordialsoup.Probe.{probe}

-- `nullptr`, `deleted_entry_`, or the message loop of that number.
pub data LoopPointer : Type 0 where
  null deleted : LoopPointer
  loop : ℕ → LoopPointer

pub record Entry : Type 0 where
  pub port : ℕ
  pub target : LoopPointer

abbrev pub empty_entry : Entry
empty_entry = record { port = 0; target = null }

abbrev pub deleted_entry : Entry
deleted_entry = record { port = 0; target = deleted }

pub record PortMap : Type 0 where
  pub map : List Entry
  pub capacity : ℕ
  pub used : ℕ
  pub deleted_count : ℕ

infixl 5 ◌>>=◌
abbrev pub ◌>>=◌ : {A B : Type 0} → Option A → (A → Option B) → Option B
none >>= f = none
some a >>= f = f a

abbrev pub is_null : LoopPointer → Bool
is_null null = true
is_null deleted = false
is_null (loop l) = false

abbrev pub is_deleted : LoopPointer → Bool
is_deleted null = false
is_deleted deleted = true
is_deleted (loop l) = false

abbrev pub is_loop : ℕ → LoopPointer → Bool
is_loop l null = false
is_loop l deleted = false
is_loop l (loop k) = k == l

abbrev pub entry_at : List Entry → ℕ → Entry
entry_at map i = get_or map i empty_entry

-- Where the loop of `FindPort` stops: at a free entry, or at the port's.
abbrev pub find_stops : List Entry → ℕ → ℕ → Bool
find_stops map port i = is_null (entry_at map i).target || (entry_at map i).port == port

-- Where the searches for an unused slot stop.
abbrev pub is_unused : List Entry → ℕ → Bool
is_unused map i = (entry_at map i).port == 0

-- The index of the port; `none` inside is the result -1.
unfoldable pub find_port : PortMap → ℕ → Option (Option ℕ)
find_port m port =
    if port == 0
    then some none
    else probe (find_stops m.map port) m.capacity m.capacity (port % m.capacity) >>= λ i.
        some (if is_null (entry_at m.map i).target then none else some i)

-- What goes wrong in `Rehash`: the remainder by a capacity of 0, an access to `new_ports` at an index
-- that it does not have, or a search for an unused slot that never ends.
pub data Fault : Type 0 where
  division_by_zero out_of_bounds endless_probe : Fault

pub data Copying (A : Type 0) : Type 0 where
  fails : Fault → Copying A
  copies : A → Copying A

infixl 5 ◌then_copy◌
abbrev pub ◌then_copy◌ : {A B : Type 0} → Copying A → (A → Copying B) → Copying B
fails e then_copy f = fails e
copies a then_copy f = f a

abbrev pub or_endless : {A : Type 0} → Option A → Copying A
or_endless none = fails endless_probe
or_endless (some a) = copies a

abbrev pub unless_fault : {A : Type 0} → Copying A → Option A
unless_fault (fails e) = none
unless_fault (copies a) = some a

-- `entry.port % new_capacity` on `int64_t`: the remainder has the sign of the port, and a negative
-- one is no index of `new_ports`.
unfoldable pub signed_index : ℕ → ℕ → Copying ℕ
signed_index port capacity =
    if capacity == 0
    then fails division_by_zero
    else if ltb port 9223372036854775808
    then copies (port % capacity)
    else if (18446744073709551616 - port) % capacity == 0
    then copies 0
    else fails out_of_bounds

-- The copy of one entry that is neither free nor deleted.
unfoldable pub rehash_entry : ℕ → Entry → List Entry → Copying (List Entry)
unfolding signed_index
rehash_entry new_capacity entry new_ports =
    if entry.port == 0
    then copies new_ports
    else signed_index entry.port new_capacity then_copy λ start.
        or_endless (probe (is_unused new_ports) new_capacity new_capacity start) then_copy λ i.
        copies (set new_ports i entry)

unfoldable pub rehash_entries : ℕ → List Entry → List Entry → Copying (List Entry)
unfolding rehash_entry
rehash_entries new_capacity [] new_ports = copies new_ports
rehash_entries new_capacity (entry ∷ entries) new_ports =
    rehash_entry new_capacity entry new_ports then_copy rehash_entries new_capacity entries

unfoldable pub rehash : PortMap → ℕ → Copying PortMap
unfolding rehash_entries
rehash m new_capacity =
    rehash_entries new_capacity m.map (replicate new_capacity empty_entry) then_copy λ new_ports.
    copies (record m { map = new_ports; capacity = new_capacity; deleted_count = 0 })

-- `empty < deleted_` is the sum of the three against the capacity.
unfoldable pub maintain_invariants : PortMap → Option PortMap
maintain_invariants m =
    if ltb ((m.capacity / 4) * 3) m.used
    then unless_fault (rehash m (m.capacity * 2))
    else if ltb m.capacity (m.used + m.deleted_count + m.deleted_count)
    then unless_fault (rehash m m.capacity)
    else some m

-- `AllocatePort` on the numbers that `prng_` yields; `none` if there is none left to try.
unfoldable pub allocate_port : PortMap → List ℕ → Option ℕ
allocate_port m [] = none
allocate_port m (r ∷ rs) =
    let again = allocate_port m rs in
    if r == 0
    then again
    else find_port m r >>= λ found. elim found [ none ↦ some r | some i ↦ again ]

-- The insertion of `CreatePort`, before the counts are maintained.
unfoldable pub insert_entry : PortMap → ℕ → ℕ → Option PortMap
insert_entry m port l = probe (is_unused m.map) m.capacity m.capacity (port % m.capacity) >>= λ i.
    some (record m {
      map = set m.map i (record { port = port; target = loop l });
      used = m.used + 1;
      deleted_count =
          if is_deleted (entry_at m.map i).target then m.deleted_count - 1 else m.deleted_count;
    })

unfoldable pub create_port : PortMap → List ℕ → ℕ → Option (ℕ × PortMap)
create_port m random l = allocate_port m random >>= λ port.
    insert_entry m port l >>= maintain_invariants >>= λ m'. some (port, m')

-- The loop that gets the message, or the result `false`.
unfoldable pub post_message : PortMap → ℕ → Option (Option LoopPointer)
post_message m dest_port = find_port m dest_port >>= λ found. elim found [
  | none ↦ some none
  | some i ↦ some (some (entry_at m.map i).target)
]

abbrev pub delete_at : PortMap → ℕ → PortMap
delete_at m i = record m {
  map = set m.map i deleted_entry;
  used = m.used - 1;
  deleted_count = m.deleted_count + 1;
}

unfoldable pub close_port : PortMap → ℕ → Option (Bool × PortMap)
close_port m port = find_port m port >>= λ found. elim found [
  | none ↦ some (false, m)
  | some i ↦ maintain_invariants (delete_at m i) >>= λ m'. some (true, m')
]

-- The loop of `CloseAllPorts` with `left` rounds to go, at `index`.
unfoldable pub close_entries : ℕ → ℕ → ℕ → PortMap → PortMap
close_entries zero index l m = m
close_entries (suc left) index l m =
    close_entries left (index + 1) l
      (if is_loop l (entry_at m.map index).target then delete_at m index else m)

unfoldable pub close_all_ports : PortMap → ℕ → Option PortMap
close_all_ports m l = maintain_invariants (close_entries m.capacity 0 l m)

abbrev pub initial_capacity : ℕ
initial_capacity = 8

abbrev pub startup : PortMap
startup = record {
  map = replicate initial_capacity empty_entry;
  capacity = initial_capacity;
  used = 0;
  deleted_count = 0;
}
