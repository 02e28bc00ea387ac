-- ===== src/PortMap/Operations.antt =====
-- `FindPort`, `CreatePort`, `PostMessage` and `ClosePort` against the bindings of the map.
use primordialsoup.Base.{
  ℕ, zero, suc, ◌<◌, ◌≡◌, ◌≢◌, sym, ◌∙◌, true, false, ◌⊎◌, inl, inr, none, some, List, [], ◌∷◌,
  ◌==◌, length, Bool-cases, arith, ℕ_discrete,
}
use primordialsoup.PortMap.{Entry, PortMap, find_port, allocate_port}
use primordialsoup.PortMap.Table.{port_at, null_at, IsTable, probe-present, probe-absent}
use primordialsoup.PortMap.Count.{free_entry}
use primordialsoup.PortMap.Invariant.{IsPortMap}

-- No entry has the port.
abbrev pub Absent : PortMap → ℕ → Type 0
Absent m port = (i : ℕ) → port_at m.map i ≢ port

-- There is always a free entry, so that every probe ends.
pub some_free :
    (m : PortMap) → IsPortMap m → (j : ℕ) × (j < length m.map) × (null_at m.map j ≡ true)
some_free m v = free_entry m.map v.counted.table (
    omega (
      arith, v.counted.used_is, v.counted.deleted_is, v.counted.width, v.counted.quarters, v.roomy,
      v.flushed, v.counted.some_capacity,
    ))

full_at : (m : PortMap) (i : ℕ) → IsTable m.map → port_at m.map i ≢ 0 → null_at m.map i ≡ false
full_at m i t h = elim (Bool-cases (null_at m.map i)) [
  | inl e ↦ absurd (h (t.free_port i e))
  | inr e ↦ e
]

zero_test : (n : ℕ) → n ≢ 0 → (n == 0) ≡ false
zero_test n h = ground arith

-- `FindPort` gives the index of a port that is bound,
pub find_port-present :
    (m : PortMap) (port i : ℕ)
    → IsPortMap m
    → port ≢ 0
    → port_at m.map i ≡ port
    → find_port m port ≡ some (some i)
unfolding find_port
find_port-present m port i v nz e =
    let run = rw (v.counted.width) at (probe-present m.map port i v.counted.table e nz) in
    rw (zero_test port nz, run, full_at m i v.counted.table (λ z. nz (sym e ∙ z)))

-- and -1 for one that is not.
pub find_port-Absent :
    (m : PortMap) (port : ℕ) → IsPortMap m → Absent m port → find_port m port ≡ some none
unfolding find_port
find_port-Absent m port v absent = elim (Bool-cases (port == 0)) [
  | inl e ↦ rw e
  | inr e ↦
      let (j, bound, free) = some_free m v in
      let (r, run, null_r) = probe-absent m.map port j absent bound free in
      rw (e, rw (v.counted.width) at run, null_r)
]

locate :
    (es : List Entry) (port : ℕ)
    → port ≢ 0
    → ((i : ℕ) × (port_at es i ≡ port)) ⊎ ((i : ℕ) → port_at es i ≢ port)
locate [] port nz = inr (λ i e. nz (sym e))
locate (e ∷ es) port nz = elim (ℕ_discrete e.port port) [
  | yes p ↦ inl (0, p)
  | no p ↦ elim (locate es port nz) [
    | inl (i, q) ↦ inl (suc i, q)
    | inr q ↦ inr (further e es port p q)
  ]
]
  where
    further :
        (x : Entry) (xs : List Entry) (k : ℕ)
        → x.port ≢ k
        → ((i : ℕ) → port_at xs i ≢ k)
        → (i : ℕ) → port_at (x ∷ xs) i ≢ k
    further x xs k p q zero = p
    further x xs k p q (suc i) = q i

-- Whether a port is bound is decided by `FindPort`.
pub find_port-cases :
    (m : PortMap) (port : ℕ)
    → IsPortMap m
    → port ≢ 0
    → ((i : ℕ) × (port_at m.map i ≡ port) × (find_port m port ≡ some (some i)))
      ⊎ (Absent m port × (find_port m port ≡ some none))
find_port-cases m port v nz = elim (locate m.map port nz) [
  | inl (i, e) ↦ inl (i, e, find_port-present m port i v nz e)
  | inr absent ↦ inr (absent, find_port-Absent m port v absent)
]

some-eq : {a b : ℕ} → some a ≡ some b → a ≡ b
some-eq h = cc

-- `AllocatePort` gives a port that is not 0 and not bound.
pub allocate_port-Absent :
    (m : PortMap) (random : List ℕ) (port : ℕ)
    → IsPortMap m
    → allocate_port m random ≡ some port
    → (port ≢ 0) × Absent m port
unfolding allocate_port
allocate_port-Absent m [] port v h = cc
allocate_port-Absent m (r ∷ rs) port v h = elim (ℕ_discrete r 0) [
  | yes z ↦ allocate_port-Absent m rs port v (rw z at h)
  | no nz ↦ elim (find_port-cases m r v nz) [
    | inl (i, e, run) ↦ allocate_port-Absent m rs port v (rw (zero_test r nz, run) at h)
    | inr (absent, run) ↦
        let same : r ≡ port = some-eq (rw (zero_test r nz, run) at h) in
        (λ z. nz (same ∙ z), λ i e. absent i (e ∙ sym same))
  ]
]
