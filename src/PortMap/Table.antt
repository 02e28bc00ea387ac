-- ===== src/PortMap/Table.antt =====
-- The table of entries: where a port may stand, and what its probes find.
use native.Mathlib.Nat.{mod-lt}
use primordialsoup.Base.{
  ℕ, ◌%◌, ◌<◌, ◌≡◌, ◌≢◌, sym, ap, ◌∙◌, Bool, true, false, some, List, length, get_or_beyond,
  Bool-cases, inl, inr, arith, dec_lt,
}
use primordialsoup.Probe.{probe, Stops, probe-Stops, Stops-le, visited}
use primordialsoup.PortMap.{Entry, empty_entry, is_null, is_deleted, entry_at, find_stops}

abbrev pub port_at : List Entry → ℕ → ℕ
port_at es i = (entry_at es i).port

abbrev pub null_at : List Entry → ℕ → Bool
null_at es i = is_null (entry_at es i).target

abbrev pub home : List Entry → ℕ → ℕ
home es port = port % length es

-- The port's probe comes to the index `i` without meeting a free entry.
pub record Reaches (es : List Entry) (port i : ℕ) : Type 0 where
  pub steps : ℕ
  pub few : steps < length es
  pub there : i ≡ visited (length es) (home es port) steps
  pub before : (m : ℕ) → m < steps → null_at es (visited (length es) (home es port) m) ≡ false

-- Free entries hold no port, a port stands once, and its probe reaches it.
pub record IsTable (es : List Entry) : Type 0 where
  pub free_port : (i : ℕ) → null_at es i ≡ true → port_at es i ≡ 0
  pub live : (i : ℕ) → port_at es i ≢ 0 → is_deleted (entry_at es i).target ≡ false
  pub occupied :
      (i : ℕ) → port_at es i ≡ 0 → null_at es i ≡ false → is_deleted (entry_at es i).target ≡ true
  pub unique : (i j : ℕ) → port_at es i ≡ port_at es j → port_at es i ≢ 0 → i ≡ j
  pub reach : (i : ℕ) → port_at es i ≢ 0 → Reaches es (port_at es i) i

pub in_bounds : (es : List Entry) (i : ℕ) → port_at es i ≢ 0 → i < length es
in_bounds es i h = elim (dec_lt i (length es)) [
  | yes p ↦ p
  | no p ↦ absurd (h (ap (λ (e : Entry). e.port) (get_or_beyond es i empty_entry (omega arith))))
]

stops-port : (es : List Entry) (port i : ℕ) → port_at es i ≡ port → find_stops es port i ≡ true
stops-port es port i e = ground arith

stops-cases :
    (es : List Entry) (port i : ℕ)
    → find_stops es port i ≡ true
    → null_at es i ≡ false
    → port_at es i ≡ port
stops-cases es port i e h = ground arith

stops-null : (es : List Entry) (port i : ℕ) → null_at es i ≡ true → find_stops es port i ≡ true
stops-null es port i e = ground arith

found :
    (es : List Entry) (port i : ℕ)
    → IsTable es
    → port_at es i ≡ port
    → port ≢ 0
    → (r : ℕ) → Stops (find_stops es port) (length es) (home es port) r
    → Reaches es port i
    → r ≡ i
found es port i t e nz r s there =
    let here : find_stops es port (visited (length es) (home es port) there.steps) ≡ true =
      rw (← there.there) (stops-port es port i e) in
    let le = Stops-le s there.steps here in
    elim (dec_lt s.steps there.steps) [
      | yes p ↦
          let full : null_at es r ≡ false = rw (s.there) (there.before s.steps p) in
          let same = stops-cases es port r s.holds full in
          t.unique r i (same ∙ sym e) (λ z. nz (sym same ∙ z))
      | no p ↦
          let last : s.steps ≡ there.steps = omega arith in
          s.there ∙ ap (visited (length es) (home es port)) last ∙ sym there.there
    ]

-- A port that stands in the table is found where it stands.
pub probe-present :
    (es : List Entry) (port i : ℕ)
    → IsTable es
    → port_at es i ≡ port
    → port ≢ 0
    → probe (find_stops es port) (length es) (length es) (home es port) ≡ some i
probe-present es port i t e nz =
    let there = t.reach i (λ z. nz (sym e ∙ z)) in
    let bound = in_bounds es i (λ z. nz (sym e ∙ z)) in
    let (r, run, s) =
      probe-Stops (find_stops es port) (length es) (home es port) i (mod-lt port (omega arith))
        bound (stops-port es port i e) in
    run ∙ ap some (found es port i t e nz r s (rw e at there))

-- A port that is not in the table is looked for up to a free entry.
pub probe-absent :
    (es : List Entry) (port j : ℕ)
    → ((i : ℕ) → port_at es i ≢ port)
    → j < length es
    → null_at es j ≡ true
    → (r : ℕ) × (probe (find_stops es port) (length es) (length es) (home es port) ≡ some r)
      × (null_at es r ≡ true)
probe-absent es port j absent bound free =
    let (r, run, s) =
      probe-Stops (find_stops es port) (length es) (home es port) j (mod-lt port (omega arith))
        bound (stops-null es port j free) in
    (
      r,
      run,
      elim (Bool-cases (null_at es r)) [
        | inl e ↦ e
        | inr e ↦ absurd (absent r (stops-cases es port r s.holds e))
      ],
    )
