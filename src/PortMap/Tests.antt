-- ===== src/PortMap/Tests.antt =====
-- Runs of the port map, and its theorems at concrete maps.
use primordialsoup.Base.{
  ℕ, ◌≡◌, ◌≢◌, refl, sym, ap, ◌∙◌, List, true, none, some, [], ◌∷◌, arith, replicate,
  get_or-replicate,
}
use primordialsoup.Probe.{probe}
use primordialsoup.PortMap.{
  loop, Entry, PortMap, fails, out_of_bounds, empty_entry, find_port, rehash, create_port,
  allocate_port, close_port, startup,
}
use primordialsoup.PortMap.Bound.{Holds}
use primordialsoup.PortMap.Rehash.{fresh-IsTable}
use primordialsoup.PortMap.Invariant.{IsPortMap}
use primordialsoup.PortMap.Operations.{Absent}
use primordialsoup.PortMap.Bindings.{Adds, Removes, create_port-Adds, close_port-Removes}
use primordialsoup.PortMap.Negative.{rehash_negative}
use primordialsoup.PortMap.Directory.{
  Directory, Call, create, post, close, close_all, Reply, run, Shows, AllowsAll, AllReady,
}
use primordialsoup.PortMap.Refinement.{run-AllowsAll}

startup-IsPortMap : IsPortMap startup
startup-IsPortMap = record {
  counted = record {
    table = fresh-IsTable 8;
    width = refl;
    used_is = refl;
    deleted_is = refl;
    quarters = refl;
    some_capacity = omega arith;
    nonnegative = λ i. rw (get_or-replicate 8 i empty_entry) (omega arith);
  };
  roomy = omega arith;
  flushed = omega arith;
}

-- 0 is skipped by `AllocatePort`.
create_port-Adds_example :
    (n : PortMap) × (create_port startup (0 ∷ 13 ∷ []) 4 ≡ some (13, n))
    × IsPortMap n
    × Absent startup 13
    × Adds startup n 13 (loop 4)
create_port-Adds_example =
    create_port-Adds startup (0 ∷ 13 ∷ []) 13 4 startup-IsPortMap
      (unfold allocate_port find_port probe in refl) (omega arith)

abbrev one_port : PortMap
one_port = create_port-Adds_example.0

one_port-IsPortMap : IsPortMap one_port
one_port-IsPortMap = create_port-Adds_example.2

one_port-new : Holds one_port.map 13 (loop 4)
one_port-new = create_port-Adds_example.4.new

close_port-Removes_example :
    (n : PortMap) × (close_port one_port 13 ≡ some (true, n)) × IsPortMap n × Removes one_port n 13
close_port-Removes_example =
    close_port-Removes one_port 13 one_port-new.0 one_port-IsPortMap (omega arith) one_port-new.1

-- -3 modulo 8 is -3 in C++, and 5 in the other operations.
abbrev minus_three : PortMap
minus_three = record startup {
  map =
      empty_entry
      ∷ record { port = 18446744073709551613; target = loop 2 }
      ∷ replicate 6 empty_entry;
  used = 1;
}

rehash_negative_example : rehash minus_three 8 ≡ fails out_of_bounds
rehash_negative_example =
    rehash_negative minus_three 1 8 (omega arith) (omega arith, λ e. omega (arith, e))

-- A port is made, used, and closed with its loop; closing it again changes nothing.
abbrev script : List Call
script = create (0 ∷ 13 ∷ []) 4 ∷ post 13 ∷ close_all 4 ∷ post 13 ∷ close 13 ∷ []

abbrev nothing_bound : Directory
nothing_bound q = none

startup-port : (q l : ℕ) → q ≢ 0 → Holds startup.map q (loop l) → ⊥
startup-port q l nz (i, e, t) =
    nz (sym e ∙ ap (λ (x : Entry). x.port) (get_or-replicate 8 i empty_entry))

startup-Shows : Shows startup nothing_bound
startup-Shows = record {
  nothing = refl;
  bound = λ q l h. cc;
  only = λ q l nz h. absurd (startup-port q l nz h);
}

script-AllReady : AllReady startup script
script-AllReady = (
  (13, unfold allocate_port find_port probe in refl, omega arith),
  λ r n run. (tt, λ r n run. (tt, λ r n run. (tt, λ r n run. (tt, λ r n run. tt)))),
)

run-AllowsAll_example :
    (rs : List Reply) × (n : PortMap) × (g : Directory) × (run startup script ≡ some (rs, n))
    × AllowsAll nothing_bound script rs g
    × IsPortMap n
    × Shows n g
run-AllowsAll_example =
    run-AllowsAll script startup nothing_bound startup-IsPortMap startup-Shows script-AllReady
