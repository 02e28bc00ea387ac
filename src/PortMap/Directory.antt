-- ===== src/PortMap/Directory.antt =====
-- What the port map promises: a directory from ports to loops, in which the table, its probes, its
-- deleted entries and its capacity do not show.
use primordialsoup.Base.{
  ℕ, ◌<◌, ◌≡◌, ◌≢◌, Bool, true, false, Option, none, some, List, [], ◌∷◌, ◌==◌, if◌then◌else◌,
}
use primordialsoup.PortMap.{
  LoopPointer, loop, PortMap, ◌>>=◌, allocate_port, create_port, post_message, close_port,
  close_all_ports,
}
use primordialsoup.PortMap.Bound.{Holds}

-- The loop of each port that has one.
abbrev pub Directory : Type 0
Directory = ℕ → Option ℕ

abbrev pub bind : ℕ → ℕ → Directory → Directory
bind p l f q = if q == p then some l else f q

abbrev pub unbind : ℕ → Directory → Directory
unbind p f q = if q == p then none else f q

abbrev pub unless_loop : ℕ → Option ℕ → Option ℕ
unless_loop l none = none
unless_loop l (some k) = if k == l then none else some k

abbrev pub unbind_loop : ℕ → Directory → Directory
unbind_loop l f q = unless_loop l (f q)

-- The calls, a `create` with the numbers of the random generator, and what they return.
pub data Call : Type 0 where
  create : List ℕ → ℕ → Call
  post close close_all : ℕ → Call

pub data Reply : Type 0 where
  created : ℕ → Reply
  posted : Option LoopPointer → Reply
  closed : Bool → Reply
  closed_all : Reply

unfoldable pub call : PortMap → Call → Option (Reply × PortMap)
call m (create random l) = create_port m random l >>= λ (p, n). some (created p, n)
call m (post p) = post_message m p >>= λ found. some (posted found, m)
call m (close p) = close_port m p >>= λ (found, n). some (closed found, n)
call m (close_all l) = close_all_ports m l >>= λ n. some (closed_all, n)

abbrev pub as_pointer : Option ℕ → Option LoopPointer
as_pointer none = none
as_pointer (some l) = some (loop l)

abbrev pub is_bound : Option ℕ → Bool
is_bound none = false
is_bound (some l) = true

-- What the directory allows a call to return, and the directory after it.
pub data Allows (f : Directory) : Call → Reply → Directory → Type 0 where
  creates :
      (random : List ℕ) (l p : ℕ)
      → p ≢ 0
      → f p ≡ none
      → Allows f (create random l) (created p) (bind p l f)
  posts : (p : ℕ) → Allows f (post p) (posted (as_pointer (f p))) f
  closes : (p : ℕ) → Allows f (close p) (closed (is_bound (f p))) (unbind p f)
  closes_all : (l : ℕ) → Allows f (close_all l) closed_all (unbind_loop l f)

-- The table has the bindings of the directory; 0 is no port.
pub record Shows (m : PortMap) (f : Directory) : Type 0 where
  pub nothing : f 0 ≡ none
  pub bound : (q l : ℕ) → f q ≡ some l → Holds m.map q (loop l)
  pub only : (q l : ℕ) → q ≢ 0 → Holds m.map q (loop l) → f q ≡ some l

-- What a call needs: the random numbers have a port that is free and not negative.
abbrev pub IsReady : PortMap → Call → Type 0
IsReady m (create random l) =
    (p : ℕ) × (allocate_port m random ≡ some p) × (p < 9223372036854775808)
IsReady m (post p) = Unit {0}
IsReady m (close p) = Unit {0}
IsReady m (close_all l) = Unit {0}

unfoldable pub run : PortMap → List Call → Option (List Reply × PortMap)
run m [] = some ([], m)
run m (c ∷ cs) = call m c >>= λ (r, n). run n cs >>= λ (rs, k). some (r ∷ rs, k)

-- The same for a sequence of calls.
pub data AllowsAll : Directory → List Call → List Reply → Directory → Type 0 where
  done : (f : Directory) → AllowsAll f [] [] f
  then_calls :
      (f g h : Directory) (c : Call) (cs : List Call) (r : Reply) (rs : List Reply)
      → Allows f c r g
      → AllowsAll g cs rs h
      → AllowsAll f (c ∷ cs) (r ∷ rs) h

abbrev pub AllReady : PortMap → List Call → Type 0
AllReady m [] = Unit {0}
AllReady m (c ∷ cs) =
    IsReady m c × ((r : Reply) (n : PortMap) → call m c ≡ some (r, n) → AllReady n cs)
