-- ===== src/Waits/Repository.antt =====
-- internal/dwaits/repository.go: the rings of the servers. Its calls come one after another. The writer
-- of the cache files is the list of what it was given. Top and ReadHistory are in modules of their own.
pub mod Calls
pub mod Store
pub mod Laws
pub mod History
use isitsql.Common.{
  ℕ, Bool, true, false, not, Option, none, some, List, [], ◌∷◌, ◌++◌, Text, text_eq, if◌then◌else◌,
}
use isitsql.Maps.{Map, lookup, insert, keep_if, text_key}
use isitsql.Rings.WaitRing.{Ring, new, enqueue, values, last}

pub record WaitList : Type 0 where
  pub ts : ℕ
  pub waits : Map Text ℕ

-- The zero value of a WaitList. Its map is nil, and is read like an empty one.
abbrev pub no_waits : WaitList
no_waits = record { ts = 0; waits = [] }

pub record Repository : Type 0 where
  pub servers : Map Text (Ring WaitList)
  pub is_open : Bool
  pub written : List (Text × WaitList)

abbrev pub empty_repository : Repository
empty_repository = record { servers = []; is_open = true; written = [] }

-- The ring of a server, or the new one that a write makes for it
abbrev pub ring_of : Text → Map Text (Ring WaitList) → Ring WaitList
ring_of key servers = elim (lookup key servers) [ some ring ↦ ring | none ↦ new no_waits 60 ]

-- writehistory
unfoldable pub write_history : Text → WaitList → Repository → Option Repository
unfolding lookup insert new enqueue
write_history key waits r = elim (enqueue (ring_of key r.servers) waits) [
  | some ring ↦ some (record r { servers = insert key ring r.servers })
  | none ↦ none
]

unfoldable pub write : Text → WaitList → Repository → Option Repository
unfolding lookup insert new enqueue
write key waits r = if not r.is_open then some r else elim (enqueue (ring_of key r.servers) waits) [
  | some ring ↦
      some (record r {
        servers = insert key ring r.servers;
        written = r.written ++ ((key, waits) ∷ []);
      })
  | none ↦ none
]

unfoldable pub repository_values : Text → Repository → List WaitList
unfolding lookup values
repository_values key r =
    if not r.is_open
    then []
    else elim (lookup key r.servers) [ some ring ↦ values ring | none ↦ [] ]

unfoldable pub repository_last : Text → Repository → Option WaitList
unfolding lookup last
repository_last key r = if not r.is_open then some no_waits else elim (lookup key r.servers) [
  | some ring ↦ last no_waits no_waits ring
  | none ↦ some no_waits
]

unfoldable pub delete : Text → Repository → Repository
unfolding keep_if text_eq
delete key r =
    if not r.is_open then r else record r { servers = keep_if (λ k. not (text_eq k key)) r.servers }

abbrev pub close : Repository → Repository
close r = record r { is_open = false }
