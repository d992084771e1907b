-- ===== src/Waits/Top.antt =====
-- internal/waitring/waitring.go, internal/waitring/sortedmap.go and internal/dwaits/repository.go: the waits
-- that a server's requests waited longest for in the last hour. The milliseconds are those of the lists that
-- a Box emits, so none is negative. The keys stand once, and no two of them are equal in the order, so every
-- sort puts them the same way.
pub mod Laws
pub mod Served
use isitsql.Common.{
  ℕ, Bool, not, Option, none, some, List, [], ◌∷◌, Text, map, take, text_ltb, ltb, ◌==◌,
  if◌then◌else◌,
}
use isitsql.Common.Sort.{sort_by}
use isitsql.Maps.{Map, lookup, insert, text_key}
use isitsql.Rings.WaitRing.{Ring, values}
use isitsql.Waits.Box.{add_to}
use isitsql.Waits.Repository.{WaitList, Repository}

pub record SortedMapInt64 : Type 0 where
  pub base_map : Map Text ℕ
  pub sorted_keys : List Text

-- A value of BaseMap: of a key that is missing, 0
abbrev pub value_of : Text → Map Text ℕ → ℕ
value_of key m = elim (lookup key m) [ some n ↦ n | none ↦ 0 ]

-- Less, of the keys in place of their positions
abbrev pub less : Map Text ℕ → Text → Text → Bool
less m i j =
    if value_of i m == value_of j m then text_ltb i j else ltb (value_of j m) (value_of i m)

-- The inner loop of Top
unfoldable pub add_waits : Map Text ℕ → Map Text ℕ → Map Text ℕ
unfolding lookup insert
add_waits [] wgl = wgl
add_waits ((wg, duration) ∷ more) wgl =
    add_waits more (if ltb 0 duration then add_to wg duration wgl else wgl)

-- The outer loop
unfoldable pub add_lists : List WaitList → Map Text ℕ → Map Text ℕ
unfolding add_waits
add_lists [] wgl = wgl
add_lists (wv ∷ more) wgl = add_lists more (add_waits wv.waits wgl)

abbrev pub keys_of : Map Text ℕ → List Text
keys_of m = map (λ entry. entry.0) m

-- Ring.Top
unfoldable pub top : ℕ → Ring WaitList → SortedMapInt64
unfolding values add_lists sort_by lookup text_ltb
top n r =
    let wgl = add_lists (values r) [] in
    let sorted = sort_by (less wgl) (keys_of wgl) in
    record { base_map = wgl; sorted_keys = if n == 0 then sorted else take n sorted }

-- Repository.Top, which does not look at n
unfoldable pub repository_top : Text → ℕ → Repository → SortedMapInt64
unfolding lookup top
repository_top key n r =
    let nothing : SortedMapInt64 = record { base_map = []; sorted_keys = [] } in
    if not r.is_open
    then nothing
    else elim (lookup key r.servers) [ some ring ↦ top 5 ring | none ↦ nothing ]
