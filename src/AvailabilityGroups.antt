-- ===== src/AvailabilityGroups.antt =====
-- internal/hadr/ag_map.go, internal/hadr/hadr.go and internal/hadr/latency.go: the availability groups that were
-- polled, with their names and latencies. The groups are values: a poll gives its group to the map and keeps none
-- of it. A listener is its name, and the replicas and the states, which are only stored, are left out.
-- strings.EqualFold, sort.Slice on the names and the rows of the database are parameters; the operations run one
-- after another. Times are nanoseconds.
pub mod Lookups
pub mod Calls
pub mod Rows
pub mod Latencies
mod Tests
use isitsql.Common.{
  ℕ, ◌+◌, Bool, true, false, ◌&&◌, ◌||◌, Option, none, some, List, [], ◌∷◌, ◌++◌, Text, codes, join,
  is_empty, text_eq, text_ltb, ltb, if◌then◌else◌,
}
use isitsql.Common.Int.{ℤ, pos, pos_part}
use isitsql.Common.Sort.{sort_by}
use isitsql.Maps.{Map, lookup, insert, text_key}

pub record Latency : Type 0 where
  pub group_id : Text
  pub replica_id : Text
  pub group_database_id : Text
  pub send_queue_kb : ℤ
  pub redo_queue_kb : ℤ

pub record Ag : Type 0 where
  pub poll_time : ℕ
  pub domain : Text
  pub name : Text
  pub guid : Text
  pub display_name : Text
  pub listeners : List Text
  pub latencies : List Latency
  pub is_healthy : Bool

pub record AgMap : Type 0 where
  pub groups : Map Text Ag
  pub names : List (List Text)

abbrev pub new_ag_map : AgMap
new_ag_map = record { groups = []; names = [] }

-- AG.IsHealthy at a time: three minutes
unfoldable pub healthy_at : ℕ → Ag → Bool
healthy_at now ag = ag.is_healthy && ltb now (ag.poll_time + 180000000000)

-- AG.ListenerNames
unfoldable pub listener_names : List Text → Text
unfolding sort_by text_ltb join
listener_names listeners = join (codes ", ") (sort_by text_ltb listeners)

-- Polled more than five minutes before
abbrev pub is_stale : ℕ → Ag → Bool
is_stale now ag = ltb (ag.poll_time + 300000000000) now

abbrev pub expire : ℕ → Map Text Ag → Map Text Ag
expire now [] = []
expire now ((k, v) ∷ groups) =
    let rest = expire now groups in if is_stale now v then rest else (k, v) ∷ rest

module _ (equal_fold : Text → Text → Bool) where
  abbrev pub any_fold : List Text → Text → Bool
  any_fold [] name = false
  any_fold (l ∷ ls) name = equal_fold l name || any_fold ls name

  -- What an entry of the names says of a group
  abbrev pub named_by : Ag → List Text → Option Text
  named_by ag (domain ∷ name ∷ display ∷ []) =
      if equal_fold ag.domain domain && (equal_fold ag.name name || any_fold ag.listeners name)
      then some display
      else none
  named_by ag entry = none

  abbrev pub first_name : Ag → List (List Text) → Option Text
  first_name ag [] = none
  first_name ag (entry ∷ names) = elim (named_by ag entry) [
    | some display ↦ some display
    | none ↦ first_name ag names
  ]

  -- SetDisplayName
  unfoldable pub set_display_name : List (List Text) → Ag → Ag
  unfolding listener_names
  set_display_name names ag = elim (first_name ag names) [
    | some display ↦ record ag { display_name = display }
    | none ↦ record ag {
      display_name =
          if is_empty (listener_names ag.listeners)
          then (if is_empty ag.name
              then (if is_empty ag.guid then codes "(Unknown)" else ag.guid)
              else ag.name)
          else listener_names ag.listeners;
    }
  ]

  -- AGMap.Set, at a time
  unfoldable pub set_group : ℕ → Text → Ag → AgMap → AgMap
  unfolding set_display_name insert
  set_group now key ag m = record m {
    groups = expire now (insert key (set_display_name m.names ag) m.groups);
  }

-- AGMap.SetLatencies
unfoldable pub set_latencies : Text → List Latency → AgMap → AgMap
unfolding lookup insert
set_latencies key latencies m = elim (lookup key m.groups) [
  | none ↦ m
  | some ag ↦ record m { groups = insert key (record ag { latencies = latencies }) m.groups }
]

-- slices.Equal, of two names and of two lists of names
abbrev pub same_texts : List Text → List Text → Bool
same_texts [] [] = true
same_texts [] (t ∷ ts) = false
same_texts (s ∷ ss) [] = false
same_texts (s ∷ ss) (t ∷ ts) = text_eq s t && same_texts ss ts

abbrev pub same_names : List (List Text) → List (List Text) → Bool
same_names [] [] = true
same_names [] (b ∷ bs) = false
same_names (a ∷ as') [] = false
same_names (a ∷ as') (b ∷ bs) = same_texts a b && same_names as' bs

-- SetAGNames: whether the names changed, and the map
unfoldable pub set_ag_names :
    (List (List Text) → List (List Text)) → List (List Text) → AgMap → Bool × AgMap
unfolding text_eq
set_ag_names sort names m =
    if same_names m.names (sort names) then (false, m) else (true, record m { names = sort names })

-- The loop of GetPrimaryDBLatency
abbrev pub sum_latencies : Text → Text → List Latency → ℕ × ℕ
sum_latencies group database [] = (0, 0)
sum_latencies group database (l ∷ ls) =
    let (send, redo) = sum_latencies group database ls in
    if text_eq l.group_id group && text_eq l.group_database_id database
    then (pos_part l.send_queue_kb + send, pos_part l.redo_queue_kb + redo)
    else (send, redo)

unfoldable pub primary_latency : Text → Text → AgMap → ℕ × ℕ
unfolding lookup text_eq
primary_latency group database m = elim (lookup group m.groups) [
  | none ↦ (0, 0)
  | some ag ↦ sum_latencies group database ag.latencies
]

abbrev pub first_latency : Text → Text → Text → List Latency → ℤ × ℤ
first_latency group replica database [] = (pos 0, pos 0)
first_latency group replica database (l ∷ ls) =
    if text_eq l.group_id group
      && (text_eq l.replica_id replica && text_eq l.group_database_id database)
    then (l.send_queue_kb, l.redo_queue_kb)
    else first_latency group replica database ls

-- GetSecondaryDBLatency
unfoldable pub secondary_latency : Text → Text → Text → AgMap → ℤ × ℤ
unfolding lookup text_eq
secondary_latency group replica database m = elim (lookup group m.groups) [
  | none ↦ (pos 0, pos 0)
  | some ag ↦ first_latency group replica database ag.latencies
]

-- AGMap.Get: for a key that is missing it reads through a nil pointer, and panics.
unfoldable pub get_group : Text → AgMap → Option Ag
unfolding lookup
get_group key m = lookup key m.groups

unfoldable pub get_display_name : Text → AgMap → Text
unfolding lookup
get_display_name key m = elim (lookup key m.groups) [ some ag ↦ ag.display_name | none ↦ [] ]

-- The rows of SetLatency, by group
unfoldable pub group_latencies : List Latency → Map Text (List Latency) → Map Text (List Latency)
unfolding lookup insert
group_latencies [] agl = agl
group_latencies (l ∷ ls) agl = elim (lookup l.group_id agl) [
  | none ↦ group_latencies ls (insert l.group_id (l ∷ []) agl)
  | some latencies ↦ group_latencies ls (insert l.group_id (latencies ++ (l ∷ [])) agl)
]

abbrev pub set_all_latencies : Map Text (List Latency) → AgMap → AgMap
set_all_latencies [] m = m
set_all_latencies ((id, latencies) ∷ agl) m = set_all_latencies agl (set_latencies id latencies m)

-- SetLatency, from the rows of its query
unfoldable pub set_latency : List Latency → AgMap → AgMap
unfolding group_latencies set_latencies
set_latency rows m = set_all_latencies (group_latencies rows []) m
