-- ===== src/AvailabilityGroups/Tests.antt =====
-- Runs on concrete availability groups, and the theorems on them.
use isitsql.Common.{ℕ, ◌≡◌, refl, true, false, none, some, List, [], ◌∷◌, Text, codes, text_eq}
use isitsql.Common.Int.{pos, negsuc}
use isitsql.AvailabilityGroups.{
  Latency, Ag, AgMap, new_ag_map, is_stale, set_latency, get_group, get_display_name,
  primary_latency, secondary_latency, set_display_name,
}
use isitsql.AvailabilityGroups.Calls.{
  Call, set_call, latencies_call, names_call, last_set, call_all, group_after, get_group-call_all,
}
use isitsql.AvailabilityGroups.Rows.{rows_of}
use isitsql.AvailabilityGroups.Latencies.{AddsUp, SaysFirst, set_latency-Answers}

abbrev group : ℕ → Text → Ag
group time name = record {
  poll_time = time;
  domain = codes "D";
  name = name;
  guid = codes "1";
  display_name = [];
  listeners = codes "L2" ∷ codes "L1" ∷ [];
  latencies = [];
  is_healthy = true;
}

abbrev row : Text → Text → Latency
row group replica = record {
  group_id = group;
  replica_id = replica;
  group_database_id = codes "db";
  send_queue_kb = pos 3;
  redo_queue_kb = negsuc 0;
}

abbrev keep_order : List (List Text) → List (List Text)
keep_order names = names

abbrev names : List (List Text)
names = (codes "D" ∷ codes "L1" ∷ codes "Sales" ∷ []) ∷ []

-- The first group is named by a listener, and goes when the second one comes ten minutes later.
abbrev calls : List Call
calls =
    names_call names
    ∷ set_call 1000 (codes "a") (group 1000 (codes "AG1"))
    ∷ latencies_call (codes "a") (row (codes "a") (codes "r") ∷ [])
    ∷ set_call 600000001000 (codes "b") (group 600000000000 (codes "AG2"))
    ∷ []

display_names_run :
    get_display_name (codes "b") (call_all text_eq keep_order calls new_ag_map) ≡ codes "Sales"
unfolding call_all get_display_name
display_names_run = refl

stale_run : get_group (codes "a") (call_all text_eq keep_order calls new_ag_map) ≡ none
unfolding call_all get_group
stale_run = refl

listeners_run : (set_display_name text_eq [] (group 0 (codes "AG1"))).display_name ≡ codes "L1, L2"
unfolding set_display_name
listeners_run = refl

get_group-call_all_example :
    (get_group (codes "b") (call_all text_eq keep_order calls new_ag_map)
      ≡ group_after text_eq keep_order (codes "b") calls [] none)
    × ((ag : Ag)
        → get_group (codes "b") (call_all text_eq keep_order calls new_ag_map) ≡ some ag
        → is_stale (last_set calls 0) ag ≡ false)
get_group-call_all_example = get_group-call_all text_eq keep_order (codes "b") calls

abbrev ag_map : AgMap
ag_map = record { groups = (codes "a", group 7 (codes "AG1")) ∷ []; names = [] }

abbrev latency_rows : List Latency
latency_rows =
    row (codes "b") (codes "r") ∷ row (codes "a") (codes "q") ∷ row (codes "a") (codes "r") ∷ []

set_latency-Answers_example :
    let m' = set_latency latency_rows ag_map in
    let (send, redo) = primary_latency (codes "a") (codes "db") m' in
    let (replica_send, replica_redo) = secondary_latency (codes "a") (codes "r") (codes "db") m' in
    (get_group (codes "a") m'
      ≡ some (record (group 7 (codes "AG1")) { latencies = rows_of (codes "a") latency_rows }))
    × AddsUp (codes "a") (codes "db") latency_rows send redo
    × SaysFirst (codes "a") (codes "r") (codes "db") latency_rows replica_send replica_redo
unfolding get_group text_eq
set_latency-Answers_example =
    set_latency-Answers latency_rows ag_map (codes "a") (codes "r") (codes "db")
      (group 7 (codes "AG1")) refl refl

primary_latency_run :
    primary_latency (codes "a") (codes "db") (set_latency latency_rows ag_map) ≡ (6, 0)
unfolding set_latency primary_latency
primary_latency_run = refl
