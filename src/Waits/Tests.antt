-- ===== src/Waits/Tests.antt =====
-- Runs of a Box and of the repository, and the theorems on concrete ones.
use isitsql.Common.{
  ltb, All, map, text_eq, ℕ, ◌+◌, ◌≡◌, ◌≢◌, refl, codes, true, false, some, none, List, [], ◌∷◌,
  Text, subst, arith, if◌then◌else◌,
}
use isitsql.Maps.{Map, lookup, text_key, number_key}
use isitsql.Maps.Laws.{IsMap}
use isitsql.Rings.Slots.{take_last}
use isitsql.Rings.WaitRing.Laws.{last_or}
use isitsql.Waits.Mapping.{WaitMap}
use isitsql.Waits.Box.{
  Request, Box, Rows, Poll, Answer, rows, failed, error_text, poll_waits, poll_waits_wrapper,
  emit_waits,
}
use isitsql.Waits.Box.Laws.{amount}
use isitsql.Waits.Box.Start.{
  Info, info, no_info, Phase, start, Step, retry_connected, running, Steps, stay, next, IsFresh,
  RunsWhole, start-IsFresh,
}
use isitsql.Waits.Box.States.{SameData, poll_waits_wrapper-failed, poll_waits_wrapper-recovers}
use isitsql.Waits.Box.Run.{Event, polled, emitted, amounts, run, run_total, run-amounts}
use isitsql.Waits.Repository.{
  WaitList, no_waits, Repository, empty_repository, repository_values, repository_last,
}
use isitsql.Waits.Repository.Calls.{
  Call, write_call, history_call, delete_call, call_all, entries_after, no_entries,
}
use isitsql.Waits.Repository.Laws.{call_all-entries}
use isitsql.Waits.Repository.History.{read_history, write_of, event_of, read_history-written}
use isitsql.Waits.Server.{serve}
use isitsql.Waits.Top.{value_of, top, repository_top}
use isitsql.Waits.Top.Laws.{ShowsFirst}
use isitsql.Waits.Top.Served.{serve-repository_top}
use isitsql.Waits.Groups.{Wait, Row, bad_row, fields, read_wait_mapping, set_wait_groups}
use isitsql.Waits.Groups.Laws.{
  left_out, or_else, last_row, group_total, set_wait_groups-read_wait_mapping,
}
use isitsql.Common.Int.{pos, negsuc}
use isitsql.Rings.WaitRing.{Ring}

abbrev mappings : Map Text WaitMap
mappings =
    (codes "CXPACKET", record { mapped_to = codes "CPU"; excluded = false })
    ∷ (codes "LAZYWRITER_SLEEP", record { mapped_to = []; excluded = true })
    ∷ []

abbrev box : Box
box = record {
  booted = 7;
  last_poll = 20;
  err = none;
  state_start = 8;
  requests = (51, record { started = 10; wait = codes "CXPACKET"; wait_time_ms = 40 }) ∷ [];
  waits = (codes "CPU", 40) ∷ [];
  statement = true;
  domain = codes "D";
  server = codes "S";
  first = false;
}

-- The request 51 waits on, and 52 is new.
abbrev next_rows : Rows
next_rows = record {
  domain = codes "D";
  server = codes "S";
  booted = 7;
  requests =
      (51, record { started = 10; wait = codes "CXPACKET"; wait_time_ms = 100 })
      ∷ (52, record { started = 21; wait = codes "LCK_M_X"; wait_time_ms = 5 })
      ∷ [];
}

next_rows-IsMap : IsMap next_rows.requests
unfolding lookup
next_rows-IsMap = (refl, (refl, tt))

abbrev good_poll : Poll
good_poll = record { prepare_error = none; answer = rows next_rows; now = 21 }

abbrev bad_poll : Poll
bad_poll = record { prepare_error = none; answer = failed (codes "timeout"); now = 22 }

bad_poll-error : (poll_waits mappings bad_poll box).0 ≡ some (codes "timeout")
unfolding poll_waits
bad_poll-error = refl

poll_waits_wrapper-failed_example :
    SameData (poll_waits_wrapper mappings bad_poll box) box
    × (box.err ≡ none
        → codes "timeout" ≢ []
        → ((poll_waits_wrapper mappings bad_poll box).err ≡ some (codes "timeout"))
          × ((poll_waits_wrapper mappings bad_poll box).statement ≡ false)
          × ((poll_waits_wrapper mappings bad_poll box).state_start ≡ 22))
poll_waits_wrapper-failed_example =
    poll_waits_wrapper-failed mappings bad_poll box (codes "timeout") bad_poll-error

poll_waits_wrapper-recovers_example :
    (error_text (poll_waits_wrapper mappings good_poll box).err ≡ [])
    × ((id : ℕ)
        → lookup id (poll_waits_wrapper mappings good_poll box).requests
          ≡ lookup id next_rows.requests)
poll_waits_wrapper-recovers_example =
    poll_waits_wrapper-recovers mappings good_poll box next_rows refl refl next_rows-IsMap

abbrev events : List Event
events = polled bad_poll ∷ polled good_poll ∷ emitted 60 ∷ []

abbrev requests_of : Answer → Map ℕ Request
requests_of (rows r) = r.requests
requests_of (failed e) = []

good_poll-IsMap : (r : Rows) → rows next_rows ≡ rows r → IsMap r.requests
good_poll-IsMap r e = subst (λ a. IsMap (requests_of a)) e next_rows-IsMap

bad_poll-IsMap : (r : Rows) → failed (codes "timeout") ≡ rows r → IsMap r.requests
bad_poll-IsMap r e = subst (λ a. IsMap (requests_of a)) e tt

run-amounts_example :
    amounts (codes "CPU") (run mappings events box).0
      + amount (codes "CPU") (run mappings events box).1.waits
    ≡ amount (codes "CPU") box.waits + run_total mappings (codes "CPU") events box
run-amounts_example =
    run-amounts mappings (codes "CPU") events box (bad_poll-IsMap, (good_poll-IsMap, (tt, tt)))

abbrev entry : WaitList
entry = record { ts = 60; waits = (codes "CPU", 100) ∷ [] }

abbrev calls : List Call
calls =
    history_call (codes "a") no_waits ∷ write_call (codes "a") entry ∷ delete_call (codes "b") ∷ []

call_all-entries_example :
    (r : Repository) × (call_all calls empty_repository ≡ some r)
    × ((key : Text)
        → let s = entries_after key calls no_entries in
          (repository_values key r ≡ (if s.is_open then take_last 60 s.entries else []))
          × (repository_last key r
              ≡ some (if s.is_open then last_or no_waits s.entries else no_waits)))
call_all-entries_example = call_all-entries calls

good_poll_run :
    (poll_waits_wrapper mappings good_poll box).waits
    ≡ (codes "CPU", 100) ∷ (codes "LCK_M_X", 5) ∷ []
unfolding poll_waits_wrapper
good_poll_run = refl

box_waits-IsMap : IsMap box.waits
unfolding lookup
box_waits-IsMap = (refl, tt)

serve-repository_top_example :
    (r : Repository) × (b' : Box) × (serve mappings (codes "a") events box empty_repository
      ≡ some (b', r))
    × ((w : Text)
        → value_of w (repository_top (codes "a") 5 r).base_map + amount w b'.waits
          ≡ amount w box.waits + run_total mappings w events box)
    × ShowsFirst 5 (repository_top (codes "a") 5 r)
serve-repository_top_example =
    serve-repository_top mappings (codes "a") 5 events box
      (bad_poll-IsMap, (good_poll-IsMap, (tt, tt))) box_waits-IsMap (omega arith)

abbrev hour : Ring WaitList
hour = record {
  entries =
      record { ts = 60; waits = (codes "B", 7) ∷ (codes "C", 0) ∷ [] }
      ∷ record { ts = 120; waits = (codes "A", 9) ∷ (codes "B", 2) ∷ (codes "D", 11) ∷ [] }
      ∷ [];
  p = 2;
}

top_run : (top 2 hour).sorted_keys ≡ codes "D" ∷ codes "A" ∷ []
unfolding top text_eq
top_run = refl

top_all_run : (top 0 hour).sorted_keys ≡ codes "D" ∷ codes "A" ∷ codes "B" ∷ []
unfolding top text_eq
top_all_run = refl

abbrev keep_case : Text → Text
keep_case t = t

abbrev wait_rows : List Row
wait_rows =
    fields (codes "WAITFOR") [] ∷ bad_row ∷ fields (codes "LCK_M_X") (codes "Locking" ∷ []) ∷ []

abbrev polled_waits : Map Text Wait
polled_waits =
    (codes "CXPACKET", record { wait_time_delta = pos 5 })
    ∷ (codes "LCK_M_X", record { wait_time_delta = pos 3 })
    ∷ (codes "WAITFOR", record { wait_time_delta = pos 8 })
    ∷ (codes "SOS", record { wait_time_delta = negsuc 1 })
    ∷ []

set_wait_groups_run :
    set_wait_groups (read_wait_mapping keep_case wait_rows mappings) polled_waits
    ≡ (codes "CPU", 5) ∷ (codes "Locking", 3) ∷ []
unfolding set_wait_groups read_wait_mapping text_eq
set_wait_groups_run = refl

-- Entries of the default mapping: the second one has no group and is not excluded.
abbrev base_mapping : Map Text WaitMap
base_mapping =
    (codes "CXPACKET", record { mapped_to = []; excluded = true })
    ∷ (codes "HADR_SYNC_COMMIT", record { mapped_to = []; excluded = false })
    ∷ []

abbrev waits_with_names : Map Text Wait
waits_with_names = (codes "HADR_SYNC_COMMIT", record { wait_time_delta = pos 4 }) ∷ polled_waits

left_out_run :
    let m = read_wait_mapping keep_case wait_rows base_mapping in
    (left_out m (codes "HADR_SYNC_COMMIT") waits_with_names ≡ 4)
    × (left_out m (codes "CPU") waits_with_names ≡ 0)
unfolding read_wait_mapping lookup text_eq
left_out_run = (refl, refl)

set_wait_groups-read_wait_mapping_example :
    let m = read_wait_mapping keep_case wait_rows base_mapping in
    ((key : Text)
      → lookup key m ≡ or_else (last_row keep_case key wait_rows) (lookup key base_mapping))
    × ((g : Text)
        → amount g (set_wait_groups m waits_with_names) + left_out m g waits_with_names
          ≡ group_total m g waits_with_names)
unfolding lookup
set_wait_groups-read_wait_mapping_example =
    set_wait_groups-read_wait_mapping keep_case wait_rows base_mapping waits_with_names
      (refl, (refl, (refl, (refl, (refl, tt)))))

abbrev no_waits_at_90 : WaitList
no_waits_at_90 = record { ts = 90; waits = [] }

abbrev history : List (Text × WaitList)
history = (codes "a", entry) ∷ (codes "b", entry) ∷ (codes "a", no_waits_at_90) ∷ []

history-AreYoung : All (λ w. ltb w.1.ts 50 ≡ false) history
history-AreYoung = (refl, (refl, (refl, tt)))

read_history-written_example :
    (r : Repository) × (r' : Repository) × (call_all (map write_of history) empty_repository
      ≡ some r)
    × (read_history 50 (map event_of r.written) empty_repository ≡ some r')
    × ((key : Text)
        → (repository_values key r' ≡ repository_values key r)
          × (repository_last key r' ≡ repository_last key r))
read_history-written_example = read_history-written 50 history history-AreYoung

abbrev server_info : Info
server_info = info (codes "D") (codes "S") 7 15

abbrev refused : Phase × Box
refused = start true (no_info (codes "refused")) box

-- The first setup fails and the second one connects; a poll fails, and then a tick emits.
abbrev start_steps :
    let b = record box { first = true; requests = []; waits = [] } in
    let b' = record (poll_waits_wrapper mappings bad_poll b) { waits = [] } in
    Steps mappings refused.0 refused.1 (running false true true) b'
unfolding start poll_waits_wrapper emit_waits
start_steps =
    next (retry_connected server_info refl) (next (Step.polled bad_poll) (next Step.emitted stay))

start-IsFresh_example :
    let b = record box { first = true; requests = []; waits = [] } in
    let b' = record (poll_waits_wrapper mappings bad_poll b) { waits = [] } in
    IsFresh (running false true true) b' × RunsWhole mappings (running false true true)
start-IsFresh_example =
    start-IsFresh mappings true (no_info (codes "refused")) box
      (record (poll_waits_wrapper mappings bad_poll
        (record box { first = true; requests = []; waits = [] })) { waits = [] })
      (running false true true) start_steps
