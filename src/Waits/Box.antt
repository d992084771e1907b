-- ===== src/Waits/Box.antt =====
-- internal/dwaits/box.go: what a Box keeps of its server, and a poll of the server's requests. Times are
-- numbers that are only compared. The wait times are milliseconds of a column that is never negative,
-- and their sums over a minute stay far below 2^63. Messages to the log are left out.
pub mod Laws
pub mod Credit
pub mod States
pub mod Run
pub mod Start
use isitsql.Common.{
  ℕ, ◌+◌, ◌-◌, Bool, true, false, not, ◌&&◌, ◌||◌, Option, none, some, List, [], ◌∷◌, Text, text_eq,
  is_empty, ltb, ◌==◌, if◌then◌else◌,
}
use isitsql.Maps.{Map, lookup, insert, keep_if, text_key, number_key}
use isitsql.Waits.Mapping.{WaitMap, lookup_wait}

-- A request that runs. Its id is the key of the map that has it.
pub record Request : Type 0 where
  pub started : ℕ
  pub wait : Text
  pub wait_time_ms : ℕ

-- An error is its text. `statement` says whether the query is prepared. The connection, the context and
-- the repository are left out.
pub record Box : Type 0 where
  pub booted : ℕ
  pub last_poll : ℕ
  pub err : Option Text
  pub state_start : ℕ
  pub requests : Map ℕ Request
  pub waits : Map Text ℕ
  pub statement : Bool
  pub domain : Text
  pub server : Text
  pub first : Bool

-- What queryWaits returns: each session has one request.
pub record Rows : Type 0 where
  pub domain : Text
  pub server : Text
  pub booted : ℕ
  pub requests : Map ℕ Request

-- What the database answers to a poll: whether preparing fails, if it is asked to, and the rows.
pub data Answer : Type 0 where
  failed : Text → Answer
  rows : Rows → Answer

pub record Poll : Type 0 where
  pub prepare_error : Option Text
  pub answer : Answer
  pub now : ℕ

-- The group that a wait counts for, `none` if it is not counted.
abbrev pub group_of : Map Text WaitMap → Text → Option Text
group_of mappings wait =
    if is_empty wait
    then none
    else if (lookup_wait mappings wait).excluded
    then none
    else if is_empty (lookup_wait mappings wait).mapped_to
    then some wait
    else some (lookup_wait mappings wait).mapped_to

-- b.Waits[wait] += ms
abbrev pub add_to : Text → ℕ → Map Text ℕ → Map Text ℕ
add_to wait ms waits = elim (lookup wait waits) [
  | none ↦ insert wait ms waits
  | some w0 ↦ insert wait (w0 + ms) waits
]

abbrev pub is_known : Map ℕ Request → ℕ → Bool
is_known requests id = elim (lookup id requests) [ some r ↦ true | none ↦ false ]

abbrev pub is_reset : Box → Rows → Bool
is_reset b r =
    b.first
    || not (text_eq b.domain r.domain)
    || not (text_eq b.server r.server)
    || not (b.booted == r.booted)

-- err.Error(), or nothing
abbrev pub error_text : Option Text → Text
error_text e = elim e [ some s ↦ s | none ↦ [] ]

-- The state of the Box after a poll that returned `err`
abbrev pub change_state : ℕ → Option Text → Box → Box
change_state now err b = elim b.err [
  | none ↦ record b { err = err; statement = false; state_start = now }
  | some e ↦ record b { err = err }
]

-- emitWaits: what is written to the repository, and the Box
unfoldable pub emit_waits : Box → Map Text ℕ × Box
emit_waits b = (b.waits, record b { waits = [] })

module _ (mappings : Map Text WaitMap) where
  unfoldable pub map_and_save_wait : Text → ℕ → Map Text ℕ → Map Text ℕ
  unfolding lookup insert lookup_wait
  map_and_save_wait wait ms waits = elim (group_of mappings wait) [
    | none ↦ waits
    | some group ↦ add_to group ms waits
  ]

  -- The wait of a request that is the same as before
  abbrev pub save_increment : Request → Request → Map Text ℕ → Map Text ℕ
  save_increment r active waits =
      if ltb r.wait_time_ms active.wait_time_ms
      then map_and_save_wait active.wait (active.wait_time_ms - r.wait_time_ms) waits
      else if ltb active.wait_time_ms r.wait_time_ms
      then map_and_save_wait active.wait active.wait_time_ms waits
      else waits

  -- The waits after one round of the loop over the polled requests
  unfoldable pub save_request : Option Request → Request → Map Text ℕ → Map Text ℕ
  unfolding map_and_save_wait
  save_request none active waits = map_and_save_wait active.wait active.wait_time_ms waits
  save_request (some r) active waits =
      if (r.started == active.started) && text_eq r.wait active.wait
      then save_increment r active waits
      else map_and_save_wait active.wait active.wait_time_ms waits

  -- The loop. Every branch stores the request that was polled.
  unfoldable pub poll_requests :
      Map ℕ Request → Map ℕ Request → Map Text ℕ → Map ℕ Request × Map Text ℕ
  unfolding save_request lookup insert
  poll_requests [] known waits = (known, waits)
  poll_requests ((id, active) ∷ more) known waits =
      poll_requests more (insert id active known) (save_request (lookup id known) active waits)

  -- From the rows on
  unfoldable pub take_rows : ℕ → Rows → Box → Box
  unfolding poll_requests keep_if lookup text_eq
  take_rows now r b =
      let (known, waits) = poll_requests r.requests b.requests b.waits in
      if is_reset b r
      then record b {
        requests = r.requests;
        domain = r.domain;
        server = r.server;
        booted = r.booted;
        first = false;
      }
      else record b {
        requests = keep_if (is_known r.requests) known;
        waits = waits;
        last_poll = now;
        first = false;
      }

  -- pollwaits: the error that it returns, and the Box
  unfoldable pub poll_waits : Poll → Box → Option Text × Box
  unfolding take_rows
  poll_waits p b = elim (if b.statement then none else p.prepare_error) [
    | some e ↦ (some e, b)
    | none ↦ elim p.answer [
      | failed e ↦ (some e, record b { statement = true })
      | rows r ↦ (none, take_rows p.now r (record b { statement = true }))
    ]
  ]

  -- pollWaitsWrapper
  unfoldable pub poll_waits_wrapper : Poll → Box → Box
  unfolding poll_waits text_eq
  poll_waits_wrapper p b =
      let (err, b') = poll_waits p b in
      if text_eq (error_text b'.err) (error_text err) then b' else change_state p.now err b'
