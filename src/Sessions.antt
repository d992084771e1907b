-- ===== src/Sessions.antt =====
-- internal/mssql/session/session.go: the active sessions of a server, and who blocks them. Of a session the
-- fields are kept that the code looks at or sets; the query, the run time and the trimming of the
-- statement are left out. The counts stay far below 2^63.
pub mod Chains
pub mod Depth
pub mod Count
pub mod Marked
pub mod Blockers
pub mod Totals
pub mod Order
mod Tests
use isitsql.Common.{
  ℕ, zero, suc, ◌+◌, ◌≡◌, ◌↔◌, refl, ap, Bool, true, false, not, ◌&&◌, ◌||◌, Option, none, some,
  List, [], ◌∷◌, ◌++◌, map, Text, codes, text_eq, ltb, ◌==◌, ==_iff, if◌then◌else◌, filter, arith,
}
use isitsql.Common.Int.{ℤ, pos, negsuc, pos_part, neg_part}
use isitsql.Common.Sort.{sort_by}
use isitsql.Maps.{Eq, Map, lookup, insert}
use isitsql.Semver.Number.{number_text}

-- Ids are signed: SQL Server marks lost transactions as blockers by negative numbers.
pub record Session : Type 0 where
  pub session_id : ℤ
  pub start_time : ℕ
  pub wait_type : Text
  pub open_txn_count : ℕ
  pub blocker_id : ℤ
  pub head_blocker_id : ℤ
  pub total_blocked : ℕ
  pub path : Text

abbrev pub same_id : ℤ → ℤ → Bool
same_id (pos a) (pos b) = a == b
same_id (negsuc a) (negsuc b) = a == b
same_id (pos a) (negsuc b) = false
same_id (negsuc a) (pos b) = false

pub same_id_iff : (a b : ℤ) → (same_id a b ≡ true) ↔ (a ≡ b)
same_id_iff (pos a) (pos b) = (λ h. ap pos ((==_iff a b).0 h), λ e. (==_iff a b).1 (ap pos_part e))
same_id_iff (negsuc a) (negsuc b) = (
  λ h. ap negsuc ((==_iff a b).0 h),
  λ e. let n : suc a ≡ suc b = ap neg_part e in let k : a ≡ b = omega arith in (==_iff a b).1 k,
)
same_id_iff (pos a) (negsuc b) = (λ h. absurd (cc h), λ e. absurd (cc e))
same_id_iff (negsuc a) (pos b) = (λ h. absurd (cc h), λ e. absurd (cc e))

instance abbrev pub id_key : Eq ℤ
id_key = record { same = same_id; same_iff = same_id_iff }

-- fmt.Sprintf("%d", id)
unfoldable pub id_text : ℤ → Text
unfolding number_text
id_text (pos n) = number_text n
id_text (negsuc n) = codes "-" ++ number_text (suc n)

abbrev pub max_depth : ℕ
max_depth = 100

-- slices.Contains
abbrev pub contains : List ℤ → ℤ → Bool
contains [] id = false
contains (v ∷ p) id = same_id v id || contains p id

-- What headBlocker returns
pub record Blocking : Type 0 where
  pub head : ℤ
  pub parents : List ℤ
  pub path : Text

-- headBlocker, with the number of calls that are left before `depth > maxDepth`; `none` is the error.
unfoldable pub head_blocker : ℕ → ℤ → Map ℤ ℤ → List ℤ → Text → Option Blocking
unfolding lookup id_text
head_blocker zero id m p path = none
head_blocker (suc calls) id m p path =
    if contains p id
    then some (record { head = id; parents = p; path = path })
    else elim (lookup id m) [
      | none ↦
          some
            (record { head = id; parents = p ++ id ∷ []; path = codes "/" ++ id_text id ++ path })
      | some bid ↦ head_blocker calls bid m (p ++ id ∷ []) (codes "/" ++ id_text id ++ path)
    ]

-- The first loop: session -> blocked by
unfoldable pub blocker_map : List Session → Map ℤ ℤ → Map ℤ ℤ
unfolding insert
blocker_map [] m = m
blocker_map (s ∷ ss) m =
    blocker_map ss (if same_id s.blocker_id (pos 0) then m else insert s.session_id s.blocker_id m)

-- The loop over the parents of a session
unfoldable pub count_parents : ℤ → List ℤ → Map ℤ ℕ → Map ℤ ℕ
unfolding lookup insert
count_parents id [] totals = totals
count_parents id (v ∷ parents) totals = count_parents id parents (
    if same_id v id
    then totals
    else elim (lookup v totals) [ some n ↦ insert v (n + 1) totals | none ↦ insert v 1 totals ])

abbrev pub mark_head : Blocking → Session → Session
mark_head b s =
    let path = b.path ++ codes "/" in
    if same_id b.head s.session_id
    then record s { path = path }
    else record s { path = path; head_blocker_id = b.head }

-- The second loop: the sessions, the totals, and whether it ended in an error. The head blockers that it
-- counts in `headmap` are never read, and are left out.
unfoldable pub mark_heads : Map ℤ ℤ → List Session → Map ℤ ℕ → List Session × Map ℤ ℕ × Bool
unfolding head_blocker count_parents
mark_heads m [] totals = ([], totals, false)
mark_heads m (s ∷ ss) totals = elim (head_blocker (suc max_depth) s.session_id m [] []) [
  | none ↦ (s ∷ ss, totals, true)
  | some b ↦
      let (rest, totals', failed) = mark_heads m ss (count_parents s.session_id b.parents totals) in
      (mark_head b s ∷ rest, totals', failed)
]

abbrev pub set_total : Map ℤ ℕ → Session → Session
set_total totals s = elim (lookup s.session_id totals) [
  | some n ↦ record s { total_blocked = n }
  | none ↦ s
]

-- populateBlocking: the sessions, and whether it returned an error
unfoldable pub populate_blocking : List Session → List Session × Bool
unfolding blocker_map mark_heads lookup
populate_blocking ss =
    let (marked, totals, failed) = mark_heads (blocker_map ss []) ss [] in
    if failed then (marked, true) else (map (set_total totals) marked, false)

-- Sessions that only wait for time or for diagnostics are shown if they block, are blocked or have a
-- transaction open.
abbrev pub is_shown : Session → Bool
is_shown s = not (
    (text_eq s.wait_type (codes "WAITFOR")
      || text_eq s.wait_type (codes "SP_SERVER_DIAGNOSTICS_SLEEP"))
    && (same_id s.blocker_id (pos 0) && (s.total_blocked == 0) && (s.open_txn_count == 0)))

abbrev pub before : Session → Session → Bool
before s t =
    if s.total_blocked == t.total_blocked
    then ltb s.start_time t.start_time
    else ltb t.total_blocked s.total_blocked

-- Get, from the sessions of the query to their order. An error of populateBlocking is only logged.
unfoldable pub get_sessions : List Session → List Session
unfolding populate_blocking sort_by text_eq
get_sessions ss = sort_by before (filter is_shown (populate_blocking ss).0)
