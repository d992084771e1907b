-- ===== src/Sessions/Tests.antt =====
-- Runs on concrete sessions of internal/mssql/session/session.go.
use isitsql.Common.{ℕ, ◌≡◌, refl, false, some, List, [], ◌∷◌, map, Text, codes, All, arith}
use mathlib.Core.List.{Permᴰ}
use isitsql.Common.Int.{ℤ, pos}
use isitsql.Maps.{Map}
use isitsql.Sessions.{Session, Blocking, head_blocker, populate_blocking, get_sessions}
use isitsql.Sessions.Chains.{IsHead}
use isitsql.Sessions.Depth.{head_blocker-IsHead}
use isitsql.Sessions.Blockers.{HasBlockers}
use isitsql.Sessions.Totals.{AreBlocked, populate_blocking-total_blocked}
use isitsql.Sessions.Order.{Leaves, AreInOrder, get_sessions-IsOrdered}

abbrev session : ℤ → ℤ → Text → Session
session id blocker wait = record {
  session_id = id;
  start_time = 7;
  wait_type = wait;
  open_txn_count = 0;
  blocker_id = blocker;
  head_blocker_id = pos 0;
  total_blocked = 0;
  path = [];
}

-- 53 waits for 52, 52 for 51, and 60 and 61 for each other; 70 only waits for time.
abbrev sessions : List Session
sessions =
    session (pos 53) (pos 52) (codes "LCK_M_X")
    ∷ session (pos 52) (pos 51) (codes "LCK_M_S")
    ∷ session (pos 70) (pos 0) (codes "WAITFOR")
    ∷ session (pos 51) (pos 0) (codes "WAITFOR")
    ∷ session (pos 60) (pos 61) (codes "LCK_M_U")
    ∷ session (pos 61) (pos 60) (codes "LCK_M_U")
    ∷ []

abbrev ids : Session → ℤ × ℤ × ℕ
ids s = (s.session_id, s.head_blocker_id, s.total_blocked)

get_sessions_run :
    map ids (get_sessions sessions)
    ≡ (pos 51, pos 0, 2)
      ∷ (pos 52, pos 51, 1)
      ∷ (pos 60, pos 0, 1)
      ∷ (pos 61, pos 0, 1)
      ∷ (pos 53, pos 51, 0)
      ∷ []
unfolding get_sessions
get_sessions_run = refl

new_counts : All (λ s. s.total_blocked ≡ 0) sessions
new_counts = (refl, (refl, (refl, (refl, (refl, (refl, tt))))))

abbrev blockers : Map ℤ ℤ
blockers = (pos 53, pos 52) ∷ (pos 52, pos 51) ∷ []

head_blocker-IsHead_example :
    (b : Blocking) × (head_blocker 101 (pos 53) blockers [] [] ≡ some b)
    × IsHead blockers (pos 53) b
head_blocker-IsHead_example = head_blocker-IsHead blockers (pos 53) (omega arith)

populate_blocking-total_blocked_example :
    (m : Map ℤ ℤ) × (ss' : List Session) × HasBlockers m sessions
    × (populate_blocking sessions ≡ (ss', false))
    × AreBlocked m sessions sessions ss'
populate_blocking-total_blocked_example =
    populate_blocking-total_blocked sessions (omega arith) new_counts

get_sessions-IsOrdered_example :
    (m : Map ℤ ℤ) × (marked : List Session) × (left : List Session) × HasBlockers m sessions
    × AreBlocked m sessions sessions marked
    × Leaves marked left
    × Permᴰ left (get_sessions sessions)
    × AreInOrder (get_sessions sessions)
get_sessions-IsOrdered_example = get_sessions-IsOrdered sessions (omega arith) new_counts
