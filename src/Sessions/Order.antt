-- ===== src/Sessions/Order.antt =====
-- internal/mssql/session/session.go: which sessions are shown on the page, and their order.
use isitsql.Common.{
  ℕ, ◌≤◌, ◌<◌, ◌≡◌, ◌⊎◌, ◌↔◌, sym, ap, inl, inr, Bool, true, false, not, ◌&&◌, ◌||◌, Bool-cases,
  and_iff, or_iff, List, [], ◌∷◌, codes, text_eq, text_eq_iff, length, All, arith, if◌then◌else◌,
  filter, ltb, ◌==◌, ==_iff,
}
use mathlib.Core.List.{Permᴰ}
use isitsql.Common.Int.{ℤ, pos}
use isitsql.Common.Sort.{IsOrdered, sort_by, sort_by-Permᴰ, sort_by-IsOrdered}
use isitsql.Maps.{Map}
use isitsql.Sessions.{Session, same_id, same_id_iff, max_depth, is_shown, before, get_sessions}
use isitsql.Sessions.Blockers.{HasBlockers}
use isitsql.Sessions.Totals.{AreBlocked, populate_blocking-total_blocked}

-- The session only waits for time or for diagnostics, is not blocked, blocks no other and has no transaction open.
abbrev pub IsHidden : Session → Type 0
IsHidden s =
    ((s.wait_type ≡ codes "WAITFOR") ⊎ (s.wait_type ≡ codes "SP_SERVER_DIAGNOSTICS_SLEEP"))
    × (((s.blocker_id ≡ pos 0) × (s.total_blocked ≡ 0)) × (s.open_txn_count ≡ 0))

abbrev hides : Session → Bool
hides s =
    (text_eq s.wait_type (codes "WAITFOR")
      || text_eq s.wait_type (codes "SP_SERVER_DIAGNOSTICS_SLEEP"))
    && (same_id s.blocker_id (pos 0) && (s.total_blocked == 0) && (s.open_txn_count == 0))

hides_iff : (s : Session) → (hides s ≡ true) ↔ IsHidden s
hides_iff s =
    let waits = text_eq s.wait_type (codes "WAITFOR") in
    let sleeps = text_eq s.wait_type (codes "SP_SERVER_DIAGNOSTICS_SLEEP") in
    let free = same_id s.blocker_id (pos 0) in
    let alone = s.total_blocked == 0 in
    let closed = s.open_txn_count == 0 in
    and_iff (waits || sleeps) (free && alone && closed)
      (or_iff waits sleeps (text_eq_iff s.wait_type (codes "WAITFOR"))
        (text_eq_iff s.wait_type (codes "SP_SERVER_DIAGNOSTICS_SLEEP")))
      (and_iff (free && alone) closed
        (and_iff free alone (same_id_iff s.blocker_id (pos 0)) (==_iff s.total_blocked 0))
        (==_iff s.open_txn_count 0))

-- The sessions of a list that are not hidden, in their order
pub data Leaves : List Session → List Session → Type 0 where
  no_session : Leaves [] []
  shown :
      {s : Session} {ss ts : List Session} → ¬ IsHidden s → Leaves ss ts → Leaves (s ∷ ss) (s ∷ ts)
  hidden : {s : Session} {ss ts : List Session} → IsHidden s → Leaves ss ts → Leaves (s ∷ ss) ts

filter-Leaves : (ss : List Session) → Leaves ss (filter is_shown ss)
filter-Leaves [] = no_session
filter-Leaves (s ∷ ss) =
    let rest = filter-Leaves ss in
    elim (Bool-cases (hides s)) [
      | inl h ↦ rw (filter, ap not h) (hidden ((hides_iff s).0 h) rest)
      | inr h ↦ rw (filter, ap not h) (shown (λ i. cc (h, (hides_iff s).1 i)) rest)
    ]

-- Of two sessions, the first blocks more; or both block as many, and the first did not start later.
abbrev pub ComesFirst : Session → Session → Type 0
ComesFirst s t =
    (t.total_blocked < s.total_blocked)
    ⊎ ((s.total_blocked ≡ t.total_blocked) × (s.start_time ≤ t.start_time))

-- Each session comes first before all that stand behind it.
abbrev pub AreInOrder : List Session → Type 0
AreInOrder [] = Unit
AreInOrder (s ∷ ss) = All (ComesFirst s) ss × AreInOrder ss

-- The order of two pairs of a count and a start.
abbrev earlier : ℕ → ℕ → ℕ → ℕ → Bool
earlier m t n u = if m == n then ltb t u else ltb n m

earlier_asym : (m t n u : ℕ) → earlier m t n u ≡ true → earlier n u m t ≡ false
earlier_asym m t n u h = ground arith

earlier_up :
    (m t n u k v : ℕ) → earlier n u m t ≡ false → earlier k v n u ≡ false → earlier k v m t ≡ false
earlier_up m t n u k v h g = ground arith

not_earlier : (m t n u : ℕ) → earlier n u m t ≡ false → (n < m) ⊎ ((m ≡ n) × (t ≤ u))
not_earlier m t n u h = elim (Bool-cases (n == m)) [
  | inl same ↦
      let e : m ≡ n = sym ((==_iff n m).0 same) in let late : t ≤ u = ground arith in inr (e, late)
  | inr other ↦ let more : n < m = ground arith in inl more
]

All-ComesFirst :
    (s : Session) (ss : List Session) → All (λ t. before t s ≡ false) ss → All (ComesFirst s) ss
All-ComesFirst s [] h = tt
All-ComesFirst s (t ∷ ss) (first, h) = (
  not_earlier s.total_blocked s.start_time t.total_blocked t.start_time first,
  All-ComesFirst s ss h,
)

IsOrdered-AreInOrder : (ss : List Session) → IsOrdered before ss → AreInOrder ss
IsOrdered-AreInOrder [] o = tt
IsOrdered-AreInOrder (s ∷ ss) (first, o) = (All-ComesFirst s ss first, IsOrdered-AreInOrder ss o)

sort_by-AreInOrder : (ss : List Session) → AreInOrder (sort_by before ss)
sort_by-AreInOrder ss = IsOrdered-AreInOrder (sort_by before ss) (
    sort_by-IsOrdered before
      (λ s t. earlier_asym s.total_blocked s.start_time t.total_blocked t.start_time)
      (λ s t u.
        earlier_up s.total_blocked s.start_time t.total_blocked t.start_time u.total_blocked
          u.start_time)
      ss)

-- For at most 100 sessions that come with no count: with the paths, the head blockers and the counts that the
-- chains of blockers give, Get leaves out those that only wait for time or for diagnostics, are not blocked, block
-- no other and have no transaction open, and no more. It shows the others, each as often, the ones that block
-- most first, and of those the oldest first.
pub get_sessions-IsOrdered :
    (ss : List Session)
    → length ss ≤ max_depth
    → All (λ s. s.total_blocked ≡ 0) ss
    → (m : Map ℤ ℤ) × (marked : List Session) × (left : List Session) × HasBlockers m ss
      × AreBlocked m ss ss marked
      × Leaves marked left
      × Permᴰ left (get_sessions ss)
      × AreInOrder (get_sessions ss)
unfolding get_sessions
get_sessions-IsOrdered ss few new =
    let (m, marked, blockers, done, blocked) = populate_blocking-total_blocked ss few new in
    let left = filter is_shown marked in
    let same : get_sessions ss ≡ sort_by before left =
      ap (λ r. sort_by before (filter is_shown r.0)) done in
    rw same (
      m,
      marked,
      left,
      blockers,
      blocked,
      filter-Leaves marked,
      sort_by-Permᴰ before left,
      sort_by-AreInOrder left,
    )
