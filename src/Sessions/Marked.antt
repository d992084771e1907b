-- ===== src/Sessions/Marked.antt =====
-- internal/mssql/session/session.go: the two loops of populateBlocking, as what they make of each session.
use isitsql.Common.{
  ℕ, suc, ◌+◌, ◌≤◌, ◌≡◌, refl, ap, ap₂, ◌∙◌, inl, inr, Bool, false, not, ◌&&◌, Bool-cases,
  Option-cases, none, some, List, [], ◌∷◌, map, length, All, arith,
}
use isitsql.Common.Int.{ℤ, pos}
use isitsql.Maps.{Map, lookup, insert}
use isitsql.Sessions.{
  Session, same_id, id_key, contains, Blocking, head_blocker, max_depth, blocker_map, count_parents,
  mark_head, mark_heads, set_total, populate_blocking,
}
use isitsql.Sessions.Chains.{AreDistinct, IsHead, ended, circled}
use isitsql.Sessions.Depth.{head_blocker-IsHead}
use isitsql.Sessions.Count.{total_of, bit, total_of-count_parents}

parents-AreDistinct : {m : Map ℤ ℤ} {s : ℤ} {b : Blocking} → IsHead m s b → AreDistinct b.parents
parents-AreDistinct (ended w d e) = d
parents-AreDistinct (circled w d e) = d

module _ (m : Map ℤ ℤ) where
  -- The sessions that headBlocker goes through from a session
  abbrev pub parents_of : ℤ → List ℤ
  parents_of id = elim (head_blocker (suc max_depth) id m [] []) [ some b ↦ b.parents | none ↦ [] ]

  -- Another session stands among the blockers of s.
  abbrev pub blocks : ℤ → Session → Bool
  blocks v s = not (same_id v s.session_id) && contains (parents_of s.session_id) v

  -- How many of the sessions another one blocks
  abbrev pub blocked_by : ℤ → List Session → ℕ
  blocked_by v [] = 0
  blocked_by v (s ∷ ss) = bit (blocks v s) + blocked_by v ss

  abbrev pub mark : Session → Session
  mark s = elim (head_blocker (suc max_depth) s.session_id m [] []) [
    | some b ↦ mark_head b s
    | none ↦ s
  ]

  count_in-mark_heads :
      (ss : List Session) (totals : Map ℤ ℕ)
      → length m ≤ max_depth
      → (totals' : Map ℤ ℕ) × (mark_heads m ss totals ≡ (map mark ss, totals', false))
        × ((v : ℤ) → total_of v totals' ≡ total_of v totals + blocked_by v ss)
  unfolding mark_heads
  count_in-mark_heads [] totals few = (totals, refl, λ v. omega arith)
  count_in-mark_heads (s ∷ ss) totals few =
      let (b, found, h) = head_blocker-IsHead m s.session_id few in
      let next = count_parents s.session_id b.parents totals in
      let (totals', rest, count) = count_in-mark_heads ss next few in
      (
        totals',
        rw (mark_heads, found) (rw (rest, mark, found) refl),
        λ v.
            let one =
              total_of-count_parents s.session_id v b.parents totals (parents-AreDistinct h) in
            let more = count v in
            let ps : parents_of s.session_id ≡ b.parents = rw (parents_of, found) refl in
            rw ps (omega arith),
      )

-- The sessions that are blocked are among the sessions.
length-insert_le : (k b : ℤ) (m : Map ℤ ℤ) → length (insert k b m) ≤ suc (length m)
unfolding insert
length-insert_le k b [] = omega arith
length-insert_le k b ((j, c) ∷ m) = elim (Bool-cases (same_id j k)) [
  | inl e ↦ rw e (omega arith)
  | inr e ↦ rw e (omega (arith, length-insert_le k b m))
]

pub length-blocker_map :
    (ss : List Session) (m : Map ℤ ℤ) → length (blocker_map ss m) ≤ length ss + length m
unfolding blocker_map
length-blocker_map [] m = omega arith
length-blocker_map (s ∷ ss) m = elim (Bool-cases (same_id s.blocker_id (pos 0))) [
  | inl e ↦ rw e (omega (arith, length-blocker_map ss m))
  | inr e ↦
      let rest = length-blocker_map ss (insert s.session_id s.blocker_id m) in
      let one = length-insert_le s.session_id s.blocker_id m in rw e (omega arith)
]

-- The counts as the last loop writes them.
set_total_lem :
    (totals : Map ℤ ℕ) (s : Session)
    → s.total_blocked ≡ 0
    → set_total totals s ≡ record s { total_blocked = total_of s.session_id totals }
set_total_lem totals s new = elim (Option-cases (lookup s.session_id totals)) [
  | inl e ↦ rw (set_total, e) (ap (λ n. record s { total_blocked = n }) new)
  | inr (n, e) ↦ rw (set_total, e) refl
]

mark-session_id : (m : Map ℤ ℤ) (s : Session) → (mark m s).session_id ≡ s.session_id
mark-session_id m s = elim (Option-cases (head_blocker (suc max_depth) s.session_id m [] [])) [
  | inl e ↦ rw (mark, e) refl
  | inr (b, e) ↦ elim (Bool-cases (same_id b.head s.session_id)) [
    | inl h ↦ rw (mark, e, h) refl
    | inr h ↦ rw (mark, e, h) refl
  ]
]

mark-total_blocked : (m : Map ℤ ℤ) (s : Session) → (mark m s).total_blocked ≡ s.total_blocked
mark-total_blocked m s = elim (Option-cases (head_blocker (suc max_depth) s.session_id m [] [])) [
  | inl e ↦ rw (mark, e) refl
  | inr (b, e) ↦ elim (Bool-cases (same_id b.head s.session_id)) [
    | inl h ↦ rw (mark, e, h) refl
    | inr h ↦ rw (mark, e, h) refl
  ]
]

-- A session with its head blocker, its path and its count
abbrev pub with_blocking : Map ℤ ℤ → List Session → Session → Session
with_blocking m ss s = record (mark m s) { total_blocked = blocked_by m s.session_id ss }

set_totals_lem :
    (m : Map ℤ ℤ) (all ss : List Session) (totals : Map ℤ ℕ)
    → ((v : ℤ) → total_of v totals ≡ blocked_by m v all)
    → All (λ s. s.total_blocked ≡ 0) ss
    → map (set_total totals) (map (mark m) ss) ≡ map (with_blocking m all) ss
set_totals_lem m all [] totals count new = refl
set_totals_lem m all (s ∷ ss) totals count (n, new) =
    let first = set_total_lem totals (mark m s) (mark-total_blocked m s ∙ n) in
    let own : total_of (mark m s).session_id totals ≡ blocked_by m s.session_id all =
      ap (λ v. total_of v totals) (mark-session_id m s) ∙ count s.session_id in
    ap₂ ◌∷◌ (first ∙ ap (λ k. record (mark m s) { total_blocked = k }) own)
      (set_totals_lem m all ss totals count new)

-- Where no session comes with a count, populateBlocking ends with no error and marks each session.
pub populate_blocking-with_blocking :
    (ss : List Session)
    → length ss ≤ max_depth
    → All (λ s. s.total_blocked ≡ 0) ss
    → populate_blocking ss ≡ (map (with_blocking (blocker_map ss []) ss) ss, false)
unfolding populate_blocking
populate_blocking-with_blocking ss few new =
    let m = blocker_map ss [] in
    let small = length-blocker_map ss [] in
    let fits : length m ≤ max_depth = omega arith in
    let (totals, marked, count) = count_in-mark_heads m ss [] fits in
    let counted = set_totals_lem m ss ss totals (λ v. let c = count v in omega arith) new in
    rw (populate_blocking, marked) (ap (λ r. (r, false)) counted)
