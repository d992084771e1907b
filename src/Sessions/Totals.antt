-- ===== src/Sessions/Totals.antt =====
-- internal/mssql/session/session.go: what populateBlocking says of each session, told from the blockers that the
-- sessions have.
use isitsql.Common.{
  ℕ, suc, ◌+◌, ◌≤◌, ◌≡◌, ◌≢◌, ◌⊎◌, refl, ap, ◌∙◌, subst, inl, inr, true, false, Bool-cases, List,
  [], ◌∷◌, ◌++◌, codes, map, length, All, arith,
}
use isitsql.Common.Int.{ℤ}
use isitsql.Maps.{Map}
use isitsql.Sessions.{
  Session, same_id, same_id_iff, id_key, contains, Blocking, max_depth, blocker_map, mark_head,
  populate_blocking,
}
use isitsql.Sessions.Chains.{IsHead}
use isitsql.Sessions.Depth.{head_blocker-IsHead}
use isitsql.Sessions.Marked.{
  parents_of, blocked_by, mark, length-blocker_map, with_blocking, populate_blocking-with_blocking,
}
use isitsql.Sessions.Blockers.{
  HasBlockers, blocker_map-HasBlockers, path_text, HasPath, head_blocker-HasPath,
}

-- How many of the sessions v blocks: those, other than v itself, that have it in their chain of blockers
pub data Blocks (m : Map ℤ ℤ) (v : ℤ) : List Session → ℕ → Type 0 where
  no_session : Blocks m v [] 0
  blocked :
      {t : Session} {ts : List Session} {n : ℕ} (b : Blocking)
      → IsHead m t.session_id b
      → v ≢ t.session_id
      → contains b.parents v ≡ true
      → Blocks m v ts n
      → Blocks m v (t ∷ ts) (1 + n)
  not_blocked :
      {t : Session} {ts : List Session} {n : ℕ} (b : Blocking)
      → IsHead m t.session_id b
      → (v ≡ t.session_id) ⊎ (contains b.parents v ≡ false)
      → Blocks m v ts n
      → Blocks m v (t ∷ ts) n

-- The head blocker of a session is the end of its chain. A session that is its own keeps what stands there.
abbrev pub NamesHead : ℤ → Session → ℤ → Type 0
NamesHead end s head =
    ((end ≡ s.session_id) × (head ≡ s.head_blocker_id)) ⊎ ((end ≢ s.session_id) × (head ≡ end))

-- The second session is the first one with its path, its head blocker and its count, and otherwise the same.
abbrev pub IsBlocked : Map ℤ ℤ → List Session → Session → Session → Type 0
IsBlocked m all s s' =
    (b : Blocking) × (head : ℤ) × (n : ℕ) × IsHead m s.session_id b
    × NamesHead b.head s head
    × Blocks m s.session_id all n
    × (s' ≡ record s {
      path = path_text b.parents ++ codes "/";
      head_blocker_id = head;
      total_blocked = n;
    })

abbrev pub AreBlocked : Map ℤ ℤ → List Session → List Session → List Session → Type 0
AreBlocked m all [] [] = Unit
AreBlocked m all (s ∷ ss) (s' ∷ ss') = IsBlocked m all s s' × AreBlocked m all ss ss'
AreBlocked m all ss ss' = ⊥

module _ (m : Map ℤ ℤ) (few : length m ≤ max_depth) where
  blocked_by-Blocks : (v : ℤ) (ts : List Session) → Blocks m v ts (blocked_by m v ts)
  blocked_by-Blocks v [] = no_session
  blocked_by-Blocks v (t ∷ ts) =
      let rest = blocked_by-Blocks v ts in
      let (b, found, h) = head_blocker-IsHead m t.session_id few in
      let ps : parents_of m t.session_id ≡ b.parents = rw (parents_of, found) refl in
      let same_count : blocked_by m v ts ≡ 0 + blocked_by m v ts = omega arith in
      let none_added = subst (Blocks m v (t ∷ ts)) same_count in
      rw ps (elim (Bool-cases (same_id v t.session_id)) [
        | inl own ↦
            rw own (none_added (not_blocked b h (inl ((same_id_iff v t.session_id).0 own)) rest))
        | inr other ↦
            let apart : v ≢ t.session_id = λ e. cc (other, (same_id_iff v t.session_id).1 e) in
            elim (Bool-cases (contains b.parents v)) [
              | inl among ↦ rw other (rw among (blocked b h apart among rest))
              | inr missing ↦
                  rw other (rw missing (none_added (not_blocked b h (inr missing) rest)))
            ]
      ])

  with_blocking-IsBlocked :
      (all : List Session) (s : Session) → IsBlocked m all s (with_blocking m all s)
  with_blocking-IsBlocked all s =
      let (b, found, h) = head_blocker-IsHead m s.session_id few in
      let n = blocked_by m s.session_id all in
      let counts = blocked_by-Blocks s.session_id all in
      let path : HasPath b =
        head_blocker-HasPath (suc max_depth) s.session_id m [] [] b found refl in
      let marked : with_blocking m all s ≡ record (mark_head b s) { total_blocked = n } =
        rw (mark, found) refl in
      elim (Bool-cases (same_id b.head s.session_id)) [
        | inl own ↦ (
          b,
          s.head_blocker_id,
          n,
          h,
          inl ((same_id_iff b.head s.session_id).0 own, refl),
          counts,
          marked ∙ rw own (ap (λ p. record s { path = p ++ codes "/"; total_blocked = n }) path),
        )
        | inr other ↦ (
          b,
          b.head,
          n,
          h,
          inr ((λ e. cc (other, (same_id_iff b.head s.session_id).1 e)), refl),
          counts,
          marked
              ∙ rw other (
                  ap
                    (λ p. record s {
                      path = p ++ codes "/";
                      head_blocker_id = b.head;
                      total_blocked = n;
                    })
                    path),
        )
      ]

  pub with_blocking-AreBlocked :
      (all ss : List Session) → AreBlocked m all ss (map (with_blocking m all) ss)
  with_blocking-AreBlocked all [] = tt
  with_blocking-AreBlocked all (s ∷ ss) =
      (with_blocking-IsBlocked all s, with_blocking-AreBlocked all ss)

-- For at most 100 sessions that come with no count, populateBlocking ends with no error. With a map that has for each id
-- the blocker that the sessions name for it, and the chains of blockers in this map, each session gets the path of
-- its chain, the end of the chain as its head blocker, unless it is the session itself, and the number of
-- the other sessions in whose chain it stands. Nothing else of a session changes.
pub populate_blocking-total_blocked :
    (ss : List Session)
    → length ss ≤ max_depth
    → All (λ s. s.total_blocked ≡ 0) ss
    → (m : Map ℤ ℤ) × (ss' : List Session) × HasBlockers m ss
      × (populate_blocking ss ≡ (ss', false))
      × AreBlocked m ss ss ss'
populate_blocking-total_blocked ss few new =
    let m = blocker_map ss [] in
    let small = length-blocker_map ss [] in
    let fits : length m ≤ max_depth = omega arith in
    (
      m,
      map (with_blocking m ss) ss,
      blocker_map-HasBlockers ss,
      populate_blocking-with_blocking ss few new,
      with_blocking-AreBlocked m fits ss ss,
    )
