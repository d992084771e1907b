-- ===== src/Sessions/Blockers.antt =====
-- internal/mssql/session/session.go: who blocks a session, and the path that headBlocker writes.
use isitsql.Common.{
  ℕ, suc, ◌≡◌, refl, sym, ap, ◌∙◌, subst, inl, inr, false, Bool-cases, Option-cases, Option, none,
  some, List, [], ◌∷◌, ◌++◌, zero, append-nil, append_assoc, Text, codes, if◌then◌else◌,
}
use isitsql.Common.Int.{ℤ, pos}
use isitsql.Maps.{Map, lookup, insert}
use isitsql.Maps.Laws.{key-cases, same-false, lookup-insert_same, lookup-insert_other}
use isitsql.Sessions.{
  Session, same_id, same_id_iff, id_key, id_text, contains, Blocking, head_blocker, blocker_map,
}

abbrev or_else : Option ℤ → Option ℤ → Option ℤ
or_else o d = elim o [ some b ↦ some b | none ↦ d ]

or_else_assoc : (a b c : Option ℤ) → or_else (or_else a b) c ≡ or_else a (or_else b c)
or_else_assoc none b c = refl
or_else_assoc (some x) b c = refl

-- Who blocks the session with this id: the last of the sessions that has the id and a blocker says it.
abbrev pub blocker_of : ℤ → List Session → Option ℤ
blocker_of id [] = none
blocker_of id (s ∷ ss) = or_else (blocker_of id ss) (
    if same_id s.blocker_id (pos 0)
    then none
    else if same_id s.session_id id
    then some s.blocker_id
    else none)

-- The map has for each session its blocker.
abbrev pub HasBlockers : Map ℤ ℤ → List Session → Type 0
HasBlockers m ss = (id : ℤ) → lookup id m ≡ blocker_of id ss

lookup-insert_else :
    (k b id : ℤ) (m : Map ℤ ℤ)
    → lookup id (insert k b m) ≡ or_else (if same_id k id then some b else none) (lookup id m)
lookup-insert_else k b id m = elim (key-cases k id) [
  | inl same ↦
      let hit = (same_id_iff k id).1 same in
      rw hit (subst (λ j. lookup j (insert k b m) ≡ some b) same (lookup-insert_same k b m))
  | inr other ↦
      let miss : same_id k id ≡ false = same-false k id other in
      rw miss (lookup-insert_other id k b m (λ e. other (sym e)))
]

lookup-blocker_map :
    (id : ℤ) (ss : List Session) (m : Map ℤ ℤ)
    → lookup id (blocker_map ss m) ≡ or_else (blocker_of id ss) (lookup id m)
unfolding blocker_map
lookup-blocker_map id [] m = refl
lookup-blocker_map id (s ∷ ss) m = elim (Bool-cases (same_id s.blocker_id (pos 0))) [
  | inl free ↦
      rw free
        (lookup-blocker_map id ss m ∙ sym (or_else_assoc (blocker_of id ss) none (lookup id m)))
  | inr blocked ↦ rw blocked (
      lookup-blocker_map id ss (insert s.session_id s.blocker_id m)
      ∙ ap (or_else (blocker_of id ss)) (lookup-insert_else s.session_id s.blocker_id id m)
      ∙ sym (
          or_else_assoc (blocker_of id ss)
            (if same_id s.session_id id then some s.blocker_id else none) (lookup id m)))
]

else_none : (o : Option ℤ) → or_else o none ≡ o
else_none none = refl
else_none (some b) = refl

pub blocker_map-HasBlockers : (ss : List Session) → HasBlockers (blocker_map ss []) ss
unfolding lookup
blocker_map-HasBlockers ss id = lookup-blocker_map id ss [] ∙ else_none (blocker_of id ss)

-- The path of a session: its parents, the last of them in front
abbrev pub path_text : List ℤ → Text
path_text [] = []
path_text (v ∷ vs) = path_text vs ++ (codes "/" ++ id_text v)

path_text-last :
    (vs : List ℤ) (v : ℤ) → path_text (vs ++ v ∷ []) ≡ codes "/" ++ id_text v ++ path_text vs
path_text-last [] v = sym (append-nil (codes "/" ++ id_text v))
path_text-last (w ∷ vs) v =
    ap (λ t. t ++ (codes "/" ++ id_text w)) (path_text-last vs v)
    ∙ append_assoc (codes "/" ++ id_text v) (path_text vs) (codes "/" ++ id_text w)

abbrev pub HasPath : Blocking → Type 0
HasPath b = b.path ≡ path_text b.parents

the_answer :
    (o : Option Blocking) (r b : Blocking) → o ≡ some r → o ≡ some b → HasPath r → HasPath b
the_answer o r b e q h = subst HasPath (ap (λ x. elim x [ some y ↦ y | none ↦ r ]) (sym e ∙ q)) h

pub head_blocker-HasPath :
    (calls : ℕ) (id : ℤ) (m : Map ℤ ℤ) (p : List ℤ) (path : Text) (b : Blocking)
    → head_blocker calls id m p path ≡ some b
    → path ≡ path_text p
    → HasPath b
unfolding head_blocker
head_blocker-HasPath zero id m p path b e h = absurd (cc e)
head_blocker-HasPath (suc calls) id m p path b e h =
    let p' = p ++ id ∷ [] in
    let path' = codes "/" ++ id_text id ++ path in
    let h' : path' ≡ path_text p' =
      ap (λ t. codes "/" ++ id_text id ++ t) h ∙ sym (path_text-last p id) in
    let rest = λ (bid : ℤ). head_blocker-HasPath calls bid m p' path' b in
    elim (Bool-cases (contains p id)) [
      | inl back ↦
          let r : Blocking = record { head = id; parents = p; path = path } in
          the_answer (head_blocker (suc calls) id m p path) r b (rw (head_blocker, back) refl) e h
      | inr new ↦ elim (Option-cases (lookup id m)) [
        | inl last ↦
            let r : Blocking = record { head = id; parents = p'; path = path' } in
            the_answer (head_blocker (suc calls) id m p path) r b
              (rw (head_blocker, new) (rw last refl)) e h'
        | inr (bid, more) ↦
            let goes : head_blocker (suc calls) id m p path ≡ head_blocker calls bid m p' path' =
              rw (head_blocker, new) (rw more refl) in
            rest bid (sym goes ∙ e) h'
      ]
    ]
