-- ===== src/AvailabilityGroups/Latencies.antt =====
-- internal/hadr/latency.go: the latencies of the polled databases, from the rows to the questions about a group.
use isitsql.Common.{
  ℕ, ◌+◌, ◌≡◌, refl, sym, ap, ap₂, ◌∙◌, subst, inl, inr, false, ◌&&◌, some, List, [], ◌∷◌, Text,
  text_eq, text_eq_iff, is_empty, filter, if◌then◌else◌, Bool-cases,
}
use isitsql.Common.Int.{ℤ, pos, pos_part}
use isitsql.Maps.{lookup, text_key}
use isitsql.AvailabilityGroups.{
  Latency, Ag, AgMap, group_latencies, set_latency, get_group, sum_latencies, first_latency,
  primary_latency, secondary_latency,
}
use isitsql.AvailabilityGroups.Rows.{
  rows_of, joined-some, lookup-group_latencies, group_latencies-IsMap, latest,
  lookup-set_all_latencies,
}

abbrev add_latency : Latency → ℕ × ℕ → ℕ × ℕ
add_latency l (send, redo) = (pos_part l.send_queue_kb + send, pos_part l.redo_queue_kb + redo)

sum-rows_of :
    (g database : Text) (rows : List Latency)
    → sum_latencies g database (rows_of g rows) ≡ sum_latencies g database rows
sum-rows_of g database [] = refl
sum-rows_of g database (l ∷ ls) =
    let rest = sum-rows_of g database ls in
    elim (Bool-cases (text_eq l.group_id g)) [
      | inl hit ↦
          rw (filter, hit)
            (rw hit (
              ap (λ p. if text_eq l.group_database_id database then add_latency l p else (p.0, p.1))
                rest))
      | inr miss ↦ rw (filter, miss) rest
    ]

first-rows_of :
    (g replica database : Text) (rows : List Latency)
    → first_latency g replica database (rows_of g rows) ≡ first_latency g replica database rows
first-rows_of g replica database [] = refl
first-rows_of g replica database (l ∷ ls) =
    let rest = first-rows_of g replica database ls in
    elim (Bool-cases (text_eq l.group_id g)) [
      | inl hit ↦
          rw (filter, hit)
            (rw hit (
              ap
                (λ p.
                  if text_eq l.replica_id replica && text_eq l.group_database_id database
                  then (l.send_queue_kb, l.redo_queue_kb)
                  else p)
                rest))
      | inr miss ↦ rw (filter, miss) rest
    ]

-- The row is one of the group and the database.
abbrev pub IsOf : Text → Text → Latency → Type 0
IsOf g database l = (l.group_id ≡ g) × (l.group_database_id ≡ database)

-- What the rows of a group and a database add up to, in the sizes that are positive: the send queues, and the redo queues
pub data AddsUp (g database : Text) : List Latency → ℕ → ℕ → Type 0 where
  no_rows : AddsUp g database [] 0 0
  counted :
      {l : Latency} {ls : List Latency} {send redo : ℕ}
      → IsOf g database l
      → AddsUp g database ls send redo
      → AddsUp g database
          (l ∷ ls)
          (pos_part l.send_queue_kb + send)
          (pos_part l.redo_queue_kb + redo)
  passed :
      {l : Latency} {ls : List Latency} {send redo : ℕ}
      → ¬ IsOf g database l
      → AddsUp g database ls send redo
      → AddsUp g database (l ∷ ls) send redo

-- The row is one of the group, the database and the replica.
abbrev pub IsAt : Text → Text → Text → Latency → Type 0
IsAt g replica database l = IsOf g database l × (l.replica_id ≡ replica)

-- What the first such row says, with its sign, and 0 where there is none
pub data SaysFirst (g replica database : Text) : List Latency → ℤ → ℤ → Type 0 where
  nothing : SaysFirst g replica database [] (pos 0) (pos 0)
  found :
      {l : Latency} {ls : List Latency}
      → IsAt g replica database l
      → SaysFirst g replica database (l ∷ ls) l.send_queue_kb l.redo_queue_kb
  later :
      {l : Latency} {ls : List Latency} {send redo : ℤ}
      → ¬ IsAt g replica database l
      → SaysFirst g replica database ls send redo
      → SaysFirst g replica database (l ∷ ls) send redo

sum_latencies-AddsUp :
    (g database : Text) (rows : List Latency)
    → AddsUp g database rows (sum_latencies g database rows).0 (sum_latencies g database rows).1
sum_latencies-AddsUp g database [] = no_rows
sum_latencies-AddsUp g database (l ∷ ls) =
    let rest = sum_latencies-AddsUp g database ls in
    elim (Bool-cases (text_eq l.group_id g)) [
      | inl group ↦ elim (Bool-cases (text_eq l.group_database_id database)) [
        | inl same ↦ rw group (
            rw same (
              counted
                (
                  (text_eq_iff l.group_id g).0 group,
                  (text_eq_iff l.group_database_id database).0 same,
                )
                rest))
        | inr other ↦ rw group (
            rw other
              (passed (λ (_, d). cc (other, (text_eq_iff l.group_database_id database).1 d)) rest))
      ]
      | inr other ↦ rw other (passed (λ (e, _). cc (other, (text_eq_iff l.group_id g).1 e)) rest)
    ]

first_latency-SaysFirst :
    (g replica database : Text) (rows : List Latency)
    → SaysFirst g replica database rows
        (first_latency g replica database rows).0
        (first_latency g replica database rows).1
first_latency-SaysFirst g replica database [] = nothing
first_latency-SaysFirst g replica database (l ∷ ls) =
    let rest = first_latency-SaysFirst g replica database ls in
    elim (Bool-cases (text_eq l.group_id g)) [
      | inl group ↦ elim (Bool-cases (text_eq l.replica_id replica)) [
        | inl at ↦ elim (Bool-cases (text_eq l.group_database_id database)) [
          | inl same ↦ rw group (
              rw at (
                rw same (
                  found (
                    (
                      (text_eq_iff l.group_id g).0 group,
                      (text_eq_iff l.group_database_id database).0 same,
                    ),
                    (text_eq_iff l.replica_id replica).0 at,
                  ))))
          | inr other ↦ rw group (
              rw at (
                rw other (
                  later (λ ((_, d), _). cc (other, (text_eq_iff l.group_database_id database).1 d))
                    rest)))
        ]
        | inr other ↦
            rw group
              (rw other (later (λ (_, r). cc (other, (text_eq_iff l.replica_id replica).1 r)) rest))
      ]
      | inr other ↦
          rw other (later (λ ((e, _), _). cc (other, (text_eq_iff l.group_id g).1 e)) rest)
    ]

-- The rows of a query of latencies give a group that the map knows the rows of the group, in their order, in
-- place of its latencies, if there is any, and change nothing else of it. The map then answers for a database
-- of such a group the sums over all the rows of the group and the database of the sizes that are positive, of the send
-- queues and of the redo queues, and for a replica what the first of these rows with the replica says, or 0
-- if there is none.
pub set_latency-Answers :
    (rows : List Latency) (m : AgMap) (g replica database : Text) (ag : Ag)
    → get_group g m ≡ some ag
    → is_empty (rows_of g rows) ≡ false
    → let m' = set_latency rows m in
      let (send, redo) = primary_latency g database m' in
      let (replica_send, replica_redo) = secondary_latency g replica database m' in
      (get_group g m' ≡ some (record ag { latencies = rows_of g rows }))
      × AddsUp g database rows send redo
      × SaysFirst g replica database rows replica_send replica_redo
unfolding set_latency get_group primary_latency secondary_latency
set_latency-Answers rows m g replica database ag known any =
    let read : lookup g (set_latency rows m).groups
        ≡ some (record ag { latencies = rows_of g rows }) =
      lookup-set_all_latencies g (group_latencies rows []) m (group_latencies-IsMap rows [] tt)
      ∙ ap₂ latest (lookup-group_latencies g rows [] ∙ joined-some (rows_of g rows) any) known in
    let sums : primary_latency g database (set_latency rows m) ≡ sum_latencies g database rows =
      rw (primary_latency, read) (sum-rows_of g database rows) in
    let says : secondary_latency g replica database (set_latency rows m)
        ≡ first_latency g replica database rows =
      rw (secondary_latency, read) (first-rows_of g replica database rows) in
    (
      read,
      subst (λ p. AddsUp g database rows p.0 p.1) (sym sums) (sum_latencies-AddsUp g database rows),
      subst (λ p. SaysFirst g replica database rows p.0 p.1) (sym says)
          (first_latency-SaysFirst g replica database rows),
    )
