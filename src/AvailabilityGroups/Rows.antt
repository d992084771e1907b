-- ===== src/AvailabilityGroups/Rows.antt =====
-- internal/hadr/latency.go: how the rows of the query of latencies get to the groups.
use isitsql.Common.{
  ◌≡◌, refl, sym, ap, ◌∙◌, subst, inl, inr, false, Option, none, some, List, [], ◌∷◌, ◌++◌,
  append_assoc, Text, text_eq, text_eq_iff, is_empty, filter, Bool-cases, Option-cases,
}
use isitsql.Maps.{Map, lookup, insert, text_key}
use isitsql.Maps.Laws.{
  IsMap, key-cases, same-false, lookup-insert_same, lookup-insert_other, insert-IsMap,
}
use isitsql.AvailabilityGroups.{
  Latency, Ag, AgMap, set_latencies, group_latencies, set_all_latencies,
}
use isitsql.AvailabilityGroups.Lookups.{with_latencies, lookup-set_latencies}

-- The rows of a group
abbrev pub rows_of : Text → List Latency → List Latency
rows_of g rows = filter (λ l. text_eq l.group_id g) rows

-- A list of the map with more rows
abbrev pub joined : Option (List Latency) → List Latency → Option (List Latency)
joined o [] = o
joined none (l ∷ ls) = some (l ∷ ls)
joined (some ks) (l ∷ ls) = some (ks ++ l ∷ ls)

pub joined-some : (ls : List Latency) → is_empty ls ≡ false → joined none ls ≡ some ls
joined-some [] h = absurd (cc h)
joined-some (l ∷ ls) h = refl

abbrev with_row : Option (List Latency) → Latency → List Latency
with_row none l = l ∷ []
with_row (some ks) l = ks ++ l ∷ []

joined-cons :
    (o : Option (List Latency)) (l : Latency) (ls : List Latency)
    → joined (some (with_row o l)) ls ≡ joined o (l ∷ ls)
joined-cons none l [] = refl
joined-cons none l (k ∷ ls) = refl
joined-cons (some ks) l [] = refl
joined-cons (some ks) l (k ∷ ls) = ap some (append_assoc ks (l ∷ []) (k ∷ ls))

-- One round of the loop over the rows
abbrev put : Latency → Map Text (List Latency) → Map Text (List Latency)
put l agl = insert l.group_id (with_row (lookup l.group_id agl) l) agl

group_latencies-cons :
    (l : Latency) (ls : List Latency) (agl : Map Text (List Latency))
    → group_latencies (l ∷ ls) agl ≡ group_latencies ls (put l agl)
unfolding group_latencies
group_latencies-cons l ls agl = elim (Option-cases (lookup l.group_id agl)) [
  | inl e ↦ rw (group_latencies, put, e) refl
  | inr (ks, e) ↦ rw (group_latencies, put, e) refl
]

pub lookup-group_latencies :
    (g : Text) (rows : List Latency) (agl : Map Text (List Latency))
    → lookup g (group_latencies rows agl) ≡ joined (lookup g agl) (rows_of g rows)
unfolding group_latencies
lookup-group_latencies g [] agl = refl
lookup-group_latencies g (l ∷ ls) agl =
    ap (lookup g) (group_latencies-cons l ls agl)
    ∙ lookup-group_latencies g ls (put l agl)
    ∙ elim (key-cases l.group_id g) [
      | inl same ↦
          let hit = (text_eq_iff l.group_id g).1 same in
          let here : lookup g (put l agl) ≡ some (with_row (lookup g agl) l) =
            subst (λ j. lookup j (put l agl) ≡ some (with_row (lookup j agl) l)) same
              (lookup-insert_same l.group_id _ agl) in
          rw (filter, hit)
            (ap (λ o. joined o (rows_of g ls)) here ∙ joined-cons (lookup g agl) l (rows_of g ls))
      | inr other ↦
          let miss : text_eq l.group_id g ≡ false = same-false l.group_id g other in
          rw (filter, miss)
            (ap (λ o. joined o (rows_of g ls))
              (lookup-insert_other g l.group_id _ agl (λ e. other (sym e))))
    ]

pub group_latencies-IsMap :
    (rows : List Latency) (agl : Map Text (List Latency))
    → IsMap agl
    → IsMap (group_latencies rows agl)
unfolding group_latencies
group_latencies-IsMap [] agl h = h
group_latencies-IsMap (l ∷ ls) agl h =
    subst IsMap (sym (group_latencies-cons l ls agl))
      (group_latencies-IsMap ls (put l agl) (insert-IsMap l.group_id _ agl h))

abbrev pub latest : Option (List Latency) → Option Ag → Option Ag
latest o group = elim o [ some ls ↦ with_latencies ls group | none ↦ group ]

pub lookup-set_all_latencies :
    (g : Text) (agl : Map Text (List Latency)) (m : AgMap)
    → IsMap agl
    → lookup g (set_all_latencies agl m).groups ≡ latest (lookup g agl) (lookup g m.groups)
unfolding lookup
lookup-set_all_latencies g [] m h = refl
lookup-set_all_latencies g ((id, ls) ∷ agl) m (once, h) =
    lookup-set_all_latencies g agl (set_latencies id ls m) h
    ∙ ap (latest (lookup g agl)) (lookup-set_latencies id g ls m)
    ∙ elim (Bool-cases (text_eq id g)) [
      | inl hit ↦
          let same = (text_eq_iff id g).0 hit in
          let absent : lookup g agl ≡ none = ap (λ j. lookup j agl) (sym same) ∙ once in
          rw hit (rw absent refl)
      | inr miss ↦ rw miss refl
    ]
