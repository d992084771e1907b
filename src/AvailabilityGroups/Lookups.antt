-- ===== src/AvailabilityGroups/Lookups.antt =====
-- internal/hadr/ag_map.go: what an operation of the map of groups leaves of one group.
use isitsql.Common.{
  ℕ, ◌≡◌, refl, sym, ap, ◌∙◌, subst, inl, inr, false, Option, none, some, List, [], ◌∷◌, Text,
  text_eq, text_eq_iff, if◌then◌else◌, Bool-cases, Option-cases,
}
use isitsql.Maps.{Map, lookup, insert, text_key}
use isitsql.Maps.Laws.{
  IsMap, key-cases, same-false, lookup-insert_same, lookup-insert_other, insert-IsMap,
}
use isitsql.AvailabilityGroups.{Latency, Ag, AgMap, is_stale, expire, set_latencies}

abbrev pub fresh : ℕ → Option Ag → Option Ag
fresh now o = elim o [ some ag ↦ (if is_stale now ag then none else some ag) | none ↦ none ]

abbrev pub with_latencies : List Latency → Option Ag → Option Ag
with_latencies ls o = elim o [ some ag ↦ some (record ag { latencies = ls }) | none ↦ none ]

pub lookup-expire :
    (now : ℕ) (k : Text) (groups : Map Text Ag)
    → IsMap groups
    → lookup k (expire now groups) ≡ fresh now (lookup k groups)
unfolding lookup
lookup-expire now k [] h = refl
lookup-expire now k ((j, v) ∷ groups) (once, h) = elim (Bool-cases (text_eq j k)) [
  | inl hit ↦
      let same = (text_eq_iff j k).0 hit in
      let rest : lookup k (expire now groups) ≡ none =
        lookup-expire now k groups h
        ∙ ap (fresh now) (ap (λ i. lookup i groups) (sym same) ∙ once) in
      elim (Bool-cases (is_stale now v)) [
        | inl stale ↦ rw (expire, stale) (rw (hit, stale) rest)
        | inr young ↦ rw (expire, young) (rw (hit, young) refl)
      ]
  | inr miss ↦ elim (Bool-cases (is_stale now v)) [
    | inl stale ↦ rw (expire, stale) (rw miss (lookup-expire now k groups h))
    | inr young ↦ rw (expire, young) (rw miss (lookup-expire now k groups h))
  ]
]

pub expire-IsMap : (now : ℕ) (groups : Map Text Ag) → IsMap groups → IsMap (expire now groups)
expire-IsMap now [] h = tt
expire-IsMap now ((j, v) ∷ groups) (once, h) = elim (Bool-cases (is_stale now v)) [
  | inl stale ↦ rw (expire, stale) (expire-IsMap now groups h)
  | inr young ↦
      rw (expire, young)
        (lookup-expire now j groups h ∙ ap (fresh now) once, expire-IsMap now groups h)
]

pub lookup-insert_if :
    (key k : Text) (ag : Ag) (m : Map Text Ag)
    → lookup k (insert key ag m) ≡ (if text_eq key k then some ag else lookup k m)
lookup-insert_if key k ag m = elim (key-cases key k) [
  | inl same ↦
      rw ((text_eq_iff key k).1 same)
        (subst (λ j. lookup j (insert key ag m) ≡ some ag) same (lookup-insert_same key ag m))
  | inr other ↦
      let miss : text_eq key k ≡ false = same-false key k other in
      rw miss (lookup-insert_other k key ag m (λ e. other (sym e)))
]

pub lookup-set_latencies :
    (key k : Text) (ls : List Latency) (m : AgMap)
    → lookup k (set_latencies key ls m).groups
      ≡ (if text_eq key k then with_latencies ls (lookup k m.groups) else lookup k m.groups)
unfolding set_latencies
lookup-set_latencies key k ls m = elim (Option-cases (lookup key m.groups)) [
  | inl unknown ↦ elim (key-cases key k) [
    | inl same ↦
        let e : lookup k m.groups ≡ none = ap (λ j. lookup j m.groups) (sym same) ∙ unknown in
        rw (set_latencies, unknown) (rw ((text_eq_iff key k).1 same, e) refl)
    | inr other ↦
        let miss : text_eq key k ≡ false = same-false key k other in
        rw (set_latencies, unknown) (rw miss refl)
  ]
  | inr (ag, known) ↦
      rw (set_latencies, known)
        (lookup-insert_if key k (record ag { latencies = ls }) m.groups ∙ elim (key-cases key k) [
          | inl same ↦
              let e : lookup k m.groups ≡ some ag =
                ap (λ j. lookup j m.groups) (sym same) ∙ known in
              rw ((text_eq_iff key k).1 same, e) refl
          | inr other ↦ let miss : text_eq key k ≡ false = same-false key k other in rw miss refl
        ])
]

pub set_latencies-names :
    (key : Text) (ls : List Latency) (m : AgMap) → (set_latencies key ls m).names ≡ m.names
unfolding set_latencies
set_latencies-names key ls m = elim (Option-cases (lookup key m.groups)) [
  | inl unknown ↦ rw (set_latencies, unknown) refl
  | inr (ag, known) ↦ rw (set_latencies, known) refl
]

pub set_latencies-IsMap :
    (key : Text) (ls : List Latency) (m : AgMap)
    → IsMap m.groups
    → IsMap (set_latencies key ls m).groups
unfolding set_latencies
set_latencies-IsMap key ls m h = elim (Option-cases (lookup key m.groups)) [
  | inl unknown ↦ rw (set_latencies, unknown) h
  | inr (ag, known) ↦
      rw (set_latencies, known) (insert-IsMap key (record ag { latencies = ls }) m.groups h)
]
