-- ===== src/AvailabilityGroups/Calls.antt =====
-- internal/hadr/ag_map.go: a sequence of calls of the map of groups, and what it means for one group.
use isitsql.Common.{
  ℕ, ◌≡◌, refl, sym, ap, ap₂, ◌∙◌, subst, inl, inr, Bool, true, false, Option, none, some, List, [],
  ◌∷◌, Text, text_eq, if◌then◌else◌, Bool-cases, Option-cases,
}
use isitsql.Maps.{lookup, insert, text_key}
use isitsql.Maps.Laws.{IsMap, insert-IsMap}
use isitsql.AvailabilityGroups.{
  Latency, Ag, AgMap, new_ag_map, set_display_name, is_stale, expire, set_group, set_latencies,
  same_names, set_ag_names, get_group,
}
use isitsql.AvailabilityGroups.Lookups.{
  fresh, with_latencies, lookup-expire, expire-IsMap, lookup-insert_if, lookup-set_latencies,
  set_latencies-names, set_latencies-IsMap,
}

pub data Call : Type 0 where
  set_call : ℕ → Text → Ag → Call
  latencies_call : Text → List Latency → Call
  names_call : List (List Text) → Call

-- The time of the last call of Set, or the zero time
abbrev pub last_set : List Call → ℕ → ℕ
last_set [] now = now
last_set (set_call t key ag ∷ calls) now = last_set calls t
last_set (latencies_call key ls ∷ calls) now = last_set calls now
last_set (names_call names ∷ calls) now = last_set calls now

fresh-IsYoung :
    (now : ℕ) (o : Option Ag) (ag : Ag) → fresh now o ≡ some ag → is_stale now ag ≡ false
fresh-IsYoung now none ag e = absurd (cc e)
fresh-IsYoung now (some v) ag e = elim (Bool-cases (is_stale now v)) [
  | inl stale ↦
      let gone : none ≡ some ag = sym (ap (λ c. if c then none else some v) stale) ∙ e in
      absurd (cc gone)
  | inr young ↦
      let same : some v ≡ some ag = sym (ap (λ c. if c then none else some v) young) ∙ e in
      ap (is_stale now) (ap (λ o. elim o [ some a ↦ a | none ↦ v ]) (sym same)) ∙ young
]

with_latencies-IsYoung :
    (now : ℕ) (key k : Text) (ls : List Latency) (o : Option Ag)
    → ((ag : Ag) → o ≡ some ag → is_stale now ag ≡ false)
    → (ag : Ag) → (if text_eq key k then with_latencies ls o else o) ≡ some ag
    → is_stale now ag ≡ false
with_latencies-IsYoung now key k ls o h ag e = elim (Bool-cases (text_eq key k)) [
  | inr miss ↦ h ag (sym (ap (λ c. if c then with_latencies ls o else o) miss) ∙ e)
  | inl hit ↦
      let q = sym (ap (λ c. if c then with_latencies ls o else o) hit) ∙ e in
      elim (Option-cases o) [
        | inl gone ↦ absurd (cc (q, ap (with_latencies ls) gone))
        | inr (v, known) ↦
            let same : some (record v { latencies = ls }) ≡ some ag =
              sym (ap (with_latencies ls) known) ∙ q in
            ap (λ p. elim p [ some a ↦ is_stale now a | none ↦ true ]) (sym same) ∙ h v known
      ]
]

module _ (equal_fold : Text → Text → Bool) (sort : List (List Text) → List (List Text)) where
  unfoldable pub call_all : List Call → AgMap → AgMap
  unfolding set_group set_latencies set_ag_names
  call_all [] m = m
  call_all (set_call now key ag ∷ calls) m = call_all calls (set_group equal_fold now key ag m)
  call_all (latencies_call key ls ∷ calls) m = call_all calls (set_latencies key ls m)
  call_all (names_call names ∷ calls) m = call_all calls (set_ag_names sort names m).1

  -- What a sequence of calls means for one group, with the names of the map: each Set gives the group anew or
  -- lets it grow older.
  abbrev pub group_after : Text → List Call → List (List Text) → Option Ag → Option Ag
  group_after k [] names group = group
  group_after k (set_call now key ag ∷ calls) names group =
      group_after k calls names
        (fresh now (if text_eq key k then some (set_display_name equal_fold names ag) else group))
  group_after k (latencies_call key ls ∷ calls) names group =
      group_after k calls names (if text_eq key k then with_latencies ls group else group)
  group_after k (names_call ns ∷ calls) names group =
      group_after k calls (if same_names names (sort ns) then names else sort ns) group

  set_ag_names-groups :
      (ns : List (List Text)) (m : AgMap) → (set_ag_names sort ns m).1.groups ≡ m.groups
  unfolding set_ag_names
  set_ag_names-groups ns m = elim (Bool-cases (same_names m.names (sort ns))) [
    | inl same ↦ rw (set_ag_names, same) refl
    | inr new ↦ rw (set_ag_names, new) refl
  ]

  set_ag_names-names :
      (ns : List (List Text)) (m : AgMap)
      → (set_ag_names sort ns m).1.names
        ≡ (if same_names m.names (sort ns) then m.names else sort ns)
  unfolding set_ag_names
  set_ag_names-names ns m = elim (Bool-cases (same_names m.names (sort ns))) [
    | inl same ↦ rw (set_ag_names, same) refl
    | inr new ↦ rw (set_ag_names, new) refl
  ]

  get_group-from :
      (k : Text) (calls : List Call) (m : AgMap)
      → IsMap m.groups
      → get_group k (call_all calls m) ≡ group_after k calls m.names (get_group k m)
  unfolding call_all get_group
  get_group-from k [] m h = refl
  get_group-from k (set_call now key ag ∷ calls) m h =
      let ag' = set_display_name equal_fold m.names ag in
      let next : AgMap = record m { groups = expire now (insert key ag' m.groups) } in
      let once = insert-IsMap key ag' m.groups h in
      let read =
        lookup-expire now k (insert key ag' m.groups) once
        ∙ ap (fresh now) (lookup-insert_if key k ag' m.groups) in
      unfold set_group in
      (get_group-from k calls next (expire-IsMap now (insert key ag' m.groups) once)
        ∙ ap (group_after k calls m.names) read)
  get_group-from k (latencies_call key ls ∷ calls) m h =
      let next = set_latencies key ls m in
      get_group-from k calls next (set_latencies-IsMap key ls m h)
      ∙ ap₂ (group_after k calls) (set_latencies-names key ls m) (lookup-set_latencies key k ls m)
  get_group-from k (names_call ns ∷ calls) m h =
      let next = (set_ag_names sort ns m).1 in
      let same = set_ag_names-groups ns m in
      get_group-from k calls next (subst IsMap (sym same) h)
      ∙ ap₂ (group_after k calls) (set_ag_names-names ns m) (ap (lookup k) same)

  -- What is left of a group was not stale at the last Set.
  abbrev IsYoung : ℕ → Option Ag → Type 0
  IsYoung now o = (ag : Ag) → o ≡ some ag → is_stale now ag ≡ false

  group_after-IsYoung :
      (k : Text) (calls : List Call) (now : ℕ) (names : List (List Text)) (group : Option Ag)
      → IsYoung now group
      → IsYoung (last_set calls now) (group_after k calls names group)
  group_after-IsYoung k [] now names group h = h
  group_after-IsYoung k (set_call t key ag ∷ calls) now names group h =
      group_after-IsYoung k calls t names _ (
        fresh-IsYoung t
          (if text_eq key k then some (set_display_name equal_fold names ag) else group))
  group_after-IsYoung k (latencies_call key ls ∷ calls) now names group h =
      group_after-IsYoung k calls now names _ (with_latencies-IsYoung now key k ls group h)
  group_after-IsYoung k (names_call ns ∷ calls) now names group h =
      group_after-IsYoung k calls now _ group h

  -- After any sequence of calls on a new map, the map has of each key what the calls mean for it alone: the group
  -- of the last Set for the key, with the display name by the names of then, and with the latencies that were
  -- set after, as long as no Set, of any key, found that it was polled more than five minutes before; and no
  -- group of the map was polled more than five minutes before the last Set.
  pub get_group-call_all :
      (k : Text) (calls : List Call)
      → (get_group k (call_all calls new_ag_map) ≡ group_after k calls [] none)
        × ((ag : Ag)
            → get_group k (call_all calls new_ag_map) ≡ some ag
            → is_stale (last_set calls 0) ag ≡ false)
  unfolding get_group
  get_group-call_all k calls =
      let same = get_group-from k calls new_ag_map tt in
      (same, λ ag e. group_after-IsYoung k calls 0 [] none (λ a q. absurd (cc q)) ag (sym same ∙ e))
