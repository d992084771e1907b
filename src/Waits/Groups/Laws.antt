-- ===== src/Waits/Groups/Laws.antt =====
-- internal/waitmap/waitmap.go: what the rows of a file make of the mapping, and what the waits of a group add up to.
use isitsql.Common.{
  ℕ, ◌+◌, ◌≡◌, refl, sym, ap, ◌∙◌, inl, inr, Bool, true, false, not, ◌&&◌, Option, none, some, List,
  [], ◌∷◌, Text, is_empty, text_eq, text_eq_iff, All, ltb, if◌then◌else◌, Bool-cases, Option-cases,
  arith, subst,
}
use isitsql.Common.Int.{ℤ, pos_part}
use isitsql.Maps.{Map, lookup, insert, text_key}
use isitsql.Maps.Laws.{key-cases, same-false, lookup-insert_same, lookup-insert_other}
use isitsql.Waits.Mapping.{WaitMap, lookup_wait}
use isitsql.Waits.Box.{group_of}
use isitsql.Waits.Box.Laws.{amount, amount-add_to}
use isitsql.Waits.Box.Credit.{counts_for}
use isitsql.Waits.Top.Laws.{nothing_added}
use isitsql.Waits.Groups.{
  Wait, Row, bad_row, fields, wait_group, wait_map, read_wait_mapping, map_to, add_wait, add_all,
  set_wait_groups,
}

abbrev pub or_else : Option WaitMap → Option WaitMap → Option WaitMap
or_else o d = elim o [ some wm ↦ some wm | none ↦ d ]

or_else_assoc : (a b c : Option WaitMap) → or_else (or_else a b) c ≡ or_else a (or_else b c)
or_else_assoc none b c = refl
or_else_assoc (some wm) b c = refl

-- What the fields behind the name say: the first of them is the group, and with none or a blank one the wait is excluded.
abbrev pub row_map : List Text → WaitMap
row_map [] = record { mapped_to = []; excluded = true }
row_map ([] ∷ more) = record { mapped_to = []; excluded = true }
row_map ((c ∷ group) ∷ more) = record { mapped_to = c ∷ group; excluded = false }

wait_map-wait_group : (more : List Text) → wait_map (wait_group more) ≡ row_map more
wait_map-wait_group [] = refl
wait_map-wait_group ([] ∷ more) = refl
wait_map-wait_group ((c ∷ group) ∷ more) = refl

module _ (to_upper : Text → Text) where
  -- What the last row for a wait says of it
  abbrev pub last_row : Text → List Row → Option WaitMap
  last_row key [] = none
  last_row key (bad_row ∷ rows) = last_row key rows
  last_row key (fields name more ∷ rows) =
      or_else (last_row key rows)
        (if text_eq (to_upper name) key then some (row_map more) else none)

  lookup-insert_else :
      (k key : Text) (wm : WaitMap) (m : Map Text WaitMap)
      → lookup key (insert k wm m)
        ≡ or_else (if text_eq k key then some wm else none) (lookup key m)
  lookup-insert_else k key wm m = elim (key-cases k key) [
    | inl same ↦
        let hit = (text_eq_iff k key).1 same in
        rw hit (subst (λ j. lookup j (insert k wm m) ≡ some wm) same (lookup-insert_same k wm m))
    | inr other ↦
        let miss : text_eq k key ≡ false = same-false k key other in
        rw miss (lookup-insert_other key k wm m (λ e. other (sym e)))
  ]

  lookup-read_wait_mapping :
      (rows : List Row) (m : Map Text WaitMap) (key : Text)
      → lookup key (read_wait_mapping to_upper rows m) ≡ or_else (last_row key rows) (lookup key m)
  unfolding read_wait_mapping
  lookup-read_wait_mapping [] m key = refl
  lookup-read_wait_mapping (bad_row ∷ rows) m key = lookup-read_wait_mapping rows m key
  lookup-read_wait_mapping (fields name more ∷ rows) m key =
      let k = to_upper name in
      let wm = wait_map (wait_group more) in
      lookup-read_wait_mapping rows (insert k wm m) key
      ∙ ap (or_else (last_row key rows)) (lookup-insert_else k key wm m)
      ∙ sym (
          or_else_assoc (last_row key rows) (if text_eq k key then some wm else none)
            (lookup key m))
      ∙ ap
          (λ w.
            or_else (or_else (last_row key rows) (if text_eq k key then some w else none))
              (lookup key m))
          (wait_map-wait_group more)

module _ (mappings : Map Text WaitMap) where
  -- The wait is the name g itself, and its entry has no group and is not excluded.
  abbrev pub is_left_out : Text → Text → Bool
  is_left_out g key = elim (lookup key mappings) [
    | none ↦ false
    | some wm ↦ not wm.excluded && (is_empty wm.mapped_to && text_eq key g)
  ]

  -- The group of SetWaitGroups is the one that a Box counts the wait for, but for the waits that are left out.
  map_to-counts_for :
      (g key : Text) (n : ℕ)
      → is_empty key ≡ false
      → (if is_empty (map_to mappings key)
            then 0
            else if text_eq (map_to mappings key) g
            then n
            else 0)
          + (if is_left_out g key then n else 0)
        ≡ (if counts_for mappings g key then n else 0)
  unfolding lookup_wait
  map_to-counts_for g key n name = elim (Option-cases (lookup key mappings)) [
    | inl e ↦ rw (map_to, is_left_out, counts_for, group_of, lookup_wait, e) (rw name (omega arith))
    | inr (wm, e) ↦ elim (Bool-cases wm.excluded) [
      | inl out ↦
          rw (map_to, is_left_out, counts_for, group_of, lookup_wait, e) (rw (name, out) refl)
      | inr counted ↦ elim (Bool-cases (is_empty wm.mapped_to)) [
        | inl blank ↦
            rw (map_to, is_left_out, counts_for, group_of, lookup_wait, e)
              (rw (name, counted) (rw blank (omega arith)))
        | inr group ↦
            rw (map_to, is_left_out, counts_for, group_of, lookup_wait, e)
              (rw (name, counted) (rw group (omega arith)))
      ]
    ]
  ]

module _ (mappings : Map Text WaitMap) where
  -- The positive deltas of the waits that a Box counts for the group g
  abbrev pub group_total : Text → Map Text Wait → ℕ
  group_total g [] = 0
  group_total g ((key, value) ∷ waits) =
      (if counts_for mappings g key then pos_part value.wait_time_delta else 0)
      + group_total g waits

  amount-add_wait :
      (g key : Text) (delta : ℤ) (summary : Map Text ℕ)
      → amount g (add_wait mappings key delta summary)
        ≡ amount g summary
          + (if is_empty (map_to mappings key)
              then 0
              else if text_eq (map_to mappings key) g
              then pos_part delta
              else 0)
  amount-add_wait g key delta summary =
      let group = map_to mappings key in
      let none_added : amount g summary ≡ amount g summary + 0 = omega arith in
      elim (Bool-cases (is_empty group)) [
        | inl out ↦ elim (Bool-cases (ltb 0 (pos_part delta))) [
          | inl rose ↦ rw (add_wait, rose) (rw out none_added)
          | inr fell ↦ rw (add_wait, fell) (rw out none_added)
        ]
        | inr counted ↦ elim (Bool-cases (ltb 0 (pos_part delta))) [
          | inl rose ↦
              rw (add_wait, rose) (rw counted (amount-add_to g group (pos_part delta) summary))
          | inr fell ↦
              rw (add_wait, fell)
                (rw counted
                  (nothing_added (amount g summary) (text_eq group g) (pos_part delta) fell))
        ]
      ]

  -- The positive deltas of the waits that are left out for g
  abbrev pub left_out : Text → Map Text Wait → ℕ
  left_out g [] = 0
  left_out g ((key, value) ∷ waits) =
      (if is_left_out mappings g key then pos_part value.wait_time_delta else 0) + left_out g waits

  amount-add_all :
      (g : Text) (waits : Map Text Wait) (summary : Map Text ℕ)
      → All (λ w. is_empty w.0 ≡ false) waits
      → amount g (add_all mappings waits summary) + left_out g waits
        ≡ amount g summary + group_total g waits
  amount-add_all g [] summary names = omega arith
  amount-add_all g ((key, value) ∷ waits) summary (name, names) =
      let delta = value.wait_time_delta in
      let rest = amount-add_all g waits (add_wait mappings key delta summary) names in
      let first = amount-add_wait g key delta summary in
      let same = map_to-counts_for mappings g key (pos_part delta) name in omega arith

-- Whatever the mapping was before: after the rows of a file are read, a wait is mapped as the last row for it says, or
-- else as before. And the summary of any waits with names, mapped by it, has for each group the positive
-- deltas of the waits that a Box counts for the group, less those of the waits that have the name of the group
-- themselves and an entry that has no group and is not excluded.
pub set_wait_groups-read_wait_mapping :
    (to_upper : Text → Text) (rows : List Row) (m : Map Text WaitMap) (waits : Map Text Wait)
    → All (λ w. is_empty w.0 ≡ false) waits
    → let mappings = read_wait_mapping to_upper rows m in
      ((key : Text) → lookup key mappings ≡ or_else (last_row to_upper key rows) (lookup key m))
      × ((g : Text)
          → amount g (set_wait_groups mappings waits) + left_out mappings g waits
            ≡ group_total mappings g waits)
unfolding set_wait_groups
set_wait_groups-read_wait_mapping to_upper rows m waits names =
    let mappings = read_wait_mapping to_upper rows m in
    (
      lookup-read_wait_mapping to_upper rows m,
      λ g. let total = amount-add_all mappings g waits [] names in omega arith,
    )
