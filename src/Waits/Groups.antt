-- ===== src/Waits/Groups.antt =====
-- internal/waitmap/waitmap.go: the mapping of waits to groups, as it is read from a file, and the groups of the
-- waits that were polled. The reader of the rows is outside: what it answers, row by row, is given.
-- strings.ToUpper is a parameter.
pub mod Laws
use isitsql.Common.{
  ℕ, Bool, true, false, Option, none, some, List, [], ◌∷◌, Text, is_empty, ltb, if◌then◌else◌,
}
use isitsql.Common.Int.{ℤ, pos_part}
use isitsql.Maps.{Map, lookup, insert, text_key}
use isitsql.Waits.Mapping.{WaitMap}
use isitsql.Waits.Box.{add_to}

-- The wait and its times are left out; the name is the key of the map.
pub record Wait : Type 0 where
  pub wait_time_delta : ℤ

-- What reader.Read answers before the end of the file: a record has at least one field.
pub data Row : Type 0 where
  bad_row : Row
  fields : Text → List Text → Row

abbrev pub wait_group : List Text → Text
wait_group [] = []
wait_group (group ∷ more) = group

abbrev pub wait_map : Text → WaitMap
wait_map group = record { mapped_to = group; excluded = is_empty group }

-- The loop of ReadWaitMapping
unfoldable pub read_wait_mapping : (Text → Text) → List Row → Map Text WaitMap → Map Text WaitMap
unfolding insert
read_wait_mapping to_upper [] mappings = mappings
read_wait_mapping to_upper (bad_row ∷ rows) mappings = read_wait_mapping to_upper rows mappings
read_wait_mapping to_upper (fields name more ∷ rows) mappings =
    read_wait_mapping to_upper rows (insert (to_upper name) (wait_map (wait_group more)) mappings)

-- `mapTo`
abbrev pub map_to : Map Text WaitMap → Text → Text
map_to mappings key = elim (lookup key mappings) [
  | none ↦ key
  | some wm ↦ if wm.excluded then [] else wm.mapped_to
]

-- One round of the loop over the waits
abbrev pub add_wait : Map Text WaitMap → Text → ℤ → Map Text ℕ → Map Text ℕ
add_wait mappings key delta summary =
    if ltb 0 (pos_part delta)
    then (if is_empty (map_to mappings key)
        then summary
        else add_to (map_to mappings key) (pos_part delta) summary)
    else summary

abbrev pub add_all : Map Text WaitMap → Map Text Wait → Map Text ℕ → Map Text ℕ
add_all mappings [] summary = summary
add_all mappings ((key, value) ∷ waits) summary =
    add_all mappings waits (add_wait mappings key value.wait_time_delta summary)

-- SetWaitGroups: the WaitSummary of the waits
unfoldable pub set_wait_groups : Map Text WaitMap → Map Text Wait → Map Text ℕ
unfolding lookup insert
set_wait_groups mappings waits = add_all mappings waits []
