-- ===== src/Tags.antt =====
-- internal/tags/tags.go: the tags of several lists in one list. `lower` is strings.ToLower. A Go string is
-- the list of its bytes, and strings are ordered byte by byte.
pub mod Laws
mod Tests
use isitsql.Common.{Option, none, some, List, [], ◌∷◌, Text, map, text_ltb, if◌then◌else◌}
use isitsql.Maps.{Map, insert, text_key}

-- slices.Sort: the strings in ascending order, here by insertion. Which of equal strings comes first cannot be
-- seen.
unfoldable pub insert_tag : Text → List Text → List Text
unfolding text_ltb
insert_tag t [] = t ∷ []
insert_tag t (d ∷ ds) = let rest = insert_tag t ds in if text_ltb d t then d ∷ rest else t ∷ d ∷ ds

unfoldable pub sort_tags : List Text → List Text
unfolding insert_tag
sort_tags [] = []
sort_tags (t ∷ ts) = insert_tag t (sort_tags ts)

module _ (lower : Text → Text) where
  -- The inner loop
  unfoldable pub add_tags : List Text → Map Text Text → Map Text Text
  unfolding insert
  add_tags [] all = all
  add_tags (str ∷ array) all = add_tags array (insert (lower str) [] all)

  -- The outer loop, in which `none` is a nil pointer
  unfoldable pub add_arrays : List (Option (List Text)) → Map Text Text → Map Text Text
  unfolding add_tags
  add_arrays [] all = all
  add_arrays (none ∷ src) all = add_arrays src all
  add_arrays (some array ∷ src) all = add_arrays src (add_tags array all)

  unfoldable pub merge : List (Option (List Text)) → List Text
  unfolding add_arrays sort_tags
  merge src = sort_tags (map (λ entry. entry.0) (add_arrays src []))
