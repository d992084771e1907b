-- ===== src/Tags/Tests.antt =====
-- Runs of Merge, and the theorem on concrete lists.
use isitsql.Common.{
  ◌+◌, ◌≡◌, refl, codes, text_eq, Option, some, none, List, [], ◌∷◌, Text, map, ◌&&◌, leb,
  if◌then◌else◌,
}
use isitsql.Tags.{merge}
use isitsql.Tags.Laws.{has, IsRising, mentions, merge-IsRising}

-- strings.ToLower on ASCII
abbrev ascii_lower : Text → Text
ascii_lower t = map (λ c. if leb 65 c && leb c 90 then c + 32 else c) t

abbrev src : List (Option (List Text))
src =
    none
    ∷ some (codes "c" ∷ [])
    ∷ some (codes "b" ∷ codes "a" ∷ [])
    ∷ none
    ∷ some (codes "A" ∷ [])
    ∷ []

merge-IsRising_example :
    IsRising (merge ascii_lower src)
    × ((t : Text) → has t (merge ascii_lower src) ≡ mentions ascii_lower t src)
merge-IsRising_example = merge-IsRising ascii_lower src

merge_run : merge ascii_lower src ≡ codes "a" ∷ codes "b" ∷ codes "c" ∷ []
unfolding merge text_eq
merge_run = refl
