-- ===== src/Waits/Mapping.antt =====
-- internal/waitmap/waitmap.go: the groups that waits are mapped to.
use isitsql.Common.{Bool, false, none, some, [], Text}
use isitsql.Maps.{Map, lookup, text_key}

pub record WaitMap : Type 0 where
  pub mapped_to : Text
  pub excluded : Bool

-- WaitMapping.Lookup: a wait that is not in the map has an empty WaitMap.
unfoldable pub lookup_wait : Map Text WaitMap → Text → WaitMap
unfolding lookup
lookup_wait mappings wait = elim (lookup wait mappings) [
  | some wm ↦ wm
  | none ↦ record { mapped_to = []; excluded = false }
]
