-- ===== src/Connections/Names.antt =====
-- internal/c2/config_map.go: the loop over the names of availability groups.
use isitsql.Common.{
  ◌+◌, ◌≡◌, refl, ap, ◌∙◌, inl, inr, Option-cases, Option, none, some, List, [], ◌∷◌, ◌++◌, length,
  length-append, Text, if◌then◌else◌, arith,
}
use isitsql.Maps.{Map, lookup, insert, text_key}
use isitsql.Maps.First.{
  or_first, or_first_assoc, or_first-none, length-insert_new, lookup-insert_new, or_first-known,
}
use isitsql.Connections.{
  AgName, AgIdentifier, group_key, same_group, Message, duplicate_ag, add_ag_names,
}

abbrev pub group_of : AgName → AgIdentifier
group_of ag = record { domain = ag.domain; name = ag.name }

-- The display name of the first entry for a group
abbrev pub first_display : AgIdentifier → List AgName → Option Text
first_display k [] = none
first_display k (ag ∷ ags) =
    or_first (if same_group (group_of ag) k then some ag.display_name else none)
      (first_display k ags)

-- One round of the loop over the names, by what it finds
add_ag_names-known :
    (ag : AgName) (ags : List AgName) (agm : Map AgIdentifier Text) (msgs : List Message)
    (display : Text)
    → lookup (group_of ag) agm ≡ some display
    → add_ag_names (ag ∷ ags) (agm, msgs)
      ≡ add_ag_names ags (agm, msgs ++ duplicate_ag (group_of ag) ∷ [])
unfolding add_ag_names
add_ag_names-known ag ags agm msgs display h = rw (add_ag_names, h) refl

add_ag_names-new :
    (ag : AgName) (ags : List AgName) (agm : Map AgIdentifier Text) (msgs : List Message)
    → lookup (group_of ag) agm ≡ none
    → add_ag_names (ag ∷ ags) (agm, msgs)
      ≡ add_ag_names ags (insert (group_of ag) ag.display_name agm, msgs)
unfolding add_ag_names
add_ag_names-new ag ags agm msgs h = rw (add_ag_names, h) refl

pub lookup-add_ag_names :
    (k : AgIdentifier) (ags : List AgName) (agm : Map AgIdentifier Text) (msgs : List Message)
    → lookup k (add_ag_names ags (agm, msgs)).0 ≡ or_first (lookup k agm) (first_display k ags)
unfolding add_ag_names
lookup-add_ag_names k [] agm msgs = or_first-none (lookup k agm)
lookup-add_ag_names k (ag ∷ ags) agm msgs =
    let here : Option Text = if same_group (group_of ag) k then some ag.display_name else none in
    let rest = first_display k ags in
    elim (Option-cases (lookup (group_of ag) agm)) [
      | inr (display, known) ↦
          ap (λ s. lookup k s.0) (add_ag_names-known ag ags agm msgs display known)
          ∙ (lookup-add_ag_names k ags agm (msgs ++ duplicate_ag (group_of ag) ∷ [])
              ∙ ap (λ o. or_first o rest)
                  (or_first-known (group_of ag) k ag.display_name display agm known)
              ∙ or_first_assoc (lookup k agm) here rest)
      | inl new ↦
          ap (λ s. lookup k s.0) (add_ag_names-new ag ags agm msgs new)
          ∙ (lookup-add_ag_names k ags (insert (group_of ag) ag.display_name agm) msgs
              ∙ ap (λ o. or_first o rest)
                  (lookup-insert_new (group_of ag) k ag.display_name agm new)
              ∙ or_first_assoc (lookup k agm) here rest)
    ]

pub length-add_ag_names :
    (ags : List AgName) (agm : Map AgIdentifier Text) (msgs : List Message)
    → length (add_ag_names ags (agm, msgs)).0 + length (add_ag_names ags (agm, msgs)).1
      ≡ length agm + length msgs + length ags
unfolding add_ag_names
length-add_ag_names [] agm msgs = omega arith
length-add_ag_names (ag ∷ ags) agm msgs = elim (Option-cases (lookup (group_of ag) agm)) [
  | inr (display, known) ↦
      let msgs' = msgs ++ duplicate_ag (group_of ag) ∷ [] in
      let rest = length-add_ag_names ags agm msgs' in
      let one = length-append msgs (duplicate_ag (group_of ag) ∷ []) in
      rw (add_ag_names-known ag ags agm msgs display known) (omega arith)
  | inl new ↦
      let rest = length-add_ag_names ags (insert (group_of ag) ag.display_name agm) msgs in
      let one = length-insert_new (group_of ag) ag.display_name agm new in
      rw (add_ag_names-new ag ags agm msgs new) (omega arith)
]
