-- ===== src/Connections/Laws.antt =====
-- internal/c2/config_map.go: what makeMap keeps, and what it complains of.
use isitsql.Common.{ℕ, ◌+◌, ◌≡◌, ap, ◌∙◌, Option, none, List, [], ◌∷◌, length, Text, arith}
use isitsql.Maps.{Map, lookup, text_key}
use isitsql.Maps.First.{or_first, or_first_assoc, or_first-none}
use isitsql.Connections.{
  ConnectionFile, Connection, AgIdentifier, group_key, Message, add_instances, add_ag_names,
  add_files, make_map,
}
use isitsql.Connections.Names.{first_display, lookup-add_ag_names, length-add_ag_names}
use isitsql.Connections.Instances.{first_connection, lookup-add_instances, length-add_instances}

module _ (coalesce : Option Text → Text → Text) (lower trim_space : Text → Text) where
  -- The connection of the first instance of the files with the key, if the key is valid
  abbrev pub first_of_files : Text → List ConnectionFile → Option Connection
  first_of_files k [] = none
  first_of_files k (cf ∷ files) =
      or_first (first_connection coalesce lower trim_space k cf.defaults cf.instances)
        (first_of_files k files)

  abbrev pub display_of_files : AgIdentifier → List ConnectionFile → Option Text
  display_of_files k [] = none
  display_of_files k (cf ∷ files) =
      or_first (first_display k cf.ag_names) (display_of_files k files)

  -- How many instances and names the files have
  abbrev pub entries : List ConnectionFile → ℕ
  entries [] = 0
  entries (cf ∷ files) = length cf.instances + length cf.ag_names + entries files

  connections-add_files :
      (k : Text) (files : List ConnectionFile) (cm : Map Text Connection)
      (agm : Map AgIdentifier Text) (msgs : List Message)
      → lookup k (add_files coalesce lower trim_space files cm agm msgs).0
        ≡ or_first (lookup k cm) (first_of_files k files)
  unfolding add_files
  connections-add_files k [] cm agm msgs = or_first-none (lookup k cm)
  connections-add_files k (cf ∷ files) cm agm msgs =
      let s = add_instances coalesce lower trim_space cf.defaults cf.instances (cm, msgs) in
      let t = add_ag_names cf.ag_names (agm, s.1) in
      connections-add_files k files s.0 t.0 t.1
      ∙ ap (λ o. or_first o (first_of_files k files))
          (lookup-add_instances coalesce lower trim_space k cf.defaults cf.instances cm msgs)
      ∙ or_first_assoc (lookup k cm)
          (first_connection coalesce lower trim_space k cf.defaults cf.instances)
          (first_of_files k files)

  ags-add_files :
      (k : AgIdentifier) (files : List ConnectionFile) (cm : Map Text Connection)
      (agm : Map AgIdentifier Text) (msgs : List Message)
      → lookup k (add_files coalesce lower trim_space files cm agm msgs).1
        ≡ or_first (lookup k agm) (display_of_files k files)
  unfolding add_files
  ags-add_files k [] cm agm msgs = or_first-none (lookup k agm)
  ags-add_files k (cf ∷ files) cm agm msgs =
      let s = add_instances coalesce lower trim_space cf.defaults cf.instances (cm, msgs) in
      let t = add_ag_names cf.ag_names (agm, s.1) in
      ags-add_files k files s.0 t.0 t.1
      ∙ ap (λ o. or_first o (display_of_files k files)) (lookup-add_ag_names k cf.ag_names agm s.1)
      ∙ or_first_assoc (lookup k agm) (first_display k cf.ag_names) (display_of_files k files)

  length-add_files :
      (files : List ConnectionFile) (cm : Map Text Connection) (agm : Map AgIdentifier Text)
      (msgs : List Message)
      → let (cm', agm', msgs') = add_files coalesce lower trim_space files cm agm msgs in
        length cm' + length agm' + length msgs'
        ≡ length cm + length agm + length msgs + entries files
  unfolding add_files
  length-add_files [] cm agm msgs = omega arith
  length-add_files (cf ∷ files) cm agm msgs =
      let s = add_instances coalesce lower trim_space cf.defaults cf.instances (cm, msgs) in
      let t = add_ag_names cf.ag_names (agm, s.1) in
      let rest = length-add_files files s.0 t.0 t.1 in
      let first = length-add_instances coalesce lower trim_space cf.defaults cf.instances cm msgs in
      let second = length-add_ag_names cf.ag_names agm s.1 in omega arith

  -- The map has for each key the connection of the first instance with that key in the order of the files, if the
  -- key is valid; and for each group the display name that the first entry for it gives. Each instance and each
  -- name is kept or gets one message: there are as many of them as connections, groups and messages.
  pub make_map-first_of_files :
      (names : List Text) (files : List ConnectionFile)
      → let (config, msgs) = make_map coalesce lower trim_space names files in
        ((k : Text) → lookup k config.connections ≡ first_of_files k files)
        × ((g : AgIdentifier) → lookup g config.ags ≡ display_of_files g files)
        × (length config.connections + length config.ags + length msgs ≡ entries files)
  unfolding make_map lookup
  make_map-first_of_files names files = (
    λ k. connections-add_files k files [] [] [],
    λ g. ags-add_files g files [] [] [],
    (let total = length-add_files files [] [] [] in omega arith),
  )
