-- ===== src/Connections/Instances.antt =====
-- internal/c2/config_map.go: the loop over the instances of a file.
use isitsql.Common.{
  ◌+◌, ◌≡◌, refl, ap, ◌∙◌, inl, inr, true, false, Bool-cases, Option-cases, Option, none, some,
  List, [], ◌∷◌, ◌++◌, length, length-append, Text, text_eq, if◌then◌else◌, arith,
}
use isitsql.Maps.{Map, lookup, insert, text_key}
use isitsql.Maps.First.{
  or_first, or_first_assoc, or_first-none, length-insert_new, lookup-insert_new, or_first-known,
}
use isitsql.Connections.{
  Defaults, Instance, Connection, group_key, Message, invalid_key, duplicate_key, matches_id,
  key_of, connection_of, add_instances,
}

module _ (coalesce : Option Text → Text → Text) (lower trim_space : Text → Text) where
  abbrev pub key : Instance → Text
  key i = key_of coalesce lower trim_space i

  abbrev pub connection : Option Defaults → Instance → Connection
  connection d i = connection_of coalesce lower trim_space d i

  -- The connection of the first instance with the key, if the key is valid
  abbrev pub first_connection : Text → Option Defaults → List Instance → Option Connection
  first_connection k d [] = none
  first_connection k d (i ∷ is) =
      or_first
        (if matches_id (key_of coalesce lower trim_space i)
          then (if text_eq (key_of coalesce lower trim_space i) k
              then some (connection_of coalesce lower trim_space d i)
              else none)
          else none)
        (first_connection k d is)

  abbrev pub add :
      Option Defaults
      → List Instance
      → Map Text Connection
      → List Message
      → Map Text Connection × List Message
  add d is cm msgs = add_instances coalesce lower trim_space d is (cm, msgs)

  -- One round of the loop, by what it finds
  add-invalid :
      (d : Option Defaults) (i : Instance) (is : List Instance) (cm : Map Text Connection)
      (msgs : List Message)
      → matches_id (key i) ≡ false
      → add d (i ∷ is) cm msgs ≡ add d is cm (msgs ++ invalid_key (key i) ∷ [])
  unfolding add_instances
  add-invalid d i is cm msgs h = rw (add, add_instances, h) refl

  add-known :
      (d : Option Defaults) (i : Instance) (is : List Instance) (cm : Map Text Connection)
      (msgs : List Message) (c : Connection)
      → matches_id (key i) ≡ true
      → lookup (key i) cm ≡ some c
      → add d (i ∷ is) cm msgs ≡ add d is cm (msgs ++ duplicate_key (key i) ∷ [])
  unfolding add_instances
  add-known d i is cm msgs c h e = rw (add, add_instances, h) (rw (add, add_instances, e) refl)

  add-new :
      (d : Option Defaults) (i : Instance) (is : List Instance) (cm : Map Text Connection)
      (msgs : List Message)
      → matches_id (key i) ≡ true
      → lookup (key i) cm ≡ none
      → add d (i ∷ is) cm msgs ≡ add d is (insert (key i) (connection d i) cm) msgs
  unfolding add_instances
  add-new d i is cm msgs h e = rw (add, add_instances, h) (rw (add, add_instances, e) refl)

  pub lookup-add_instances :
      (k : Text) (d : Option Defaults) (is : List Instance) (cm : Map Text Connection)
      (msgs : List Message)
      → lookup k (add d is cm msgs).0 ≡ or_first (lookup k cm) (first_connection k d is)
  unfolding add_instances
  lookup-add_instances k d [] cm msgs = or_first-none (lookup k cm)
  lookup-add_instances k d (i ∷ is) cm msgs =
      let here : Option Connection = if text_eq (key i) k then some (connection d i) else none in
      let rest = first_connection k d is in
      elim (Bool-cases (matches_id (key i))) [
        | inr invalid ↦ rw invalid (
            ap (λ s. lookup k s.0) (add-invalid d i is cm msgs invalid)
            ∙ lookup-add_instances k d is cm (msgs ++ invalid_key (key i) ∷ []))
        | inl valid ↦ elim (Option-cases (lookup (key i) cm)) [
          | inr (c, known) ↦ rw valid (
              ap (λ s. lookup k s.0) (add-known d i is cm msgs c valid known)
              ∙ (lookup-add_instances k d is cm (msgs ++ duplicate_key (key i) ∷ [])
                  ∙ ap (λ o. or_first o rest) (or_first-known (key i) k (connection d i) c cm known)
                  ∙ or_first_assoc (lookup k cm) here rest))
          | inl new ↦ rw valid (
              ap (λ s. lookup k s.0) (add-new d i is cm msgs valid new)
              ∙ (lookup-add_instances k d is (insert (key i) (connection d i) cm) msgs
                  ∙ ap (λ o. or_first o rest) (lookup-insert_new (key i) k (connection d i) cm new)
                  ∙ or_first_assoc (lookup k cm) here rest))
        ]
      ]

  pub length-add_instances :
      (d : Option Defaults) (is : List Instance) (cm : Map Text Connection) (msgs : List Message)
      → length (add d is cm msgs).0 + length (add d is cm msgs).1
        ≡ length cm + length msgs + length is
  unfolding add_instances
  length-add_instances d [] cm msgs = omega arith
  length-add_instances d (i ∷ is) cm msgs = elim (Bool-cases (matches_id (key i))) [
    | inr invalid ↦
        let rest = length-add_instances d is cm (msgs ++ invalid_key (key i) ∷ []) in
        let one = length-append msgs (invalid_key (key i) ∷ []) in
        rw (add-invalid d i is cm msgs invalid) (omega arith)
    | inl valid ↦ elim (Option-cases (lookup (key i) cm)) [
      | inr (c, known) ↦
          let rest = length-add_instances d is cm (msgs ++ duplicate_key (key i) ∷ []) in
          let one = length-append msgs (duplicate_key (key i) ∷ []) in
          rw (add-known d i is cm msgs c valid known) (omega arith)
      | inl new ↦
          let rest = length-add_instances d is (insert (key i) (connection d i) cm) msgs in
          let one = length-insert_new (key i) (connection d i) cm new in
          rw (add-new d i is cm msgs valid new) (omega arith)
    ]
  ]
