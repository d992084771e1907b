-- ===== src/Connections.antt =====
-- internal/c2/config_map.go, hcl_connections.go and connection.go: the connections and the names of availability
-- groups that the configuration files make. How the files are read is in Files. `coalesce` is coalesce.String, of a
-- text that may be missing and one that is there; `lower` and `trim_space` are strings.ToLower and
-- strings.TrimSpace. Slices that connections share with the defaults are only changed to lower case, so they
-- are values here. A message is what its text is made of.
pub mod Names
pub mod Instances
pub mod Slashes
pub mod Files
pub mod Laws
mod Tests
use isitsql.Common.{
  ℕ, ◌≡◌, ◌↔◌, refl, ap, ap₂, ◌∙◌, sym, Bool, true, false, ◌&&◌, ◌||◌, Bool-cases, inl, inr, Option,
  none, some, List, [], ◌∷◌, ◌++◌, Text, codes, join, is_empty, map, text_eq, text_eq_iff, leb,
  ◌==◌, if◌then◌else◌,
}
use isitsql.Maps.{Eq, Map, lookup, insert, text_key}
use isitsql.Tags.{merge}

pub record Defaults : Type 0 where
  pub tags : Option (List Text)
  pub credential : Option Text
  pub ignore_backups : Option Bool
  pub ignore_backups_list : Option (List Text)

pub record Instance : Type 0 where
  pub id : Text
  pub server : Option Text
  pub display_name : Option Text
  pub tags : Option (List Text)
  pub key : Option Text
  pub credential : Option Text
  pub ignore_backups : Option Bool
  pub ignore_backups_list : Option (List Text)
  pub is_alias : Option Bool

pub record AgName : Type 0 where
  pub domain : Text
  pub name : Text
  pub display_name : Text

pub record ConnectionFile : Type 0 where
  pub defaults : Option Defaults
  pub instances : List Instance
  pub ag_names : List AgName

pub record Connection : Type 0 where
  pub key : Text
  pub server : Text
  pub display_name : Text
  pub tags : List Text
  pub credential_name : Text
  pub ignore_backups : Bool
  pub ignore_backups_list : List Text
  pub is_alias : Bool

-- BackupDescription
unfoldable pub backup_description : Connection → Text
unfolding join
backup_description c =
    if c.ignore_backups
    then codes "Ignore All"
    else if is_empty c.ignore_backups_list
    then []
    else codes "Ignore: " ++ join (codes ", ") c.ignore_backups_list

pub record AgIdentifier : Type 0 where
  pub domain : Text
  pub name : Text

abbrev pub same_group : AgIdentifier → AgIdentifier → Bool
same_group a b = text_eq a.domain b.domain && text_eq a.name b.name

pub same_group_iff : (a b : AgIdentifier) → (same_group a b ≡ true) ↔ (a ≡ b)
same_group_iff a b = (
  λ h. elim (Bool-cases (text_eq a.domain b.domain)) [
    | inl p ↦ elim (Bool-cases (text_eq a.name b.name)) [
      | inl q ↦
          ap₂ (λ d n. record { domain = d; name = n }) ((text_eq_iff a.domain b.domain).0 p)
            ((text_eq_iff a.name b.name).0 q)
      | inr q ↦ absurd (cc (h, ap₂ ◌&&◌ p q))
    ]
    | inr p ↦ absurd (cc (h, ap (λ c. c && text_eq a.name b.name) p))
  ],
  λ e.
      ap₂ ◌&&◌ ((text_eq_iff a.domain b.domain).1 (ap AgIdentifier.domain e))
        ((text_eq_iff a.name b.name).1 (ap AgIdentifier.name e)),
)

instance abbrev pub group_key : Eq AgIdentifier
group_key = record { same = same_group; same_iff = same_group_iff }

pub data Message : Type 0 where
  invalid_key : Text → Message
  duplicate_key : Text → Message
  duplicate_ag : AgIdentifier → Message

pub record ConfigMaps : Type 0 where
  pub files : List Text
  pub connections : Map Text Connection
  pub ags : Map AgIdentifier Text

abbrev is_alnum : ℕ → Bool
is_alnum c = (leb 48 c && leb c 57) || (leb 65 c && leb c 90) || (leb 97 c && leb c 122)

abbrev are_key_chars : Text → Bool
are_key_chars [] = true
are_key_chars (c ∷ cs) = (is_alnum c || (c == 45) || (c == 95) || (c == 46)) && are_key_chars cs

-- idregex: a letter or digit, then letters, digits, `-`, `_` and `.`. The optional last class has only characters of
-- the class before it, so it adds nothing.
unfoldable pub matches_id : Text → Bool
matches_id [] = false
matches_id (c ∷ cs) = is_alnum c && are_key_chars cs

-- strings.Replace(key, `\`, "-", -1)
abbrev pub dashed : Text → Text
dashed key = map (λ c. if c == 92 then 45 else c) key

abbrev pub or_blank : Option Text → Text
or_blank o = elim o [ some t ↦ t | none ↦ [] ]

abbrev pub or_empty : Option (List Text) → List Text
or_empty o = elim o [ some ts ↦ ts | none ↦ [] ]

abbrev pub or_false : Option Bool → Bool
or_false o = elim o [ some b ↦ b | none ↦ false ]

abbrev pub no_defaults : Defaults
no_defaults = record {
  tags = none;
  credential = none;
  ignore_backups = none;
  ignore_backups_list = none;
}

abbrev pub or_defaults : Option Defaults → Defaults
or_defaults o = elim o [ some d ↦ d | none ↦ no_defaults ]

-- The loop over the names of availability groups
unfoldable pub add_ag_names :
    List AgName → Map AgIdentifier Text × List Message → Map AgIdentifier Text × List Message
unfolding lookup insert text_eq
add_ag_names [] s = s
add_ag_names (ag ∷ ags) (agm, msgs) =
    let agkey : AgIdentifier = record { domain = ag.domain; name = ag.name } in
    add_ag_names ags (elim (lookup agkey agm) [
      | some display ↦ (agm, msgs ++ duplicate_ag agkey ∷ [])
      | none ↦ (insert agkey ag.display_name agm, msgs)
    ])

module _ (coalesce : Option Text → Text → Text) (lower trim_space : Text → Text) where
  unfoldable pub key_of : Instance → Text
  key_of i = lower (trim_space (dashed (coalesce i.key i.id)))

  abbrev merged : List Text → Option (List Text) → List Text
  merged list o = elim o [ some more ↦ merge lower (some list ∷ some more ∷ []) | none ↦ list ]

  -- The connection of an instance, in a file with the given defaults
  unfoldable pub connection_of : Option Defaults → Instance → Connection
  unfolding key_of merge
  connection_of defaults i =
      let d = or_defaults defaults in
      record {
        key = key_of i;
        server = coalesce i.server i.id;
        display_name = coalesce i.display_name [];
        tags = merged (or_empty d.tags) i.tags;
        credential_name = elim i.credential [ some c ↦ c | none ↦ or_blank d.credential ];
        ignore_backups = elim i.ignore_backups [ some b ↦ b | none ↦ or_false d.ignore_backups ];
        ignore_backups_list =
            map lower (merged (or_empty d.ignore_backups_list) i.ignore_backups_list);
        is_alias = false;
      }

  -- The loop over the instances of a file
  unfoldable pub add_instances :
      Option Defaults
      → List Instance
      → Map Text Connection × List Message
      → Map Text Connection × List Message
  unfolding key_of matches_id connection_of lookup insert
  add_instances defaults [] s = s
  add_instances defaults (i ∷ instances) (cm, msgs) = add_instances defaults instances (
      if matches_id (key_of i)
      then elim (lookup (key_of i) cm) [
        | some c ↦ (cm, msgs ++ duplicate_key (key_of i) ∷ [])
        | none ↦ (insert (key_of i) (connection_of defaults i) cm, msgs)
      ]
      else (cm, msgs ++ invalid_key (key_of i) ∷ []))

  -- The loop over the files
  unfoldable pub add_files :
      List ConnectionFile
      → Map Text Connection
      → Map AgIdentifier Text
      → List Message
      → Map Text Connection × Map AgIdentifier Text × List Message
  unfolding add_instances add_ag_names
  add_files [] cm agm msgs = (cm, agm, msgs)
  add_files (cf ∷ files) cm agm msgs =
      let (cm', msgs') = add_instances cf.defaults cf.instances (cm, msgs) in
      let (agm', msgs'') = add_ag_names cf.ag_names (agm, msgs') in add_files files cm' agm' msgs''

  -- makeMap
  unfoldable pub make_map : List Text → List ConnectionFile → ConfigMaps × List Message
  unfolding add_files
  make_map names files =
      let (cm, agm, msgs) = add_files files [] [] [] in
      (record { files = names; connections = cm; ags = agm }, msgs)
