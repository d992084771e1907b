-- ===== src/Connections/Tests.antt =====
-- Runs on concrete configuration files, and the theorem on them.
use isitsql.Common.{
  ◌+◌, ◌≡◌, ◌⊎◌, inl, inr, if◌then◌else◌, refl, true, Option, none, some, List, [], ◌∷◌, length,
  map, Text, codes, text_eq,
}
use isitsql.Maps.{lookup, text_key}
use isitsql.Connections.{
  Defaults, Instance, AgName, ConnectionFile, Connection, AgIdentifier, group_key, invalid_key,
  duplicate_key, duplicate_ag, make_map,
}
use isitsql.Connections.Slashes.{fix_slashes, unescape, single_slashes, fix_slashes_lem}
use isitsql.Connections.Files.{
  HclError, decode_error, FailsFirst, AreLoaded, get_hcl_files, get_hcl_files-cases,
}
use isitsql.Connections.Laws.{first_of_files, display_of_files, entries, make_map-first_of_files}

abbrev given : Option Text → Text → Text
given o t = elim o [ some s ↦ s | none ↦ t ]

abbrev keep_text : Text → Text
keep_text t = t

abbrev server : Text → Option (List Text) → Instance
server id tags = record {
  id = id;
  server = none;
  display_name = none;
  tags = tags;
  key = none;
  credential = none;
  ignore_backups = none;
  ignore_backups_list = none;
  is_alias = some true;
}

abbrev defaults : Defaults
defaults = record {
  tags = some (codes "prod" ∷ []);
  credential = some (codes "sa");
  ignore_backups = none;
  ignore_backups_list = some (codes "tempdb" ∷ []);
}

abbrev ag_name : Text → AgName
ag_name display = record { domain = codes "D"; name = codes "AG1"; display_name = display }

abbrev files : List ConnectionFile
files =
    record {
      defaults = some defaults;
      instances = server (codes "a\\b") (some (codes "dev" ∷ [])) ∷ server (codes "a b") none ∷ [];
      ag_names = ag_name (codes "Sales") ∷ [];
    }
    ∷ record {
      defaults = none;
      instances = server (codes "a-b") none ∷ server (codes "c") none ∷ [];
      ag_names = ag_name (codes "Other") ∷ [];
    }
    ∷ []

messages_run :
    (make_map given keep_text keep_text [] files).1
    ≡ invalid_key (codes "a b")
      ∷ duplicate_key (codes "a-b")
      ∷ duplicate_ag (record { domain = codes "D"; name = codes "AG1" })
      ∷ []
unfolding make_map text_eq
messages_run = refl

abbrev tags_of : Text × Connection → Text × List Text
tags_of (key, c) = (key, c.tags)

connections_run :
    map tags_of (make_map given keep_text keep_text [] files).0.connections
    ≡ (codes "a-b", codes "dev" ∷ codes "prod" ∷ []) ∷ (codes "c", []) ∷ []
unfolding make_map text_eq
connections_run = refl

make_map-first_of_files_example :
    let (config, msgs) = make_map given keep_text keep_text (codes "a.hcl" ∷ []) files in
    ((k : Text) → lookup k config.connections ≡ first_of_files given keep_text keep_text k files)
    × ((g : AgIdentifier)
        → lookup g config.ags ≡ display_of_files given keep_text keep_text g files)
    × (length config.connections + length config.ags + length msgs
        ≡ entries given keep_text keep_text files)
make_map-first_of_files_example =
    make_map-first_of_files given keep_text keep_text (codes "a.hcl" ∷ []) files

-- One backslash, two and three
abbrev slashes : Text
slashes = codes "a\\b\\\\c\\\\\\d"

slashes_run :
    (fix_slashes slashes ≡ codes "a\\\\b\\\\c\\\\\\\\d")
    × (single_slashes slashes ≡ codes "a\\b\\c\\\\d")
unfolding fix_slashes single_slashes
slashes_run = (refl, refl)

fix_slashes_lem_example :
    (unescape (fix_slashes slashes) ≡ some (single_slashes slashes))
    × (fix_slashes (fix_slashes slashes) ≡ fix_slashes slashes)
fix_slashes_lem_example = fix_slashes_lem slashes

-- Every file has its name as its content, and the decoder knows one content.
abbrev content : Text → Text ⊎ Text
content f = inr f

abbrev decode : Text → Text → Text ⊎ ConnectionFile
decode f bb =
    if text_eq bb (codes "a\\\\b")
    then inr (record { defaults = some defaults; instances = []; ag_names = [] })
    else inl (codes "unexpected")

abbrev names : List Text
names = codes "a\\b" ∷ codes "c" ∷ codes "d" ∷ []

get_hcl_files_run :
    get_hcl_files content decode given keep_text keep_text (inr names)
    ≡ inl (decode_error (codes "unexpected"))
unfolding get_hcl_files text_eq
get_hcl_files_run = refl

get_hcl_files-cases_example :
    ((e : HclError) × FailsFirst content decode names e
      × (get_hcl_files content decode given keep_text keep_text (inr names) ≡ inl e))
    ⊎ ((cfs : List ConnectionFile) × AreLoaded content decode names cfs
        × (get_hcl_files content decode given keep_text keep_text (inr names)
            ≡ inr (make_map given keep_text keep_text names cfs)))
get_hcl_files-cases_example = get_hcl_files-cases content decode given keep_text keep_text names
