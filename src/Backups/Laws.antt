-- ===== src/Backups/Laws.antt =====
-- internal/agbackup/agbackup.go: the databases of a group that the table has after SetDatabases.
use isitsql.Common.{◌&&◌, Option, none, some, List, [], ◌∷◌, Text, text_eq, if◌then◌else◌}
use isitsql.Maps.{text_key}
use isitsql.Backups.{Backup, db_key, new_backup, string_in_slice}

-- The backups that are known, or those of a database that has none
abbrev pub or_new : Text → Text → Option Backup → Backup
or_new ag db known = elim known [ some b ↦ b | none ↦ new_backup ag db ]

module _ (upper : Text → Text) where
  -- The name under which a list has a database first
  abbrev pub first_match : Text → List Text → Text
  first_match db [] = []
  first_match db (b ∷ list) = if text_eq (upper b) (upper db) then b else first_match db list

  -- What SetDatabases has added, seen from one database
  abbrev added : Text → Text → Text → List Text → Option Backup → Option Backup
  added g d ag dbs known =
      if text_eq (upper g) (upper ag) && string_in_slice upper d dbs
      then some (or_new ag (first_match d dbs) known)
      else known
