-- ===== src/Backups/Reports.antt =====
-- internal/agbackup/agbackup.go: reports of full and of log backups, and the latest of a list.
use isitsql.Common.{
  ℕ, ◌≡◌, ◌≤◌, ◌<◌, ◌⊎◌, Bool, not, ◌&&◌, Option, none, some, List, [], ◌∷◌, Text, if◌then◌else◌,
}
use isitsql.Maps.{Map, text_key}
use isitsql.Backups.{DbKey, Backup, same_key, db_key, key_of, set_full, set_log}

-- When and where a backup was made
pub record Part : Type 0 where
  pub started : ℕ
  pub instance_name : Text
  pub device : Text

pub record Report : Type 0 where
  pub is_log : Bool
  pub ag : Text
  pub database : Text
  pub part : Part

abbrev pub no_part : Part
no_part = record { started = 0; instance_name = []; device = [] }

-- The full or the log backup that is kept for a database
abbrev pub part_of : Bool → Option Backup → Part
part_of is_log known = elim known [
  | none ↦ no_part
  | some b ↦
      if is_log
      then record { started = b.log_started; instance_name = b.log_instance; device = b.log_device }
      else record {
        started = b.full_started;
        instance_name = b.full_instance;
        device = b.full_device;
      }
]

-- A part is one of a list's.
abbrev pub IsOneOf : Part → List Part → Type 0
IsOneOf p [] = ⊥
IsOneOf p (q ∷ ps) = (p ≡ q) ⊎ IsOneOf p ps

-- No part of a list started after p.
abbrev pub IsLast : Part → List Part → Type 0
IsLast p [] = Unit
IsLast p (q ∷ ps) = (q.started ≤ p.started) × IsLast p ps

-- p is the latest part of a list, or `no_part` if the list is empty.
abbrev pub IsLatest : Part → List Part → Type 0
IsLatest p ps = IsLast p ps × (((p ≡ no_part) × (ps ≡ [])) ⊎ IsOneOf p ps)

-- Each report has a time after the zero time.
abbrev pub AreTimed : List Report → Type 0
AreTimed [] = Unit
AreTimed (r ∷ rs) = (0 < r.part.started) × AreTimed rs

module _ (upper : Text → Text) where
  -- SetFull or SetLog
  unfoldable pub take_report : Report → Map DbKey Backup → Map DbKey Backup
  unfolding set_full set_log
  take_report r backups =
      if r.is_log
      then set_log upper r.ag r.database r.part.started r.part.instance_name r.part.device backups
      else set_full upper r.ag r.database r.part.started r.part.instance_name r.part.device backups

  unfoldable pub take_reports : List Report → Map DbKey Backup → Map DbKey Backup
  unfolding take_report
  take_reports [] backups = backups
  take_reports (r ∷ rs) backups = take_reports rs (take_report r backups)

  abbrev pub concerns : Bool → Text → Text → Report → Bool
  concerns is_log g d r =
      (if is_log then r.is_log else not r.is_log)
      && same_key (key_of upper g d) (key_of upper r.ag r.database)

  -- The reports of one kind on one database, the last one first, before those that were there
  abbrev pub parts_on : Bool → Text → Text → List Report → List Part → List Part
  parts_on is_log g d [] seen = seen
  parts_on is_log g d (r ∷ rs) seen =
      parts_on is_log g d rs (if concerns is_log g d r then r.part ∷ seen else seen)
