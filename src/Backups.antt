-- ===== src/Backups.antt =====
-- internal/agbackup/agbackup.go: the latest backups of the databases of availability groups. The table that
-- the package keeps is an argument of each operation and a part of its answer; the operations run one after
-- another. `upper` is strings.ToUpper. Times are numbers, and 0 is the zero time.
pub mod Laws
pub mod Reports
pub mod Stored
pub mod Latest
mod Tests
use isitsql.Common.{
  ℕ, ◌≡◌, ◌↔◌, refl, sym, ap, ap₂, ◌∙◌, Bool, true, false, not, ◌&&◌, ◌||◌, Bool-cases, inl, inr,
  Option, none, some, List, [], ◌∷◌, Text, text_eq, text_eq_iff, ltb, if◌then◌else◌,
}
use isitsql.Maps.{Eq, Map, lookup, insert, keep_if, text_key}
use isitsql.Maps.Laws.{same_refl}

pub record DbKey : Type 0 where
  pub ag : Text
  pub database : Text

pub record Backup : Type 0 where
  pub ag : Text
  pub database : Text
  pub full_started : ℕ
  pub full_instance : Text
  pub full_device : Text
  pub log_started : ℕ
  pub log_instance : Text
  pub log_device : Text

abbrev pub same_key : DbKey → DbKey → Bool
same_key a b = text_eq a.ag b.ag && text_eq a.database b.database

pub same_key_iff : (a b : DbKey) → (same_key a b ≡ true) ↔ (a ≡ b)
same_key_iff a b = (
  λ h. elim (Bool-cases (text_eq a.ag b.ag)) [
    | inl p ↦ elim (Bool-cases (text_eq a.database b.database)) [
      | inl q ↦
          ap₂ (λ g d. record { ag = g; database = d }) ((text_eq_iff a.ag b.ag).0 p)
            ((text_eq_iff a.database b.database).0 q)
      | inr q ↦ absurd (cc (h, ap₂ ◌&&◌ p q))
    ]
    | inr p ↦ absurd (cc (h, ap (λ c. c && text_eq a.database b.database) p))
  ],
  λ e.
      ap₂ ◌&&◌ ((text_eq_iff a.ag b.ag).1 (ap DbKey.ag e))
        ((text_eq_iff a.database b.database).1 (ap DbKey.database e)),
)

instance abbrev pub db_key : Eq DbKey
db_key = record { same = same_key; same_iff = same_key_iff }

-- The zero value of a Backup, with its group and its database
abbrev pub new_backup : Text → Text → Backup
new_backup ag db = record {
  ag = ag;
  database = db;
  full_started = 0;
  full_instance = [];
  full_device = [];
  log_started = 0;
  log_instance = [];
  log_device = [];
}

abbrev pub put_full : ℕ → Text → Text → Backup → Backup
put_full started instance_name device b = record b {
  full_started = started;
  full_instance = instance_name;
  full_device = device;
}

abbrev pub put_log : ℕ → Text → Text → Backup → Backup
put_log started instance_name device b = record b {
  log_started = started;
  log_instance = instance_name;
  log_device = device;
}

module _ (upper : Text → Text) where
  abbrev pub key_of : Text → Text → DbKey
  key_of ag db = record { ag = upper ag; database = upper db }

  unfoldable pub string_in_slice : Text → List Text → Bool
  unfolding text_eq
  string_in_slice a [] = false
  string_in_slice a (b ∷ list) = text_eq (upper b) (upper a) || string_in_slice a list

  -- Set
  unfoldable pub set : Text → Text → Map DbKey Backup → Map DbKey Backup
  unfolding lookup insert
  set ag db backups = elim (lookup (key_of ag db) backups) [
    | some b ↦ backups
    | none ↦ insert (key_of ag db) (new_backup ag db) backups
  ]

  -- The first loop of SetDatabases
  unfoldable pub set_all : Text → List Text → Map DbKey Backup → Map DbKey Backup
  unfolding set
  set_all ag [] backups = backups
  set_all ag (db ∷ dbs) backups = set_all ag dbs (set ag db backups)

  unfoldable pub set_databases : Text → List Text → Map DbKey Backup → Map DbKey Backup
  unfolding set_all keep_if string_in_slice text_eq
  set_databases ag dbs backups =
      keep_if (λ k. not (text_eq k.ag (upper ag)) || string_in_slice k.database dbs)
        (set_all ag dbs backups)

  unfoldable pub get : Text → Text → Map DbKey Backup → Option Backup
  unfolding lookup
  get ag db backups = lookup (key_of ag db) backups

  unfoldable pub delete : Text → Text → Map DbKey Backup → Map DbKey Backup
  unfolding keep_if text_eq
  delete ag db backups =
      keep_if (λ k. not (text_eq k.ag (upper ag) && text_eq k.database (upper db))) backups

  unfoldable pub set_full : Text → Text → ℕ → Text → Text → Map DbKey Backup → Map DbKey Backup
  unfolding lookup insert
  set_full ag db started instance_name device backups = elim (lookup (key_of ag db) backups) [
    | some b ↦
        if ltb b.full_started started
        then insert (key_of ag db) (put_full started instance_name device b) backups
        else backups
    | none ↦
        insert (key_of ag db) (put_full started instance_name device (new_backup ag db)) backups
  ]

  unfoldable pub set_log : Text → Text → ℕ → Text → Text → Map DbKey Backup → Map DbKey Backup
  unfolding lookup insert
  set_log ag db started instance_name device backups = elim (lookup (key_of ag db) backups) [
    | some b ↦
        if ltb b.log_started started
        then insert (key_of ag db) (put_log started instance_name device b) backups
        else backups
    | none ↦ insert (key_of ag db) (put_log started instance_name device (new_backup ag db)) backups
  ]
