-- ===== src/Backups/Tests.antt =====
-- Runs of the table of backups, and the theorems on a concrete table.
use isitsql.Common.{
  ℕ, ◌≡◌, ◌-◌, refl, codes, true, false, ◌&&◌, List, [], ◌∷◌, Text, map, arith, leb, if◌then◌else◌,
}
use isitsql.Maps.{Map}
use isitsql.Backups.{DbKey, Backup, new_backup, db_key, get, set_databases}
use isitsql.Backups.Reports.{Report, part_of, IsLatest, take_reports, parts_on}
use isitsql.Backups.Latest.{take_reports-IsLatest}

-- strings.ToUpper on ASCII
abbrev upper_code : ℕ → ℕ
upper_code c = if leb 97 c && leb c 122 then c - 32 else c

abbrev ascii_upper : Text → Text
ascii_upper t = map upper_code t

abbrev reports : List Report
reports =
    record {
      is_log = false;
      ag = codes "ag";
      database = codes "db";
      part = record { started = 5; instance_name = codes "I1"; device = codes "D1" };
    }
    ∷ record {
      is_log = true;
      ag = codes "AG";
      database = codes "DB";
      part = record { started = 9; instance_name = codes "I2"; device = codes "D2" };
    }
    ∷ record {
      is_log = false;
      ag = codes "AG";
      database = codes "db";
      part = record { started = 3; instance_name = codes "I3"; device = codes "D3" };
    }
    ∷ []

take_reports-IsLatest_example :
    IsLatest
      (part_of false
        (get ascii_upper (codes "ag") (codes "db") (take_reports ascii_upper reports [])))
      (parts_on ascii_upper false (codes "ag") (codes "db") reports [])
take_reports-IsLatest_example =
    take_reports-IsLatest ascii_upper false (codes "ag") (codes "db") reports
      (omega arith, (omega arith, (omega arith, tt)))

abbrev table : Map DbKey Backup
table =
    (record { ag = codes "AG"; database = codes "DB" }, new_backup (codes "ag") (codes "db")) ∷ []

-- Removing databases that the list has no more
set_databases_run : set_databases ascii_upper (codes "Ag") [] table ≡ []
unfolding set_databases
set_databases_run = refl
