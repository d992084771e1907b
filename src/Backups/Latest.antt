-- ===== src/Backups/Latest.antt =====
-- internal/agbackup/agbackup.go: the backups of a database after any reports.
use isitsql.Common.{
  ◌≡◌, ◌<◌, refl, sym, ap, ◌∙◌, Bool, Bool-cases, Option-cases, inl, inr, none, List, [], ◌∷◌, Text,
  ltb, if◌then◌else◌, subst,
}
use isitsql.Maps.{Map, lookup, text_key}
use isitsql.Backups.{
  DbKey, Backup, same_key, db_key, key_of, put_full, put_log, set_full, set_log, get,
}
use isitsql.Backups.Reports.{
  Part, Report, part_of, IsLatest, AreTimed, take_report, take_reports, concerns, parts_on,
}
use isitsql.Backups.Stored.{
  pick_log, pick_full, lookup-insert, lookup-known, newer, with_full, with_log, stored,
  newer-IsLatest, part_of-with_full, part_of-with_log, part_of-stored,
}

module _ (upper : Text → Text) where
  get-set_full :
      (k : DbKey) (r : Report) (m : Map DbKey Backup)
      → let j = key_of upper r.ag r.database in
        lookup k
          (set_full upper r.ag r.database r.part.started r.part.instance_name r.part.device m)
        ≡ stored k j (lookup k m) (with_full r (lookup j m))
  unfolding set_full
  get-set_full k r m =
      let j = key_of upper r.ag r.database in
      elim (Option-cases (lookup j m)) [
        | inl e ↦ rw (set_full, with_full, e) (lookup-insert k j (with_full r none) m)
        | inr (b, e) ↦ elim (Bool-cases (ltb b.full_started r.part.started)) [
          | inl later ↦
              rw (set_full, with_full, e)
                (rw later (
                  lookup-insert k j (put_full r.part.started r.part.instance_name r.part.device b)
                    m))
          | inr no_later ↦ rw (set_full, with_full, e) (rw no_later (lookup-known k j b m e))
        ]
      ]

  get-set_log :
      (k : DbKey) (r : Report) (m : Map DbKey Backup)
      → let j = key_of upper r.ag r.database in
        lookup k (set_log upper r.ag r.database r.part.started r.part.instance_name r.part.device m)
        ≡ stored k j (lookup k m) (with_log r (lookup j m))
  unfolding set_log
  get-set_log k r m =
      let j = key_of upper r.ag r.database in
      elim (Option-cases (lookup j m)) [
        | inl e ↦ rw (set_log, with_log, e) (lookup-insert k j (with_log r none) m)
        | inr (b, e) ↦ elim (Bool-cases (ltb b.log_started r.part.started)) [
          | inl later ↦
              rw (set_log, with_log, e)
                (rw later (
                  lookup-insert k j (put_log r.part.started r.part.instance_name r.part.device b)
                    m))
          | inr no_later ↦ rw (set_log, with_log, e) (rw no_later (lookup-known k j b m e))
        ]
      ]

  part_of-take_report :
      (is_log : Bool) (g d : Text) (r : Report) (m : Map DbKey Backup)
      → 0 < r.part.started
      → part_of is_log (get upper g d (take_report upper r m)) ≡ (
          if concerns upper is_log g d r
          then newer (part_of is_log (get upper g d m)) r.part
          else part_of is_log (get upper g d m))
  unfolding get take_report
  part_of-take_report is_log g d r m h =
      let k = key_of upper g d in
      let j = key_of upper r.ag r.database in
      elim (Bool-cases r.is_log) [
        | inl log ↦
            let step : get upper g d (take_report upper r m)
                ≡ stored k j (lookup k m) (with_log r (lookup j m)) =
              rw (take_report, log) (get-set_log k r m) in
            ap (part_of is_log) step
            ∙ part_of-stored is_log k j (with_log r) m
            ∙ ap (λ v. if same_key k j then v else part_of is_log (lookup k m))
                (part_of-with_log is_log r (lookup k m) h)
            ∙ pick_log is_log r.is_log (same_key k j) (newer (part_of is_log (lookup k m)) r.part)
                (part_of is_log (lookup k m)) log
        | inr full ↦
            let step : get upper g d (take_report upper r m)
                ≡ stored k j (lookup k m) (with_full r (lookup j m)) =
              rw (take_report, full) (get-set_full k r m) in
            ap (part_of is_log) step
            ∙ part_of-stored is_log k j (with_full r) m
            ∙ ap (λ v. if same_key k j then v else part_of is_log (lookup k m))
                (part_of-with_full is_log r (lookup k m) h)
            ∙ pick_full is_log r.is_log (same_key k j) (newer (part_of is_log (lookup k m)) r.part)
                (part_of is_log (lookup k m)) full
      ]

  take_reports-from :
      (is_log : Bool) (g d : Text) (rs : List Report) (m : Map DbKey Backup) (seen : List Part)
      → AreTimed rs
      → IsLatest (part_of is_log (get upper g d m)) seen
      → IsLatest
          (part_of is_log (get upper g d (take_reports upper rs m)))
          (parts_on upper is_log g d rs seen)
  unfolding take_reports
  take_reports-from is_log g d [] m seen h l = l
  take_reports-from is_log g d (r ∷ rs) m seen (h, hs) l =
      take_reports-from is_log g d rs (take_report upper r m)
        (if concerns upper is_log g d r then r.part ∷ seen else seen) hs
        (subst (λ c. IsLatest c (if concerns upper is_log g d r then r.part ∷ seen else seen))
          (sym (part_of-take_report is_log g d r m h))
          (elim (Bool-cases (concerns upper is_log g d r)) [
            | inl one ↦ rw one (newer-IsLatest (part_of is_log (get upper g d m)) r.part seen h l)
            | inr other ↦ rw other l
          ]))

  -- Where every report has a time after the zero time: after any reports to an empty table, what is kept for a
  -- database, of its full and of its log backups alike, is the latest of the reports of this kind on it, or
  -- nothing if there are none.
  pub take_reports-IsLatest :
      (is_log : Bool) (g d : Text) (rs : List Report)
      → AreTimed rs
      → IsLatest
          (part_of is_log (get upper g d (take_reports upper rs [])))
          (parts_on upper is_log g d rs [])
  unfolding get lookup
  take_reports-IsLatest is_log g d rs h =
      take_reports-from is_log g d rs [] [] h (tt, inl (refl, refl))
