-- ===== src/Backups/Stored.antt =====
-- internal/agbackup/agbackup.go: what one report makes of what is known of a database.
use isitsql.Common.{
  ◌≡◌, ◌≤◌, ◌<◌, refl, sym, ap, Bool, true, false, not, ◌&&◌, Bool-cases, inl, inr, Option, none,
  some, List, [], ◌∷◌, ltb, if◌then◌else◌, arith, subst,
}
use isitsql.Maps.{Map, lookup, insert, text_key}
use isitsql.Maps.Laws.{key-cases, same_refl, same-false, lookup-insert_same, lookup-insert_other}
use isitsql.Backups.{DbKey, Backup, same_key, db_key, new_backup, put_full, put_log}
use isitsql.Backups.Reports.{Part, Report, part_of, IsLast, IsLatest}

pub pick_log :
    (l k c : Bool) (x y : Part)
    → k ≡ true
    → (if c then (if l then x else y) else y) ≡ (if (if l then k else not k) && c then x else y)
pick_log true k true x y h = rw h
pick_log true k false x y h = rw h
pick_log false k true x y h = rw h
pick_log false k false x y h = rw h

pub pick_full :
    (l k c : Bool) (x y : Part)
    → k ≡ false
    → (if c then (if l then y else x) else y) ≡ (if (if l then k else not k) && c then x else y)
pick_full true k true x y h = rw h
pick_full true k false x y h = rw h
pick_full false k true x y h = rw h
pick_full false k false x y h = rw h

pub rise-IsLast : (p q : Part) (ps : List Part) → p.started ≤ q.started → IsLast p ps → IsLast q ps
rise-IsLast p q [] h l = tt
rise-IsLast p q (c ∷ ps) h (l, ls) = (omega arith, rise-IsLast p q ps h ls)

pub lookup-insert :
    (k j : DbKey) (b : Backup) (m : Map DbKey Backup)
    → lookup k (insert j b m) ≡ (if same_key k j then some b else lookup k m)
lookup-insert k j b m = elim (key-cases k j) [
  | inl e ↦
      let hit : same_key k j ≡ true = subst (λ i. same_key i j ≡ true) (sym e) (same_refl j) in
      rw hit (subst (λ i. lookup i (insert j b m) ≡ some b) (sym e) (lookup-insert_same j b m))
  | inr other ↦
      let miss : same_key k j ≡ false = same-false k j other in
      rw miss (lookup-insert_other k j b m other)
]

pub lookup-known :
    (k j : DbKey) (b : Backup) (m : Map DbKey Backup)
    → lookup j m ≡ some b
    → lookup k m ≡ (if same_key k j then some b else lookup k m)
lookup-known k j b m h = elim (key-cases k j) [
  | inl e ↦
      let hit : same_key k j ≡ true = subst (λ i. same_key i j ≡ true) (sym e) (same_refl j) in
      rw hit (subst (λ i. lookup i m ≡ some b) (sym e) h)
  | inr other ↦ let miss : same_key k j ≡ false = same-false k j other in rw miss
]

abbrev pub newer : Part → Part → Part
newer p q = if ltb p.started q.started then q else p

-- What SetFull makes of what is known of a database
abbrev pub with_full : Report → Option Backup → Backup
with_full r known = elim known [
  | none ↦ put_full r.part.started r.part.instance_name r.part.device (new_backup r.ag r.database)
  | some b ↦
      if ltb b.full_started r.part.started
      then put_full r.part.started r.part.instance_name r.part.device b
      else b
]

abbrev pub with_log : Report → Option Backup → Backup
with_log r known = elim known [
  | none ↦ put_log r.part.started r.part.instance_name r.part.device (new_backup r.ag r.database)
  | some b ↦
      if ltb b.log_started r.part.started
      then put_log r.part.started r.part.instance_name r.part.device b
      else b
]

abbrev pub stored : DbKey → DbKey → Option Backup → Backup → Option Backup
stored k j known b = if same_key k j then some b else known

pub newer-IsLatest :
    (p q : Part) (seen : List Part)
    → 0 < q.started
    → IsLatest p seen
    → IsLatest (newer p q) (q ∷ seen)
newer-IsLatest p q seen h (l, one) = elim (Bool-cases (ltb p.started q.started)) [
  | inl later ↦
      let small : p.started ≤ q.started = ground arith in
      let new : newer p q ≡ q = rw later in
      subst (λ c. IsLatest c (q ∷ seen)) (sym new)
        ((omega arith, rise-IsLast p q seen small l), inr (inl refl))
  | inr no_later ↦ elim one [
    | inl (e, z) ↦ let start : p.started ≡ 0 = ap Part.started e in absurd (ground arith)
    | inr found ↦
        let small : q.started ≤ p.started = ground arith in
        let old : newer p q ≡ p = rw no_later in
        subst (λ c. IsLatest c (q ∷ seen)) (sym old) ((small, l), inr (inr found))
  ]
]

pub part_of-with_full :
    (is_log : Bool) (r : Report) (known : Option Backup)
    → 0 < r.part.started
    → part_of is_log (some (with_full r known))
      ≡ (if is_log then part_of is_log known else newer (part_of is_log known) r.part)
part_of-with_full true r none h = refl
part_of-with_full false r none h =
    let later : ltb 0 r.part.started ≡ true = ground arith in rw later
part_of-with_full true r (some b) h = elim (Bool-cases (ltb b.full_started r.part.started)) [
  | inl later ↦ rw (with_full, later)
  | inr no_later ↦ rw (with_full, no_later)
]
part_of-with_full false r (some b) h = elim (Bool-cases (ltb b.full_started r.part.started)) [
  | inl later ↦ rw (with_full, later)
  | inr no_later ↦ rw (with_full, no_later)
]

pub part_of-with_log :
    (is_log : Bool) (r : Report) (known : Option Backup)
    → 0 < r.part.started
    → part_of is_log (some (with_log r known))
      ≡ (if is_log then newer (part_of is_log known) r.part else part_of is_log known)
part_of-with_log false r none h = refl
part_of-with_log true r none h = let later : ltb 0 r.part.started ≡ true = ground arith in rw later
part_of-with_log false r (some b) h = elim (Bool-cases (ltb b.log_started r.part.started)) [
  | inl later ↦ rw (with_log, later)
  | inr no_later ↦ rw (with_log, no_later)
]
part_of-with_log true r (some b) h = elim (Bool-cases (ltb b.log_started r.part.started)) [
  | inl later ↦ rw (with_log, later)
  | inr no_later ↦ rw (with_log, no_later)
]

pub part_of-stored :
    (is_log : Bool) (k j : DbKey) (f : Option Backup → Backup) (m : Map DbKey Backup)
    → part_of is_log (stored k j (lookup k m) (f (lookup j m))) ≡ (
        if same_key k j
        then part_of is_log (some (f (lookup k m)))
        else part_of is_log (lookup k m))
part_of-stored is_log k j f m = elim (key-cases k j) [
  | inl e ↦
      let hit : same_key k j ≡ true = subst (λ i. same_key i j ≡ true) (sym e) (same_refl j) in
      rw (stored, hit) (ap (λ i. part_of is_log (some (f (lookup i m)))) (sym e))
  | inr other ↦ let miss : same_key k j ≡ false = same-false k j other in rw (stored, miss)
]
