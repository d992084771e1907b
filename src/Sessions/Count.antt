-- ===== src/Sessions/Count.antt =====
-- internal/mssql/session/session.go: the loop over the parents of a session.
use isitsql.Common.{
  ℕ, ◌+◌, ◌≡◌, ◌≢◌, refl, sym, inl, inr, Bool, true, false, not, ◌&&◌, ◌||◌, Bool-cases,
  Option-cases, Option, none, some, List, [], ◌∷◌, arith, if◌then◌else◌, subst,
}
use isitsql.Common.Int.{ℤ}
use isitsql.Maps.{Map, lookup, insert}
use isitsql.Maps.Laws.{lookup-insert_same, lookup-insert_other}
use isitsql.Sessions.{same_id, same_id_iff, id_key, contains, count_parents}
use isitsql.Sessions.Chains.{AreDistinct}

abbrev pub or_zero : Option ℕ → ℕ
or_zero o = elim o [ some n ↦ n | none ↦ 0 ]

abbrev pub total_of : ℤ → Map ℤ ℕ → ℕ
total_of v totals = or_zero (lookup v totals)

abbrev pub bit : Bool → ℕ
bit b = if b then 1 else 0

-- One round of the loop over the parents
abbrev count_one : ℤ → ℤ → Map ℤ ℕ → Map ℤ ℕ
count_one id w totals =
    if same_id w id
    then totals
    else elim (lookup w totals) [ some n ↦ insert w (n + 1) totals | none ↦ insert w 1 totals ]

total_of-insert_same : (v : ℤ) (n : ℕ) (totals : Map ℤ ℕ) → total_of v (insert v n totals) ≡ n
total_of-insert_same v n totals = rw (lookup-insert_same v n totals) refl

total_of-insert_other :
    (v w : ℤ) (n : ℕ) (totals : Map ℤ ℕ)
    → v ≢ w
    → total_of v (insert w n totals) ≡ total_of v totals
total_of-insert_other v w n totals h = rw (lookup-insert_other v w n totals h) refl

total_of-count_one_same :
    (id v : ℤ) (totals : Map ℤ ℕ)
    → total_of v (count_one id v totals) ≡ total_of v totals + bit (not (same_id v id))
total_of-count_one_same id v totals = elim (Bool-cases (same_id v id)) [
  | inl own ↦ rw own (omega arith)
  | inr h ↦ elim (Option-cases (lookup v totals)) [
    | inl new ↦ rw (h, new) (total_of-insert_same v 1 totals)
    | inr (n, e) ↦ rw (h, e) (total_of-insert_same v (n + 1) totals)
  ]
]

total_of-count_one_other :
    (id w v : ℤ) (totals : Map ℤ ℕ) → v ≢ w → total_of v (count_one id w totals) ≡ total_of v totals
total_of-count_one_other id w v totals other = elim (Bool-cases (same_id w id)) [
  | inl own ↦ rw own refl
  | inr h ↦ elim (Option-cases (lookup w totals)) [
    | inl new ↦ rw (h, new) (total_of-insert_other v w 1 totals other)
    | inr (n, e) ↦ rw (h, e) (total_of-insert_other v w (n + 1) totals other)
  ]
]

total_of-count_one :
    (id w v : ℤ) (totals : Map ℤ ℕ)
    → total_of v (count_one id w totals)
      ≡ total_of v totals + bit (same_id w v && not (same_id v id))
total_of-count_one id w v totals = elim (Bool-cases (same_id w v)) [
  | inl e ↦
      let w_is_v = (same_id_iff w v).0 e in
      rw e (
        subst
          (λ u. total_of v (count_one id u totals) ≡ total_of v totals + bit (not (same_id v id)))
          (sym w_is_v) (total_of-count_one_same id v totals))
  | inr h ↦
      let other : v ≢ w = λ p. cc (h, (same_id_iff w v).1 (sym p)) in
      let k = total_of-count_one_other id w v totals other in rw h (omega arith)
]

bit_none : (n : Bool) → bit (n && false) ≡ 0
bit_none true = refl
bit_none false = refl

bit-or : (a n c : Bool) → (a && c) ≡ false → bit (a && n) + bit (n && c) ≡ bit (n && (a || c))
bit-or true n true h = absurd (cc h)
bit-or true true false h = refl
bit-or true false false h = refl
bit-or false true true h = refl
bit-or false true false h = refl
bit-or false false c h = refl

once-false :
    (w v : ℤ) (ps : List ℤ) → contains ps w ≡ false → (same_id w v && contains ps v) ≡ false
once-false w v ps h = elim (Bool-cases (same_id w v)) [
  | inl e ↦ let w_is_v = (same_id_iff w v).0 e in rw (e, sym w_is_v) h
  | inr e ↦ rw e refl
]

-- Each parent but the session itself is counted once.
pub total_of-count_parents :
    (id v : ℤ) (ps : List ℤ) (totals : Map ℤ ℕ)
    → AreDistinct ps
    → total_of v (count_parents id ps totals)
      ≡ total_of v totals + bit (not (same_id v id) && contains ps v)
unfolding count_parents
total_of-count_parents id v [] totals d = let b = bit_none (not (same_id v id)) in omega arith
total_of-count_parents id v (w ∷ ps) totals (once, d) =
    let rest = total_of-count_parents id v ps (count_one id w totals) d in
    let first = total_of-count_one id w v totals in
    let bits = bit-or (same_id w v) (not (same_id v id)) (contains ps v) (once-false w v ps once) in
    omega arith
