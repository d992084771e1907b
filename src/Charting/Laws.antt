-- ===== src/Charting/Laws.antt =====
-- static/js/isitsql-charting-1.0.js: what the charts show of the series that the server sent.
use Prim.Native.String.{String}
use isitsql.Common.{
  ℕ, zero, suc, ◌+◌, ◌%◌, ◌≤◌, ◌<◌, none, some, List, [], ◌∷◌, length, ◌≡◌, refl, arith, get_elem?,
  ap, ◌↔◌, subst,
}
use isitsql.Common.Int.{ℤ, pos, ◌-ℤ◌, ◌+ℤ◌, -ℤ_+ℤ}
use isitsql.Charting.Options.{Value}
use isitsql.Charting.Series.{Point, Series, Dataset, widen, round_to_nearest_minute}
use isitsql.Charting.Charts.{
  waits_dataset, waits_datasets_from, Answer, failed, json, Effect, draw, waits_answer, disk_answer,
  cpu_answer,
}

-- Rounding a time gives whole minutes, at most half a minute away, and the later one at a tie.
pub round_to_nearest_minute_lem :
    (t : ℕ)
    → (round_to_nearest_minute t % 60000 ≡ 0)
      × (round_to_nearest_minute t ≤ t + 30000)
      × (t < round_to_nearest_minute t + 30000)
unfolding round_to_nearest_minute
round_to_nearest_minute_lem t = omega arith

-- The points that a dataset shows for the points of a series: those, and before a single one exactly one more, a
-- minute earlier and otherwise the same.
abbrev pub Shows : List Point → List Point → Type 0
Shows [] shown = shown ≡ []
Shows (p ∷ []) shown =
    (q : Point) × (shown ≡ q ∷ p ∷ []) × (q.x +ℤ pos 60000 ≡ p.x) × (q.others ≡ p.others)
Shows (p ∷ q ∷ ps) shown = shown ≡ p ∷ q ∷ ps

widen-Shows : (ps : List Point) → Shows ps (widen ps)
unfolding widen
widen-Shows [] = refl
widen-Shows (p ∷ []) = (record p { x = p.x -ℤ pos 60000 }, refl, -ℤ_+ℤ p.x (pos 60000), refl)
widen-Shows (p ∷ q ∷ ps) = refl

-- Each series of the answer has its dataset at the same place: with the series' name, and with exactly its
-- points; only a series of a single point gets one more before it, a minute earlier and otherwise the same.
pub waits_datasets_from-Shows :
    (index i : ℕ) (ss : List Series) (s : Series)
    → get_elem? ss i ≡ some s
    → (d : Dataset) × (get_elem? (waits_datasets_from index ss) i ≡ some d)
      × (d.label ≡ s.name)
      × Shows s.points d.points
unfolding waits_datasets_from waits_dataset
waits_datasets_from-Shows index i [] s e = absurd (cc e)
waits_datasets_from-Shows index zero (r ∷ ss) s e = (
  waits_dataset index r,
  refl,
  ap (λ o. (elim o [ some t ↦ t.name | none ↦ r.name ])) e,
  subst (λ o. elim o [ some t ↦ Shows t.points (widen r.points) | none ↦ Unit ]) e
      (widen-Shows r.points),
)
waits_datasets_from-Shows index (suc i) (r ∷ ss) s e =
    waits_datasets_from-Shows (suc index) i ss s e

pub length-waits_datasets_from :
    (index : ℕ) (ss : List Series) → length (waits_datasets_from index ss) ≡ length ss
unfolding waits_datasets_from
length-waits_datasets_from index [] = refl
length-waits_datasets_from index (s ∷ ss) = ap suc (length-waits_datasets_from (suc index) ss)

-- The effect draws a chart.
abbrev pub IsDraw : Effect → Type 0
IsDraw (draw chart) = Unit
IsDraw e = ⊥

-- The answer is JSON with at least so many series.
abbrev pub HasSeries : ℕ → Answer → Type 0
HasSeries n (json (some ss)) = n ≤ length ss
HasSeries n a = ⊥

module _ (merge : Value → Value → Value) (now : ℤ) where
  -- The chart of the waits is drawn exactly when the answer is JSON with a list of series, even an
  -- empty one; the two other charts are drawn exactly when it has at least three series.
  pub answers-IsDraw :
      (container url : String) (a : Answer)
      → (IsDraw (waits_answer merge now container url a) ↔ HasSeries 0 a)
        × (IsDraw (disk_answer merge now container url a) ↔ HasSeries 3 a)
        × (IsDraw (cpu_answer merge now container url a) ↔ HasSeries 3 a)
  unfolding waits_answer disk_answer cpu_answer
  answers-IsDraw container url failed = ((λ h. h, λ h. h), (λ h. h, λ h. h), (λ h. h, λ h. h))
  answers-IsDraw container url (json none) = ((λ h. h, λ h. h), (λ h. h, λ h. h), (λ h. h, λ h. h))
  answers-IsDraw container url (json (some [])) = (
    (λ _. omega arith, λ _. tt),
    (λ h. absurd h, λ h. omega arith),
    (λ h. absurd h, λ h. omega arith),
  )
  answers-IsDraw container url (json (some (a ∷ []))) = (
    (λ _. omega arith, λ _. tt),
    (λ h. absurd h, λ h. omega arith),
    (λ h. absurd h, λ h. omega arith),
  )
  answers-IsDraw container url (json (some (a ∷ b ∷ []))) = (
    (λ _. omega arith, λ _. tt),
    (λ h. absurd h, λ h. omega arith),
    (λ h. absurd h, λ h. omega arith),
  )
  answers-IsDraw container url (json (some (a ∷ b ∷ c ∷ ss))) =
      ((λ _. omega arith, λ _. tt), (λ _. omega arith, λ _. tt), (λ _. omega arith, λ _. tt))
