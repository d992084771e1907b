-- ===== src/Charting/Tests.antt =====
-- The theorems on static/js/isitsql-charting-1.0.js at concrete answers.
use isitsql.Common.{ℕ, ◌+◌, ◌≤◌, ◌<◌, ◌%◌, ◌≡◌, refl, ◌↔◌, some, [], ◌∷◌, get_elem?, codes}
use isitsql.Common.Int.{pos}
use isitsql.Charting.Options.{Value, end, thousands_label}
use isitsql.Charting.Series.{Point, Series, Dataset, widen, round_to_nearest_minute}
use isitsql.Charting.Charts.{
  json, waits_datasets_from, waits_answer, disk_answer, cpu_answer, new_disk_chart, get_json,
  type_error,
}
use isitsql.Charting.Laws.{
  Shows, waits_datasets_from-Shows, IsDraw, HasSeries, answers-IsDraw, round_to_nearest_minute_lem,
}

abbrev point_at : ℕ → Point
point_at t = record { x = pos t; others = end }

abbrev single_point : Series
single_point = record { name = "LCK_M_X"; points = point_at 90000 ∷ [] }

abbrev two_points : Series
two_points = record { name = "WRITELOG"; points = point_at 30000 ∷ point_at 90000 ∷ [] }

waits_datasets_from-Shows_example :
    (d : Dataset) × (get_elem? (waits_datasets_from 0 (two_points ∷ single_point ∷ [])) 1 ≡ some d)
    × (d.label ≡ single_point.name)
    × Shows single_point.points d.points
waits_datasets_from-Shows_example =
    waits_datasets_from-Shows 0 1 (two_points ∷ single_point ∷ []) single_point refl

widen_test : widen single_point.points ≡ point_at 30000 ∷ point_at 90000 ∷ []
unfolding widen
widen_test = refl

-- One of the two option objects, in the place of lodash.merge.
abbrev take_own : Value → Value → Value
take_own defaults own = own

answers-IsDraw_example :
    (IsDraw (waits_answer take_own (pos 0) "c" "u" (json (some []))) ↔ HasSeries 0 (json (some [])))
    × (IsDraw (disk_answer take_own (pos 0) "c" "u" (json (some [])))
        ↔ HasSeries 3 (json (some [])))
    × (IsDraw (cpu_answer take_own (pos 0) "c" "u" (json (some []))) ↔ HasSeries 3 (json (some [])))
answers-IsDraw_example = answers-IsDraw take_own (pos 0) "c" "u" (json (some []))

new_disk_chart_test :
    new_disk_chart take_own (pos 0) "s" "c" (json (some (two_points ∷ [])))
    ≡ get_json "/api/disk/s" ∷ type_error ∷ []
unfolding new_disk_chart
new_disk_chart_test = refl

round_to_nearest_minute_lem_example :
    (round_to_nearest_minute 89999 % 60000 ≡ 0)
    × (round_to_nearest_minute 89999 ≤ 89999 + 30000)
    × (89999 < round_to_nearest_minute 89999 + 30000)
round_to_nearest_minute_lem_example = round_to_nearest_minute_lem 89999

thousands_label_test : thousands_label 12050 ≡ codes "12.05k"
unfolding thousands_label
thousands_label_test = refl
