-- ===== src/Charting/Series.antt =====
-- static/js/isitsql-charting-1.0.js: the series that the server sends, what becomes of their points,
-- and `roundToNearestMinute`.
use Prim.Native.String.{String}
use isitsql.Common.{ℕ, ◌+◌, ◌*◌, ◌/◌, true, List, [], ◌∷◌, ◌==◌, if◌then◌else◌}
use isitsql.Common.Int.{ℤ, pos, ◌-ℤ◌}
use isitsql.Charting.Options.{Value, Fields, bool, str}

-- A point: its time, and its other properties.
pub record Point : Type 0 where
  pub x : ℤ
  pub others : Fields

pub record Series : Type 0 where
  pub name : String
  pub points : List Point

-- A dataset of Chart.js: its label, its points, and how it is drawn.
pub record Dataset : Type 0 where
  pub label : String
  pub points : List Point
  pub style : Fields

-- A line of one point is not drawn, so that point is set one minute back too.
unfoldable pub widen : List Point → List Point
unfolding ◌-ℤ◌
widen (p ∷ []) = record p { x = p.x -ℤ pos 60000 } ∷ p ∷ []
widen ps = ps

-- fill: the first dataset down to the axis, each other one down to the dataset before it.
abbrev pub fill_of : ℕ → Value
fill_of i = if i == 0 then bool true else str "-1"

-- Whole numbers of milliseconds, below 2^53 (so that the division decides as it does exactly).
unfoldable pub round_to_nearest_minute : ℕ → ℕ
round_to_nearest_minute timestamp = (timestamp + 30000) / 60000 * 60000
