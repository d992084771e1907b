-- ===== src/Sorter/Tests.antt =====
-- Runs of static/js/parser-duration.js and static/js/parser-metric.js, and the theorems on concrete
-- cells.
use isitsql.Common.{
  ◌*◌, ◌≡◌, refl, codes, true, some, none, List, [], ◌∷◌, Text, length, arith, if◌then◌else◌,
  is_space,
}
use isitsql.Semver.Compare.{compare_text}
use isitsql.Sorter.Padding.{width_of}
use isitsql.Sorter.Countdown.{blocks_of, format_countdown}
use isitsql.Sorter.Countdown.Laws.{compare_blocks, format_countdown-order}
use isitsql.Sorter.Duration.{Config, labels_of, format_duration}
use isitsql.Sorter.Duration.Laws.{format_duration_lem}
use isitsql.Sorter.Metric.{Factor, ten_to_minus, kilo_to, Header, byte_test, format_metric}
use isitsql.Sorter.Metric.Laws.{cleaned, format_metric-mistaken}

format_countdown-order_example :
    compare_text (format_countdown none (codes "9:59")) (format_countdown none (codes "10:01"))
    ≡ compare_blocks (blocks_of (codes "9:59")) (blocks_of (codes "10:01"))
unfolding blocks_of width_of is_space
format_countdown-order_example =
    format_countdown-order none (codes "9:59") (codes "10:01") refl
      (
        (((omega arith, omega arith), tt), omega arith, omega arith),
        (
          (
            ((omega arith, omega arith), ((omega arith, omega arith), tt)),
            omega arith,
            omega arith,
          ),
          tt,
        ),
      )
      (
        (((omega arith, omega arith), ((omega arith, omega arith), tt)), omega arith, omega arith),
        (
          (
            ((omega arith, omega arith), ((omega arith, omega arith), tt)),
            omega arith,
            omega arith,
          ),
          tt,
        ),
      )

-- A table without options for the parser.
abbrev plain_config : Config
plain_config = record {
  duration_length = none;
  duration_labels = none;
  duration_regex = none;
  us_number_format = true;
}

format_duration_lem_example :
    (key : Text) × ((format_duration (codes "1y 23d") plain_config).0 ≡ some key)
    × (length key ≡ width_of plain_config.duration_length * length (labels_of plain_config))
format_duration_lem_example = format_duration_lem (codes "1y 23d") plain_config refl

format_duration_test :
    (format_duration (codes "1y 23d 12h 44m 9s") plain_config).0
    ≡ some (codes "00010023001200440009")
unfolding format_duration is_space
format_duration_test = refl

format_countdown_test : format_countdown none (codes "1 : 5") ≡ codes "00010005"
unfolding format_countdown is_space
format_countdown_test = refl

-- A number that is not read any further, times factors.
abbrev Scaled : Type 0
Scaled = Text × List Factor

abbrev unscaled : Text → Scaled
unscaled s = (s, [])

abbrev scale : Scaled → Factor → Scaled
scale (s, fs) f = (s, f ∷ fs)

-- A column of meters, and one of bytes.
abbrev meters : Header
meters = record { metric_name = []; name_full = []; name_abbr = []; metric = none }

abbrev bytes : Header
bytes = record { metric_name = codes "b|byte"; name_full = []; name_abbr = []; metric = none }

format_metric-mistaken_example :
    (format_metric unscaled scale (codes "7 micrometer") meters).0
    ≡ scale
        (unscaled (cleaned (codes "7 micrometer")))
        (if byte_test (codes "meter") then ten_to_minus 2 else ten_to_minus 2)
unfolding format_metric is_space
format_metric-mistaken_example =
    format_metric-mistaken unscaled scale (codes "7 micrometer") meters (codes "micro")
      (codes "meter") 0 (ten_to_minus 2) (ten_to_minus 2) refl refl

format_metric_test :
    (format_metric unscaled scale (codes "12 GB") bytes).0 ≡ (codes "12 GB", kilo_to 3 ∷ [])
unfolding format_metric is_space
format_metric_test = refl
