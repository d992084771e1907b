-- ===== src/Charting/Options.antt =====
-- static/js/isitsql-charting-1.0.js: the option objects that Chart.js is given.
use Prim.Native.String.{String}
use text.Mathlib.Text.{◌==◌ as str_eq}
use isitsql.Common.{
  ℕ, ◌/◌, ◌%◌, Bool, true, false, Option, none, some, List, [], ◌∷◌, ◌++◌, Text, if◌then◌else◌, ltb,
  ◌==◌, codes,
}
use isitsql.Common.Int.{ℤ, pos, ◌-ℤ◌}
use isitsql.Semver.Number.{number_text}

-- The functions among the options.
pub data Callback : Type 0 where
  match_left_axis : Callback
  thousands : Callback
  integers_only : Callback

-- Option objects. `tenths n` is the number n / 10.
mutual
  pub data Value : Type 0 where
    bool : Bool → Value
    num : ℤ → Value
    tenths : ℕ → Value
    str : String → Value
    call : Callback → Value
    obj : Fields → Value

  pub data Fields : Type 0 where
    end : Fields
    field : String → Value → Fields → Fields

abbrev pub get : String → Fields → Option Value
get k end = none
get k (field j v fs) = if str_eq j k then some v else get k fs

-- object.a.b.c, none where a step is missing
abbrev pub at_path : List String → Value → Option Value
at_path [] v = some v
at_path (k ∷ ks) (obj fs) = elim (get k fs) [ some v ↦ at_path ks v | none ↦ none ]
at_path (k ∷ ks) _ = none

abbrev nat : ℕ → Value
nat n = num (pos n)

abbrev single : String → Value → Value
single k v = obj (field k v end)

-- font: { size: n }
abbrev font_size : ℕ → Value
font_size n = single "size" (nat n)

-- scales.x; `now` is the answer of Date.now().
unfoldable pub x_scale : ℤ → Value
unfolding ◌-ℤ◌
x_scale now = obj (
    field "type" (str "time") (
      field "time"
        (obj (
          field "unit" (str "minute") (
            field "displayFormats"
              (obj (field "minute" (str "HH:mm") (field "hour" (str "HH:mm") end))) end)))
        (field "ticks" (obj (field "maxTicksLimit" (nat 4) (field "font" (font_size 11) end)))
          (field "suggestedMin" (num (now -ℤ pos 3600000)) end))))

-- scales.y
unfoldable pub y_scale : Value
y_scale = obj (
    field "beginAtZero" (bool true) (
      field "min" (nat 0) (
        field "title" (single "font" (font_size 11)) (
          field "ticks" (obj (field "maxTicksLimit" (nat 5) (field "font" (font_size 11) end)))
            end))))

-- scales.y1
unfoldable pub y1_scale : Value
y1_scale = obj (
    field "position" (str "right") (
      field "beginAtZero" (bool true) (
        field "grid" (single "drawOnChartArea" (bool false)) (
          field "ticks" (obj (field "maxTicksLimit" (nat 5) (field "font" (font_size 11) end)))
            end))))

unfoldable pub legend : Value
legend = obj (
    field "display" (bool true) (
      field "position" (str "bottom")
        (field "labels" (obj (field "boxWidth" (nat 15) (field "font" (font_size 10) end))) end)))

-- getDefaultChartOptions()
unfoldable pub default_options : ℤ → Value
unfolding x_scale y_scale y1_scale legend
default_options now = obj (
    field "animation" (bool false) (
      field "maintainAspectRatio" (bool false) (
        field "layout" (single "padding" (single "bottom" (nat 50))) (
          field "scales"
            (obj (field "x" (x_scale now) (field "y" y_scale (field "y1" y1_scale end))))
            (field "plugins" (single "legend" legend) end)))))

-- chartOptions of NewWaitsChart
unfoldable pub waits_options : Value
waits_options = single "scales" (
    obj (
      field "y"
        (obj (
          field "title"
            (obj (field "display" (bool true) (field "text" (str "Total Wait Time (sec)") end)))
            (field "stacked" (bool true) end)))
        (field "y1" (single "afterDataLimits" (call match_left_axis)) end)))

-- chartOptions of NewDiskChart
unfoldable pub disk_options : Value
disk_options = single "scales" (
    obj (
      field "y"
        (single "title"
          (obj (field "display" (bool true) (field "text" (str "MB per second") end))))
        (field "y1" (single "ticks" (single "callback" (call thousands))) end)))

-- chartOptions of NewCPUChart
unfoldable pub cpu_options : Value
cpu_options = obj (
    field "animation" (bool false) (
      field "scales"
        (obj (
          field "y"
            (obj (
              field "max" (nat 100) (
                field "title"
                  (obj (field "display" (bool true) (field "text" (str "CPU Usage") end)))
                  (field "stacked" (bool true) end))))
            (field "y1"
              (single "ticks" (
                obj (
                  field "maxTicksLimit" (nat 4)
                    (field "stepSize" (nat 1) (field "callback" (call integers_only) end)))))
              end)))
        end))

-- The limits of an axis.
pub record Axis : Type 0 where
  pub min : ℤ
  pub max : ℤ

-- afterDataLimits of the waits chart: the right axis takes the limits of the left one.
unfoldable pub after_data_limits : Axis → Axis → Axis
after_data_limits left axis = record axis { min = left.min; max = left.max }

-- The digits behind the decimal point of n / 1000, without the zeros at the end.
unfoldable pub fraction_text : ℕ → Text
unfolding number_text
fraction_text n =
    let tenth = n / 100 in
    let hundredth = n / 10 % 10 in
    let last = n % 10 in
    if n == 0
    then []
    else if n % 100 == 0
    then b'.' ∷ number_text tenth
    else if last == 0
    then b'.' ∷ number_text tenth ++ number_text hundredth
    else b'.' ∷ number_text tenth ++ number_text hundredth ++ number_text last

-- The label of a tick on the right axis of the disk chart, for whole values.
unfoldable pub thousands_label : ℕ → Text
unfolding fraction_text
thousands_label v =
    if ltb v 1000
    then number_text v
    else number_text (v / 1000) ++ fraction_text (v % 1000) ++ codes "k"
