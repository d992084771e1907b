-- ===== src/Sorter/Parsers.antt =====
-- static/js/parser-duration.js and static/js/parser-metric.js: what the scripts register with
-- `$.tablesorter.addParser`.
use Prim.Native.String.{String}
use isitsql.Common.{ℕ, Bool, false, Option, Text}
use isitsql.Sorter.Duration.{Config, format_duration}
use isitsql.Sorter.Countdown.{format_countdown}
use isitsql.Sorter.Metric.{Factor, Header, format_metric}

-- How the sorter compares the keys.
pub data KeyType : Type 0 where
  text numeric : KeyType

-- A parser: `State` is what its `format` reads of the table and changes in it.
pub record Parser (State Key : Type 0) : Type 0 where
  pub id : String
  pub is : Text → Bool
  pub format : Text → State → Key × State
  pub type : KeyType

unfoldable pub duration_parser : Parser Config (Option Text)
unfolding format_duration
duration_parser = record { id = "duration"; is = λ s. false; format = format_duration; type = text }

-- The countdown parser reads config.durationLength only.
unfoldable pub countdown_parser : Parser (Option ℕ) Text
unfolding format_countdown
countdown_parser = record {
  id = "countdown";
  is = λ s. false;
  format = λ s duration_length. (format_countdown duration_length s, duration_length);
  type = text;
}

module _ {Number : Type 0} (format_float : Text → Number) (times : Number → Factor → Number) where
  unfoldable pub metric_parser : Parser Header Number
  unfolding format_metric
  metric_parser = record {
    id = "metric";
    is = λ s. false;
    format = format_metric format_float times;
    type = numeric;
  }
