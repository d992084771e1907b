-- ===== src/Sorter/Duration.antt =====
-- static/js/parser-duration.js: the parser "duration", for cells such as `1y 23d 12h 44m 9s`.
pub mod Laws
use isitsql.Common.{
  ℕ, zero, suc, ◌+◌, ◌-◌, ◌*◌, Bool, true, false, ◌||◌, ◌&&◌, Option, none, some, List, [], ◌∷◌,
  ◌++◌, Text, codes, if◌then◌else◌, leb, ◌==◌, length, replicate,
}
use isitsql.Regex.{
  Regex, Captures, empty, seq, alt, opt, star, group, one, char, plus, all_of, one_of, digit, space,
  new_regexp,
}
use isitsql.Regex.Ops.{Match, match, capture, replace_all, dollar}
use isitsql.Sorter.Padding.{pad, width_of}

-- table.config, as far as the parser reads and writes it. The labels are given as patterns.
pub record Config : Type 0 where
  pub duration_length : Option ℕ
  pub duration_labels : Option (List Regex)
  pub duration_regex : Option Regex
  pub us_number_format : Bool

-- A letter under the flag i.
abbrev char_i : ℕ → Regex
char_i a = one (λ c. c == a || (leb b'a' a && leb a b'z' && c + 32 == a))

abbrev lit_i : Text → Regex
lit_i [] = empty
lit_i (a ∷ []) = char_i a
lit_i (a ∷ b ∷ s) = seq (char_i a) (lit_i (b ∷ s))

-- The labels that stand in for missing ones: (?:years|year|y), …
unfoldable pub default_labels : List Regex
default_labels =
    one_of (lit_i (codes "years")) (lit_i (codes "year") ∷ lit_i (codes "y") ∷ [])
    ∷ one_of (lit_i (codes "days")) (lit_i (codes "day") ∷ lit_i (codes "d") ∷ [])
    ∷ one_of (lit_i (codes "hours")) (lit_i (codes "hour") ∷ lit_i (codes "h") ∷ [])
    ∷ one_of (lit_i (codes "minutes"))
        (lit_i (codes "minute") ∷ lit_i (codes "min") ∷ lit_i (codes "m") ∷ [])
    ∷ one_of (lit_i (codes "seconds"))
        (lit_i (codes "second") ∷ lit_i (codes "sec") ∷ lit_i (codes "s") ∷ [])
    ∷ []

unfoldable pub labels_of : Config → List Regex
unfolding default_labels
labels_of c = elim c.duration_labels [ some labels ↦ labels | none ↦ default_labels ]

-- The loop that builds the pattern: (?:(\d+)\s*label\s*)? for each label.
unfoldable pub label_parts : List Regex → Regex
label_parts [] = empty
label_parts (label ∷ labels) =
    seq (opt (all_of (group 0 (plus digit)) (star space ∷ label ∷ star space ∷ [])))
      (label_parts labels)

-- if (!c.durationRegex) { … }: the pattern is built once and kept in the configuration.
unfoldable pub with_regex : Config → Regex × Config
unfolding label_parts labels_of new_regexp
with_regex c = elim c.duration_regex [
  | some r ↦ (r, c)
  | none ↦
      let r = new_regexp (label_parts (labels_of c)) in (r, record c { duration_regex = some r })
]

-- /(\d)(?:\.|\s*)(\d)/g
abbrev grouped_digits : Regex
grouped_digits =
    new_regexp (all_of (group 0 digit) (alt (char b'.') (star space) ∷ group 0 digit ∷ []))

-- The value without separators.
unfoldable pub without_separators : Bool → Text → Text
unfolding replace_all new_regexp capture
without_separators us s =
    if us
    then replace_all (char b',') (λ m. []) s
    else replace_all grouped_digits (λ m. dollar 1 m ++ dollar 2 m) s

-- time[i] || '', for i from 1 on
abbrev group_or_empty : ℕ → Captures → Text
group_or_empty i c = elim (capture i c) [ some s ↦ s | none ↦ [] ]

-- The loop over the groups, `n` of them from `i` on.
unfoldable pub columns : ℕ → Captures → ℕ → ℕ → Text
unfolding pad capture
columns width groups i zero = []
columns width groups i (suc n) =
    pad width (group_or_empty i groups) ++ columns width groups (suc i) n

-- From the match on. A pattern kept by someone else could fail to match: a TypeError, `none`.
unfoldable pub key_of : Regex → Config → Text → Option Text
unfolding without_separators match columns labels_of width_of
key_of r c s = elim (match r (without_separators c.us_number_format s)) [
  | some m ↦ some (columns (width_of c.duration_length) m.captures 1 (length (labels_of c)))
  | none ↦ none
]

-- format(s, table): the sort key, and the configuration with its pattern.
unfoldable pub format_duration : Text → Config → Option Text × Config
unfolding with_regex key_of
format_duration s c = (key_of (with_regex c).0 (with_regex c).1 s, (with_regex c).1)
