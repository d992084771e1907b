-- ===== src/Sorter/Metric.antt =====
-- static/js/parser-metric.js: the parser "metric", for cells such as `12 GB`. The names in a header's
-- attributes are lists of words, with `|` between; their letters are ASCII.
pub mod Laws
use Prim.Native.String.{String}
use isitsql.Common.{
  ℕ, zero, suc, ◌+◌, ◌-◌, Bool, true, false, not, ◌||◌, ◌&&◌, Option, none, some, List, [], ◌∷◌,
  ◌++◌, map, Text, codes, if◌then◌else◌, leb, ◌==◌, is_empty, any, text_eq,
}
use isitsql.Regex.{
  Regex, empty, seq, opt, group, one, lit, plus, all_of, one_of, digit, space, is_digit, new_regexp,
}
use isitsql.Regex.Ops.{Match, match, test, capture, replace_all, dollar}
use isitsql.Semver.Version.{split_on}

-- The factors: 10^n, 10^-n and 1024^n.
pub data Factor : Type 0 where
  ten_to ten_to_minus kilo_to : ℕ → Factor

-- `prefixes`: the names of a prefix, with its factors of base 10 and of base 2.
pub record Prefix : Type 0 where
  pub names : List Text
  pub decimal : Factor
  pub binary : Factor

abbrev both : List Text → Factor → Prefix
both names f = record { names = names; decimal = f; binary = f }

abbrev large : String → String → String → ℕ → ℕ → Prefix
large a b c n k = record {
  names = codes a ∷ codes b ∷ codes c ∷ [];
  decimal = ten_to n;
  binary = kilo_to k;
}

unfoldable pub prefixes : List Prefix
prefixes =
    large "Y" "Yotta" "yotta" 24 8
    ∷ large "Z" "Zetta" "zetta" 21 7
    ∷ large "E" "Exa" "exa" 18 6
    ∷ large "P" "Peta" "peta" 15 5
    ∷ large "T" "Tera" "tera" 12 4
    ∷ large "G" "Giga" "giga" 9 3
    ∷ large "M" "Mega" "mega" 6 2
    ∷ large "K" "Kilo" "kilo" 3 1
    ∷ both (codes "h" ∷ codes "hecto" ∷ []) (ten_to 2)
    ∷ both (codes "da" ∷ codes "deka" ∷ []) (ten_to 1)
    ∷ both (codes "d" ∷ codes "deci" ∷ []) (ten_to_minus 1)
    ∷ both (codes "c" ∷ codes "centi" ∷ []) (ten_to_minus 2)
    ∷ both (codes "m" ∷ codes "milli" ∷ []) (ten_to_minus 3)
    ∷ both (codes "µ" ∷ codes "micro" ∷ []) (ten_to_minus 6)
    ∷ both (codes "n" ∷ codes "nano" ∷ []) (ten_to_minus 9)
    ∷ both (codes "p" ∷ codes "pico" ∷ []) (ten_to_minus 12)
    ∷ both (codes "f" ∷ codes "femto" ∷ []) (ten_to_minus 15)
    ∷ both (codes "a" ∷ codes "atto" ∷ []) (ten_to_minus 18)
    ∷ both (codes "z" ∷ codes "zepto" ∷ []) (ten_to_minus 21)
    ∷ both (codes "y" ∷ codes "yocto" ∷ []) (ten_to_minus 24)
    ∷ []

-- Words with `|` between.
abbrev words : List Text → Regex
words [] = empty
words (w ∷ ws) = one_of (lit w) (map lit ws)

abbrev number_and_space : Regex
number_and_space = seq (group 0 (plus digit)) (opt (group 0 (plus space)))

-- [Zz]etta
abbrev either_case : ℕ → String → Regex
either_case c s = seq (one (λ x. x == c || x + 32 == c)) (lit (codes s))

abbrev long_prefix : Regex
long_prefix = one_of (either_case b'z' "etta") (
    either_case b'e' "xa"
    ∷ either_case b'p' "eta"
    ∷ either_case b't' "era"
    ∷ either_case b'g' "iga"
    ∷ either_case b'm' "ega"
    ∷ map (λ w. lit (codes w))
        ("kilo" ∷ "hecto" ∷ "deka" ∷ "deci" ∷ "centi" ∷ "milli" ∷ "micro" ∷ "nano" ∷ "pico"
          ∷ "femto" ∷ "atto" ∷ "zepto" ∷ "yocto" ∷ []))

abbrev abbreviated_prefix : Regex
abbreviated_prefix = words (
    map codes (
      "Z" ∷ "E" ∷ "P" ∷ "T" ∷ "G" ∷ "M" ∷ "k" ∷ "h" ∷ "da" ∷ "d" ∷ "c" ∷ "m" ∷ "µ" ∷ "n" ∷ "p" ∷ "f"
      ∷ "a" ∷ "z" ∷ "y" ∷ []))

-- /^[b|bit|byte|o|octet]/i: the brackets make it a test of the first character.
unfoldable pub byte_test : Text → Bool
byte_test [] = false
byte_test (c ∷ s) = any (λ x. c == x || c + 32 == x) (codes "bityeoc") || c == b'|'

abbrev lower : Text → Text
lower = map (λ c. if leb b'A' c && leb c b'Z' then c + 32 else c)

abbrev upper : Text → Text
upper = map (λ c. if leb b'a' c && leb c b'z' then c - 32 else c)

-- The attributes of a header; an empty one counts as missing.
pub record Header : Type 0 where
  pub metric_name : Text
  pub name_full : Text
  pub name_abbr : Text
  -- $t.data('metric'), the patterns once they are built
  pub metric : Option (Regex × Regex)

abbrev or_text : Text → Text → Text
or_text [] t = t
or_text (c ∷ s) t = c ∷ s

abbrev second_or : List Text → Text
second_or (a ∷ (c ∷ b) ∷ more) = c ∷ b
second_or ((c ∷ a) ∷ more) = a
second_or more = []

abbrev first_or : List Text → Text
first_or [] = []
first_or (a ∷ more) = a

-- name, or its lower and upper case if the unit is binary; between them a `|`
abbrev cases_of : Bool → Text → Text
cases_of binary name = if binary then lower name ++ b'|' ∷ upper name else name

-- The two patterns, the long one first.
unfoldable pub build_regexes : Header → Regex × Regex
unfolding byte_test split_on new_regexp
build_regexes h =
    let unit = split_on b'|' (or_text h.metric_name (codes "m|meter")) in
    let long = or_text h.name_full (second_or unit) in
    let abbr = or_text h.name_abbr (first_or unit) in
    let binary = byte_test (long ++ abbr) in
    let long_unit =
      if is_empty h.name_full
      then cases_of binary long ++ b'|' ∷ cases_of binary abbr
      else h.name_full ++ b'|' ∷ h.name_abbr in
    let abbr_unit = or_text h.name_abbr (cases_of binary abbr) in
    (
      new_regexp (
          seq number_and_space
            (seq (group 0 long_prefix) (group 0 (words (split_on b'|' long_unit))))),
      new_regexp (
          seq number_and_space
            (seq (group 0 abbreviated_prefix) (group 0 (words (split_on b'|' abbr_unit))))),
    )

unfoldable pub with_regexes : Header → (Regex × Regex) × Header
unfolding build_regexes
with_regexes h = elim h.metric [
  | some r ↦ (r, h)
  | none ↦ (build_regexes h, record h { metric = some (build_regexes h) })
]

-- unit[3] and unit[4] of txt.match(regex[2]) || txt.match(regex[3])
unfoldable pub find_unit : Regex × Regex → Text → Option (Text × Text)
unfolding match capture
find_unit r txt = elim (match r.0 txt) [
  | some m ↦ some (dollar 3 m, dollar 4 m)
  | none ↦ elim (match r.1 txt) [ some m ↦ some (dollar 3 m, dollar 4 m) | none ↦ none ]
]

-- The loop over `prefixes`: the first one of whose names occurs in the unit's prefix.
unfoldable pub first_prefix : Text → List Prefix → Option Prefix
unfolding test
first_prefix s [] = none
first_prefix s (p ∷ ps) = elim (test (words p.names) s) [
  | true ↦ some p
  | false ↦ first_prefix s ps
]

-- prefixes[base][isBinary], none where the loop ends without a result
unfoldable pub factor_of : Text → Text → Option Factor
unfolding first_prefix prefixes byte_test
factor_of prefix unit = elim (first_prefix prefix prefixes) [
  | some p ↦ some (if byte_test unit then p.binary else p.decimal)
  | none ↦ none
]

-- [^\w,. \-()]
abbrev is_junk : ℕ → Bool
is_junk c =
    not (is_digit c || (leb b'a' c && leb c b'z') || (leb b'A' c && leb c b'Z') || c == b'_')
    && not (any (λ x. c == x) (codes ",. -()"))

-- `format_float` is $.tablesorter.formatFloat on the table, and `times` the product of floats.
module _ {Number : Type 0} (format_float : Text → Number) (times : Number → Factor → Number) where
  unfoldable pub format_metric : Text → Header → Number × Header
  unfolding with_regexes find_unit factor_of replace_all
  format_metric txt h =
      let num = format_float (replace_all (one is_junk) (λ m. []) txt) in
      let (r, h') = with_regexes h in
      (
        elim (find_unit r txt) [
          | none ↦ num
          | some (prefix, unit) ↦ elim (factor_of prefix unit) [ some f ↦ times num f | none ↦ num ]
        ],
        h',
      )
