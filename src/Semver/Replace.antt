-- ===== src/Semver/Replace.antt =====
-- static/js/semver.js: the texts of ranges are rewritten until only comparators are left. Each
-- function that the script passes to `replace` is a definition of its own, over the groups.
pub mod Laws
use isitsql.Common.{
  ℕ, Bool, true, false, ◌||◌, ◌&&◌, not, List, [], ◌∷◌, ◌++◌, map, Text, codes, text_eq,
  if◌then◌else◌, is_empty, join, trim,
}
use isitsql.Regex.{Regex, space, plus, new_regexp}
use isitsql.Regex.Ops.{Match, replace, split, capture}
use isitsql.Semver.Number.{to_number, number_text, plus_one}
use isitsql.Semver.Patterns.{
  tilde_re, tilde_loose_re, caret_re, caret_loose_re, x_range_re, x_range_loose_re, star_re,
}
use isitsql.Semver.Version.{Loose, is_loose, group_text}

-- text === literal
abbrev pub text_is : Text → Text → Bool
text_is s t = text_eq s t

-- isX(id): an undefined group is an empty text.
unfoldable pub is_x : Text → Bool
unfolding text_eq
is_x id = is_empty id || text_is id (codes "x") || text_is id (codes "X") || text_is id (codes "*")

-- +id + 1, as text
unfoldable pub next_text : Text → Text
unfolding to_number plus_one number_text
next_text id = number_text (plus_one (to_number id))

-- a . b . c
abbrev pub dotted_text : Text → Text → Text → Text
dotted_text a b c = a ++ b'.' ∷ b ++ b'.' ∷ c

-- '>=' + low + ' <' + high
abbrev pub between : Text → Text → Text
between low high = codes ">=" ++ low ++ codes " <" ++ high

-- pr.charAt(0) !== '-' ? '-' + pr : pr
unfoldable pub with_dash : Text → Text
unfolding text_eq
with_dash [] = b'-' ∷ []
with_dash (c ∷ s) = if text_is (c ∷ []) (codes "-") then c ∷ s else b'-' ∷ c ∷ s

abbrev zero_text : Text
zero_text = codes "0"

-- The function of replaceTilde.
unfoldable pub tilde_replacement : Text → Text → Text → Text → Text
unfolding is_x next_text with_dash
tilde_replacement major minor patch pr =
    if is_x major
    then []
    else if is_x minor
    then between (dotted_text major zero_text zero_text)
        (dotted_text (next_text major) zero_text zero_text)
    else if is_x patch
    then between (dotted_text major minor zero_text) (dotted_text major (next_text minor) zero_text)
    else if not (is_empty pr)
    then between (dotted_text major minor patch ++ with_dash pr)
        (dotted_text major (next_text minor) zero_text)
    else between (dotted_text major minor patch) (dotted_text major (next_text minor) zero_text)

-- The upper end of a caret range: the leftmost number that is not 0 goes up.
unfoldable pub caret_high : Text → Text → Text → Text
unfolding text_eq next_text
caret_high major minor patch =
    if text_is major zero_text
    then (if text_is minor zero_text
        then dotted_text major minor (next_text patch)
        else dotted_text major (next_text minor) zero_text)
    else dotted_text (next_text major) zero_text zero_text

-- The function of replaceCaret.
unfoldable pub caret_replacement : Text → Text → Text → Text → Text
unfolding is_x next_text with_dash caret_high text_eq
caret_replacement major minor patch pr =
    if is_x major
    then []
    else if is_x minor
    then between (dotted_text major zero_text zero_text)
        (dotted_text (next_text major) zero_text zero_text)
    else if is_x patch
    then (if text_is major zero_text
        then between (dotted_text major minor zero_text)
            (dotted_text major (next_text minor) zero_text)
        else between (dotted_text major minor zero_text)
            (dotted_text (next_text major) zero_text zero_text))
    else if not (is_empty pr)
    then between (dotted_text major minor patch ++ with_dash pr) (caret_high major minor patch)
    else between (dotted_text major minor patch) (caret_high major minor patch)

-- An x-range behind an operator: the missing numbers are 0, or the next number up.
unfoldable pub x_comparator : Text → Text → Text → Bool → Text
unfolding text_eq next_text
x_comparator gtlt major minor x_minor =
    if text_is gtlt (codes ">")
    then codes ">="
      ++ (if x_minor
          then dotted_text (next_text major) zero_text zero_text
          else dotted_text major (next_text minor) zero_text)
    else if text_is gtlt (codes "<=")
    then codes "<"
      ++ (if x_minor
          then dotted_text (next_text major) zero_text zero_text
          else dotted_text major (next_text minor) zero_text)
    else gtlt ++ dotted_text major (if x_minor then zero_text else minor) zero_text

-- The function of replaceXRange; `whole` is the matched text.
unfoldable pub x_range_replacement : Text → Text → Text → Text → Text → Text
unfolding is_x x_comparator next_text text_eq
x_range_replacement whole gtlt major minor patch =
    let x_major = is_x major in
    let x_minor = x_major || is_x minor in
    let x_patch = x_minor || is_x patch in
    let op = if text_is gtlt (codes "=") && x_patch then [] else gtlt in
    if x_major
    then (if text_is op (codes ">") || text_is op (codes "<") then codes "<0.0.0" else codes "*")
    else if not (is_empty op) && x_patch
    then x_comparator op major minor x_minor
    else if x_minor
    then between (dotted_text major zero_text zero_text)
        (dotted_text (next_text major) zero_text zero_text)
    else if x_patch
    then between (dotted_text major minor zero_text) (dotted_text major (next_text minor) zero_text)
    else whole

-- f(split on white space), joined again: the shape of replaceTildes, replaceCarets, replaceXRanges.
abbrev on_words : (Text → Text) → Text → Text
on_words f s = join (codes " ") (map f (split (plus space) s))

unfoldable pub replace_tilde : Text → Loose → Text
unfolding replace tilde_replacement capture new_regexp
replace_tilde comp loose =
    replace (if is_loose loose then tilde_loose_re else tilde_re)
      (λ m. tilde_replacement (group_text 1 m) (group_text 2 m) (group_text 3 m) (group_text 4 m))
      comp

unfoldable pub replace_tildes : Text → Loose → Text
unfolding replace_tilde split join trim
replace_tildes comp loose = on_words (λ c. replace_tilde c loose) (trim comp)

unfoldable pub replace_caret : Text → Loose → Text
unfolding replace caret_replacement capture new_regexp
replace_caret comp loose =
    replace (if is_loose loose then caret_loose_re else caret_re)
      (λ m. caret_replacement (group_text 1 m) (group_text 2 m) (group_text 3 m) (group_text 4 m))
      comp

unfoldable pub replace_carets : Text → Loose → Text
unfolding replace_caret split join trim
replace_carets comp loose = on_words (λ c. replace_caret c loose) (trim comp)

unfoldable pub replace_x_range : Text → Loose → Text
unfolding replace x_range_replacement capture new_regexp trim
replace_x_range comp loose =
    replace (if is_loose loose then x_range_loose_re else x_range_re)
      (λ m.
        x_range_replacement m.whole (group_text 1 m) (group_text 2 m) (group_text 3 m)
          (group_text 4 m))
      (trim comp)

unfoldable pub replace_x_ranges : Text → Loose → Text
unfolding replace_x_range split join
replace_x_ranges comp loose = on_words (λ c. replace_x_range c loose) comp

unfoldable pub replace_stars : Text → Text
unfolding replace trim new_regexp
replace_stars comp = replace star_re (λ m. []) (trim comp)

-- parseComparator(comp, loose)
unfoldable pub parse_comparator : Text → Loose → Text
unfolding replace_carets replace_tildes replace_x_ranges replace_stars
parse_comparator comp loose =
    replace_stars (replace_x_ranges (replace_tildes (replace_carets comp loose) loose) loose)

-- The lower end in hyphenReplace.
unfoldable pub hyphen_from : Text → Text → Text → Text → Text
unfolding is_x
hyphen_from from major minor patch =
    if is_x major
    then []
    else if is_x minor
    then codes ">=" ++ dotted_text major zero_text zero_text
    else if is_x patch
    then codes ">=" ++ dotted_text major minor zero_text
    else codes ">=" ++ from

-- The upper end: a number that is left out allows all that begins so.
unfoldable pub hyphen_to : Text → Text → Text → Text → Text → Text
unfolding is_x next_text
hyphen_to to major minor patch pr =
    if is_x major
    then []
    else if is_x minor
    then codes "<" ++ dotted_text (next_text major) zero_text zero_text
    else if is_x patch
    then codes "<" ++ dotted_text major (next_text minor) zero_text
    else if not (is_empty pr)
    then codes "<=" ++ dotted_text major minor patch ++ b'-' ∷ pr
    else codes "<=" ++ to

unfoldable pub hyphen_replace : Match → Text
unfolding hyphen_from hyphen_to capture trim
hyphen_replace m = trim (
    hyphen_from (group_text 1 m) (group_text 2 m) (group_text 3 m) (group_text 4 m)
    ++ codes " "
    ++ hyphen_to (group_text 7 m) (group_text 8 m) (group_text 9 m) (group_text 10 m)
        (group_text 11 m))
