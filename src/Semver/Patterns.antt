-- ===== src/Semver/Patterns.antt =====
-- static/js/semver.js: the table of pattern sources `src` and the compiled patterns `re`. A part
-- that the script splices into larger sources has its groups unnumbered (`group 0`); `new_regexp`
-- numbers them where the script compiles a source.
use isitsql.Common.{ℕ, Bool, ◌||◌, ◌&&◌, [], ◌∷◌, leb, ◌==◌, codes, is_space, Text, ◌++◌}
use isitsql.Regex.{
  Regex, at_start, at_end, one, seq, alt, star, opt, group, plus, char, all_of, one_of, is_digit,
  digit, space, new_regexp,
}
use isitsql.Regex.Ops.{Match, dollar}

abbrev pub max_length : ℕ
max_length = 256

-- Number.MAX_SAFE_INTEGER
abbrev pub max_safe_integer : ℕ
max_safe_integer = 9007199254740991

-- ## Identifiers

abbrev pub numeric_identifier : Regex
numeric_identifier = alt (char b'0') (seq (one (λ c. leb b'1' c && leb c b'9')) (star digit))

abbrev pub numeric_identifier_loose : Regex
numeric_identifier_loose = plus digit

abbrev pub is_letter : ℕ → Bool
is_letter c = (leb b'a' c && leb c b'z') || (leb b'A' c && leb c b'Z')

abbrev pub is_identifier_char : ℕ → Bool
is_identifier_char c = is_letter c || is_digit c || c == b'-'

abbrev pub non_numeric_identifier : Regex
non_numeric_identifier =
    all_of (star digit) (one (λ c. is_letter c || c == b'-') ∷ star (one is_identifier_char) ∷ [])

-- ## Main version

abbrev dot : Regex
dot = char b'.'

abbrev three_of : Regex → Regex
three_of r = all_of (group 0 r) (dot ∷ group 0 r ∷ dot ∷ group 0 r ∷ [])

abbrev pub main_version : Regex
main_version = three_of numeric_identifier

abbrev pub main_version_loose : Regex
main_version_loose = three_of numeric_identifier_loose

-- ## Pre-release and build

abbrev pub prerelease_identifier : Regex
prerelease_identifier = alt numeric_identifier non_numeric_identifier

abbrev pub prerelease_identifier_loose : Regex
prerelease_identifier_loose = alt numeric_identifier_loose non_numeric_identifier

-- (r(?:\.r)*)
abbrev dotted : Regex → Regex
dotted r = group 0 (seq r (star (seq dot r)))

abbrev pub prerelease_part : Regex
prerelease_part = seq (char b'-') (dotted prerelease_identifier)

abbrev pub prerelease_part_loose : Regex
prerelease_part_loose = seq (opt (char b'-')) (dotted prerelease_identifier_loose)

abbrev pub build_identifier : Regex
build_identifier = plus (one is_identifier_char)

abbrev pub build_part : Regex
build_part = seq (char b'+') (dotted build_identifier)

-- ## Whole versions

abbrev pub full_plain : Regex
full_plain = all_of (opt (char b'v')) (main_version ∷ opt prerelease_part ∷ opt build_part ∷ [])

-- [v=\s]*
abbrev pub loose_prefix : Regex
loose_prefix = star (one (λ c. c == b'v' || c == b'=' || is_space c))

abbrev pub loose_plain : Regex
loose_plain =
    all_of loose_prefix (main_version_loose ∷ opt prerelease_part_loose ∷ opt build_part ∷ [])

abbrev anchored : Regex → Regex
anchored r = seq at_start (seq r at_end)

abbrev pub full_re : Regex
full_re = new_regexp (anchored full_plain)

abbrev pub loose_re : Regex
loose_re = new_regexp (anchored loose_plain)

-- ((?:<|>)?=?)
abbrev pub gtlt : Regex
gtlt = group 0 (seq (opt (alt (char b'<') (char b'>'))) (opt (char b'=')))

-- ## X-ranges

abbrev or_x : Regex → Regex
or_x r = one_of r (char b'x' ∷ char b'X' ∷ char b'*' ∷ [])

abbrev pub x_range_identifier_loose : Regex
x_range_identifier_loose = or_x numeric_identifier_loose

abbrev pub x_range_identifier : Regex
x_range_identifier = or_x numeric_identifier

abbrev x_range_of : Regex → Regex → Regex
x_range_of id pre = all_of loose_prefix (
    group 0 id
    ∷ opt (
        all_of dot
          (group 0 id ∷ opt (all_of dot (group 0 id ∷ opt pre ∷ opt build_part ∷ [])) ∷ []))
    ∷ [])

abbrev pub x_range_plain : Regex
x_range_plain = x_range_of x_range_identifier prerelease_part

abbrev pub x_range_plain_loose : Regex
x_range_plain_loose = x_range_of x_range_identifier_loose prerelease_part_loose

abbrev spaces : Regex
spaces = star space

abbrev pub x_range_re : Regex
x_range_re = new_regexp (anchored (all_of gtlt (spaces ∷ x_range_plain ∷ [])))

abbrev pub x_range_loose_re : Regex
x_range_loose_re = new_regexp (anchored (all_of gtlt (spaces ∷ x_range_plain_loose ∷ [])))

-- ## Tilde ranges

abbrev pub lone_tilde : Regex
lone_tilde = seq (char b'~') (opt (char b'>'))

abbrev pub tilde_trim_re : Regex
tilde_trim_re = new_regexp (all_of (group 0 spaces) (lone_tilde ∷ plus space ∷ []))

-- '$1~'
abbrev pub tilde_trim_replace : Match → Text
tilde_trim_replace m = dollar 1 m ++ codes "~"

abbrev pub tilde_re : Regex
tilde_re = new_regexp (anchored (seq lone_tilde x_range_plain))

abbrev pub tilde_loose_re : Regex
tilde_loose_re = new_regexp (anchored (seq lone_tilde x_range_plain_loose))

-- ## Caret ranges

abbrev pub lone_caret : Regex
lone_caret = char b'^'

abbrev pub caret_trim_re : Regex
caret_trim_re = new_regexp (all_of (group 0 spaces) (lone_caret ∷ plus space ∷ []))

-- '$1^'
abbrev pub caret_trim_replace : Match → Text
caret_trim_replace m = dollar 1 m ++ codes "^"

abbrev pub caret_re : Regex
caret_re = new_regexp (anchored (seq lone_caret x_range_plain))

abbrev pub caret_loose_re : Regex
caret_loose_re = new_regexp (anchored (seq lone_caret x_range_plain_loose))

-- ## Comparators

-- ^ gtlt \s* (r) $ | ^$
abbrev comparator_of : Regex → Regex
comparator_of r = alt (anchored (all_of gtlt (spaces ∷ group 0 r ∷ []))) (seq at_start at_end)

abbrev pub comparator_loose_re : Regex
comparator_loose_re = new_regexp (comparator_of loose_plain)

abbrev pub comparator_re : Regex
comparator_re = new_regexp (comparator_of full_plain)

abbrev pub comparator_trim_re : Regex
comparator_trim_re =
    new_regexp
      (all_of (group 0 spaces) (gtlt ∷ spaces ∷ group 0 (alt loose_plain x_range_plain) ∷ []))

-- '$1$2$3'
abbrev pub comparator_trim_replace : Match → Text
comparator_trim_replace m = dollar 1 m ++ dollar 2 m ++ dollar 3 m

-- ## Hyphen ranges and stars

abbrev hyphen_of : Regex → Regex
hyphen_of r =
    anchored
      (all_of spaces (group 0 r ∷ plus space ∷ char b'-' ∷ plus space ∷ group 0 r ∷ spaces ∷ []))

abbrev pub hyphen_range_re : Regex
hyphen_range_re = new_regexp (hyphen_of x_range_plain)

abbrev pub hyphen_range_loose_re : Regex
hyphen_range_loose_re = new_regexp (hyphen_of x_range_plain_loose)

abbrev pub star_re : Regex
star_re = new_regexp (
    all_of (opt (group 0 (alt (char b'<') (char b'>'))))
      (opt (char b'=') ∷ spaces ∷ char b'*' ∷ []))

-- /^[=v]+/, of `clean`
abbrev pub clean_re : Regex
clean_re = new_regexp (seq at_start (plus (one (λ c. c == b'=' || c == b'v'))))
