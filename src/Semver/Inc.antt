-- ===== src/Semver/Inc.antt =====
-- static/js/semver.js: `inc`, the method and the function, and `diff`.
pub mod Laws
pub mod Differences
use isitsql.Common.{
  ℕ, zero, suc, ◌+◌, Bool, true, false, not, ◌||◌, ◌&&◌, Option, none, some, List, [], ◌∷◌, ◌++◌,
  map, Text, text_eq, ◌==◌, if◌then◌else◌, is_empty, reverse, leb, length,
}
use isitsql.Regex.{
  Regex, at_start, at_end, alt, seq, opt, one, plus, char, lit, all_of, is_digit, digit, new_regexp,
}
use isitsql.Regex.Ops.{test}
use isitsql.Semver.Number.{plus_one}
use isitsql.Common.{codes}
use isitsql.Semver.Version.{
  Error, Result, ok, throw, ◌>>=◌, or_null, Loose, Ident, num, str, SemVer, VersionArg, string,
  semver, new_semver, format, version_text, parse, invalid_increment, null_property,
}
use isitsql.Semver.Compare.{eq, compare_versions}

-- The argument `release`; any other string is `unknown`.
pub data Release : Type 0 where
  premajor preminor prepatch prerelease major minor patch pre unknown : Release

-- The backward loop of the case 'pre': the last number goes up by one. `none` if there is none.
unfoldable pub bump_last : List Ident → Option (List Ident)
unfolding plus_one
bump_last [] = none
bump_last (i ∷ is) = elim (bump_last is) [
  | some js ↦ some (i ∷ js)
  | none ↦ elim i [ num n ↦ some (num (plus_one n) ∷ is) | str s ↦ none ]
]

unfoldable pub bump_or_push : List Ident → List Ident
unfolding bump_last
bump_or_push is = elim (bump_last is) [ some js ↦ js | none ↦ is ++ num 0 ∷ [] ]

-- Number(text) is no NaN, on the characters of identifiers: decimal numbers with an exponent,
-- Infinity, and the literals of base 16, 2 and 8.
abbrev number_re : Regex
number_re = new_regexp (
    seq at_start (
      seq
        (alt
          (seq (opt (char b'-')) (
            alt (lit (codes "Infinity")) (
              seq (plus digit) (
                opt (
                  all_of (one (λ c. c == b'e' || c == b'E'))
                    (opt (char b'-') ∷ plus digit ∷ []))))))
          (seq (char b'0') (
            alt
              (seq (one (λ c. c == b'x' || c == b'X')) (
                plus (
                  one
                    (λ c. is_digit c || (leb b'a' c && leb c b'f') || (leb b'A' c && leb c b'F')))))
              (alt
                (seq (one (λ c. c == b'b' || c == b'B'))
                  (plus (one (λ c. leb b'0' c && leb c b'1'))))
                (seq (one (λ c. c == b'o' || c == b'O'))
                  (plus (one (λ c. leb b'0' c && leb c b'7'))))))))
        at_end))

-- isNaN(is[1])
unfoldable pub second_is_nan : List Ident → Bool
unfolding test new_regexp
second_is_nan (i ∷ num n ∷ is) = false
second_is_nan (i ∷ str s ∷ is) = not (test number_re s)
second_is_nan is = true

-- The part of the case 'pre' after the loop. An empty identifier counts as none.
unfoldable pub with_identifier : Option Text → List Ident → List Ident
unfolding second_is_nan text_eq
with_identifier none is = is
with_identifier (some []) is = is
with_identifier (some (c ∷ s)) (str t ∷ is) =
    if text_eq t (c ∷ s)
    then (if second_is_nan (str t ∷ is) then str (c ∷ s) ∷ num 0 ∷ [] else str t ∷ is)
    else str (c ∷ s) ∷ num 0 ∷ []
with_identifier (some (c ∷ s)) is = str (c ∷ s) ∷ num 0 ∷ []

-- case 'pre'
unfoldable pub inc_pre : Option Text → SemVer → SemVer
unfolding bump_or_push with_identifier
inc_pre identifier v = record v {
  prerelease =
      with_identifier identifier
        (if is_empty v.prerelease then num 0 ∷ [] else bump_or_push v.prerelease);
}

-- case 'major': a pre-major version goes up to its own major version.
unfoldable pub inc_major : SemVer → SemVer
unfolding plus_one
inc_major v = record v {
  major =
      if not (v.minor == 0) || not (v.patch == 0) || is_empty v.prerelease
      then plus_one v.major
      else v.major;
  minor = 0;
  patch = 0;
  prerelease = [];
}

-- case 'minor'
unfoldable pub inc_minor : SemVer → SemVer
unfolding plus_one
inc_minor v = record v {
  minor = if not (v.patch == 0) || is_empty v.prerelease then plus_one v.minor else v.minor;
  patch = 0;
  prerelease = [];
}

-- case 'patch'
unfoldable pub inc_patch : SemVer → SemVer
unfolding plus_one
inc_patch v = record v {
  patch = if is_empty v.prerelease then plus_one v.patch else v.patch;
  prerelease = [];
}

abbrev no_prerelease : SemVer → SemVer
no_prerelease v = record v { prerelease = [] }

-- The cases of the switch, the calls of `inc` in them included. Each such call formats the version
-- too, which the last `format` does again from the same numbers.
unfoldable pub inc_case : Release → Option Text → SemVer → Result SemVer
unfolding inc_pre inc_major inc_minor inc_patch plus_one
inc_case premajor id v =
    ok (inc_pre id (record v { prerelease = []; patch = 0; minor = 0; major = plus_one v.major }))
inc_case preminor id v =
    ok (inc_pre id (record v { prerelease = []; patch = 0; minor = plus_one v.minor }))
inc_case prepatch id v = ok (inc_pre id (inc_patch (no_prerelease v)))
inc_case prerelease id v = ok (inc_pre id (if is_empty v.prerelease then inc_patch v else v))
inc_case major id v = ok (inc_major v)
inc_case minor id v = ok (inc_minor v)
inc_case patch id v = ok (inc_patch v)
inc_case pre id v = ok (inc_pre id v)
inc_case unknown id v = throw invalid_increment

-- SemVer.prototype.inc(release, identifier)
unfoldable pub inc_semver : Release → Option Text → SemVer → Result SemVer
unfolding inc_case format version_text
inc_semver release id v = inc_case release id v >>= λ w. ok (format w)

-- The third argument of `inc` may be the identifier, which then stands for the fourth.
pub data LooseArg : Type 0 where
  given : Loose → LooseArg
  in_place_of : Text → LooseArg

unfoldable pub inc : VersionArg → Release → LooseArg → Option Text → Option Text
unfolding inc_semver new_semver
inc version release (given loose) id =
    or_null (new_semver version loose >>= λ v. inc_semver release id v >>= λ w. ok w.version)
inc version release (in_place_of id) _ =
    or_null (new_semver version none >>= λ v. inc_semver release (some id) v >>= λ w. ok w.version)

-- 'pre' + key
abbrev pre_of : Release → Release
pre_of major = premajor
pre_of minor = preminor
pre_of patch = prepatch
pre_of r = r

-- The loop over the keys: they come in the order in which the constructor sets them.
unfoldable pub first_difference : SemVer → SemVer → Option Release
first_difference v w =
    if not (v.major == w.major)
    then some major
    else if not (v.minor == w.minor)
    then some minor
    else if not (v.patch == w.patch)
    then some patch
    else none

-- The answer for two parsed versions that are not equal.
unfoldable pub diff_parsed : SemVer → SemVer → Option Release
unfolding first_difference
diff_parsed v w =
    if not (is_empty v.prerelease) || not (is_empty w.prerelease)
    then elim (first_difference v w) [ some key ↦ some (pre_of key) | none ↦ some prerelease ]
    else first_difference v w

abbrev diff_of : Option SemVer → Option SemVer → Result (Option Release)
diff_of (some v) (some w) = ok (diff_parsed v w)
diff_of none w = throw null_property
diff_of (some v) none = throw null_property

-- diff(version1, version2): `none` is null. Neither parse is checked for null.
unfoldable pub diff : VersionArg → VersionArg → Result (Option Release)
unfolding diff_parsed parse eq compare_versions
diff a b = eq a b none >>= λ same. if same then ok none else diff_of (parse a none) (parse b none)
