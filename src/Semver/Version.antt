-- ===== src/Semver/Version.antt =====
-- static/js/semver.js: the class SemVer (its constructor and `format`), `parse`, `valid`, `clean`.
-- A version is given as a string or as a SemVer, a `VersionArg`; `loose` may be left out, which differs from `false` where the script compares it.
-- Thrown errors are values of `Error`. `debug` only writes to the console and is left out.
pub mod RoundTrip
pub mod Releases
pub mod Parsed
use isitsql.Common.{
  ℕ, Bool, true, false, ◌&&◌, Option, none, some, List, [], ◌∷◌, ◌++◌, map, Text, codes, ltb, ◌==◌,
  if◌then◌else◌, length, join, trim,
}
use isitsql.Regex.{Regex, new_regexp}
use isitsql.Regex.Ops.{Match, match, test, capture, replace}
use isitsql.Semver.Number.{to_number, number_text, is_numeric}
use isitsql.Semver.Patterns.{full_re, loose_re, max_length, max_safe_integer, clean_re}

-- The errors that the library throws. `null_property` and `not_a_function` are the language's own
-- TypeErrors, for a property of `null` and a method that is not there.
pub data Error : Type 0 where
  invalid_version invalid_major invalid_minor invalid_patch too_long : Error
  invalid_increment invalid_operator invalid_comparator invalid_range invalid_hilo : Error
  null_property not_a_function : Error

pub data Result {ℓ} (A : Type ℓ) : Type ℓ where
  ok : A → Result A
  throw : Error → Result A

infixl 5 ◌>>=◌
abbrev pub ◌>>=◌ {ℓ κ} : {A : Type ℓ} {B : Type κ} → Result A → (A → Result B) → Result B
ok a >>= f = f a
throw e >>= f = throw e

-- try { return … } catch (er) { return null; }
abbrev pub or_null {ℓ} : {A : Type ℓ} → Result A → Option A
or_null (ok a) = some a
or_null (throw e) = none

abbrev pub Loose : Type 0
Loose = Option Bool

abbrev pub is_loose : Loose → Bool
is_loose none = false
is_loose (some b) = b

-- a === b
abbrev pub same_loose : Loose → Loose → Bool
same_loose none none = true
same_loose (some true) (some true) = true
same_loose (some false) (some false) = true
same_loose _ _ = false

-- A pre-release identifier: a number, or a string.
pub data Ident : Type 0 where
  num : ℕ → Ident
  str : Text → Ident

pub record SemVer : Type 0 where
  pub loose : Loose
  pub raw : Text
  pub major : ℕ
  pub minor : ℕ
  pub patch : ℕ
  pub prerelease : List Ident
  pub build : List Text
  pub version : Text

pub data VersionArg : Type 0 where
  string : Text → VersionArg
  semver : SemVer → VersionArg

unfoldable pub ident_text : Ident → Text
unfolding number_text
ident_text (num n) = number_text n
ident_text (str s) = s

-- The numbers of a version, with dots between.
unfoldable pub main_text : ℕ → ℕ → ℕ → Text
unfolding number_text
main_text a b c = number_text a ++ (b'.' ∷ (number_text b ++ (b'.' ∷ number_text c)))

unfoldable pub version_text : ℕ → ℕ → ℕ → List Ident → Text
unfolding main_text ident_text join
version_text a b c [] = main_text a b c
version_text a b c (i ∷ is) = main_text a b c ++ b'-' ∷ join (codes ".") (map ident_text (i ∷ is))

-- SemVer.prototype.format
unfoldable pub format : SemVer → SemVer
format v = record v { version = version_text v.major v.minor v.patch v.prerelease }

-- s.split(c), for one code unit
unfoldable pub split_on_from : ℕ → Text → Text → List Text
split_on_from c part [] = part ∷ []
split_on_from c part (x ∷ s) = elim (x == c) [
  | true ↦ part ∷ split_on_from c [] s
  | false ↦ split_on_from c (part ++ x ∷ []) s
]

unfoldable pub split_on : ℕ → Text → List Text
unfolding split_on_from
split_on c s = split_on_from c [] s

-- The function that is mapped over the identifiers: it makes numbers of the numeric ones.
unfoldable pub numberify : Text → Ident
unfolding is_numeric to_number
numberify id =
    if is_numeric id && ltb (to_number id) max_safe_integer then num (to_number id) else str id

-- m[i], as text; an undefined or empty group is empty here, as both count as false.
abbrev pub group_text : ℕ → Match → Text
group_text i m = elim (capture i m.captures) [ some s ↦ s | none ↦ [] ]

abbrev pub identifiers_of : Text → List Text
identifiers_of [] = []
identifiers_of (c ∷ s) = split_on b'.' (c ∷ s)

abbrev pub version_re : Loose → Regex
version_re loose = if is_loose loose then loose_re else full_re

-- The constructor from the match on: the numbers are checked, one after the other.
unfoldable pub from_match : Text → Loose → Match → Result SemVer
from_match raw loose m =
    let major = to_number (group_text 1 m) in
    let minor = to_number (group_text 2 m) in
    let patch = to_number (group_text 3 m) in
    if ltb max_safe_integer major
    then throw invalid_major
    else if ltb max_safe_integer minor
    then throw invalid_minor
    else if ltb max_safe_integer patch
    then throw invalid_patch
    else ok (
        format (record {
          loose = loose;
          raw = raw;
          major = major;
          minor = minor;
          patch = patch;
          prerelease = map numberify (identifiers_of (group_text 4 m));
          build = identifiers_of (group_text 5 m);
          version = [];
        }))

abbrev pub of_found : Text → Loose → Option Match → Result SemVer
of_found s loose none = throw invalid_version
of_found s loose (some m) = from_match s loose m

-- The constructor from a string.
unfoldable pub from_text : Text → Loose → Result SemVer
unfolding from_match match trim new_regexp capture to_number numberify split_on format version_text
from_text s loose =
    let parsed = of_found s loose (match (version_re loose) (trim s)) in
    if ltb max_length (length s) then throw too_long else parsed

-- SemVer(version, loose)
unfoldable pub new_semver : VersionArg → Loose → Result SemVer
unfolding from_text
new_semver (semver v) loose = if same_loose v.loose loose then ok v else from_text v.version loose
new_semver (string s) loose = from_text s loose

-- parse(version, loose): `null` is `none`.
unfoldable pub parse : VersionArg → Loose → Option SemVer
unfolding new_semver test
parse (semver v) loose = some v
parse (string s) loose =
    if ltb max_length (length s)
    then none
    else if test (version_re loose) s
    then or_null (new_semver (string s) loose)
    else none

abbrev pub version_or_null : Option SemVer → Option Text
version_or_null none = none
version_or_null (some v) = some v.version

-- valid(version, loose)
unfoldable pub valid : VersionArg → Loose → Option Text
unfolding parse
valid v loose = version_or_null (parse v loose)

-- clean(version, loose), of a string
unfoldable pub clean : Text → Loose → Option Text
unfolding parse replace trim new_regexp
clean s loose = version_or_null (parse (string (replace clean_re (λ m. []) (trim s))) loose)
