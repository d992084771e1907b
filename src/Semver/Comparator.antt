-- ===== src/Semver/Comparator.antt =====
-- static/js/semver.js: `cmp`, the class Comparator, and sorting.
pub mod Laws
use isitsql.Common.{
  Bool, true, false, not, Option, none, some, List, [], ◌∷◌, ◌++◌, Text, codes, text_eq,
  if◌then◌else◌, is_empty, Ordering,
}
use isitsql.Regex.{new_regexp}
use isitsql.Regex.Ops.{Match, match, capture}
use isitsql.Semver.Patterns.{comparator_re, comparator_loose_re}
use isitsql.Semver.Version.{
  Result, ok, throw, ◌>>=◌, Loose, is_loose, same_loose, SemVer, VersionArg, string, semver,
  new_semver, group_text, invalid_operator, invalid_comparator,
}
use isitsql.Semver.Compare.{compare_versions, rcompare, gt, lt, eq, neq, gte, lte, is_gt}
use isitsql.Semver.Replace.{text_is}

-- typeof a === 'object' ? a.version : a
abbrev pub arg_text : VersionArg → Text
arg_text (string s) = s
arg_text (semver v) = v.version

-- cmp(a, op, b, loose)
unfoldable pub cmp : VersionArg → Text → VersionArg → Loose → Result Bool
unfolding text_eq
cmp a op b loose =
    if text_is op (codes "===")
    then ok (text_eq (arg_text a) (arg_text b))
    else if text_is op (codes "!==")
    then ok (not (text_eq (arg_text a) (arg_text b)))
    else if is_empty op
    then eq a b loose
    else if text_is op (codes "=")
    then eq a b loose
    else if text_is op (codes "==")
    then eq a b loose
    else if text_is op (codes "!=")
    then neq a b loose
    else if text_is op (codes ">")
    then gt a b loose
    else if text_is op (codes ">=")
    then gte a b loose
    else if text_is op (codes "<")
    then lt a b loose
    else if text_is op (codes "<=")
    then lte a b loose
    else throw invalid_operator

-- A comparator; `none` for its version is the script's ANY. An operator that the pattern left
-- undefined is empty here: the script treats the two alike.
pub record Comparator : Type 0 where
  pub loose : Loose
  pub operator : Text
  pub semver : Option SemVer
  pub value : Text

pub data ComparatorArg : Type 0 where
  comp_text : Text → ComparatorArg
  comparator : Comparator → ComparatorArg

abbrev plain_operator : Text → Text
plain_operator op = if text_is op (codes "=") then [] else op

-- The rest of the constructor, from the version that stands behind the operator.
abbrev with_version : Loose → Text → Text → Result Comparator
with_version loose op [] = ok (record { loose = loose; operator = op; semver = none; value = [] })
with_version loose op (c ∷ s) = new_semver (string (c ∷ s)) loose >>= λ v.
    ok (record { loose = loose; operator = op; semver = some v; value = op ++ v.version })

abbrev of_comparator_match : Loose → Option Match → Result Comparator
of_comparator_match loose none = throw invalid_comparator
of_comparator_match loose (some m) =
    with_version loose (plain_operator (group_text 1 m)) (group_text 2 m)

-- The constructor with Comparator.prototype.parse, from a string.
unfoldable pub comparator_of_text : Text → Loose → Result Comparator
unfolding match new_semver capture text_eq new_regexp
comparator_of_text comp loose =
    of_comparator_match loose
      (match (if is_loose loose then comparator_loose_re else comparator_re) comp)

-- Comparator(comp, loose)
unfoldable pub new_comparator : ComparatorArg → Loose → Result Comparator
unfolding comparator_of_text
new_comparator (comp_text s) loose = comparator_of_text s loose
new_comparator (comparator c) loose =
    if same_loose c.loose loose then ok c else comparator_of_text c.value loose

abbrev parsed_arg : VersionArg → Loose → Result SemVer
parsed_arg (string s) loose = new_semver (string s) loose
parsed_arg (semver v) loose = ok v

-- Comparator.prototype.test
unfoldable pub test_comparator : Comparator → VersionArg → Result Bool
unfolding cmp new_semver gt lt eq neq gte lte compare_versions
test_comparator c version = elim c.semver [
  | none ↦ ok true
  | some w ↦ parsed_arg version c.loose >>= λ v. cmp (semver v) c.operator (semver w) c.loose
]

-- list.sort(order): a stable sort, here by insertion. An order that throws ends it.
module _ (order : VersionArg → VersionArg → Result Ordering) where
  unfoldable pub insert_sorted : VersionArg → List VersionArg → Result (List VersionArg)
  insert_sorted a [] = ok (a ∷ [])
  insert_sorted a (b ∷ bs) = order a b >>= λ c. elim (is_gt c) [
    | true ↦ insert_sorted a bs >>= λ rest. ok (b ∷ rest)
    | false ↦ ok (a ∷ b ∷ bs)
  ]

  unfoldable pub sort_by : List VersionArg → Result (List VersionArg)
  unfolding insert_sorted
  sort_by [] = ok []
  sort_by (a ∷ list) = sort_by list >>= λ rest. insert_sorted a rest

-- sort(list, loose), rsort(list, loose)
unfoldable pub sort : List VersionArg → Loose → Result (List VersionArg)
unfolding sort_by compare_versions
sort list loose = sort_by (λ a b. compare_versions a b loose) list

unfoldable pub rsort : List VersionArg → Loose → Result (List VersionArg)
unfolding sort_by rcompare
rsort list loose = sort_by (λ a b. rcompare a b loose) list
