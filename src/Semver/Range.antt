-- ===== src/Semver/Range.antt =====
-- static/js/semver.js: the class Range, `satisfies`, `maxSatisfying`, `validRange`, `toComparators`.
pub mod Holds
pub mod Laws
pub mod Maximum
use isitsql.Common.{
  ℕ, zero, suc, Bool, true, false, not, ◌&&◌, ◌==◌, Option, none, some, List, [], ◌∷◌, ◌++◌, map,
  Text, codes, if◌then◌else◌, is_empty, filter, join, trim,
}
use isitsql.Regex.{Regex, char, seq, all_of, star, plus, space, new_regexp}
use isitsql.Regex.Ops.{replace, replace_all, split, test}
use isitsql.Semver.Patterns.{
  comparator_re, comparator_loose_re, comparator_trim_re, comparator_trim_replace, tilde_trim_re,
  tilde_trim_replace, caret_trim_re, caret_trim_replace, hyphen_range_re, hyphen_range_loose_re,
}
use isitsql.Semver.Version.{
  Result, ok, throw, ◌>>=◌, or_null, Loose, is_loose, same_loose, SemVer, VersionArg, string,
  semver, new_semver, invalid_range, not_a_function, split_on,
}
use isitsql.Semver.Compare.{rcompare}
use isitsql.Semver.Replace.{parse_comparator, hyphen_replace}
use isitsql.Semver.Comparator.{Comparator, comparator_of_text, test_comparator, rsort}

pub record Range : Type 0 where
  pub loose : Loose
  pub raw : Text
  pub set : List (List Comparator)
  pub range : Text

pub data RangeArg : Type 0 where
  range_text : Text → RangeArg
  of_range : Range → RangeArg

abbrev pub traverse {ℓ κ} : {A : Type ℓ} {B : Type κ} → (A → Result B) → List A → Result (List B)
traverse f [] = ok []
traverse f (x ∷ xs) = f x >>= λ y. traverse f xs >>= λ ys. ok (y ∷ ys)

-- The steps of parseRange that only rewrite the text, up to the split into comparators.
unfoldable pub normalize_range : Text → Loose → Text
unfolding replace replace_all hyphen_replace split join trim new_regexp
normalize_range s loose =
    let hyphens =
      replace (if is_loose loose then hyphen_range_loose_re else hyphen_range_re) hyphen_replace
        (trim s) in
    let comparators = replace_all comparator_trim_re comparator_trim_replace hyphens in
    let tildes = replace_all tilde_trim_re tilde_trim_replace comparators in
    let carets = replace_all caret_trim_re caret_trim_replace tildes in
    join (codes " ") (split (plus space) carets)

-- The texts of the comparators; in loose mode those that are none are thrown out.
unfoldable pub comparator_texts : Text → Loose → List Text
unfolding normalize_range parse_comparator split_on split join test new_regexp
comparator_texts s loose =
    let parts = split (plus space) (
      join (codes " ")
        (map (λ c. parse_comparator c loose) (split_on b' ' (normalize_range s loose)))) in
    if is_loose loose then filter (λ c. test comparator_loose_re c) parts else parts

-- Range.prototype.parseRange
unfoldable pub parse_range : Text → Loose → Result (List Comparator)
unfolding comparator_texts comparator_of_text
parse_range s loose = traverse (λ c. comparator_of_text c loose) (comparator_texts s loose)

-- Range.prototype.format
unfoldable pub format_range : List (List Comparator) → Text
unfolding join trim
format_range set =
    trim (join (codes "||") (map (λ comps. trim (join (codes " ") (map (λ c. c.value) comps))) set))

-- \s*\|\|\s*
abbrev bars : Regex
bars = all_of (star space) (char b'|' ∷ char b'|' ∷ star space ∷ [])

abbrev of_sets : Text → Loose → List (List Comparator) → Result Range
of_sets raw loose [] = throw invalid_range
of_sets raw loose (c ∷ cs) =
    ok (record { loose = loose; raw = raw; set = c ∷ cs; range = format_range (c ∷ cs) })

-- The constructor from a string.
unfoldable pub range_of_text : Text → Loose → Result Range
unfolding parse_range format_range split trim
range_of_text s loose = traverse (λ part. parse_range (trim part) loose) (split bars s) >>= λ sets.
    of_sets s loose (filter (λ c. not (is_empty c)) sets)

-- Range(range, loose): a Range of the other looseness is taken for a string.
unfoldable pub new_range : RangeArg → Loose → Result Range
unfolding range_of_text
new_range (of_range r) loose = if same_loose r.loose loose then ok r else throw not_a_function
new_range (range_text s) loose = range_of_text s loose

-- toComparators(range, loose)
unfoldable pub to_comparators : RangeArg → Loose → Result (List (List Text))
unfolding new_range join trim split_on
to_comparators r loose = new_range r loose >>= λ parsed.
    ok
      (map (λ comps. split_on b' ' (trim (join (codes " ") (map (λ c. c.value) comps)))) parsed.set)

-- The first loop of testSet: all the comparators hold.
unfoldable pub all_hold : List Comparator → SemVer → Result Bool
unfolding test_comparator
all_hold [] v = ok true
all_hold (c ∷ cs) v =
    test_comparator c (semver v) >>= λ b. elim b [ true ↦ all_hold cs v | false ↦ ok false ]

-- allowed.major === version.major && …
abbrev same_main : SemVer → SemVer → Bool
same_main w v = w.major == v.major && w.minor == v.minor && w.patch == v.patch

-- The second loop: some comparator lets pre-releases of this version in.
unfoldable pub pre_allowed : List Comparator → SemVer → Bool
pre_allowed [] v = false
pre_allowed (c ∷ cs) v = elim c.semver [
  | none ↦ true
  | some w ↦ if not (is_empty w.prerelease) && same_main w v then true else pre_allowed cs v
]

-- testSet(set, version)
unfoldable pub test_set : List Comparator → SemVer → Result Bool
unfolding all_hold pre_allowed
test_set set v =
    all_hold set v >>= λ b. ok (b && (if is_empty v.prerelease then true else pre_allowed set v))

-- The loop of Range.prototype.test: one set suffices.
unfoldable pub test_sets : List (List Comparator) → SemVer → Result Bool
unfolding test_set
test_sets [] v = ok false
test_sets (s ∷ ss) v = test_set s v >>= λ b. elim b [ true ↦ ok true | false ↦ test_sets ss v ]

-- Range.prototype.test. An empty string counts as no version.
unfoldable pub test_range : Range → VersionArg → Result Bool
unfolding test_sets new_semver
test_range r (string []) = ok false
test_range r (string (c ∷ s)) = new_semver (string (c ∷ s)) r.loose >>= λ v. test_sets r.set v
test_range r (semver v) = test_sets r.set v

-- satisfies(version, range, loose): a range that cannot be read is satisfied by nothing.
unfoldable pub satisfies : VersionArg → RangeArg → Loose → Result Bool
unfolding new_range test_range
satisfies version r loose = elim (new_range r loose) [
  | ok parsed ↦ test_range parsed version
  | throw e ↦ ok false
]

-- list.filter(test)
unfoldable pub filter_by : (VersionArg → Result Bool) → List VersionArg → Result (List VersionArg)
filter_by p [] = ok []
filter_by p (v ∷ vs) = p v >>= λ b. filter_by p vs >>= λ rest. ok (if b then v ∷ rest else rest)

-- list[0] || null: an empty string counts as nothing too.
abbrev pub first_or_null : List VersionArg → Option VersionArg
first_or_null [] = none
first_or_null (string [] ∷ vs) = none
first_or_null (string (c ∷ s) ∷ vs) = some (string (c ∷ s))
first_or_null (semver v ∷ vs) = some (semver v)

-- maxSatisfying(versions, range, loose)
unfoldable pub max_satisfying : List VersionArg → RangeArg → Loose → Result (Option VersionArg)
unfolding filter_by satisfies rsort
max_satisfying versions r loose = filter_by (λ v. satisfies v r loose) versions >>= λ fit.
    rsort fit loose >>= λ sorted. ok (first_or_null sorted)

-- validRange(range, loose): '*' stands for the empty text.
unfoldable pub valid_range : RangeArg → Loose → Option Text
unfolding new_range
valid_range r loose =
    or_null (
      new_range r loose >>= λ parsed.
      ok (if is_empty parsed.range then codes "*" else parsed.range))
