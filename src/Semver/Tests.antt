-- ===== src/Semver/Tests.antt =====
-- Runs of static/js/semver.js, some after the examples in its comments, and the theorems at concrete
-- versions.
use isitsql.Common.{
  Option, map, ℕ, ◌≡◌, ◌↔◌, refl, codes, true, some, none, List, [], ◌∷◌, Ordering, arith,
}
use isitsql.Semver.Number.{is_numeric}
use isitsql.Semver.Version.{
  semver, Ident, num, str, string, ok, throw, SemVer, VersionArg, valid, clean, null_property,
  new_semver, version_text,
}
use isitsql.Semver.Version.Releases.{release, new_semver-version_text}
use isitsql.Semver.Compare.{compare_semver, compare_versions}
use isitsql.Semver.Order.{SameVersion, compare_semver-eq_iff, compare_semver_trans}
use isitsql.Semver.Inc.{Release, inc, inc_semver, given, prerelease, minor, diff}
use isitsql.Semver.Inc.Differences.{FirstChange, diff-releases}
use isitsql.Semver.Inc.Laws.{inc_semver-gt}
use isitsql.Semver.Comparator.{Comparator}
use isitsql.Semver.Range.{Range, of_range, range_text, valid_range, max_satisfying, test_sets}
use isitsql.Semver.Range.Maximum.{IsGreatest, max_satisfying-IsGreatest}
use isitsql.Semver.Range.Holds.{Operator, operator_text, bound, at_least, below}
use isitsql.Semver.Range.Laws.{
  IsDisjunction, either, nowhere, both, done, Decides, SomeAdmits, test_sets-decides,
}
use isitsql.Semver.Outside.{gtr}
use isitsql.Semver.Releases.{compare_versions-releases, inc-releases}

abbrev with_pre : ℕ → ℕ → ℕ → List Ident → SemVer
with_pre a b c ids = record (release none a b c) { prerelease = ids }

-- 1.2.0-beta.1, 1.2.0-beta.2 and 1.2.0
abbrev beta_1 : SemVer
beta_1 = with_pre 1 2 0 (str (codes "beta") ∷ num 1 ∷ [])

abbrev beta_2 : SemVer
beta_2 = with_pre 1 2 0 (str (codes "beta") ∷ num 2 ∷ [])

abbrev one_two : SemVer
one_two = release none 1 2 0

compare_semver_trans_example : compare_semver beta_1 one_two ≡ Ordering.lt
unfolding compare_semver
compare_semver_trans_example =
    compare_semver_trans beta_1 beta_2 one_two (refl, (tt, tt)) (refl, (tt, tt)) tt refl refl

compare_semver-eq_iff_example :
    (compare_semver beta_1 beta_2 ≡ Ordering.eq) ↔ SameVersion beta_1 beta_2
unfolding compare_semver
compare_semver-eq_iff_example =
    compare_semver-eq_iff beta_1 beta_2 (refl, (tt, tt)) (refl, (tt, tt))

inc_semver-gt_example :
    (w : SemVer) × (inc_semver prerelease none beta_1 ≡ ok w)
    × (compare_semver w beta_1 ≡ Ordering.gt)
inc_semver-gt_example = inc_semver-gt prerelease beta_1 tt (record {
  major = omega arith;
  minor = omega arith;
  patch = omega arith;
  prerelease = (tt, (omega arith, tt));
})

abbrev comparator_of : Operator → SemVer → Comparator
comparator_of op w = record {
  loose = none;
  operator = operator_text op;
  semver = some w;
  value = [];
}

-- >=1.2.0-beta.1 <2.0.0
abbrev bounded : List (List Comparator)
bounded = (comparator_of at_least beta_1 ∷ comparator_of below (release none 2 0 0) ∷ []) ∷ []

abbrev bounded-IsDisjunction : IsDisjunction none bounded
bounded-IsDisjunction =
    either (both (bound at_least beta_1 []) (both (bound below (release none 2 0 0) []) done))
      nowhere

test_sets-decides_example :
    Decides (test_sets bounded beta_2) (SomeAdmits beta_2 bounded-IsDisjunction)
test_sets-decides_example = test_sets-decides beta_2 bounded-IsDisjunction refl

abbrev bounded_range : Range
bounded_range = record {
  loose = none;
  raw = codes ">=1.2.0-beta.1 <2.0.0";
  set = bounded;
  range = codes ">=1.2.0-beta.1 <2.0.0";
}

abbrev candidates : List SemVer
candidates = beta_2 ∷ one_two ∷ release none 2 0 0 ∷ []

max_satisfying-IsGreatest_example :
    (o : Option VersionArg) × (max_satisfying (map semver candidates) (of_range bounded_range) none
      ≡ ok o)
    × IsGreatest (λ v. SomeAdmits v bounded-IsDisjunction) candidates o
unfolding is_numeric
max_satisfying-IsGreatest_example =
    max_satisfying-IsGreatest bounded_range none bounded-IsDisjunction refl candidates
      (refl, (refl, (refl, tt))) ((refl, (tt, tt)), (tt, (tt, tt)))

new_semver-version_text_example :
    new_semver (string (version_text 12 0 345 [])) none ≡ ok (release none 12 0 345)
new_semver-version_text_example =
    new_semver-version_text none 12 0 345 refl (omega arith) (omega arith) (omega arith)

compare_versions-releases_example :
    compare_versions (string (version_text 1 9 0 [])) (string (version_text 1 10 0 [])) none
    ≡ ok Ordering.lt
compare_versions-releases_example =
    compare_versions-releases none 1 9 0 1 10 0 refl (omega arith, omega arith, omega arith)
      (omega arith, omega arith, omega arith)

inc-releases_example :
    inc (string (version_text 1 9 7 [])) minor (given none) none ≡ some (version_text 1 10 0 [])
inc-releases_example =
    inc-releases minor none none 1 9 7 1 10 0 refl (omega arith, omega arith, omega arith) refl

diff-releases_example :
    (d : Option Release) × (diff (string (version_text 1 9 7 [])) (string (version_text 1 10 0 []))
      ≡ ok d)
    × FirstChange d 1 9 7 1 10 0
diff-releases_example =
    diff-releases 1 9 7 1 10 0 (omega arith, omega arith, omega arith)
      (omega arith, omega arith, omega arith)

-- The script's functions on the examples of its comments.
range_test :
    valid_range (range_text (codes "^1.2.3-b || ~0.4 2.x")) none
    ≡ some (codes ">=1.2.3-b <2.0.0||>=0.4.0 <0.5.0 >=2.0.0 <3.0.0")
unfolding valid_range
range_test = refl

inc_test :
    inc (string (codes "1.2.0-beta.1")) prerelease (given none) none ≡ some (codes "1.2.0-beta.2")
unfolding inc
inc_test = refl

max_satisfying_test :
    max_satisfying
      (string (codes "1.2.3") ∷ string (codes "1.3.0") ∷ string (codes "2.0.0") ∷ [])
      (range_text (codes "^1.2"))
      none
    ≡ ok (some (string (codes "1.3.0")))
unfolding max_satisfying
max_satisfying_test = refl

gtr_test : gtr (string (codes "2.0.0")) (range_text (codes "~1.2.3")) none ≡ ok true
unfolding gtr
gtr_test = refl

-- A pre-release between the bounds of a range counts as above all of it.
gtr_inside_test : gtr (string (codes "1.5.0-alpha")) (range_text (codes "^1.0.0")) none ≡ ok true
unfolding gtr
gtr_inside_test = refl

-- The constructor trims its text, and `parse` does not.
clean_test : clean (codes " =v1.2.3 ") none ≡ some (codes "1.2.3")
unfolding clean
clean_test = refl

valid_test : valid (string (codes " 1.2.3")) none ≡ none
unfolding valid
valid_test = refl

diff_test : diff (string (codes " 1.2.3")) (string (codes "1.2.4")) ≡ throw null_property
unfolding diff
diff_test = refl
