-- ===== src/Semver/Releases.antt =====
-- static/js/semver.js: the exported functions on the texts of releases, from text to text.
use isitsql.Common.{ℕ, ◌+◌, ◌≤◌, false, Option, none, some, [], Text, ◌≡◌, refl, arith, compare}
use isitsql.Semver.Number.Laws.{plus_one-exact}
use isitsql.Semver.Patterns.{max_safe_integer}
use isitsql.Semver.Version.{
  Loose, is_loose, version_text, string, new_semver, ok, ◌>>=◌, or_null, VersionArg, format, SemVer,
}
use isitsql.Semver.Version.Releases.{release, new_semver-version_text}
use isitsql.Semver.Compare.{
  compare_versions, compare_with, compare_semver, compare_main, compare_pre, or_else,
}
use isitsql.Semver.Inc.{
  Release, major, minor, patch, given, inc, inc_semver, inc_case, inc_major, inc_minor, inc_patch,
}

-- Numbers that the constructor accepts.
abbrev pub AreSafe : ℕ → ℕ → ℕ → Type 0
AreSafe a b c = (a ≤ max_safe_integer) × (b ≤ max_safe_integer) × (c ≤ max_safe_integer)

compare_versions_lem :
    (a b : VersionArg) (loose : Loose)
    → compare_versions a b loose ≡ (new_semver a loose >>= λ v. compare_with v b)
unfolding compare_versions
compare_versions_lem a b loose = refl

compare_with_lem :
    (v : SemVer) (s : Text)
    → compare_with v (string s) ≡ (new_semver (string s) v.loose >>= λ w. ok (compare_semver v w))
unfolding compare_with
compare_with_lem v s = refl

compare-release :
    (loose : Loose) (a b c a' b' c' : ℕ)
    → ok (compare_semver (release loose a b c) (release loose a' b' c'))
      ≡ ok (or_else (compare a a') (or_else (compare b b') (compare c c')))
unfolding compare_semver compare_main compare_pre
compare-release loose a b c a' b' c' = ground arith

-- In strict mode the texts of two releases within the safe numbers compare as their numbers do, the
-- major one first.
pub compare_versions-releases :
    (loose : Loose) (a b c a' b' c' : ℕ)
    → is_loose loose ≡ false
    → AreSafe a b c
    → AreSafe a' b' c'
    → compare_versions (string (version_text a b c [])) (string (version_text a' b' c' [])) loose
      ≡ ok (or_else (compare a a') (or_else (compare b b') (compare c c')))
compare_versions-releases loose a b c a' b' c' strict (p, q, r) (p', q', r') =
    rw compare_versions_lem (
      rw (new_semver-version_text loose a b c strict p q r) (
        rw (compare_with_lem, new_semver-version_text loose a' b' c' strict p' q' r')
          (compare-release loose a b c a' b' c')))

-- The numbers after an increment of a release.
abbrev pub next_release : Release → ℕ → ℕ → ℕ → Option (ℕ × ℕ × ℕ)
next_release major a b c = some (a + 1, 0, 0)
next_release minor a b c = some (a, b + 1, 0)
next_release patch a b c = some (a, b, c + 1)
next_release r a b c = none

inc_lem :
    (s : Text) (r : Release) (loose : Loose) (id : Option Text)
    → inc (string s) r (given loose) id
      ≡ or_null (new_semver (string s) loose >>= λ v. inc_semver r id v >>= λ w. ok w.version)
unfolding inc
inc_lem s r loose id = refl

inc_semver_lem :
    (r : Release) (id : Option Text) (v : SemVer)
    → inc_semver r id v ≡ (inc_case r id v >>= λ w. ok (format w))
unfolding inc_semver
inc_semver_lem r id v = refl

inc_case-release :
    (r : Release) (loose : Loose) (id : Option Text) (a b c a' b' c' : ℕ)
    → AreSafe a b c
    → next_release r a b c ≡ some (a', b', c')
    → (w : SemVer) × (inc_case r id (release loose a b c) ≡ ok w)
      × ((format w).version ≡ version_text a' b' c' [])
unfolding inc_case inc_major inc_minor inc_patch format
inc_case-release major loose id a b c a' b' c' (p, q, s) e =
    (_, refl, ground (arith, plus_one-exact a (omega arith)))
inc_case-release minor loose id a b c a' b' c' (p, q, s) e =
    (_, refl, ground (arith, plus_one-exact b (omega arith)))
inc_case-release patch loose id a b c a' b' c' (p, q, s) e =
    (_, refl, ground (arith, plus_one-exact c (omega arith)))
inc_case-release r loose id a b c a' b' c' h e = absurd (cc e)

-- In strict mode incrementing the text of a release within the safe numbers as major, minor or patch
-- raises that number by one, sets the ones behind it to 0, and prints the result.
pub inc-releases :
    (r : Release) (loose : Loose) (id : Option Text) (a b c a' b' c' : ℕ)
    → is_loose loose ≡ false
    → AreSafe a b c
    → next_release r a b c ≡ some (a', b', c')
    → inc (string (version_text a b c [])) r (given loose) id ≡ some (version_text a' b' c' [])
inc-releases r loose id a b c a' b' c' strict (p, q, s) e =
    let (w, done, printed) = inc_case-release r loose id a b c a' b' c' (p, q, s) e in
    rw inc_lem (
      rw (new_semver-version_text loose a b c strict p q s)
        (rw (inc_semver_lem, done) (rw printed)))
