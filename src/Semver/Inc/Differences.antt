-- ===== src/Semver/Inc/Differences.antt =====
-- static/js/semver.js: `diff` on the texts of releases.
use isitsql.Common.{
  ℕ, Option, none, some, [], Text, ◌≡◌, refl, ◌≢◌, arith, compare, Ordering, if◌then◌else◌,
}
use isitsql.Semver.Version.{ok, string, SemVer, version_text, parse}
use isitsql.Semver.Version.Releases.{release}
use isitsql.Semver.Version.Parsed.{parse-version_text}
use isitsql.Semver.Compare.{compare_versions, eq, is_eq, or_else}
use isitsql.Semver.Releases.{AreSafe, compare_versions-releases}
use isitsql.Semver.Inc.{Release, major, minor, patch, diff, diff_parsed, first_difference}

-- The first number in which two releases differ, `none` if they do not.
abbrev pub FirstChange : Option Release → ℕ → ℕ → ℕ → ℕ → ℕ → ℕ → Type 0
FirstChange none a b c a' b' c' = (a ≡ a') × (b ≡ b') × (c ≡ c')
FirstChange (some major) a b c a' b' c' = a ≢ a'
FirstChange (some minor) a b c a' b' c' = (a ≡ a') × (b ≢ b')
FirstChange (some patch) a b c a' b' c' = (a ≡ a') × (b ≡ b') × (c ≢ c')
FirstChange (some _) a b c a' b' c' = ⊥

abbrev answer : Ordering → Option Release → Option Release
answer o d = if is_eq o then none else d

answer-ok :
    (o : Ordering) (d : Option Release) → (if is_eq o then ok none else ok d) ≡ ok (answer o d)
answer-ok Ordering.lt d = refl
answer-ok Ordering.eq d = refl
answer-ok Ordering.gt d = refl

answer-FirstChange :
    (a b c a' b' c' : ℕ)
    → FirstChange
        (answer
          (or_else (compare a a') (or_else (compare b b') (compare c c')))
          (diff_parsed (release none a b c) (release none a' b' c')))
        a
        b
        c
        a'
        b'
        c'
unfolding diff_parsed first_difference
answer-FirstChange a b c a' b' c' = ground arith

diff_lem :
    (s t : Text) (o : Ordering) (v w : SemVer)
    → compare_versions (string s) (string t) none ≡ ok o
    → parse (string s) none ≡ some v
    → parse (string t) none ≡ some w
    → diff (string s) (string t) ≡ ok (answer o (diff_parsed v w))
unfolding diff eq
diff_lem s t o v w e p q = rw (diff, e, p, q) (answer-ok o (diff_parsed v w))

-- The difference of the texts of two releases within the safe numbers is the first number in which
-- they differ, and null if they are the same.
pub diff-releases :
    (a b c a' b' c' : ℕ)
    → AreSafe a b c
    → AreSafe a' b' c'
    → (d : Option Release) × (diff
          (string (version_text a b c []))
          (string (version_text a' b' c' []))
        ≡ ok d)
      × FirstChange d a b c a' b' c'
diff-releases a b c a' b' c' (p, q, r) (p', q', r') = (
  answer (or_else (compare a a') (or_else (compare b b') (compare c c')))
      (diff_parsed (release none a b c) (release none a' b' c')),
  diff_lem (version_text a b c []) (version_text a' b' c' []) _ _ _
      (compare_versions-releases none a b c a' b' c' refl (p, q, r) (p', q', r'))
      (parse-version_text none a b c refl p q r) (parse-version_text none a' b' c' refl p' q' r'),
  answer-FirstChange a b c a' b' c',
)
