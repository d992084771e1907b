-- ===== src/Semver/Order/Versions.antt =====
-- The order of versions.
use isitsql.Common.{Ordering, ◌≡◌, arith, ◌↔◌, All}
use isitsql.Semver.Version.{SemVer}
use isitsql.Semver.Compare.{compare_main, compare_semver}
use isitsql.Semver.Order.Texts.{flip}
use isitsql.Semver.Order.Idents.{
  IsExact, compare_pre-flip, compare_pre_refl, compare_pre-eq, compare_pre_trans,
}

-- All of a version's identifiers are exact.
abbrev pub HasExactIdents : SemVer → Type 0
HasExactIdents v = All IsExact v.prerelease

-- The same version, whatever its build and its original text.
abbrev pub SameVersion : SemVer → SemVer → Type 0
SameVersion v w =
    (v.major ≡ w.major) × (v.minor ≡ w.minor) × (v.patch ≡ w.patch) × (v.prerelease ≡ w.prerelease)

-- Comparing two versions the other way round flips the answer.
pub compare_semver-flip : (v w : SemVer) → compare_semver w v ≡ flip (compare_semver v w)
unfolding compare_semver compare_main
compare_semver-flip v w = ground (arith, compare_pre-flip v.prerelease w.prerelease)

-- On versions with exact identifiers the comparison answers 0 exactly when they agree in their
-- numbers and their pre-release identifiers.
pub compare_semver-eq_iff :
    (v w : SemVer)
    → HasExactIdents v
    → HasExactIdents w
    → (compare_semver v w ≡ Ordering.eq) ↔ SameVersion v w
unfolding compare_semver compare_main
compare_semver-eq_iff v w p q = (
  λ h. ground (arith, compare_pre-eq v.prerelease w.prerelease p q),
  λ (a, b, c, d). rw (a, b, c, d) (ground (arith, compare_pre_refl w.prerelease)),
)

-- On versions with exact identifiers "smaller" is transitive.
pub compare_semver_trans :
    (v w x : SemVer)
    → HasExactIdents v
    → HasExactIdents w
    → HasExactIdents x
    → compare_semver v w ≡ Ordering.lt
    → compare_semver w x ≡ Ordering.lt
    → compare_semver v x ≡ Ordering.lt
unfolding compare_semver compare_main
compare_semver_trans v w x p q r h k =
    ground (arith, compare_pre_trans v.prerelease w.prerelease x.prerelease p q r)
