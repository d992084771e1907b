-- ===== src/Semver/Inc/Laws.antt =====
-- static/js/semver.js: `inc` and the order of versions.
use isitsql.Common.{
  ℕ, ◌<◌, false, List, [], ◌∷◌, ◌++◌, none, some, compare, Ordering, ◌≡◌, ◌≢◌, refl, arith, All,
  if◌then◌else◌, Option-cases, inl, inr, Bool-cases, is_empty,
}
use isitsql.Semver.Number.{plus_one, two_53}
use isitsql.Semver.Version.{Ident, num, str, SemVer, ok, format}
use isitsql.Semver.Compare.{
  compare_main, compare_pre, compare_pre_from, compare_semver, compare_identifiers, same_ident,
}
use isitsql.Semver.Order.{same_ident_refl}
use isitsql.Semver.Inc.{
  Release, premajor, preminor, prepatch, prerelease, major, minor, patch, pre, unknown, bump_last,
  bump_or_push, inc_pre, inc_major, inc_minor, inc_patch, inc_case, inc_semver, with_identifier,
}

-- A number below 2^53, so that adding 1 has an effect.
abbrev pub HasRoom : Ident → Type 0
HasRoom (num n) = n < two_53
HasRoom (str s) = Unit

-- Every number of the version has room above it.
pub record CanGrow (v : SemVer) : Type 0 where
  pub major : v.major < two_53
  pub minor : v.minor < two_53
  pub patch : v.patch < two_53
  pub prerelease : All HasRoom v.prerelease

plus_one-gt : (n : ℕ) → n < two_53 → compare (plus_one n) n ≡ Ordering.gt
unfolding plus_one
plus_one-gt n h = ground arith

num-gt : (n : ℕ) → n < two_53 → compare_identifiers (num (plus_one n)) (num n) ≡ Ordering.gt
unfolding compare_identifiers
num-gt n h = plus_one-gt n h

num-differs : (n : ℕ) → n < two_53 → same_ident (num (plus_one n)) (num n) ≡ false
unfolding same_ident
num-differs n h = ground (arith, plus_one-gt n h)

-- The bumped list is larger.
bump_last-gt :
    (is js : List Ident)
    → All HasRoom is
    → bump_last is ≡ some js
    → compare_pre_from js is ≡ Ordering.gt
unfolding bump_last compare_pre_from
bump_last-gt [] js h e = cc
bump_last-gt (num n ∷ is) js (h, hs) e = elim (Option-cases (bump_last is)) [
  | inl stuck ↦ ground (arith, num-gt n h, num-differs n h)
  | inr (ks, more) ↦ ground (arith, same_ident_refl (num n), bump_last-gt is ks hs more)
]
bump_last-gt (str s ∷ is) js (h, hs) e = elim (Option-cases (bump_last is)) [
  | inl stuck ↦ ground arith
  | inr (ks, more) ↦ ground (arith, same_ident_refl (str s), bump_last-gt is ks hs more)
]

longer-gt : (is : List Ident) (i : Ident) → compare_pre_from (is ++ i ∷ []) is ≡ Ordering.gt
unfolding compare_pre_from
longer-gt [] i = refl
longer-gt (j ∷ is) i = rw (same_ident_refl j) (longer-gt is i)

bump_or_push-gt :
    (is : List Ident) → All HasRoom is → compare_pre_from (bump_or_push is) is ≡ Ordering.gt
unfolding bump_or_push
bump_or_push-gt is h = elim (Option-cases (bump_last is)) [
  | inl stuck ↦ (rw (bump_or_push, stuck) (longer-gt is (num 0)))
  | inr (js, more) ↦ (rw (bump_or_push, more) (bump_last-gt is js h more))
]

compare_pre-of_from :
    (is js : List Ident)
    → is ≢ []
    → compare_pre_from js is ≡ Ordering.gt
    → compare_pre js is ≡ Ordering.gt
unfolding compare_pre compare_pre_from
compare_pre-of_from [] js e h = absurd (e refl)
compare_pre-of_from (i ∷ is) [] e h = cc
compare_pre-of_from (i ∷ is) (j ∷ js) e h = h

-- Bumping a pre-release makes the version larger.
pre-gt :
    (is : List Ident)
    → All HasRoom is
    → is ≢ []
    → compare_pre (with_identifier none (if is_empty is then num 0 ∷ [] else bump_or_push is)) is
      ≡ Ordering.gt
unfolding with_identifier
pre-gt [] h e = absurd (e refl)
pre-gt (i ∷ is) h e = compare_pre-of_from (i ∷ is) _ e (bump_or_push-gt (i ∷ is) h)

inc_pre-gt :
    (v : SemVer)
    → All HasRoom v.prerelease
    → v.prerelease ≢ []
    → compare_semver (inc_pre none v) v ≡ Ordering.gt
unfolding inc_pre compare_semver compare_main
inc_pre-gt v h e = ground (arith, pre-gt v.prerelease h e)

release-gt : (is : List Ident) → is_empty is ≡ false → compare_pre [] is ≡ Ordering.gt
unfolding compare_pre
release-gt [] e = cc
release-gt (i ∷ is) e = refl

not_empty : (is : List Ident) → is_empty is ≡ false → is ≢ []
not_empty [] e = cc
not_empty (i ∷ is) e = cc

-- The releases that `inc` moves forward: all of them, but "pre" only on a pre-release.
abbrev pub IsForward : Release → SemVer → Type 0
IsForward unknown v = ⊥
IsForward pre v = v.prerelease ≢ []
IsForward _ v = Unit

inc_case-gt :
    (r : Release) (v : SemVer)
    → IsForward r v
    → CanGrow v
    → (w : SemVer) × (inc_case r none v ≡ ok w) × (compare_semver w v ≡ Ordering.gt)
unfolding inc_case inc_pre inc_major inc_minor inc_patch plus_one compare_semver compare_main
inc_case-gt unknown v f g = absurd f
inc_case-gt pre v f g = (inc_pre none v, refl, inc_pre-gt v g.prerelease f)
inc_case-gt premajor v f g = (_, refl, ground arith)
inc_case-gt preminor v f g = (_, refl, ground arith)
inc_case-gt prepatch v f g = (_, refl, ground arith)
inc_case-gt major v f g = (_, refl, ground (arith, release-gt v.prerelease))
inc_case-gt minor v f g = (_, refl, ground (arith, release-gt v.prerelease))
inc_case-gt patch v f g = (_, refl, ground (arith, release-gt v.prerelease))
inc_case-gt prerelease v f g = (
  _,
  refl,
  elim (Bool-cases (is_empty v.prerelease)) [
    | inl none_yet ↦ rw none_yet (ground arith)
    | inr some_yet ↦
        rw some_yet (ground (arith, pre-gt v.prerelease g.prerelease (not_empty _ some_yet)))
  ],
)

format-compare : (w v : SemVer) → compare_semver (format w) v ≡ compare_semver w v
unfolding compare_semver compare_main format
format-compare w v = refl

-- Every increment that the code knows, without an identifier, succeeds and makes the version larger,
-- as long as the numbers are below 2^53; "pre" is asked for on a pre-release only, since it makes a
-- release smaller.
pub inc_semver-gt :
    (r : Release) (v : SemVer)
    → IsForward r v
    → CanGrow v
    → (w : SemVer) × (inc_semver r none v ≡ ok w) × (compare_semver w v ≡ Ordering.gt)
unfolding inc_semver
inc_semver-gt r v f g =
    let (w, done, larger) = inc_case-gt r v f g in (format w, rw done, rw format-compare larger)
