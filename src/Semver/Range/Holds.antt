-- ===== src/Semver/Range/Holds.antt =====
-- static/js/semver.js: when a comparator of a range holds of a version.
use isitsql.Common.{
  Bool, true, false, not, none, some, [], Text, codes, ◌≡◌, refl, ◌≢◌, ◌↔◌, arith, Ordering, ◌∙◌,
  subst, ap,
}
use isitsql.Semver.Version.{ok, ◌>>=◌, Loose, same_loose, SemVer, semver, new_semver}
use isitsql.Semver.Compare.{
  compare_versions, compare_with, compare_semver, gt, lt, eq, gte, lte, is_gt, is_lt, is_eq,
}
use isitsql.Semver.Comparator.{Comparator, cmp, test_comparator}

-- The operators that a comparator can have.
pub data Operator : Type 0 where
  equal below at_most above at_least : Operator

abbrev pub operator_text : Operator → Text
operator_text equal = []
operator_text below = codes "<"
operator_text at_most = codes "<="
operator_text above = codes ">"
operator_text at_least = codes ">="

-- What an operator asks of the order of the version and the comparator's version.
abbrev pub Allows : Operator → Ordering → Type 0
Allows equal o = o ≡ Ordering.eq
Allows below o = o ≡ Ordering.lt
Allows at_most o = o ≢ Ordering.gt
Allows above o = o ≡ Ordering.gt
Allows at_least o = o ≢ Ordering.lt

-- A comparator of the given looseness: any version, or an operator and a version.
pub data IsComparator (loose : Loose) : Comparator → Type 0 where
  any :
      (value : Text)
      → IsComparator loose (record { loose = loose; operator = []; semver = none; value = value })
  bound :
      (op : Operator) (w : SemVer) (value : Text)
      → IsComparator loose
          (record { loose = loose; operator = operator_text op; semver = some w; value = value })

-- The comparator holds of the version.
abbrev pub Holds : {loose : Loose} {c : Comparator} → SemVer → IsComparator loose c → Type 0
Holds v (any value) = Unit
Holds v (bound op w value) = Allows op (compare_semver v w)

pub same_loose_refl : (l : Loose) → same_loose l l ≡ true
same_loose_refl none = refl
same_loose_refl (some true) = refl
same_loose_refl (some false) = refl

new_semver_self :
    (v : SemVer) (loose : Loose) → v.loose ≡ loose → new_semver (semver v) loose ≡ ok v
unfolding new_semver
new_semver_self v loose e =
    let same : same_loose v.loose loose ≡ true =
      subst (λ l. same_loose v.loose l ≡ true) e (same_loose_refl v.loose) in
    rw same

compare_versions_lem :
    (v w : SemVer) (loose : Loose)
    → compare_versions (semver v) (semver w) loose
      ≡ (new_semver (semver v) loose >>= λ x. compare_with x (semver w))
unfolding compare_versions
compare_versions_lem v w loose = refl

pub compare_versions-semver :
    (v w : SemVer) (loose : Loose)
    → v.loose ≡ loose
    → compare_versions (semver v) (semver w) loose ≡ ok (compare_semver v w)
compare_versions-semver v w loose e =
    compare_versions_lem v w loose
    ∙ ap (λ m. m >>= λ x. compare_with x (semver w)) (new_semver_self v loose e)
    ∙ (unfold compare_with in refl)

abbrev verdict : Operator → Ordering → Bool
verdict equal o = is_eq o
verdict below o = is_lt o
verdict at_most o = not (is_gt o)
verdict above o = is_gt o
verdict at_least o = not (is_lt o)

verdict_iff : (op : Operator) (o : Ordering) → (verdict op o ≡ true) ↔ Allows op o
verdict_iff equal o = ground arith
verdict_iff op o = ground arith

cmp-operator :
    (op : Operator) (v w : SemVer) (loose : Loose)
    → v.loose ≡ loose
    → cmp (semver v) (operator_text op) (semver w) loose ≡ ok (verdict op (compare_semver v w))
unfolding cmp gt lt eq gte lte
cmp-operator equal v w loose e = rw (compare_versions-semver v w loose e)
cmp-operator op v w loose e = rw (compare_versions-semver v w loose e)

test_comparator_lem :
    (c : Comparator) (v w : SemVer)
    → c.semver ≡ some w
    → test_comparator c (semver v) ≡ cmp (semver v) c.operator (semver w) c.loose
unfolding test_comparator
test_comparator_lem c v w e = rw (test_comparator, e)

-- Whether a well-formed comparator holds of a version.
abbrev pub holds : {loose : Loose} {c : Comparator} → SemVer → IsComparator loose c → Bool
holds v (any value) = true
holds v (bound op w value) = verdict op (compare_semver v w)

pub holds_iff :
    {loose : Loose} {c : Comparator} (v : SemVer) (i : IsComparator loose c)
    → (holds v i ≡ true) ↔ Holds v i
holds_iff v (any value) = (λ _. tt, λ _. refl)
holds_iff v (bound op w value) = verdict_iff op (compare_semver v w)

pub test_comparator-holds :
    {loose : Loose} {c : Comparator} (v : SemVer) (i : IsComparator loose c)
    → v.loose ≡ loose
    → test_comparator c (semver v) ≡ ok (holds v i)
unfolding test_comparator
test_comparator-holds v (any value) e = refl
test_comparator-holds {loose} v (bound op w value) e =
    test_comparator_lem
      (record { loose = loose; operator = operator_text op; semver = some w; value = value }) v w
      refl
    ∙ cmp-operator op v w loose e
