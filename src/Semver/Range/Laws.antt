-- ===== src/Semver/Range/Laws.antt =====
-- static/js/semver.js: what a range admits.
use isitsql.Common.{
  Bool, true, false, not, ◌&&◌, List, [], ◌∷◌, if◌then◌else◌, is_empty, ◌≡◌, refl, ◌≢◌, ◌⊎◌, ◌↔◌,
  inl, inr, Bool-cases, ◌∙◌, ap, ◌==◌, ==_iff, and_iff, if_iff,
}
use isitsql.Semver.Version.{Result, ok, Loose, SemVer, semver, Ident}
use isitsql.Semver.Comparator.{Comparator, test_comparator}
use isitsql.Semver.Range.{all_hold, same_main, pre_allowed, test_set, test_sets}
use isitsql.Semver.Range.Holds.{
  IsComparator, any, bound, Holds, holds, holds_iff, test_comparator-holds,
}

-- A set of a range: comparators of the given looseness.
pub data IsConjunction (loose : Loose) : List Comparator → Type 0 where
  done : IsConjunction loose []
  both :
      {c : Comparator} {cs : List Comparator}
      → IsComparator loose c
      → IsConjunction loose cs
      → IsConjunction loose (c ∷ cs)

-- Each comparator of the set holds of the version.
abbrev pub AllHold :
    {loose : Loose} {cs : List Comparator} → SemVer → IsConjunction loose cs → Type 0
AllHold v done = Unit
AllHold v (both i is) = Holds v i × AllHold v is

-- The comparator lets pre-releases of the version in: it is the one that holds of every version, or its own version
-- is a pre-release of the same three numbers.
abbrev pub LetsIn : {loose : Loose} {c : Comparator} → SemVer → IsComparator loose c → Type 0
LetsIn v (any value) = Unit
LetsIn v (bound op w value) =
    (w.prerelease ≢ []) × ((w.major ≡ v.major) × (w.minor ≡ v.minor) × (w.patch ≡ v.patch))

-- Some comparator of the set does.
abbrev pub SomeLetsIn :
    {loose : Loose} {cs : List Comparator} → SemVer → IsConjunction loose cs → Type 0
SomeLetsIn v done = ⊥
SomeLetsIn v (both i is) = LetsIn v i ⊎ SomeLetsIn v is

-- The set admits the version: each comparator holds, and a pre-release is let in by one of them.
abbrev pub Admits :
    {loose : Loose} {cs : List Comparator} → SemVer → IsConjunction loose cs → Type 0
Admits v is = AllHold v is × ((v.prerelease ≡ []) ⊎ SomeLetsIn v is)

-- The sets of a range.
pub data IsDisjunction (loose : Loose) : List (List Comparator) → Type 0 where
  nowhere : IsDisjunction loose []
  either :
      {s : List Comparator} {ss : List (List Comparator)}
      → IsConjunction loose s
      → IsDisjunction loose ss
      → IsDisjunction loose (s ∷ ss)

-- Some set admits the version.
abbrev pub SomeAdmits :
    {loose : Loose} {ss : List (List Comparator)} → SemVer → IsDisjunction loose ss → Type 0
SomeAdmits v nowhere = ⊥
SomeAdmits v (either i is) = Admits v i ⊎ SomeAdmits v is

-- A computation that ends without an error, with true exactly when the proposition holds.
abbrev pub Decides : Result Bool → Type 0 → Type 0
Decides r P = (b : Bool) × (r ≡ ok b) × ((b ≡ true) ↔ P)

all_hold-step :
    (c : Comparator) (cs : List Comparator) (v : SemVer) (b : Bool)
    → test_comparator c (semver v) ≡ ok b
    → all_hold (c ∷ cs) v ≡ elim b [ true ↦ all_hold cs v | false ↦ ok false ]
unfolding all_hold
all_hold-step c cs v b e = rw (all_hold, e)

all_hold-decides :
    {loose : Loose} {cs : List Comparator} (v : SemVer) (is : IsConjunction loose cs)
    → v.loose ≡ loose
    → Decides (all_hold cs v) (AllHold v is)
unfolding all_hold
all_hold-decides v done e = (true, refl, (λ _. tt, λ _. refl))
all_hold-decides {cs = c ∷ cs} v (both i is) e =
    let tested = test_comparator-holds v i e in
    let (b, rest, b-iff) = all_hold-decides v is e in
    elim (Bool-cases (holds v i)) [
      | inl h ↦ (
        b,
        all_hold-step c cs v true (tested ∙ ap ok h) ∙ rest,
        (λ p. ((holds_iff v i).0 h, b-iff.0 p), λ (p, q). b-iff.1 q),
      )
      | inr h ↦ (
        false,
        all_hold-step c cs v false (tested ∙ ap ok h),
        (λ p. absurd (cc p), λ (p, q). absurd (cc (h, (holds_iff v i).1 p))),
      )
    ]

test_set-step :
    (cs : List Comparator) (v : SemVer) (b : Bool)
    → all_hold cs v ≡ ok b
    → test_set cs v ≡ ok (b && (if is_empty v.prerelease then true else pre_allowed cs v))
unfolding test_set
test_set-step cs v b e = rw (test_set, e)

full_iff : (ids : List Ident) → (not (is_empty ids) ≡ true) ↔ (ids ≢ [])
full_iff [] = (λ h. absurd (cc h), λ h. absurd (h refl))
full_iff (i ∷ is) = (λ _ e. cc e, λ _. refl)

same_main_iff :
    (w v : SemVer)
    → (same_main w v ≡ true) ↔ ((w.major ≡ v.major) × (w.minor ≡ v.minor) × (w.patch ≡ v.patch))
same_main_iff w v =
    let (to, from) =
      and_iff (w.major == v.major && w.minor == v.minor) (w.patch == v.patch)
        (and_iff (w.major == v.major) (w.minor == v.minor) (==_iff w.major v.major)
          (==_iff w.minor v.minor))
        (==_iff w.patch v.patch) in
    ((λ h. let ((a, b), c) = to h in (a, b, c)), (λ (a, b, c). from ((a, b), c)))

-- The second loop of testSet finds a comparator that lets the version in, if there is one.
pre_allowed_iff :
    {loose : Loose} {cs : List Comparator} (v : SemVer) (is : IsConjunction loose cs)
    → (pre_allowed cs v ≡ true) ↔ SomeLetsIn v is
unfolding pre_allowed
pre_allowed_iff v done = (λ h. cc h, λ x. absurd x)
pre_allowed_iff v (both (any value) is) = (λ _. inl tt, λ _. refl)
pre_allowed_iff {cs = c ∷ cs} v (both (bound op w value) is) =
    if_iff (not (is_empty w.prerelease) && same_main w v) (pre_allowed cs v)
      (and_iff (not (is_empty w.prerelease)) (same_main w v) (full_iff w.prerelease)
        (same_main_iff w v))
      (pre_allowed_iff v is)

let_in_iff :
    {P : Type 0} (ids : List Ident) (allowed : Bool)
    → (allowed ≡ true) ↔ P
    → ((if is_empty ids then true else allowed) ≡ true) ↔ ((ids ≡ []) ⊎ P)
let_in_iff [] allowed p = (λ _. inl refl, λ _. refl)
let_in_iff (i ∷ is) allowed p =
    (λ h. inr (p.0 h), λ x. elim x [ inl e ↦ absurd (cc e) | inr y ↦ p.1 y ])

test_set-decides :
    {loose : Loose} {cs : List Comparator} (v : SemVer) (is : IsConjunction loose cs)
    → v.loose ≡ loose
    → Decides (test_set cs v) (Admits v is)
test_set-decides {cs = cs} v is e =
    let (b, held, b-iff) = all_hold-decides v is e in
    let free = if is_empty v.prerelease then true else pre_allowed cs v in
    (
      b && free,
      test_set-step cs v b held,
      and_iff b free b-iff (let_in_iff v.prerelease (pre_allowed cs v) (pre_allowed_iff v is)),
    )

test_sets-step :
    (cs : List Comparator) (ss : List (List Comparator)) (v : SemVer) (b : Bool)
    → test_set cs v ≡ ok b
    → test_sets (cs ∷ ss) v ≡ elim b [ true ↦ ok true | false ↦ test_sets ss v ]
unfolding test_sets
test_sets-step cs ss v b e = rw (test_sets, e)

-- A version is in a range, of the same looseness and made of comparators with an operator or of
-- the one that holds of every version, exactly when one of the range's sets admits it: each
-- comparator of that set holds in the order of versions, and where the version is a pre-release, some
-- comparator of the set holds of every version or has a pre-release of the same three numbers. The test never
-- ends in an error.
pub test_sets-decides :
    {loose : Loose} {ss : List (List Comparator)} (v : SemVer) (is : IsDisjunction loose ss)
    → v.loose ≡ loose
    → Decides (test_sets ss v) (SomeAdmits v is)
unfolding test_sets
test_sets-decides v nowhere e = (false, refl, (λ p. absurd (cc p), λ p. absurd p))
test_sets-decides {ss = s ∷ ss} v (either i is) e =
    let (b, tested, b-iff) = test_set-decides v i e in
    let (c, rest, c-iff) = test_sets-decides v is e in
    elim (Bool-cases b) [
      | inl h ↦
          (true, test_sets-step s ss v true (tested ∙ ap ok h), (λ _. inl (b-iff.0 h), λ _. refl))
      | inr h ↦ (
        c,
        test_sets-step s ss v false (tested ∙ ap ok h) ∙ rest,
        (
          λ p. inr (c-iff.0 p),
          λ p. elim p [ inl q ↦ absurd (cc (h, b-iff.1 q)) | inr q ↦ c-iff.1 q ],
        ),
      )
    ]
