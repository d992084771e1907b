-- ===== src/Semver/Outside.antt =====
-- static/js/semver.js: `outside`, `ltr` and `gtr`, whether a version lies beyond a whole range.
use isitsql.Common.{
  Bool, true, false, not, ◌||◌, Option, none, some, List, [], ◌∷◌, Text, codes, text_eq,
  if◌then◌else◌, is_empty,
}
use isitsql.Semver.Version.{
  Result, ok, throw, ◌>>=◌, Loose, SemVer, VersionArg, semver, new_semver, invalid_hilo,
  invalid_version,
}
use isitsql.Semver.Compare.{compare_versions, gt, lt, gte, lte}
use isitsql.Semver.Replace.{text_is}
use isitsql.Semver.Comparator.{Comparator}
use isitsql.Semver.Range.{RangeArg, of_range, new_range, satisfies}

-- The functions and operators that the switch chooses.
pub record Direction : Type 0 where
  pub gtfn : VersionArg → VersionArg → Loose → Result Bool
  pub ltefn : VersionArg → VersionArg → Loose → Result Bool
  pub ltfn : VersionArg → VersionArg → Loose → Result Bool
  pub comp : Text
  pub ecomp : Text

unfoldable pub upward : Direction
unfolding gt lte lt compare_versions
upward = record { gtfn = gt; ltefn = lte; ltfn = lt; comp = codes ">"; ecomp = codes ">=" }

unfoldable pub downward : Direction
unfolding gt gte lt compare_versions
downward = record { gtfn = lt; ltefn = gte; ltfn = gt; comp = codes "<"; ecomp = codes "<=" }

unfoldable pub direction_of : Text → Result Direction
unfolding upward downward text_eq
direction_of hilo =
    if text_is hilo (codes ">")
    then ok upward
    else if text_is hilo (codes "<")
    then ok downward
    else throw invalid_hilo

-- f(a.semver, b.semver, loose) for two comparators. The object ANY is no version, and the
-- constructor refuses it.
abbrev between_versions :
    (VersionArg → VersionArg → Loose → Result Bool)
    → Option SemVer
    → Option SemVer
    → Loose
    → Result Bool
between_versions f (some v) (some w) loose = f (semver v) (semver w) loose
between_versions f none w loose = throw invalid_version
between_versions f (some v) none loose = throw invalid_version

-- The forEach: the extreme comparators so far, `high` and `low`.
unfoldable pub extremes :
    Direction → Loose → Comparator → Comparator → List Comparator → Result (Comparator × Comparator)
extremes d loose high low [] = ok (high, low)
extremes d loose high low (c ∷ cs) = between_versions d.gtfn c.semver high.semver loose >>= λ above.
    elim above [
      | true ↦ extremes d loose c low cs
      | false ↦ between_versions d.ltfn c.semver low.semver loose >>= λ below. elim below [
        | true ↦ extremes d loose high c cs
        | false ↦ extremes d loose high low cs
      ]
    ]

-- version compared with low.semver; the calls leave `loose` out.
abbrev against :
    (VersionArg → VersionArg → Loose → Result Bool) → SemVer → Option SemVer → Result Bool
against f v (some w) = f (semver v) (semver w) none
against f v none = throw invalid_version

-- low.operator === ecomp && ltfn(version, low.semver) refuses the version; else it is beyond.
abbrev beyond_low : Direction → SemVer → Comparator → Result Bool
beyond_low d v low =
    if text_eq low.operator d.ecomp
    then (against d.ltfn v low.semver >>= λ b. ok (not b))
    else ok true

-- The tests behind the forEach: whether this set leaves the version outside.
unfoldable pub beyond_extremes : Direction → SemVer → Comparator → Comparator → Result Bool
unfolding text_eq
beyond_extremes d v high low =
    if text_eq high.operator d.comp || text_eq high.operator d.ecomp
    then ok false
    else if is_empty low.operator || text_eq low.operator d.comp
    then (against d.ltefn v low.semver >>= λ within.
        if within then ok false else beyond_low d v low)
    else beyond_low d v low

-- One round of the loop over range.set. A set is never empty: the constructor drops empty sets.
unfoldable pub beyond_set : Direction → SemVer → Loose → List Comparator → Result Bool
unfolding extremes beyond_extremes
beyond_set d v loose [] = ok true
beyond_set d v loose (c ∷ cs) =
    extremes d loose c c (c ∷ cs) >>= λ ends. beyond_extremes d v ends.0 ends.1

unfoldable pub beyond_all : Direction → SemVer → Loose → List (List Comparator) → Result Bool
unfolding beyond_set
beyond_all d v loose [] = ok true
beyond_all d v loose (s ∷ ss) =
    beyond_set d v loose s >>= λ b. elim b [ true ↦ beyond_all d v loose ss | false ↦ ok false ]

-- outside(version, range, hilo, loose)
unfoldable pub outside : VersionArg → RangeArg → Text → Loose → Result Bool
unfolding new_semver new_range direction_of satisfies beyond_all
outside version r hilo loose = new_semver version loose >>= λ v. new_range r loose >>= λ parsed.
    direction_of hilo >>= λ d. satisfies (semver v) (of_range parsed) loose >>= λ inside.
    elim inside [ true ↦ ok false | false ↦ beyond_all d v loose parsed.set ]

unfoldable pub ltr : VersionArg → RangeArg → Loose → Result Bool
unfolding outside
ltr version r loose = outside version r (codes "<") loose

unfoldable pub gtr : VersionArg → RangeArg → Loose → Result Bool
unfolding outside
gtr version r loose = outside version r (codes ">") loose
