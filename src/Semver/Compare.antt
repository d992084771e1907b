-- ===== src/Semver/Compare.antt =====
-- static/js/semver.js: the order of versions. The numbers -1, 0 and 1 that the script returns are
-- the values of `Ordering`; `a || b` on such numbers is `or_else`.
use isitsql.Common.{
  ℕ, Bool, true, false, not, some, List, [], ◌∷◌, Text, text_eq, text_ltb, ◌==◌, if◌then◌else◌,
  compare, Ordering,
}
use isitsql.Semver.Number.{is_numeric, to_number}
use isitsql.Semver.Version.{
  Result, ok, ◌>>=◌, Loose, Ident, num, str, SemVer, VersionArg, semver, new_semver,
}

-- a || b
abbrev pub or_else : Ordering → Ordering → Ordering
or_else Ordering.eq b = b
or_else Ordering.lt b = Ordering.lt
or_else Ordering.gt b = Ordering.gt

-- a < b ? -1 : a > b ? 1 : 0, on strings
unfoldable pub compare_text : Text → Text → Ordering
unfolding text_ltb
compare_text s t =
    if text_ltb s t then Ordering.lt else if text_ltb t s then Ordering.gt else Ordering.eq

-- compareIdentifiers(a, b): a numeric string counts as its number, and numbers come first.
unfoldable pub compare_identifiers : Ident → Ident → Ordering
unfolding is_numeric to_number compare_text
compare_identifiers (num a) (num b) = compare a b
compare_identifiers (num a) (str t) = if is_numeric t then compare a (to_number t) else Ordering.lt
compare_identifiers (str s) (num b) = if is_numeric s then compare (to_number s) b else Ordering.gt
compare_identifiers (str s) (str t) =
    if is_numeric s
    then (if is_numeric t then compare (to_number s) (to_number t) else Ordering.lt)
    else if is_numeric t
    then Ordering.gt
    else compare_text s t

-- rcompareIdentifiers(a, b)
unfoldable pub rcompare_identifiers : Ident → Ident → Ordering
unfolding compare_identifiers
rcompare_identifiers a b = compare_identifiers b a

-- a === b on identifiers
unfoldable pub same_ident : Ident → Ident → Bool
unfolding text_eq
same_ident (num a) (num b) = a == b
same_ident (str s) (str t) = text_eq s t
same_ident (num a) (str t) = false
same_ident (str s) (num b) = false

-- SemVer.prototype.compareMain
unfoldable pub compare_main : SemVer → SemVer → Ordering
compare_main v w =
    or_else (compare v.major w.major) (or_else (compare v.minor w.minor) (compare v.patch w.patch))

-- The loop of comparePre. The index runs along both lists.
unfoldable pub compare_pre_from : List Ident → List Ident → Ordering
unfolding same_ident compare_identifiers
compare_pre_from [] [] = Ordering.eq
compare_pre_from (i ∷ is) [] = Ordering.gt
compare_pre_from [] (j ∷ js) = Ordering.lt
compare_pre_from (i ∷ is) (j ∷ js) =
    if same_ident i j then compare_pre_from is js else compare_identifiers i j

-- SemVer.prototype.comparePre
unfoldable pub compare_pre : List Ident → List Ident → Ordering
unfolding compare_pre_from
compare_pre (i ∷ is) [] = Ordering.lt
compare_pre [] (j ∷ js) = Ordering.gt
compare_pre [] [] = Ordering.eq
compare_pre (i ∷ is) (j ∷ js) = compare_pre_from (i ∷ is) (j ∷ js)

-- SemVer.prototype.compare, of two SemVers
unfoldable pub compare_semver : SemVer → SemVer → Ordering
unfolding compare_main compare_pre
compare_semver v w = or_else (compare_main v w) (compare_pre v.prerelease w.prerelease)

-- v.compare(other): anything but a SemVer is parsed first.
unfoldable pub compare_with : SemVer → VersionArg → Result Ordering
unfolding compare_semver new_semver
compare_with v (semver w) = ok (compare_semver v w)
compare_with v b = new_semver b v.loose >>= λ w. ok (compare_semver v w)

-- compare(a, b, loose), compareLoose, rcompare
unfoldable pub compare_versions : VersionArg → VersionArg → Loose → Result Ordering
unfolding new_semver compare_with
compare_versions a b loose = new_semver a loose >>= λ v. compare_with v b

unfoldable pub compare_loose : VersionArg → VersionArg → Result Ordering
unfolding compare_versions
compare_loose a b = compare_versions a b (some true)

unfoldable pub rcompare : VersionArg → VersionArg → Loose → Result Ordering
unfolding compare_versions
rcompare a b loose = compare_versions b a loose

-- c > 0, c < 0, c === 0
abbrev pub is_gt : Ordering → Bool
is_gt Ordering.gt = true
is_gt _ = false

abbrev pub is_lt : Ordering → Bool
is_lt Ordering.lt = true
is_lt _ = false

abbrev pub is_eq : Ordering → Bool
is_eq Ordering.eq = true
is_eq _ = false

abbrev asked : (Ordering → Bool) → VersionArg → VersionArg → Loose → Result Bool
asked p a b loose = compare_versions a b loose >>= λ c. ok (p c)

unfoldable pub gt : VersionArg → VersionArg → Loose → Result Bool
gt = asked is_gt

unfoldable pub lt : VersionArg → VersionArg → Loose → Result Bool
lt = asked is_lt

unfoldable pub eq : VersionArg → VersionArg → Loose → Result Bool
eq = asked is_eq

unfoldable pub neq : VersionArg → VersionArg → Loose → Result Bool
neq = asked (λ c. not (is_eq c))

unfoldable pub gte : VersionArg → VersionArg → Loose → Result Bool
gte = asked (λ c. not (is_lt c))

unfoldable pub lte : VersionArg → VersionArg → Loose → Result Bool
lte = asked (λ c. not (is_gt c))

-- major(a, loose), minor, patch
unfoldable pub major : VersionArg → Loose → Result ℕ
unfolding new_semver
major a loose = new_semver a loose >>= λ v. ok v.major

unfoldable pub minor : VersionArg → Loose → Result ℕ
unfolding new_semver
minor a loose = new_semver a loose >>= λ v. ok v.minor

unfoldable pub patch : VersionArg → Loose → Result ℕ
unfolding new_semver
patch a loose = new_semver a loose >>= λ v. ok v.patch
