-- ===== src/Semver/Range/Maximum.antt =====
-- static/js/semver.js: `maxSatisfying` on versions that were read before, and a range of their looseness.
use mathlib.Core.List.{Memᴰ, Permᴰ}
use mathlib.Core.List.Memᴰ
use mathlib.Core.List.Permᴰ
use isitsql.Common.{
  Bool, true, false, Option, none, some, List, [], ◌∷◌, map, ◌≡◌, refl, ◌≢◌, ◌⊎◌, inl, inr,
  Ordering, All, Bool-cases, ◌∙◌, sym, ap, subst, if◌then◌else◌,
}
use isitsql.Semver.Version.{Result, ok, Loose, same_loose, SemVer, VersionArg, string, semver}
use isitsql.Semver.Compare.{compare_semver, compare_main}
use isitsql.Semver.Order.{
  flip, compare_semver-flip, compare_semver-eq_iff, compare_semver_trans, HasExactIdents,
  SameVersion,
}
use isitsql.Semver.Comparator.Laws.{IsAscending, AllLoose, rsort-IsAscending}
use isitsql.Semver.Range.{
  Range, of_range, new_range, test_range, test_sets, satisfies, filter_by, first_or_null,
  max_satisfying,
}
use isitsql.Semver.Range.Holds.{same_loose_refl}
use isitsql.Semver.Range.Laws.{Decides, IsDisjunction, SomeAdmits, test_sets-decides}

All-of_mem : (P : SemVer → Type 0) (vs : List SemVer) → ((v : SemVer) → Memᴰ v vs → P v) → All P vs
All-of_mem P [] h = tt
All-of_mem P (v ∷ vs) h = (h v (Memᴰ.head refl), All-of_mem P vs (λ w m. h w (Memᴰ.tail m)))

mem-All : (P : SemVer → Type 0) (vs : List SemVer) (v : SemVer) → All P vs → Memᴰ v vs → P v
mem-All P [] v h m = absurd (Memᴰ.not-nil m)
mem-All P (w ∷ vs) v (p, ps) m = elim (Memᴰ.cases_cons m) [
  | inl e ↦ subst P (sym e) p
  | inr m' ↦ mem-All P vs v ps m'
]

-- The greatest of the versions that a test admits, or nothing where it admits none
abbrev pub IsGreatest : (SemVer → Type 0) → List SemVer → Option VersionArg → Type 0
IsGreatest P vs none = All (λ v. ¬ P v) vs
IsGreatest P vs (some (string s)) = ⊥
IsGreatest P vs (some (semver u)) =
    Memᴰ u vs × P u × All (λ v. P v → compare_semver v u ≢ Ordering.gt) vs

filter_by-step :
    (p : VersionArg → Result Bool) (v : VersionArg) (vs us : List VersionArg) (b : Bool)
    → p v ≡ ok b
    → filter_by p vs ≡ ok us
    → filter_by p (v ∷ vs) ≡ ok (if b then v ∷ us else us)
unfolding filter_by
filter_by-step p v vs us b e h = rw (filter_by, e) (rw h)

-- Filtering by a test that decides a property leaves the versions that have it.
filter_by-decides :
    (p : VersionArg → Result Bool) (P : SemVer → Type 0) (vs : List SemVer)
    → All (λ v. Decides (p (semver v)) (P v)) vs
    → (us : List SemVer) × (filter_by p (map semver vs) ≡ ok (map semver us))
      × ((v : SemVer) → Memᴰ v us → Memᴰ v vs × P v)
      × ((v : SemVer) → Memᴰ v vs → P v → Memᴰ v us)
unfolding filter_by
filter_by-decides p P [] h = ([], refl, λ v m. absurd (Memᴰ.not-nil m), λ v m q. m)
filter_by-decides p P (v ∷ vs) ((b, told, b-iff), h) =
    let (us, done, sound, full) = filter_by-decides p P vs h in
    elim (Bool-cases b) [
      | inl e ↦ (
        v ∷ us,
        filter_by-step p (semver v) (map semver vs) (map semver us) true (told ∙ ap ok e) done,
        λ w m. elim (Memᴰ.cases_cons m) [
          | inl q ↦ (Memᴰ.head q, subst P (sym q) (b-iff.0 e))
          | inr m' ↦ (Memᴰ.tail (sound w m').0, (sound w m').1)
        ],
        λ w m q. elim (Memᴰ.cases_cons m) [
          | inl r ↦ Memᴰ.head r
          | inr m' ↦ Memᴰ.tail (full w m' q)
        ],
      )
      | inr e ↦ (
        us,
        filter_by-step p (semver v) (map semver vs) (map semver us) false (told ∙ ap ok e) done,
        λ w m. (Memᴰ.tail (sound w m).0, (sound w m).1),
        λ w m q. elim (Memᴰ.cases_cons m) [
          | inl r ↦ absurd (cc (e, b-iff.1 (subst P r q)))
          | inr m' ↦ full w m' q
        ],
      )
    ]

Ordering-cases : (o : Ordering) → (o ≡ Ordering.lt) ⊎ ((o ≡ Ordering.eq) ⊎ (o ≡ Ordering.gt))
Ordering-cases Ordering.lt = inl refl
Ordering-cases Ordering.eq = inr (inl refl)
Ordering-cases Ordering.gt = inr (inr refl)

compare_semver-same : (v w x : SemVer) → SameVersion v w → compare_semver v x ≡ compare_semver w x
unfolding compare_semver compare_main
compare_semver-same v w x (a, b, c, d) = rw (a, b, c, d)

-- "Not greater" is transitive.
not_gt_trans :
    (v w x : SemVer)
    → HasExactIdents v
    → HasExactIdents w
    → HasExactIdents x
    → compare_semver v w ≢ Ordering.gt
    → compare_semver w x ≢ Ordering.gt
    → compare_semver v x ≢ Ordering.gt
not_gt_trans v w x p q r h k = elim (Ordering-cases (compare_semver v w)) [
  | inl low ↦ elim (Ordering-cases (compare_semver w x)) [
    | inl low' ↦ λ e. absurd (cc (e, compare_semver_trans v w x p q r low low'))
    | inr (inl same) ↦
        let flipped : compare_semver x v ≡ compare_semver w v =
          sym (compare_semver-same w x v ((compare_semver-eq_iff w x q r).0 same)) in
        λ e. cc (e, compare_semver-flip x v ∙ ap flip flipped ∙ sym (compare_semver-flip w v) ∙ low)
    | inr (inr high) ↦ absurd (k high)
  ]
  | inr (inl same) ↦
      let e : compare_semver v x ≡ compare_semver w x =
        compare_semver-same v w x ((compare_semver-eq_iff v w p q).0 same) in
      subst (λ o. o ≢ Ordering.gt) (sym e) k
  | inr (inr high) ↦ absurd (h high)
]

mem-Permᴰ : {v : SemVer} {us ws : List SemVer} → Permᴰ us ws → Memᴰ v us → Memᴰ v ws
mem-Permᴰ Permᴰ.nil m = m
mem-Permᴰ (Permᴰ.cons e d) m = elim (Memᴰ.cases_cons m) [
  | inl q ↦ Memᴰ.head (q ∙ e)
  | inr m' ↦ Memᴰ.tail (mem-Permᴰ d m')
]
mem-Permᴰ (Permᴰ.swap e e') m = elim (Memᴰ.cases_cons m) [
  | inl q ↦ Memᴰ.tail (Memᴰ.head (q ∙ e))
  | inr m' ↦ elim (Memᴰ.cases_cons m') [
    | inl q ↦ Memᴰ.head (q ∙ e')
    | inr m'' ↦ Memᴰ.tail (Memᴰ.tail m'')
  ]
]
mem-Permᴰ (Permᴰ.trans d d') m = mem-Permᴰ d' (mem-Permᴰ d m)

-- The first of versions in descending order is not smaller than any of the others.
first-IsAscending :
    (w : SemVer) (ws : List SemVer)
    → ((v : SemVer) → Memᴰ v (w ∷ ws) → HasExactIdents v)
    → IsAscending (λ v u. compare_semver u v) (w ∷ ws)
    → (v : SemVer) → Memᴰ v ws
    → compare_semver v w ≢ Ordering.gt
first-IsAscending w [] exact s v m = absurd (Memᴰ.not-nil m)
first-IsAscending w (x ∷ xs) exact (near, s) v m = elim (Memᴰ.cases_cons m) [
  | inl e ↦ subst (λ u. compare_semver u w ≢ Ordering.gt) (sym e) near
  | inr m' ↦
      not_gt_trans v x w (exact v (Memᴰ.tail m)) (exact x (Memᴰ.tail (Memᴰ.head refl)))
        (exact w (Memᴰ.head refl)) (first-IsAscending x xs (λ u k. exact u (Memᴰ.tail k)) s v m')
        near
]

compare_semver_refl-not_gt : (v : SemVer) → HasExactIdents v → compare_semver v v ≢ Ordering.gt
compare_semver_refl-not_gt v p e =
    cc (e, (compare_semver-eq_iff v v p p).1 (refl, refl, refl, refl))

module _ (r : Range) (loose : Loose) (is : IsDisjunction loose r.set) (same : r.loose ≡ loose) where
  satisfies-decides :
      (v : SemVer)
      → v.loose ≡ loose
      → Decides (satisfies (semver v) (of_range r) loose) (SomeAdmits v is)
  unfolding satisfies new_range test_range
  satisfies-decides v e =
      let hit : same_loose r.loose loose ≡ true =
        subst (λ l. same_loose r.loose l ≡ true) same (same_loose_refl r.loose) in
      let read : satisfies (semver v) (of_range r) loose ≡ test_sets r.set v =
        rw (satisfies, hit) in
      let (b, told, b-iff) = test_sets-decides v is e in (b, read ∙ told, b-iff)

  satisfies-All :
      (vs : List SemVer)
      → AllLoose loose vs
      → All (λ v. Decides (satisfies (semver v) (of_range r) loose) (SomeAdmits v is)) vs
  satisfies-All [] h = tt
  satisfies-All (v ∷ vs) (p, ps) = (satisfies-decides v p, satisfies-All vs ps)

  greatest :
      (vs us ws : List SemVer)
      → ((v : SemVer) → Memᴰ v us → Memᴰ v vs × SomeAdmits v is)
      → ((v : SemVer) → Memᴰ v vs → SomeAdmits v is → Memᴰ v us)
      → All HasExactIdents vs
      → Permᴰ us ws
      → IsAscending (λ v u. compare_semver u v) ws
      → IsGreatest (λ v. SomeAdmits v is) vs (first_or_null (map semver ws))
  greatest vs us [] sound full exact perm s =
      All-of_mem (λ v. ¬ SomeAdmits v is) vs (λ v m q. Memᴰ.not-nil (mem-Permᴰ perm (full v m q)))
  greatest vs us (w ∷ ws) sound full exact perm s =
      let back = λ (v : SemVer) (m : Memᴰ v (w ∷ ws)). sound v (mem-Permᴰ (Permᴰ.symm perm) m) in
      let found = back w (Memᴰ.head refl) in
      let exact_in =
        λ (v : SemVer) (m : Memᴰ v (w ∷ ws)). mem-All HasExactIdents vs v exact (back v m).0 in
      (
        found.0,
        found.1,
        All-of_mem (λ v. SomeAdmits v is → compare_semver v w ≢ Ordering.gt) vs
            (λ v m q. elim (Memᴰ.cases_cons (mem-Permᴰ perm (full v m q))) [
              | inl e ↦
                  subst (λ u. compare_semver u w ≢ Ordering.gt) (sym e)
                    (compare_semver_refl-not_gt w (exact_in w (Memᴰ.head refl)))
              | inr m' ↦ first-IsAscending w ws exact_in s v m'
            ]),
      )

  -- For versions with exact identifiers and a range of well-formed comparators, all read with the same
  -- looseness: maxSatisfying answers one of the versions that the range admits, to which no other of them is
  -- greater, or null exactly where the range admits none; it never ends in an error.
  pub max_satisfying-IsGreatest :
      (vs : List SemVer)
      → AllLoose loose vs
      → All HasExactIdents vs
      → (o : Option VersionArg) × (max_satisfying (map semver vs) (of_range r) loose ≡ ok o)
        × IsGreatest (λ v. SomeAdmits v is) vs o
  unfolding max_satisfying
  max_satisfying-IsGreatest vs ps exact =
      let p = λ (v : VersionArg). satisfies v (of_range r) loose in
      let (us, done, sound, full) =
        filter_by-decides p (λ v. SomeAdmits v is) vs (satisfies-All vs ps) in
      let loose_us =
        All-of_mem (λ v. v.loose ≡ loose) us
          (λ v m. mem-All (λ v. v.loose ≡ loose) vs v ps (sound v m).0) in
      let (ws, sorted, perm, s) = rsort-IsAscending us loose loose_us in
      (
        first_or_null (map semver ws),
        rw (max_satisfying, done) (rw sorted),
        greatest vs us ws sound full exact perm s,
      )
