-- ===== src/Semver/Comparator/Laws.antt =====
-- static/js/semver.js: `sort` and `rsort` on versions.
use mathlib.Core.List.{Permᴰ}
use mathlib.Core.List.Permᴰ
use isitsql.Common.{
  true, false, List, [], ◌∷◌, map, ◌≡◌, refl, ◌≢◌, ◌∙◌, ap, inl, inr, Ordering, All, Bool-cases,
  sym, subst,
}
use isitsql.Semver.Version.{Result, ok, ◌>>=◌, Loose, SemVer, VersionArg, semver}
use isitsql.Semver.Compare.{compare_semver, compare_versions, rcompare, is_gt}
use isitsql.Semver.Order.{flip, compare_semver-flip}
use isitsql.Semver.Comparator.{insert_sorted, sort_by, sort, rsort}
use isitsql.Semver.Range.Holds.{compare_versions-semver}

-- No version stands before a smaller one next to it.
abbrev pub IsAscending : (SemVer → SemVer → Ordering) → List SemVer → Type 0
IsAscending f [] = Unit
IsAscending f (v ∷ []) = Unit
IsAscending f (v ∷ w ∷ ws) = (f v w ≢ Ordering.gt) × IsAscending f (w ∷ ws)

-- The versions were read with the given looseness.
abbrev pub AllLoose : Loose → List SemVer → Type 0
AllLoose loose = All (λ v. v.loose ≡ loose)

is_gt-gt : (o : Ordering) → is_gt o ≡ true → flip o ≢ Ordering.gt
is_gt-gt Ordering.gt h = λ e. cc e
is_gt-gt o h = absurd (cc h)

is_gt-not_gt : (o : Ordering) → is_gt o ≡ false → o ≢ Ordering.gt
is_gt-not_gt Ordering.gt h = absurd (cc h)
is_gt-not_gt o h = λ e. cc e

module _ (order : VersionArg → VersionArg → Result Ordering) (f : SemVer → SemVer → Ordering)
    (loose : Loose)
    (agree : (v w : SemVer)
      → v.loose ≡ loose
      → w.loose ≡ loose
      → order (semver v) (semver w) ≡ ok (f v w))
    (flipped : (v w : SemVer) → f w v ≡ flip (f v w)) where
  insert_sorted-step :
      (a b : VersionArg) (bs : List VersionArg) (c : Ordering)
      → order a b ≡ ok c
      → insert_sorted order a (b ∷ bs) ≡ elim (is_gt c) [
        | true ↦ insert_sorted order a bs >>= λ rest. ok (b ∷ rest)
        | false ↦ ok (a ∷ b ∷ bs)
      ]
  unfolding insert_sorted
  insert_sorted-step a b bs c e = rw (insert_sorted, e)

  tail-IsAscending : (w : SemVer) (ws : List SemVer) → IsAscending f (w ∷ ws) → IsAscending f ws
  tail-IsAscending w [] s = tt
  tail-IsAscending w (x ∷ xs) s = s.1

  -- Inserting a version gives the versions again, it among them, and keeps them ascending, also
  -- behind a version that is not larger than any of them.
  insert_sorted-IsAscending :
      (v : SemVer) (ws : List SemVer)
      → v.loose ≡ loose
      → AllLoose loose ws
      → IsAscending f ws
      → (us : List SemVer) × (insert_sorted order (semver v) (map semver ws) ≡ ok (map semver us))
        × Permᴰ (v ∷ ws) us
        × AllLoose loose us
        × IsAscending f us
        × ((u : SemVer) → f u v ≢ Ordering.gt → IsAscending f (u ∷ ws) → IsAscending f (u ∷ us))
  unfolding insert_sorted
  insert_sorted-IsAscending v [] p ps s =
      (v ∷ [], refl, Permᴰ.refl (v ∷ []), (p, tt), tt, λ u h k. (h, tt))
  insert_sorted-IsAscending v (w ∷ ws) p (q, qs) s = elim (Bool-cases (is_gt (f v w))) [
    | inr small ↦ (
      v ∷ w ∷ ws,
      insert_sorted-step (semver v) (semver w) (map semver ws) (f v w) (agree v w p q) ∙ rw small,
      Permᴰ.refl (v ∷ w ∷ ws),
      (p, (q, qs)),
      (is_gt-not_gt (f v w) small, s),
      λ u h k. (h, (is_gt-not_gt (f v w) small, s)),
    )
    | inl large ↦
        let (us, done, perm, ls, asc, behind) =
          insert_sorted-IsAscending v ws p qs (tail-IsAscending w ws s) in
        let before : f w v ≢ Ordering.gt =
          subst (λ o. o ≢ Ordering.gt) (sym (flipped v w)) (is_gt-gt (f v w) large) in
        let inserted : insert_sorted order (semver v) (map semver (w ∷ ws))
            ≡ ok (map semver (w ∷ us)) =
          insert_sorted-step (semver v) (semver w) (map semver ws) (f v w) (agree v w p q)
          ∙ (rw large (ap (λ r. r >>= λ rest. ok (semver w ∷ rest)) done)) in
        (
          w ∷ us,
          inserted,
          Permᴰ.trans (Permᴰ.swap refl refl) (Permᴰ.cons refl perm),
          (q, ls),
          behind w before s,
          λ u h k. (k.0, behind w before s),
        )
  ]

  sort_by-step :
      (a : VersionArg) (cs bs : List VersionArg)
      → sort_by order cs ≡ ok bs
      → sort_by order (a ∷ cs) ≡ insert_sorted order a bs
  unfolding sort_by
  sort_by-step a cs bs e = rw (sort_by, e)

  pub sort_by-IsAscending :
      (vs : List SemVer)
      → AllLoose loose vs
      → (us : List SemVer) × (sort_by order (map semver vs) ≡ ok (map semver us))
        × Permᴰ vs us
        × AllLoose loose us
        × IsAscending f us
  unfolding sort_by
  sort_by-IsAscending [] ps = ([], refl, Permᴰ.nil, tt, tt)
  sort_by-IsAscending (v ∷ vs) (p, ps) =
      let (us, done, perm, ls, asc) = sort_by-IsAscending vs ps in
      let (ws, inserted, perm', ls', asc', behind) = insert_sorted-IsAscending v us p ls asc in
      (
        ws,
        sort_by-step (semver v) (map semver vs) (map semver us) done ∙ inserted,
        Permᴰ.trans (Permᴰ.cons refl perm) perm',
        ls',
        asc',
      )

-- Sorting versions that were read with the given looseness gives the same versions, each as often,
-- with none before a smaller one next to it.
pub sort-IsAscending :
    (vs : List SemVer) (loose : Loose)
    → AllLoose loose vs
    → (us : List SemVer) × (sort (map semver vs) loose ≡ ok (map semver us))
      × Permᴰ vs us
      × IsAscending compare_semver us
unfolding sort
sort-IsAscending vs loose ps =
    let (us, done, perm, ls, asc) =
      sort_by-IsAscending (λ a b. compare_versions a b loose) compare_semver loose
        (λ v w p q. compare_versions-semver v w loose p) compare_semver-flip vs ps in
    (us, done, perm, asc)

rcompare-semver :
    (v w : SemVer) (loose : Loose)
    → w.loose ≡ loose
    → rcompare (semver v) (semver w) loose ≡ ok (compare_semver w v)
unfolding rcompare
rcompare-semver v w loose q = compare_versions-semver w v loose q

-- Sorting them the other way round gives the same versions, each as often, with none before a larger
-- one next to it.
pub rsort-IsAscending :
    (vs : List SemVer) (loose : Loose)
    → AllLoose loose vs
    → (us : List SemVer) × (rsort (map semver vs) loose ≡ ok (map semver us))
      × Permᴰ vs us
      × IsAscending (λ v w. compare_semver w v) us
unfolding rsort
rsort-IsAscending vs loose ps =
    let (us, done, perm, ls, asc) =
      sort_by-IsAscending (λ a b. rcompare a b loose) (λ v w. compare_semver w v) loose
        (λ v w p q. rcompare-semver v w loose q) (λ v w. compare_semver-flip w v) vs ps in
    (us, done, perm, asc)
