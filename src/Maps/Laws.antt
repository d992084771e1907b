-- ===== src/Maps/Laws.antt =====
-- What is found in a map after it changed.
use isitsql.Common.{
  Bool, true, false, none, some, [], ◌∷◌, ◌≡◌, refl, ◌≢◌, ◌⊎◌, ◌∙◌, subst, sym, ap, Bool-cases, inl,
  inr, if◌then◌else◌,
}
use isitsql.Maps.{Eq, Map, lookup, insert, keep_if}

module _ {K : Type 0} ⦃e : Eq K⦄ where
  pub same_refl : (k : K) → e.same k k ≡ true
  same_refl k = (e.same_iff k k).1 refl

  pub same-false : (j k : K) → j ≢ k → e.same j k ≡ false
  same-false j k h = elim (Bool-cases (e.same j k)) [
    | inl p ↦ absurd (h ((e.same_iff j k).0 p))
    | inr q ↦ q
  ]

  pub key-cases : (j k : K) → (j ≡ k) ⊎ (j ≢ k)
  key-cases j k = elim (Bool-cases (e.same j k)) [
    | inl p ↦ inl ((e.same_iff j k).0 p)
    | inr q ↦ inr (λ h. absurd (cc (q, (e.same_iff j k).1 h)))
  ]

module _ {K V : Type 0} ⦃e : Eq K⦄ where
  pub lookup-insert_same : (k : K) (v : V) (m : Map K V) → lookup k (insert k v m) ≡ some v
  unfolding lookup insert
  lookup-insert_same k v [] = rw (same_refl k)
  lookup-insert_same k v ((j, w) ∷ m) = elim (Bool-cases (e.same j k)) [
    | inl p ↦ rw p (rw (same_refl k))
    | inr q ↦ rw q (rw q (lookup-insert_same k v m))
  ]

  pub lookup-insert_other :
      (j k : K) (v : V) (m : Map K V) → j ≢ k → lookup j (insert k v m) ≡ lookup j m
  unfolding lookup insert
  lookup-insert_other j k v [] h =
      let q : e.same k j ≡ false = same-false k j (λ p. h (sym p)) in rw q
  lookup-insert_other j k v ((i, w) ∷ m) h = elim (Bool-cases (e.same i k)) [
    | inl p ↦
        let q : e.same k j ≡ false = same-false k j (λ p. h (sym p)) in
        let r : e.same i j ≡ false = rw ((e.same_iff i k).0 p) q in rw p (rw (q, r))
    | inr q ↦ rw q (rw (lookup-insert_other j k v m h))
  ]

  pub lookup-keep_if_kept :
      (k : K) (test : K → Bool) (m : Map K V)
      → test k ≡ true
      → lookup k (keep_if test m) ≡ lookup k m
  unfolding lookup keep_if
  lookup-keep_if_kept k test [] h = refl
  lookup-keep_if_kept k test ((j, w) ∷ m) h = elim (Bool-cases (test j)) [
    | inl p ↦ rw p (rw (lookup-keep_if_kept k test m h))
    | inr q ↦
        let r : e.same j k ≡ false = same-false j k (λ p. cc (ap test p, q, h)) in
        rw q (rw r (lookup-keep_if_kept k test m h))
  ]

  pub lookup-keep_if_dropped :
      (k : K) (test : K → Bool) (m : Map K V) → test k ≡ false → lookup k (keep_if test m) ≡ none
  unfolding lookup keep_if
  lookup-keep_if_dropped k test [] h = refl
  lookup-keep_if_dropped k test ((j, w) ∷ m) h = elim (Bool-cases (test j)) [
    | inl p ↦
        let r : e.same j k ≡ false = same-false j k (λ q. cc (ap test q, p, h)) in
        rw p (rw r (lookup-keep_if_dropped k test m h))
    | inr q ↦ rw q (lookup-keep_if_dropped k test m h)
  ]

  pub lookup-none :
      (k j : K) (v : V) (m : Map K V) → lookup k ((j, v) ∷ m) ≡ none → (j ≢ k) × (lookup k m ≡ none)
  unfolding lookup
  lookup-none k j v m h = elim (Bool-cases (e.same j k)) [
    | inl p ↦ absurd (cc (h, ap (λ c. if c then some v else lookup k m) p))
    | inr q ↦ (
      λ same. absurd (cc (q, (e.same_iff j k).1 same)),
      sym (ap (λ c. if c then some v else lookup k m) q) ∙ h,
    )
  ]

  -- Each key stands once.
  abbrev pub IsMap : Map K V → Type 0
  IsMap [] = Unit
  IsMap ((k, v) ∷ m) = (lookup k m ≡ none) × IsMap m

  pub insert-IsMap : (k : K) (v : V) (m : Map K V) → IsMap m → IsMap (insert k v m)
  unfolding insert lookup
  insert-IsMap k v [] h = (refl, tt)
  insert-IsMap k v ((j, w) ∷ m) (once, h) = elim (Bool-cases (e.same j k)) [
    | inl p ↦
        let absent : lookup k m ≡ none =
          subst (λ i. lookup i m ≡ none) ((e.same_iff j k).0 p) once in
        rw p (absent, h)
    | inr q ↦
        let other : j ≢ k = λ p. absurd (cc (q, (e.same_iff j k).1 p)) in
        rw q (lookup-insert_other j k v m other ∙ once, insert-IsMap k v m h)
  ]
