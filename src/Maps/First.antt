-- ===== src/Maps/First.antt =====
-- Go's `_, ok := m[k]; if !ok { m[k] = v }`: the first entry for a key stays.
use isitsql.Common.{
  suc, ◌≡◌, sym, ap, ◌∙◌, subst, inl, inr, true, false, Bool-cases, Option, none, some, [], ◌∷◌,
  length, if◌then◌else◌, refl,
}
use isitsql.Maps.{Eq, Map, lookup, insert}
use isitsql.Maps.Laws.{key-cases, same-false, lookup-insert_same, lookup-insert_other}

abbrev pub or_first {ℓ} : {A : Type ℓ} → Option A → Option A → Option A
or_first o d = elim o [ some a ↦ some a | none ↦ d ]

pub or_first_assoc :
    {A : Type 0} (a b c : Option A) → or_first (or_first a b) c ≡ or_first a (or_first b c)
or_first_assoc none b c = refl
or_first_assoc (some x) b c = refl

pub or_first-none : {A : Type 0} (o : Option A) → o ≡ or_first o none
or_first-none none = refl
or_first-none (some v) = refl

module _ {K V : Type 0} ⦃e : Eq K⦄ where
  pub length-insert_new :
      (k : K) (v : V) (m : Map K V) → lookup k m ≡ none → length (insert k v m) ≡ suc (length m)
  unfolding insert lookup
  length-insert_new k v [] h = refl
  length-insert_new k v ((j, w) ∷ m) h = elim (Bool-cases (e.same j k)) [
    | inl hit ↦ absurd (cc (h, ap (λ c. if c then some w else lookup k m) hit))
    | inr miss ↦
        let rest : lookup k m ≡ none = sym (ap (λ c. if c then some w else lookup k m) miss) ∙ h in
        rw miss (ap suc (length-insert_new k v m rest))
  ]

  -- What an entry for a new key adds to the map
  pub lookup-insert_new :
      (k j : K) (v : V) (m : Map K V)
      → lookup k m ≡ none
      → lookup j (insert k v m) ≡ or_first (lookup j m) (if e.same k j then some v else none)
  lookup-insert_new k j v m h = elim (key-cases k j) [
    | inl same ↦
        let hit : e.same k j ≡ true = (e.same_iff k j).1 same in
        let absent : lookup j m ≡ none = subst (λ i. lookup i m ≡ none) same h in
        let found : lookup j (insert k v m) ≡ some v =
          subst (λ i. lookup i (insert k v m) ≡ some v) same (lookup-insert_same k v m) in
        rw (hit, absent) found
    | inr other ↦
        let miss : e.same k j ≡ false = same-false k j other in
        rw miss (lookup-insert_other j k v m (λ q. other (sym q)) ∙ or_first-none (lookup j m))
  ]

  -- An entry for a key that is known adds nothing.
  pub or_first-known :
      (k j : K) (v w : V) (m : Map K V)
      → lookup k m ≡ some w
      → lookup j m ≡ or_first (lookup j m) (if e.same k j then some v else none)
  or_first-known k j v w m h = elim (key-cases k j) [
    | inl same ↦
        let known : lookup j m ≡ some w = subst (λ i. lookup i m ≡ some w) same h in rw known refl
    | inr other ↦
        let miss : e.same k j ≡ false = same-false k j other in rw miss (or_first-none (lookup j m))
  ]
