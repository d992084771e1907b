-- ===== src/Maps.antt =====
-- Go's maps, as association lists: a key is looked up from the front, and stands once at most in what
-- `insert` builds. The order of the entries stands for the order in which Go ranges over them.
pub mod Laws
pub mod First
use isitsql.Common.{
  ℕ, Bool, true, false, Option, none, some, List, [], ◌∷◌, ◌≡◌, ◌↔◌, Text, text_eq, text_eq_iff,
  ◌==◌, ==_iff, if◌then◌else◌,
}

pub record Eq {ℓ} (K : Type ℓ) : Type ℓ where
  pub same : K → K → Bool
  pub same_iff : (a b : K) → (same a b ≡ true) ↔ (a ≡ b)

instance abbrev pub text_key : Eq Text
text_key = record { same = text_eq; same_iff = text_eq_iff }

instance abbrev pub number_key : Eq ℕ
number_key = record { same = ◌==◌; same_iff = ==_iff }

abbrev pub Map : Type 0 → Type 0 → Type 0
Map K V = List (K × V)

module _ {K V : Type 0} ⦃e : Eq K⦄ where
  -- v, found = m[k]
  unfoldable pub lookup : K → Map K V → Option V
  lookup k [] = none
  lookup k ((j, v) ∷ m) = let rest = lookup k m in if e.same j k then some v else rest

  -- m[k] = v
  unfoldable pub insert : K → V → Map K V → Map K V
  insert k v [] = (k, v) ∷ []
  insert k v ((j, w) ∷ m) =
      let rest = insert k v m in if e.same j k then (k, v) ∷ m else (j, w) ∷ rest

  -- for k := range m { if … { delete(m, k) } }: the entries that pass are kept.
  unfoldable pub keep_if : (K → Bool) → Map K V → Map K V
  keep_if test [] = []
  keep_if test ((j, w) ∷ m) = let rest = keep_if test m in if test j then (j, w) ∷ rest else rest
