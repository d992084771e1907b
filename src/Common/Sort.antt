-- ===== src/Common/Sort.antt =====
-- A stable sort, by insertion, for Go's `sort` and `slices` packages.
use mathlib.Core.Path.{◌≡◌, refl}
use mathlib.Core.Logic.{inl, inr}
use mathlib.Core.Bool.{Bool, true, false}
use mathlib.Core.List.{List, [], ◌∷◌, Permᴰ}
use mathlib.Core.List.Permᴰ
use isitsql.Common.Tests.{if◌then◌else◌, Bool-cases}
use isitsql.Common.Lists.{All}

module _ {A : Type 0} (less : A → A → Bool) where
  unfoldable pub insert_by : A → List A → List A
  insert_by a [] = a ∷ []
  insert_by a (b ∷ bs) = let rest = insert_by a bs in if less b a then b ∷ rest else a ∷ b ∷ bs

  unfoldable pub sort_by : List A → List A
  unfolding insert_by
  sort_by [] = []
  sort_by (a ∷ list) = insert_by a (sort_by list)

  -- No entry is less than one before it.
  abbrev pub IsOrdered : List A → Type 0
  IsOrdered [] = Unit
  IsOrdered (a ∷ list) = All (λ b. less b a ≡ false) list × IsOrdered list

  pub insert_by-Permᴰ : (a : A) (bs : List A) → Permᴰ (a ∷ bs) (insert_by a bs)
  unfolding insert_by
  insert_by-Permᴰ a [] = Permᴰ.refl (a ∷ [])
  insert_by-Permᴰ a (b ∷ bs) = elim (Bool-cases (less b a)) [
    | inl h ↦ rw h (Permᴰ.trans (Permᴰ.swap refl refl) (Permᴰ.cons refl (insert_by-Permᴰ a bs)))
    | inr h ↦ rw h (Permᴰ.refl (a ∷ b ∷ bs))
  ]

  -- Sorting gives the same entries, each as often.
  pub sort_by-Permᴰ : (list : List A) → Permᴰ list (sort_by list)
  unfolding sort_by
  sort_by-Permᴰ [] = Permᴰ.nil
  sort_by-Permᴰ (a ∷ list) =
      Permᴰ.trans (Permᴰ.cons refl (sort_by-Permᴰ list)) (insert_by-Permᴰ a (sort_by list))

  All-insert_by : (P : A → Type 0) (a : A) (bs : List A) → P a → All P bs → All P (insert_by a bs)
  unfolding insert_by
  All-insert_by P a [] p ps = (p, ps)
  All-insert_by P a (b ∷ bs) p (q, qs) = elim (Bool-cases (less b a)) [
    | inl h ↦ rw h (q, All-insert_by P a bs p qs)
    | inr h ↦ rw h (p, (q, qs))
  ]

module _ {A : Type 0} (less : A → A → Bool) (asym : (a b : A) → less a b ≡ true → less b a ≡ false)
    (up : (a b c : A) → less b a ≡ false → less c b ≡ false → less c a ≡ false) where
  All-up :
      (a b : A) (cs : List A)
      → less b a ≡ false
      → All (λ c. less c b ≡ false) cs
      → All (λ c. less c a ≡ false) cs
  All-up a b [] h ks = tt
  All-up a b (c ∷ cs) h (k, ks) = (up a b c h k, All-up a b cs h ks)

  insert_by-IsOrdered :
      (a : A) (bs : List A) → IsOrdered less bs → IsOrdered less (insert_by less a bs)
  unfolding insert_by
  insert_by-IsOrdered a [] o = (tt, tt)
  insert_by-IsOrdered a (b ∷ bs) (first, o) = elim (Bool-cases (less b a)) [
    | inl h ↦ rw h (
      All-insert_by less (λ c. less c b ≡ false) a bs (asym b a h) first,
      insert_by-IsOrdered a bs o,
    )
    | inr h ↦ rw h ((h, All-up a b bs h first), (first, o))
  ]

  -- For an order that is asymmetric, and whose "not less" is transitive, sorting orders the entries.
  pub sort_by-IsOrdered : (list : List A) → IsOrdered less (sort_by less list)
  unfolding sort_by
  sort_by-IsOrdered [] = tt
  sort_by-IsOrdered (a ∷ list) = insert_by-IsOrdered a (sort_by less list) (sort_by-IsOrdered list)
