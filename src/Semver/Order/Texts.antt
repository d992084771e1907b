-- ===== src/Semver/Order/Texts.antt =====
-- The order of numbers and of strings.
use isitsql.Common.{ℕ, [], ◌∷◌, Text, compare, Ordering, ◌≡◌, refl, arith}
use isitsql.Semver.Compare.{compare_text}

abbrev pub flip : Ordering → Ordering
flip Ordering.lt = Ordering.gt
flip Ordering.eq = Ordering.eq
flip Ordering.gt = Ordering.lt

pub compare-flip : (a b : ℕ) → compare b a ≡ flip (compare a b)
compare-flip a b = ground arith

pub compare-eq : (a b : ℕ) → compare a b ≡ Ordering.eq → a ≡ b
compare-eq a b h = ground arith

pub compare_refl : (a : ℕ) → compare a a ≡ Ordering.eq
compare_refl a = ground arith

pub compare_trans :
    (a b c : ℕ) → compare a b ≡ Ordering.lt → compare b c ≡ Ordering.lt → compare a c ≡ Ordering.lt
compare_trans a b c h k = ground arith

-- One code unit decides, or the rest does.
pub compare_text-cons :
    (a b : ℕ) (s t : Text)
    → compare_text (a ∷ s) (b ∷ t) ≡ elim (compare a b) [
      | Ordering.lt ↦ Ordering.lt
      | Ordering.eq ↦ compare_text s t
      | Ordering.gt ↦ Ordering.gt
    ]
unfolding compare_text
compare_text-cons a b s t = ground arith

pub compare_text_refl : (s : Text) → compare_text s s ≡ Ordering.eq
unfolding compare_text
compare_text_refl [] = refl
compare_text_refl (a ∷ s) = ground (arith, compare_text-cons a a s s, compare_text_refl s)

pub compare_text-flip : (s t : Text) → compare_text t s ≡ flip (compare_text s t)
unfolding compare_text
compare_text-flip [] [] = refl
compare_text-flip [] (b ∷ t) = refl
compare_text-flip (a ∷ s) [] = refl
compare_text-flip (a ∷ s) (b ∷ t) = ground (arith, compare_text-flip s t)

pub compare_text-eq : (s t : Text) → compare_text s t ≡ Ordering.eq → s ≡ t
unfolding compare_text
compare_text-eq [] [] h = refl
compare_text-eq [] (b ∷ t) h = ground arith
compare_text-eq (a ∷ s) [] h = ground arith
compare_text-eq (a ∷ s) (b ∷ t) h = ground (arith, compare_text-eq s t)

pub compare_text_trans :
    (s t u : Text)
    → compare_text s t ≡ Ordering.lt
    → compare_text t u ≡ Ordering.lt
    → compare_text s u ≡ Ordering.lt
unfolding compare_text
compare_text_trans [] [] u h k = ground arith
compare_text_trans [] (b ∷ t) [] h k = ground arith
compare_text_trans [] (b ∷ t) (c ∷ u) h k = refl
compare_text_trans (a ∷ s) [] u h k = ground arith
compare_text_trans (a ∷ s) (b ∷ t) [] h k = ground arith
compare_text_trans (a ∷ s) (b ∷ t) (c ∷ u) h k = ground (arith, compare_text_trans s t u)
