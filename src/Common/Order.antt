-- ===== src/Common/Order.antt =====
-- The order of texts: asymmetric, and what is not smaller than a text that is not smaller, is not smaller.
use mathlib.Core.Path.{◌≡◌, refl, sym, ap₂, ◌∙◌}
use mathlib.Core.Logic.{inl, inr}
use mathlib.Core.Bool.{Bool, true, false, ◌||◌, ◌&&◌}
use mathlib.Core.List.{[], ◌∷◌}
use native.Mathlib.Omega.{arith}
use isitsql.Common.Tests.{ltb, ◌==◌, Bool-cases, or_left, or_right}
use isitsql.Common.Strings.{Text, text_ltb}

and_from : (a b : Bool) → a ≡ true → (a && b) ≡ false → b ≡ false
and_from true b e h = h
and_from false b e h = absurd (cc e)

both_false : (a b c : Bool) → a ≡ false → (b ≡ true → c ≡ false) → (a || (b && c)) ≡ false
both_false a true c e h = ap₂ (λ x y. x || y) e (h refl)
both_false a false c e h = rw e refl

pub text_ltb_asym : (s t : Text) → text_ltb s t ≡ true → text_ltb t s ≡ false
unfolding text_ltb
text_ltb_asym [] [] h = refl
text_ltb_asym [] (b ∷ t) h = refl
text_ltb_asym (a ∷ s) [] h = absurd (cc h)
text_ltb_asym (a ∷ s) (b ∷ t) h = elim (Bool-cases (ltb a b)) [
  | inl less ↦
      let no_more : ltb b a ≡ false = ground arith in
      both_false (ltb b a) (b == a) (text_ltb t s) no_more (λ same. absurd (ground arith))
  | inr no_less ↦ elim (Bool-cases (a == b)) [
    | inl same ↦
        let no_more : ltb b a ≡ false = ground arith in
        let rest : text_ltb s t ≡ true =
          sym (ap₂ (λ c d. c || (d && text_ltb s t)) no_less same) ∙ h in
        both_false (ltb b a) (b == a) (text_ltb t s) no_more (λ k. text_ltb_asym s t rest)
    | inr other ↦ absurd (cc (sym h ∙ ap₂ (λ c d. c || (d && text_ltb s t)) no_less other))
  ]
]

pub text_ltb_up :
    (s t u : Text) → text_ltb t s ≡ false → text_ltb u t ≡ false → text_ltb u s ≡ false
unfolding text_ltb
text_ltb_up [] t [] h k = refl
text_ltb_up [] t (c ∷ u) h k = refl
text_ltb_up (a ∷ s) [] u h k = absurd (cc h)
text_ltb_up (a ∷ s) (b ∷ t) [] h k = absurd (cc k)
text_ltb_up (a ∷ s) (b ∷ t) (c ∷ u) h k =
    let no_ba = or_left (ltb b a) ((b == a) && text_ltb t s) h in
    let no_cb = or_left (ltb c b) ((c == b) && text_ltb u t) k in
    let tails = or_right (ltb b a) ((b == a) && text_ltb t s) h in
    let tails' = or_right (ltb c b) ((c == b) && text_ltb u t) k in
    let no_ca : ltb c a ≡ false = ground arith in
    both_false (ltb c a) (c == a) (text_ltb u s) no_ca (λ same.
      let ba : (b == a) ≡ true = ground arith in
      let cb : (c == b) ≡ true = ground arith in
      text_ltb_up s t u (and_from (b == a) (text_ltb t s) ba tails)
        (and_from (c == b) (text_ltb u t) cb tails'))
