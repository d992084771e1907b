-- ===== src/Rings/SampleRing/Window.antt =====
-- The samples of a slice from one slot on, going round at its end.
use native.Mathlib.Nat.{mod-add-mod, mod-mod}
use isitsql.Common.{
  ℕ, zero, suc, ◌+◌, ◌%◌, ◌<◌, ◌≡◌, ◌≢◌, refl, sym, ap, ap₂, ◌∙◌, inl, inr, List, [], ◌∷◌, ◌++◌,
  length, arith, subst,
}
use isitsql.Rings.Slots.{set, get_or, length-set, get_or-set_other, mod-cases}

-- Fewer than n steps round a slice of n slots do not come back.
pub apart : (t i j n : ℕ) → t < n → i < j → j < n → (t + i) % n ≢ (t + j) % n
apart t i j n p q r = elim (mod-cases (t + i) n (omega arith)) [
  | inl (a, b) ↦ elim (mod-cases (t + j) n (omega arith)) [
    | inl (c, d) ↦ omega arith
    | inr (c, d) ↦ omega arith
  ]
  | inr (a, b) ↦ elim (mod-cases (t + j) n (omega arith)) [
    | inl (c, d) ↦ omega arith
    | inr (c, d) ↦ omega arith
  ]
]

module _ {A : Type 0} (blank : A) where
  -- k samples from slot t on
  abbrev pub window : List A → ℕ → ℕ → List A
  window b t zero = []
  window b t (suc k) = get_or blank b (t % length b) ∷ window b (suc t) k

  pub length-window : (b : List A) (t k : ℕ) → length (window b t k) ≡ k
  length-window b t zero = refl
  length-window b t (suc k) = ap suc (length-window b (suc t) k)

  pub window-append :
      (b : List A) (t k : ℕ)
      → window b t (suc k) ≡ window b t k ++ get_or blank b ((t + k) % length b) ∷ []
  window-append b t zero =
      let e : t ≡ t + 0 = omega arith in ap (λ i. get_or blank b (i % length b) ∷ []) e
  window-append b t (suc k) =
      let e : suc t + k ≡ t + suc k = omega arith in
      ap (λ w. get_or blank b (t % length b) ∷ w)
        (window-append b (suc t) k
          ∙ ap (λ i. window b (suc t) k ++ get_or blank b (i % length b) ∷ []) e)

  pub window-set :
      (b : List A) (t k p : ℕ) (a : A)
      → ((j : ℕ) → j < k → (t + j) % length b ≢ p)
      → window (set b p a) t k ≡ window b t k
  window-set b t zero p a h = refl
  window-set b t (suc k) p a h =
      let here : t + 0 ≡ t = omega arith in
      let first : t % length b ≢ p = subst (λ i. i % length b ≢ p) here (h 0 (omega arith)) in
      let later : (j : ℕ) → j < k → (suc t + j) % length b ≢ p = λ j q.
        let e : t + suc j ≡ suc t + j = omega arith in
        subst (λ i. i % length b ≢ p) e (h (suc j) (omega arith)) in
      ap₂ (λ x w. x ∷ w)
        (ap (λ n. get_or blank (set b p a) (t % n)) (length-set b p a)
          ∙ get_or-set_other blank b p (t % length b) a first)
        (window-set b (suc t) k p a later)

  pub window-mod : (b : List A) (t k : ℕ) → window b (t % length b) k ≡ window b t k
  window-mod b t zero = refl
  window-mod b t (suc k) =
      let step : suc (t % length b) % length b ≡ suc t % length b =
        let e : suc (t % length b) ≡ t % length b + 1 = omega arith in
        let e' : t + 1 ≡ suc t = omega arith in
        ap (λ i. i % length b) e ∙ mod-add-mod t (length b) 1 ∙ ap (λ i. i % length b) e' in
      ap₂ (λ x w. x ∷ w) (ap (get_or blank b) (mod-mod t (length b)))
        (sym (window-mod b (suc (t % length b)) k)
          ∙ ap (λ i. window b i k) step
          ∙ window-mod b (suc t) k)
