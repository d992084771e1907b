-- ===== src/Rings/Slots.antt =====
-- Slices that a ring overwrites in place, and the last entries of a sequence: what the rings of the
-- Go packages under internal share.
use native.Mathlib.Nat.{mod-eq_of_lt, mod-eq-sub-mod}
use isitsql.Common.{
  ℕ, zero, suc, ◌+◌, ◌-◌, ◌%◌, ◌≤◌, ◌<◌, ◌≡◌, ◌≢◌, refl, sym, ap, ◌∙◌, ◌⊎◌, inl, inr, List, [], ◌∷◌,
  ◌++◌, length, take, drop, length-append, length-drop, arith, Bool-cases, ltb,
}

module _ {ℓ} {A : Type ℓ} where
  -- xs[i] = a; out of range, where Go panics, it changes nothing.
  abbrev pub set : List A → ℕ → A → List A
  set [] i a = []
  set (x ∷ xs) zero a = a ∷ xs
  set (x ∷ xs) (suc i) a = x ∷ set xs i a

  -- xs[i], or the given entry out of range
  abbrev pub get_or : A → List A → ℕ → A
  get_or d [] i = d
  get_or d (x ∷ xs) zero = x
  get_or d (x ∷ xs) (suc i) = get_or d xs i

  -- The last n entries, or all of them if there are fewer.
  abbrev pub take_last : ℕ → List A → List A
  take_last n xs = drop (length xs - n) xs

  pub length-set : (xs : List A) (i : ℕ) (a : A) → length (set xs i a) ≡ length xs
  length-set [] i a = refl
  length-set (x ∷ xs) zero a = refl
  length-set (x ∷ xs) (suc i) a = ap suc (length-set xs i a)

  pub get_or-set_same :
      (d : A) (xs : List A) (i : ℕ) (a : A) → i < length xs → get_or d (set xs i a) i ≡ a
  get_or-set_same d [] i a h = absurd (omega arith)
  get_or-set_same d (x ∷ xs) zero a h = refl
  get_or-set_same d (x ∷ xs) (suc i) a h = get_or-set_same d xs i a (omega arith)

  pub get_or-set_other :
      (d : A) (xs : List A) (i j : ℕ) (a : A) → j ≢ i → get_or d (set xs i a) j ≡ get_or d xs j
  get_or-set_other d [] i j a h = refl
  get_or-set_other d (x ∷ xs) zero zero a h = absurd (h refl)
  get_or-set_other d (x ∷ xs) zero (suc j) a h = refl
  get_or-set_other d (x ∷ xs) (suc i) zero a h = refl
  get_or-set_other d (x ∷ xs) (suc i) (suc j) a h = get_or-set_other d xs i j a (λ e. h (ap suc e))

  pub take-all : (n : ℕ) (xs : List A) → length xs ≤ n → take n xs ≡ xs
  take-all zero [] h = refl
  take-all zero (x ∷ xs) h = absurd (omega arith)
  take-all (suc n) [] h = refl
  take-all (suc n) (x ∷ xs) h = ap (λ t. x ∷ t) (take-all n xs (omega arith))

  pub drop-all : (n : ℕ) (xs : List A) → length xs ≤ n → drop n xs ≡ []
  drop-all zero [] h = refl
  drop-all zero (x ∷ xs) h = absurd (omega arith)
  drop-all (suc n) [] h = refl
  drop-all (suc n) (x ∷ xs) h = drop-all n xs (omega arith)

  -- Dropping what lies within the first of two lists.
  pub drop-append_within :
      (n : ℕ) (xs ys : List A) → n ≤ length xs → drop n (xs ++ ys) ≡ drop n xs ++ ys
  drop-append_within zero xs ys h = refl
  drop-append_within (suc n) [] ys h = absurd (omega arith)
  drop-append_within (suc n) (x ∷ xs) ys h = drop-append_within n xs ys (omega arith)

  -- Dropping more than the first of two lists.
  pub drop-append_beyond :
      (n : ℕ) (xs ys : List A) → length xs ≤ n → drop n (xs ++ ys) ≡ drop (n - length xs) ys
  drop-append_beyond n [] ys h = ap (λ k. drop k ys) (omega arith)
  drop-append_beyond zero (x ∷ xs) ys h = absurd (omega arith)
  drop-append_beyond (suc n) (x ∷ xs) ys h =
      drop-append_beyond n xs ys (omega arith) ∙ ap (λ k. drop k ys) (omega arith)

  drop-nil : (n : ℕ) → drop {A = A} n [] ≡ []
  drop-nil zero = refl
  drop-nil (suc n) = refl

  pub drop-drop : (m n : ℕ) (xs : List A) → drop m (drop n xs) ≡ drop (n + m) xs
  drop-drop m zero xs = ap (λ k. drop k xs) (omega arith)
  drop-drop m (suc n) [] = drop-nil m ∙ sym (drop-nil (suc n + m))
  drop-drop m (suc n) (x ∷ xs) =
      let e : suc (n + m) ≡ suc n + m = omega arith in
      drop-drop m n xs ∙ ap (λ k. drop k (x ∷ xs)) e

  -- The entry written at i, behind those before it.
  pub take-set :
      (i : ℕ) (xs : List A) (a : A)
      → i < length xs
      → take (suc i) (set xs i a) ≡ take i xs ++ a ∷ []
  take-set i [] a h = absurd (omega arith)
  take-set zero (x ∷ xs) a h = refl
  take-set (suc i) (x ∷ xs) a h = ap (λ t. x ∷ t) (take-set i xs a (omega arith))

  pub drop-set : (i : ℕ) (xs : List A) (a : A) → drop (suc i) (set xs i a) ≡ drop (suc i) xs
  drop-set i [] a = refl
  drop-set zero (x ∷ xs) a = refl
  drop-set (suc i) (x ∷ xs) a = drop-set i xs a

  pub length-take_last : (n : ℕ) (xs : List A) → n ≤ length xs → length (take_last n xs) ≡ n
  length-take_last n xs h = omega (arith, length-drop (length xs - n) xs)

  -- The last entries of a sequence that goes on are found among the last ones so far.
  pub take_last-append :
      (n : ℕ) (xs ys : List A) → take_last n (take_last n xs ++ ys) ≡ take_last n (xs ++ ys)
  take_last-append n xs ys =
      let front : drop (length xs - n) xs ++ ys ≡ drop (length xs - n) (xs ++ ys) =
        sym (drop-append_within (length xs - n) xs ys (omega arith)) in
      ap (take_last n) front
      ∙ drop-drop (length (drop (length xs - n) (xs ++ ys)) - n) (length xs - n) (xs ++ ys)
      ∙ ap (λ k. drop k (xs ++ ys))
          (omega (arith, length-drop (length xs - n) (xs ++ ys), length-append xs ys))

-- Below 2n the remainder by n is the number itself or n less.
pub mod-cases : (i n : ℕ) → i < n + n → ((i < n) × (i % n ≡ i)) ⊎ ((n ≤ i) × (i % n ≡ i - n))
mod-cases i n h = elim (Bool-cases (ltb i n)) [
  | inl small ↦ let p : i < n = ground arith in inl (p, mod-eq_of_lt p)
  | inr large ↦
      let p : n ≤ i = ground arith in inr (p, mod-eq-sub-mod p ∙ mod-eq_of_lt (omega arith))
]
