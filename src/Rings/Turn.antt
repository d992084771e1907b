-- ===== src/Rings/Turn.antt =====
-- One write to a full slice that goes round: the oldest entry gives way to the new one.
use native.Mathlib.Nat.{mod-lt, mod-add-mod}
use isitsql.Common.{
  ℕ, zero, suc, ◌+◌, ◌-◌, ◌%◌, ◌≤◌, ◌<◌, ◌≡◌, refl, sym, ap, ap₂, ◌∙◌, ◌⊎◌, inl, inr, List, [], ◌∷◌,
  ◌++◌, append-nil, append_assoc, length, take, drop, length-append, arith,
}
use isitsql.Rings.Slots.{
  set, take_last, length-set, take-all, drop-all, take-set, drop-set, mod-cases,
}

-- The slot after slot p % n: the next one, or slot 0 behind the last.
pub next-cases :
    (p n : ℕ)
    → 0 < n
    → ((p % n + 1 < n) × ((p + 1) % n ≡ p % n + 1)) ⊎ ((p % n + 1 ≡ n) × ((p + 1) % n ≡ 0))
next-cases p n h =
    let small : p % n < n = mod-lt p h in
    let step : (p % n + 1) % n ≡ (p + 1) % n = mod-add-mod p n 1 in
    elim (mod-cases (p % n + 1) n (omega arith)) [
      | inl (a, b) ↦ inl (a, omega arith)
      | inr (a, b) ↦ inr (omega arith, omega arith)
    ]

module _ {A : Type 0} where
  -- The entries of a full slice in the order in which they were written, when slot q is the next one.
  abbrev pub in_order : ℕ → List A → List A
  in_order q xs = drop q xs ++ take q xs

  length-in_order : (q : ℕ) (xs : List A) → q ≤ length xs → length (in_order q xs) ≡ length xs
  length-in_order zero xs h = omega (arith, length-append xs [])
  length-in_order (suc q) [] h = absurd (omega arith)
  length-in_order (suc q) (x ∷ xs) h = omega (
    arith,
    length-append (drop q xs) (x ∷ take q xs),
    length-in_order q xs (omega arith),
    length-append (drop q xs) (take q xs),
  )

  drop_one :
      (q : ℕ) (xs ys : List A) → q < length xs → drop 1 (drop q xs ++ ys) ≡ drop (suc q) xs ++ ys
  drop_one zero [] ys h = absurd (omega arith)
  drop_one zero (x ∷ xs) ys h = refl
  drop_one (suc q) [] ys h = absurd (omega arith)
  drop_one (suc q) (x ∷ xs) ys h = drop_one q xs ys (omega arith)

  -- What is left of the order, without the oldest and with the new entry.
  in_order-last :
      (q : ℕ) (xs : List A) (a : A)
      → q < length xs
      → take_last (length xs) (in_order q xs ++ a ∷ []) ≡ drop (suc q) xs ++ (take q xs ++ a ∷ [])
  in_order-last q xs a h =
      let one : length (in_order q xs ++ a ∷ []) - length xs ≡ 1 =
        omega (arith, length-append (in_order q xs) (a ∷ []), length-in_order q xs (omega arith)) in
      ap (λ k. drop k (in_order q xs ++ a ∷ [])) one
      ∙ ap (drop 1) (append_assoc (drop q xs) (take q xs) (a ∷ []))
      ∙ drop_one q xs (take q xs ++ a ∷ []) h

  pub in_order-set :
      (p : ℕ) (xs : List A) (a : A)
      → 0 < length xs
      → in_order ((p + 1) % length xs) (set xs (p % length xs) a)
        ≡ take_last (length xs) (in_order (p % length xs) xs ++ a ∷ [])
  in_order-set p xs a h =
      let n = length xs in
      let q = p % n in
      let small : q < n = mod-lt p h in
      let written : take (suc q) (set xs q a) ≡ take q xs ++ a ∷ [] = take-set q xs a small in
      elim (next-cases p n h) [
        | inl (room, next) ↦
            let next' : (p + 1) % n ≡ suc q = omega arith in
            ap (λ k. in_order k (set xs q a)) next'
            ∙ ap₂ ◌++◌ (drop-set q xs a) written
            ∙ sym (in_order-last q xs a small)
        | inr (end, next) ↦
            let whole : set xs q a ≡ take q xs ++ a ∷ [] =
              sym (take-all (suc q) (set xs q a) (omega (arith, length-set xs q a))) ∙ written in
            let none_left : drop (suc q) xs ≡ [] = drop-all (suc q) xs (omega arith) in
            ap (λ k. in_order k (set xs q a)) next
            ∙ append-nil (set xs q a)
            ∙ whole
            ∙ sym (in_order-last q xs a small ∙ ap (λ d. d ++ (take q xs ++ a ∷ [])) none_left)
      ]
