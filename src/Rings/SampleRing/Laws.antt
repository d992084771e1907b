-- ===== src/Rings/SampleRing/Laws.antt =====
-- internal/cpuring/ring_cpu.go and its copies: the ring against the queue of its samples.
use native.Mathlib.Nat.{add-mod_right, mod-lt, mod-eq_of_lt}
use isitsql.Common.{
  ℕ, suc, ◌+◌, ◌-◌, ◌%◌, ◌≤◌, ◌<◌, ◌≡◌, ◌≢◌, refl, sym, ap, ap₂, ◌∙◌, inl, inr, Option, none, some,
  List, [], ◌∷◌, ◌++◌, length, drop, length-append, arith, Bool-cases, leb, ◌==◌, if◌then◌else◌,
  ==_iff,
}
use isitsql.Rings.Slots.{set, get_or, take_last, length-set, get_or-set_same, mod-cases}
use isitsql.Rings.SampleRing.{Kind}
use isitsql.Rings.SampleRing.Window.{
  apart, window, length-window, window-append, window-set, window-mod,
}

-- How many samples there are from slot t to slot h, in a slice of n slots.
abbrev pub count : ℕ → ℕ → ℕ → ℕ
count h t n = if leb t h then h + 1 - t else h + 1 + n - t

-- A slice with a slot, and slots in it for the newest and the oldest sample; or no sample yet.
abbrev pub IsReady : {A : Type 0} → List A → Option ℕ → ℕ → Type 0
IsReady b none t = (0 < length b) × (t ≡ 0)
IsReady b (some h) t = (0 < length b) × (h < length b) × (t < length b)

module _ {A : Type 0} (kind : Kind A) where
  -- The samples of an initialized ring, the oldest first.
  abbrev pub samples : List A → Option ℕ → ℕ → List A
  samples b none t = []
  samples b (some h) t = window kind.blank b t (count h t (length b))

  pub write-first :
      (b : List A) (a : A)
      → 0 < length b
      → let b' = set b (0 % length b) a in
        IsReady b' (some (0 % length b)) 0
        × (samples b' (some (0 % length b)) 0 ≡ take_last (length b) (a ∷ []))
  write-first b a h =
      let n = length b in
      let z : 0 % n ≡ 0 = mod-eq_of_lt h in
      let kept : length (set b (0 % n) a) ≡ n = length-set b (0 % n) a in
      let one : count (0 % n) 0 (length (set b (0 % n) a)) ≡ 1 = rw z refl in
      let zero_left : 1 - n ≡ 0 = omega arith in
      let slot : 0 % length (set b (0 % n) a) ≡ 0 % n = ap (λ k. 0 % k) kept in
      (
        (omega arith, omega arith, omega arith),
        ap (window kind.blank (set b (0 % n) a) 0) one
            ∙ ap (λ i. get_or kind.blank (set b (0 % n) a) i ∷ []) slot
            ∙ ap (λ x. x ∷ []) (get_or-set_same kind.blank b (0 % n) a (omega arith))
            ∙ sym (ap (λ k. drop k (a ∷ [])) zero_left),
      )

  -- Counting on from the oldest sample leads to the slot that is written.
  pub count-slot :
      (h t n : ℕ)
      → h < n
      → t < n
      → ((t + count h t n) % n ≡ (h + 1) % n) × (0 < count h t n) × (count h t n ≤ n)
  count-slot h t n p q = elim (Bool-cases (leb t h)) [
    | inl x ↦
        let e : t + (h + 1 - t) ≡ h + 1 = ground arith in
        rw x (ap (λ i. i % n) e, ground arith, ground arith)
    | inr x ↦
        let e : t + (h + 1 + n - t) ≡ (h + 1) + n = ground arith in
        rw x (ap (λ i. i % n) e ∙ add-mod_right (h + 1) n, ground arith, ground arith)
  ]

  pub count-next :
      (h t n : ℕ) → h < n → t < n → (h + 1) % n ≢ t → count ((h + 1) % n) t n ≡ count h t n + 1
  count-next h t n p q r = elim (mod-cases (h + 1) n (omega arith)) [
    | inl (a, b) ↦ let r' : h + 1 ≢ t = (λ e. r (b ∙ e)) in rw b (ground arith)
    | inr (a, b) ↦
        let z : (h + 1) % n ≡ 0 = omega arith in
        let r' : 0 ≢ t = (λ e. r (z ∙ e)) in rw z (ground arith)
  ]

  count-full :
      (h t n : ℕ)
      → h < n
      → t < n
      → (h + 1) % n ≡ t
      → (count h t n ≡ n) × (count t ((t + 1) % n) n ≡ n)
  count-full h t n p q r = (
    elim (mod-cases (h + 1) n (omega arith)) [
      | inl (a, b) ↦ ground arith
      | inr (a, b) ↦ ground arith
    ],
    elim (mod-cases (t + 1) n (omega arith)) [
      | inl (a, b) ↦ rw b (ground arith)
      | inr (a, b) ↦ let z : (t + 1) % n ≡ 0 = omega arith in rw z (ground arith)
    ],
  )

  -- The slot that is written, seen from the oldest sample
  written :
      (b : List A) (t k p : ℕ) (a : A)
      → p < length b
      → (t + k) % length b ≡ p
      → ((j : ℕ) → j < k → (t + j) % length b ≢ p)
      → window kind.blank (set b p a) t (suc k) ≡ window kind.blank b t k ++ a ∷ []
  written b t k p a h e other =
      let kept : length (set b p a) ≡ length b = length-set b p a in
      let slot : (t + k) % length (set b p a) ≡ p = ap (λ n. (t + k) % n) kept ∙ e in
      window-append kind.blank (set b p a) t k
      ∙ ap₂ (λ w x. w ++ x ∷ []) (window-set kind.blank b t k p a other)
          (ap (get_or kind.blank (set b p a)) slot ∙ get_or-set_same kind.blank b p a h)

  pub write-room :
      (b : List A) (h t : ℕ) (a : A)
      → h < length b
      → t < length b
      → (h + 1) % length b ≢ t
      → let p = (h + 1) % length b in
        IsReady (set b p a) (some p) t
        × (samples (set b p a) (some p) t ≡ take_last (length b) (samples b (some h) t ++ a ∷ []))
  write-room b h t a p q r =
      let n = length b in
      let s = (h + 1) % n in
      let k = count h t n in
      let small : s < n = mod-lt (h + 1) (omega arith) in
      let kept : length (set b s a) ≡ n = length-set b s a in
      let (slot, some_left, most) = count-slot h t n p q in
      let fewer : k < n = elim (Bool-cases (k == n)) [
        | inl e ↦
            let all : k ≡ n = (==_iff k n).0 e in
            let turn : (t + k) % n ≡ t =
              ap (λ i. (t + i) % n) all ∙ add-mod_right t n ∙ mod-eq_of_lt q in
            absurd (r (sym slot ∙ turn))
        | inr e ↦ ground arith
      ] in
      let more : count s t (length (set b s a)) ≡ suc k =
        ap (count s t) kept ∙ count-next h t n p q r ∙ omega arith in
      let none_dropped : length (window kind.blank b t k ++ a ∷ []) - n ≡ 0 =
        omega (
          arith,
          length-append (window kind.blank b t k) (a ∷ []),
          length-window kind.blank b t k,
        ) in
      (
        (omega arith, omega arith, omega arith),
        ap (window kind.blank (set b s a) t) more
            ∙ written b t k s a small slot (λ j l e. apart t j k n q l fewer (e ∙ sym slot))
            ∙ sym (ap (λ i. drop i (window kind.blank b t k ++ a ∷ [])) none_dropped),
      )

  pub write-over :
      (b : List A) (h t : ℕ) (a : A)
      → h < length b
      → t < length b
      → (h + 1) % length b ≡ t
      → let t' = (t + 1) % length b in
        IsReady (set b t a) (some t) t'
        × (samples (set b t a) (some t) t' ≡ take_last (length b) (samples b (some h) t ++ a ∷ []))
  write-over b h t a p q r =
      let n = length b in
      let m = n - 1 in
      let t' = (t + 1) % n in
      let b' = set b t a in
      let kept : length b' ≡ n = length-set b t a in
      let (all, all') = count-full h t n p q r in
      let size : n ≡ suc m = omega arith in
      let next : t + 1 ≡ suc t = omega arith in
      let below : t' < n = mod-lt (t + 1) (omega arith) in
      let back : (suc t + m) % n ≡ t =
        let e : suc t + m ≡ t + n = omega arith in
        ap (λ i. i % n) e ∙ add-mod_right t n ∙ mod-eq_of_lt q in
      let other : (j : ℕ) → j < m → (suc t + j) % n ≢ t = λ j l e.
        let e' : t + 0 ≡ t = omega arith in
        let e'' : suc t + j ≡ t + suc j = omega arith in
        apart t 0 (suc j) n q (omega arith) (omega arith)
          (ap (λ i. i % n) e' ∙ mod-eq_of_lt q ∙ sym (sym (ap (λ i. i % n) e'') ∙ e)) in
      let before : samples b (some h) t
          ≡ get_or kind.blank b (t % n) ∷ window kind.blank b (suc t) m =
        ap (window kind.blank b t) (all ∙ size) in
      let one : length (samples b (some h) t ++ a ∷ []) - n ≡ 1 = omega (
        arith,
        length-append (samples b (some h) t) (a ∷ []),
        length-window kind.blank b t (count h t n),
      ) in
      (
        (omega arith, omega arith, omega arith),
        ap (window kind.blank b' t') (ap (count t t') kept ∙ all' ∙ size)
            ∙ ap (λ k. window kind.blank b' ((t + 1) % k) (suc m)) (sym kept)
            ∙ window-mod kind.blank b' (t + 1) (suc m)
            ∙ ap (λ i. window kind.blank b' i (suc m)) next
            ∙ written b (suc t) m t a q back other
            ∙ sym (
                ap (λ i. drop i (samples b (some h) t ++ a ∷ [])) one
                ∙ ap (λ w. drop 1 (w ++ a ∷ [])) before),
      )
