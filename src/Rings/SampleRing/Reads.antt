-- ===== src/Rings/SampleRing/Reads.antt =====
-- internal/cpuring/ring_cpu.go and its copies: the reads, and `Dequeue`.
use native.Mathlib.Nat.{add-mod_right, mod-eq_of_lt, mod-mod}
use isitsql.Common.{
  ℕ, zero, suc, ◌+◌, ◌-◌, ◌%◌, ◌≤◌, ◌<◌, ◌≡◌, ◌≢◌, sym, ap, ap₂, ◌∙◌, inl, inr, true, false, not,
  Option, some, List, [], ◌∷◌, length, is_empty, arith, Bool-cases, leb, ◌==◌, ==_iff,
}
use isitsql.Rings.Slots.{get_or}
use isitsql.Rings.WaitRing.Laws.{last_or}
use isitsql.Rings.SampleRing.{Kind, Ring, check_init, get, peek, get_newest, values, values_from}
use isitsql.Rings.SampleRing.Window.{apart, window}
use isitsql.Rings.SampleRing.Laws.{IsReady, samples, count, count-slot}

-- The first entry of a sequence, or the given one.
abbrev pub first_or : {A : Type 0} → A → List A → A
first_or d [] = d
first_or d (x ∷ xs) = x

-- The newest sample stands at the end of the count.
count-end : (h t n : ℕ) → h < n → t < n → (t + (count h t n - 1)) % n ≡ h
count-end h t n p q = elim (Bool-cases (leb t h)) [
  | inl x ↦
      let e : t + (h + 1 - t - 1) ≡ h = ground arith in rw x (ap (λ i. i % n) e ∙ mod-eq_of_lt p)
  | inr x ↦
      let e : t + (h + 1 + n - t - 1) ≡ h + n = ground arith in
      rw x (ap (λ i. i % n) e ∙ add-mod_right h n ∙ mod-eq_of_lt p)
]

module _ {A : Type 0} (kind : Kind A) where
  loop :
      (b : List A) (h t i k c : ℕ)
      → t < length b
      → i < c
      → c ≤ i + k
      → c ≤ length b
      → (t + (c - 1)) % length b ≡ h
      → values_from kind b h t i k ≡ window kind.blank b (t + i) (c - i)
  unfolding values_from
  loop b h t i zero c q l m w e = absurd (omega arith)
  loop b h t i (suc k) c q l m w e =
      let n = length b in
      let here : (i + t) % n ≡ (t + i) % n =
        let f : i + t ≡ t + i = omega arith in ap (λ j. j % n) f in
      let read : get_or kind.blank b ((i + t) % n % n) ≡ get_or kind.blank b ((t + i) % n) =
        ap (get_or kind.blank b) (mod-mod (i + t) n ∙ here) in
      elim (Bool-cases (i + 1 == c)) [
        | inl end ↦
            let last : i + 1 ≡ c = (==_iff (i + 1) c).0 end in
            let at : (i + t) % n ≡ h =
              let f : t + i ≡ t + (c - 1) = omega arith in here ∙ ap (λ j. j % n) f ∙ e in
            let stop : ((i + t) % n == h) ≡ true = (==_iff ((i + t) % n) h).1 at in
            let one : c - i ≡ 1 = omega arith in rw (stop, one) (ap (λ x. x ∷ []) read)
        | inr on ↦
            let further : i + 1 < c = ground arith in
            let not_at : (i + t) % n ≢ h =
              λ f. apart t i (c - 1) n q (omega arith) (omega arith) (sym here ∙ f ∙ sym e) in
            let go : ((i + t) % n == h) ≡ false = ground arith in
            let left : c - i ≡ suc (c - suc i) = omega arith in
            let next : t + suc i ≡ suc (t + i) = omega arith in
            rw (go, left)
              (ap₂ (λ x w'. x ∷ w') read
                (loop b h t (suc i) k c q (omega arith) (omega arith) w e
                  ∙ ap (λ j. window kind.blank b j (c - suc i)) next))
      ]

  values-samples :
      (b : List A) (h t : ℕ)
      → h < length b
      → t < length b
      → values_from kind b h t 0 (length b) ≡ samples kind b (some h) t
  values-samples b h t p q =
      let n = length b in
      let (slot, some_left, most) = count-slot kind h t n p q in
      let start : t + 0 ≡ t = omega arith in
      let all : count h t n - 0 ≡ count h t n = omega arith in
      loop b h t 0 n (count h t n) q some_left (omega arith) most (count-end h t n p q)
      ∙ ap₂ (window kind.blank b) start all

  last_or-window :
      (b : List A) (d : A) (t k : ℕ)
      → last_or d (window kind.blank b t (suc k)) ≡ get_or kind.blank b ((t + k) % length b)
  last_or-window b d t zero =
      let e : t ≡ t + 0 = omega arith in ap (λ i. get_or kind.blank b (i % length b)) e
  last_or-window b d t (suc k) =
      let e : suc t + k ≡ t + suc k = omega arith in
      last_or-window b (get_or kind.blank b (t % length b)) (suc t) k
      ∙ ap (λ i. get_or kind.blank b (i % length b)) e

  pub get_lem :
      (b : List A) (h : Option ℕ) (t p : ℕ)
      → 0 < length b
      → get kind (record { buff = some b; head = h; tail = t }) p
        ≡ some (get_or kind.blank b (p % length b))
  unfolding get
  get_lem b h t p q = let e : (length b == 0) ≡ false = ground arith in rw (get, e)

  -- What the reads of an initialized ring answer.
  unfoldable pub Reads : Ring A → List A → Type 0
  Reads r xs =
      (values kind r ≡ xs)
      × (peek kind r ≡ some (first_or kind.blank xs))
      × (get_newest kind r ≡ some (last_or kind.blank xs, not (is_empty xs)))

  pub some-Reads :
      (b : List A) (h t : ℕ)
      → IsReady b (some h) t
      → Reads (record { buff = some b; head = some h; tail = t }) (samples kind b (some h) t)
  unfolding Reads values peek get_newest check_init
  some-Reads b h t (p, q, r) =
      let n = length b in
      let c = count h t n in
      let (slot, some_left, most) = count-slot kind h t n q r in
      let size : c ≡ suc (c - 1) = omega arith in
      let xs : samples kind b (some h) t ≡ window kind.blank b t (suc (c - 1)) =
        ap (window kind.blank b t) size in
      let end : last_or kind.blank (window kind.blank b t (suc (c - 1)))
          ≡ get_or kind.blank b (h % n) =
        last_or-window b kind.blank t (c - 1)
        ∙ ap (get_or kind.blank b) (count-end h t n q r ∙ sym (mod-eq_of_lt q)) in
      (
        values-samples b h t q r,
        rw xs (get_lem b (some h) t t p),
        rw (xs, get_newest, get_lem b (some h) t h p) (ap (λ x. some (x, true)) (sym end)),
      )
