-- ===== src/Rings/SampleRing/Dequeue.antt =====
-- internal/cpuring/ring_cpu.go and its copies: the reads of any ring that the code can hold, and
-- `Dequeue`.
use native.Mathlib.Nat.{mod-lt}
use isitsql.Common.{
  ℕ, suc, ◌+◌, ◌-◌, ◌%◌, ◌<◌, ◌≡◌, ◌≢◌, refl, sym, ap, ◌∙◌, inl, inr, not, Option, none, some, List,
  length, drop, replicate, is_empty, arith, Bool-cases, ◌==◌, ==_iff,
}
use isitsql.Rings.Slots.{mod-cases}
use isitsql.Rings.WaitRing.Laws.{last_or}
use isitsql.Rings.SampleRing.{
  Kind, Ring, capacity, check_init, advance, peek, get_newest, dequeue, values,
}
use isitsql.Rings.SampleRing.Window.{window, window-mod}
use isitsql.Rings.SampleRing.Laws.{IsReady, samples, count, count-slot}
use isitsql.Rings.SampleRing.Enqueue.{contents, IsValid, room}
use isitsql.Rings.SampleRing.Reads.{first_or, Reads, some-Reads, get_lem}

-- One sample fewer from the slot after the oldest one on
count-tail : (h t n : ℕ) → h < n → t < n → t ≢ h → count h t n ≡ suc (count h ((t + 1) % n) n)
count-tail h t n p q r = elim (mod-cases (t + 1) n (omega arith)) [
  | inl (a, b) ↦ rw b (ground arith)
  | inr (a, b) ↦ let z : (t + 1) % n ≡ 0 = omega arith in rw z (ground arith)
]

module _ {A : Type 0} (kind : Kind A) where
  at-Reads :
      (buff : Option (List A)) (head : Option ℕ) (t : ℕ)
      → let r : Ring A = record { buff = buff; head = head; tail = t } in
        IsValid kind r → Reads kind r (contents kind r)
  unfolding check_init Reads values peek get_newest
  at-Reads none none t v = (refl, refl, refl)
  at-Reads none (some h) t v = (refl, refl, refl)
  at-Reads (some b) none t v = (refl, refl, refl)
  at-Reads (some b) (some h) t v = some-Reads kind b h t v

  -- A valid ring shows its samples in order, as Peek the oldest one and as GetNewest the newest one; if
  -- it has none, these answer the blank sample, and GetNewest says so.
  pub values-contents :
      (r : Ring A)
      → IsValid kind r
      → (values kind r ≡ contents kind r)
        × (peek kind r ≡ some (first_or kind.blank (contents kind r)))
        × (get_newest kind r
            ≡ some (last_or kind.blank (contents kind r), not (is_empty (contents kind r))))
  unfolding Reads
  values-contents r v = at-Reads r.buff r.head r.tail v

  -- The ring has lost its oldest sample, if it had one.
  abbrev Shifted : Ring A → Ring A → Type 0
  Shifted r r' =
      IsValid kind r' × (room kind r' ≡ room kind r) × (contents kind r' ≡ drop 1 (contents kind r))

  dequeue-some :
      (b : List A) (h t : ℕ)
      → IsReady b (some h) t
      → let r : Ring A = record { buff = some b; head = some h; tail = t } in
        dequeue kind r ≡ some (first_or kind.blank (samples kind b (some h) t), advance kind r h)
  unfolding dequeue check_init
  dequeue-some b h t (p, q, r) =
      let n = length b in
      let c = count h t n in
      let (slot, some_left, most) = count-slot kind h t n q r in
      let size : c ≡ suc (c - 1) = omega arith in
      let xs : samples kind b (some h) t ≡ window kind.blank b t (suc (c - 1)) =
        ap (window kind.blank b t) size in
      rw (xs, dequeue, get_lem kind b (some h) t t p)

  advance-Shifted :
      (b : List A) (h t : ℕ)
      → IsReady b (some h) t
      → let r : Ring A = record { buff = some b; head = some h; tail = t } in
        Shifted r (advance kind r h)
  unfolding check_init capacity
  advance-Shifted b h t (p, q, r) = elim (Bool-cases (t == h)) [
    | inl last ↦
        let same : t ≡ h = (==_iff t h).0 last in
        let one : count h t (length b) ≡ 1 = ground arith in
        rw last ((p, refl), refl, sym (ap (λ k. drop 1 (window kind.blank b t k)) one))
    | inr more ↦
        let n = length b in
        let apart : t ≢ h = λ e. absurd (cc (more, (==_iff t h).1 e)) in
        let fewer = count-tail h t n q r apart in
        let next : t + 1 ≡ suc t = omega arith in
        let k = count h ((t + 1) % n) n in
        rw more (
          (p, q, mod-lt (t + 1) p),
          refl,
          window-mod kind.blank b (t + 1) k
              ∙ ap (λ i. window kind.blank b i k) next
              ∙ sym (ap (λ i. drop 1 (window kind.blank b t i)) fewer),
        )
  ]

  dequeue-at :
      (buff : Option (List A)) (head : Option ℕ) (t : ℕ)
      → let r : Ring A = record { buff = buff; head = head; tail = t } in
        IsValid kind r
        → (r' : Ring A) × (dequeue kind r ≡ some (first_or kind.blank (contents kind r), r'))
          × Shifted r r'
  unfolding check_init dequeue
  dequeue-at none head t v = (
    record { buff = some (replicate kind.default_capacity kind.blank); head = none; tail = 0 },
    refl,
    (v, refl, refl),
  )
  dequeue-at (some b) none t v =
      (record { buff = some b; head = none; tail = t }, refl, (v, refl, refl))
  dequeue-at (some b) (some h) t v = (
    advance kind (record { buff = some b; head = some h; tail = t }) h,
    dequeue-some b h t v,
    advance-Shifted b h t v,
  )

  -- Dequeue answers the oldest sample of a valid ring and takes it out, or the blank sample if there is
  -- none; the ring stays valid and as large as it was.
  pub dequeue-contents :
      (r : Ring A)
      → IsValid kind r
      → (r' : Ring A) × (dequeue kind r ≡ some (first_or kind.blank (contents kind r), r'))
        × IsValid kind r'
        × (room kind r' ≡ room kind r)
        × (contents kind r' ≡ drop 1 (contents kind r))
  dequeue-contents r v =
      let (r', done, (v', same, rest)) = dequeue-at r.buff r.head r.tail v in
      (r', done, v', same, rest)
