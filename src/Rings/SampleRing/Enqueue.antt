-- ===== src/Rings/SampleRing/Enqueue.antt =====
-- internal/cpuring/ring_cpu.go and its copies: `Enqueue`, from any ring that the code can hold.
use isitsql.Common.{
  ℕ, ◌+◌, ◌%◌, ◌<◌, ◌≡◌, ◌≢◌, refl, inl, inr, false, Option, none, some, List, [], ◌∷◌, ◌++◌,
  length, replicate, length-replicate, arith, Bool-cases, ◌==◌, if◌then◌else◌, ==_iff,
}
use isitsql.Rings.Slots.{set, take_last, length-set}
use isitsql.Rings.SampleRing.{
  Kind, Ring, slots, after_head, overtakes, check_init, write, enqueue, zero_ring,
}
use isitsql.Rings.SampleRing.Laws.{IsReady, samples, write-first, write-room, write-over}

module _ {A : Type 0} (kind : Kind A) where
  -- The samples that a ring holds, once its first use has initialized it.
  abbrev pub contents : Ring A → List A
  contents r =
      samples kind (slots (check_init kind r)) (check_init kind r).head (check_init kind r).tail

  abbrev pub IsValid : Ring A → Type 0
  IsValid r = IsReady (slots (check_init kind r)) (check_init kind r).head (check_init kind r).tail

  -- How many samples it has room for.
  abbrev pub room : Ring A → ℕ
  room r = length (slots (check_init kind r))

  write_lem :
      (b : List A) (h : Option ℕ) (t : ℕ) (a : A)
      → 0 < length b
      → let n = length b in
        let p = after_head h % n in
        write kind (record { buff = some b; head = h; tail = t }) a
        ≡ some (record {
          buff = some (set b p a);
          head = some p;
          tail = if overtakes h p t then (t + 1) % n else t;
        })
  unfolding write
  write_lem b h t a q = let e : (length b == 0) ≡ false = ground arith in rw (write, e)

  write-Extends :
      (b : List A) (h : Option ℕ) (t : ℕ) (a : A)
      → IsReady b h t
      → let n = length b in
        let p = after_head h % n in
        let t' = if overtakes h p t then (t + 1) % n else t in
        IsReady (set b p a) (some p) t'
        × (samples kind (set b p a) (some p) t' ≡ take_last n (samples kind b h t ++ a ∷ []))
  write-Extends b none t a (q, e) = rw e (write-first kind b a q)
  write-Extends b (some h) t a (q, l, m) = elim (Bool-cases ((h + 1) % length b == t)) [
    | inl over ↦
        let same : (h + 1) % length b ≡ t = (==_iff ((h + 1) % length b) t).0 over in
        rw over (rw same (write-over kind b h t a l m same))
    | inr free ↦
        let apart : (h + 1) % length b ≢ t =
          λ e. absurd (cc (free, (==_iff ((h + 1) % length b) t).1 e)) in
        rw free (write-room kind b h t a l m apart)
  ]

  -- The ring holds the samples of the other one and the new sample behind them, or as many of the last
  -- of these as it has room for.
  abbrev Added : Ring A → A → Ring A → Type 0
  Added r a r' =
      IsValid r' × (room r' ≡ room r) × (contents r' ≡ take_last (room r) (contents r ++ a ∷ []))

  write-Added :
      (b : List A) (h : Option ℕ) (t : ℕ) (a : A)
      → IsReady b h t
      → 0 < length b
      → let r : Ring A = record { buff = some b; head = h; tail = t } in
        (r' : Ring A) × (write kind r a ≡ some r') × Added r a r'
  unfolding check_init
  write-Added b h t a v q =
      let n = length b in
      let p = after_head h % n in
      let (v', same) = write-Extends b h t a v in
      (
        record {
          buff = some (set b p a);
          head = some p;
          tail = if overtakes h p t then (t + 1) % n else t;
        },
        write_lem b h t a q,
        (v', length-set b p a, same),
      )

  has_slot : (b : List A) (h : Option ℕ) (t : ℕ) → IsReady b h t → 0 < length b
  has_slot b none t v = v.0
  has_slot b (some h) t v = v.0

  enqueue-at :
      (buff : Option (List A)) (h : Option ℕ) (t : ℕ) (a : A)
      → let r : Ring A = record { buff = buff; head = h; tail = t } in
        IsValid r → (r' : Ring A) × (enqueue kind r a ≡ some r') × Added r a r'
  unfolding check_init enqueue
  enqueue-at none h t a v =
      write-Added (replicate kind.default_capacity kind.blank) none 0 a v
        (has_slot (replicate kind.default_capacity kind.blank) none 0 v)
  enqueue-at (some b) h t a v = write-Added b h t a v (has_slot b h t v)

  -- Enqueue puts a sample behind those of a valid ring, and the oldest one goes if there is no room for
  -- all of them; the ring stays valid and as large as it was.
  pub enqueue-contents :
      (r : Ring A) (a : A)
      → IsValid r
      → (r' : Ring A) × (enqueue kind r a ≡ some r')
        × IsValid r'
        × (room r' ≡ room r)
        × (contents r' ≡ take_last (room r) (contents r ++ a ∷ []))
  enqueue-contents r a v =
      let (r', done, (v', same, held)) = enqueue-at r.buff r.head r.tail a v in
      (r', done, v', same, held)

  -- The zero value is valid and empty, if a slice that is made on first use has a slot.
  pub zero_ring-IsValid : 0 < kind.default_capacity → IsValid zero_ring × (contents zero_ring ≡ [])
  unfolding check_init
  zero_ring-IsValid h =
      ((omega (arith, length-replicate kind.default_capacity kind.blank), refl), refl)
