-- ===== src/Rings/WaitRing/Laws.antt =====
-- internal/waitring/waitring.go: the ring against the sequence of all that was written to it.
use native.Mathlib.Nat.{mod-eq_of_lt, mod_self, mod-lt}
use isitsql.Common.{
  ℕ, zero, suc, ◌+◌, ◌-◌, ◌%◌, ◌≤◌, ◌<◌, ◌≡◌, refl, sym, ap, ap₂, ◌∙◌, inl, inr, true, false, none,
  some, List, [], ◌∷◌, ◌++◌, append-nil, append_assoc, length, take, drop, replicate, length-append,
  length-drop, length-replicate, arith, Bool-cases, ltb, ◌==◌, subst,
}
use isitsql.Rings.Slots.{
  set, get_or-set_same, take_last, length-set, take-all, take-set, take_last-append,
}
use isitsql.Rings.Turn.{in_order, in_order-set}
use isitsql.Rings.WaitRing.{Ring, new, last, enqueue, values, enqueue_all}

module _ {A : Type 0} where
  enqueue_lem :
      (r : Ring A) (a : A)
      → 0 < length r.entries
      → enqueue r a
        ≡ some (record { entries = set r.entries (r.p % length r.entries) a; p = r.p + 1 })
  unfolding enqueue
  enqueue_lem r a h = let e : (length r.entries == 0) ≡ false = ground arith in rw e

  values-short :
      (xs : List A) (p : ℕ) → p ≤ length xs → values (record { entries = xs; p = p }) ≡ take p xs
  unfolding values
  values-short xs p h = let e : ltb p (length xs + 1) ≡ true = ground arith in rw e

  values-long :
      (xs : List A) (p : ℕ)
      → 0 < length xs
      → length xs ≤ p
      → values (record { entries = xs; p = p }) ≡ in_order (p % length xs) xs
  unfolding values
  values-long xs p n h = elim (Bool-cases (ltb p (length xs + 1))) [
    | inl short ↦
        let same : p ≡ length xs = ground arith in
        let turn : p % length xs ≡ 0 = rw same (mod_self (length xs)) in
        rw short (take-all p xs (omega arith) ∙ sym (ap (λ k. in_order k xs) turn ∙ append-nil xs))
    | inr long ↦ rw long
  ]

  length-take : (n : ℕ) (xs : List A) → n ≤ length xs → length (take n xs) ≡ n
  length-take zero xs h = refl
  length-take (suc n) [] h = absurd (omega arith)
  length-take (suc n) (x ∷ xs) h = ap suc (length-take n xs (omega arith))

  -- Writing to a ring with a slot appends the entry to its values, and drops the oldest one if they
  -- were as many as the slots.
  pub values-enqueue :
      (r : Ring A) (a : A)
      → 0 < length r.entries
      → (r' : Ring A) × (enqueue r a ≡ some r')
        × (length r'.entries ≡ length r.entries)
        × (values r' ≡ take_last (length r.entries) (values r ++ a ∷ []))
  values-enqueue r a h =
      let n = length r.entries in
      let xs = r.entries in
      let p = r.p in
      let kept : length (set xs (p % n) a) ≡ n = length-set xs (p % n) a in
      (
        record { entries = set xs (p % n) a; p = p + 1 },
        enqueue_lem r a h,
        kept,
        elim (Bool-cases (ltb p n)) [
          | inl room ↦
              let small : p < n = ground arith in
              let next : p + 1 ≡ suc p = omega arith in
              let slot : p % n ≡ p = mod-eq_of_lt small in
              let all : length (take p xs ++ a ∷ []) - n ≡ 0 =
                omega (arith, length-append (take p xs) (a ∷ []), length-take p xs (omega arith)) in
              values-short (set xs (p % n) a) (p + 1) (omega arith)
              ∙ ap₂ (λ k j. take k (set xs j a)) next slot
              ∙ take-set p xs a small
              ∙ sym (
                  ap (λ v. take_last n (v ++ a ∷ [])) (values-short xs p (omega arith))
                  ∙ ap (λ k. drop k (take p xs ++ a ∷ [])) all)
          | inr full ↦
              let many : n ≤ p = ground arith in
              values-long (set xs (p % n) a) (p + 1) (omega arith) (omega arith)
              ∙ ap (λ k. in_order ((p + 1) % k) (set xs (p % n) a)) kept
              ∙ in_order-set p xs a h
              ∙ sym (ap (λ v. take_last n (v ++ a ∷ [])) (values-long xs p h many))
        ],
      )

-- The last entry of a sequence, or the given one.
abbrev pub last_or {ℓ} : {A : Type ℓ} → A → List A → A
last_or d [] = d
last_or d (x ∷ xs) = last_or x xs

module _ {A : Type 0} (blank nothing : A) where
  last-enqueue :
      (r : Ring A) (a : A)
      → 0 < length r.entries
      → last blank nothing
          (record { entries = set r.entries (r.p % length r.entries) a; p = r.p + 1 })
        ≡ some a
  unfolding last
  last-enqueue r a h =
      let n = length r.entries in
      let kept : length (set r.entries (r.p % n) a) ≡ n = length-set r.entries (r.p % n) a in
      let some_slot : (length (set r.entries (r.p % n) a) == 0) ≡ false = ground arith in
      let written : (r.p + 1 == 0) ≡ false = ground arith in
      let back : (r.p + 1 - 1) % length (set r.entries (r.p % n) a) ≡ r.p % n =
        ap₂ (λ k j. k % j) (omega arith) kept in
      rw (written, some_slot, back)
        (ap some (get_or-set_same blank r.entries (r.p % n) a (mod-lt r.p h)))

  enqueue_all-step :
      (r r' : Ring A) (a : A) (cs : List A)
      → enqueue r a ≡ some r'
      → enqueue_all r (a ∷ cs) ≡ enqueue_all r' cs
  unfolding enqueue_all
  enqueue_all-step r r' a cs e = rw (enqueue_all, e)

  enqueue_all-from :
      (r : Ring A) (l : A) (cs : List A)
      → 0 < length r.entries
      → length (values r) ≤ length r.entries
      → last blank nothing r ≡ some l
      → (r' : Ring A) × (enqueue_all r cs ≡ some r')
        × (values r' ≡ take_last (length r.entries) (values r ++ cs))
        × (last blank nothing r' ≡ some (last_or l cs))
  unfolding enqueue_all
  enqueue_all-from r l [] h short e =
      let none_dropped : length (values r) - length r.entries ≡ 0 = omega arith in
      (r, refl, sym (rw (append-nil (values r)) (ap (λ k. drop k (values r)) none_dropped)), e)
  enqueue_all-from r l (a ∷ cs) h short e =
      let n = length r.entries in
      let (r', done, same, vs) = values-enqueue r a h in
      let fewer : length (take_last n (values r ++ a ∷ [])) ≤ n =
        omega (arith, length-drop (length (values r ++ a ∷ []) - n) (values r ++ a ∷ [])) in
      let newest : last blank nothing r' ≡ some a =
        subst (λ o. elim o [ some s ↦ last blank nothing s ≡ some a | none ↦ Unit ])
          (sym (enqueue_lem r a h) ∙ done) (last-enqueue r a h) in
      let (r'', all, vs', end) =
        enqueue_all-from r' a cs (omega arith) (rw (vs, same) fewer) newest in
      (
        r'',
        enqueue_all-step r r' a cs done ∙ all,
        vs'
            ∙ ap₂ (λ k v. take_last k (v ++ cs)) same vs
            ∙ take_last-append n (values r ++ a ∷ []) cs
            ∙ ap (take_last n) (append_assoc (values r) (a ∷ []) cs),
        end,
      )

  -- A ring with room for `size` entries, after any sequence of writes: its values are the last
  -- `size` entries written, in their order, or all of them if they are fewer; its last value is the
  -- newest entry, or the empty one before the first write. No write fails.
  pub enqueue_all-new :
      (size : ℕ) (cs : List A)
      → 0 < size
      → (r : Ring A) × (enqueue_all (new blank size) cs ≡ some r)
        × (values r ≡ take_last size cs)
        × (last blank nothing r ≡ some (last_or nothing cs))
  unfolding new last
  enqueue_all-new size cs h =
      let n : length (replicate size blank) ≡ size = length-replicate size blank in
      let empty : values (new blank size) ≡ [] =
        values-short (replicate size blank) 0 (omega arith) in
      let (r, all, vs, end) =
        enqueue_all-from (new blank size) nothing cs (omega arith) (rw empty (omega arith)) refl in
      (r, all, vs ∙ ap₂ (λ k v. take_last k (v ++ cs)) n empty, end)
