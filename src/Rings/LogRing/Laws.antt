-- ===== src/Rings/LogRing/Laws.antt =====
-- internal/logring/logring.go: the ring against the sequence of all the messages.
use native.Mathlib.Nat.{mod_self}
use Prim.Native.String.{String}
use isitsql.Common.{
  ℕ, suc, ◌+◌, ◌-◌, ◌%◌, ◌≤◌, ◌<◌, ◌≡◌, refl, sym, ap, ◌∙◌, inl, inr, true, false, some, List, [],
  ◌∷◌, ◌++◌, append-nil, append_assoc, length, drop, length-append, arith, Bool-cases, ltb, ◌==◌,
  subst,
}
use isitsql.Rings.Slots.{set, take_last, length-set, take_last-append}
use isitsql.Rings.Turn.{in_order, in_order-set}
use isitsql.Rings.LogRing.{Event, Logring, enqueue, values, enqueue_all}

-- The events of the messages, numbered from k on.
abbrev pub events_from : ℕ → List (ℕ × String) → List Event
events_from k [] = []
events_from k ((now, msg) ∷ more) =
    record { ptr = k; ts = now; message = msg } ∷ events_from (suc k) more

-- The buffer holds the end of the history.
pub record Keeps (r : Logring) (es : List Event) : Type 0 where
  pub room : 0 < r.capacity
  pub count : r.ptr ≡ length es
  pub start : r.ptr ≤ r.capacity → r.buff ≡ es
  pub full :
      r.capacity ≤ r.ptr
      → (length r.buff ≡ r.capacity)
        × (in_order (r.ptr % r.capacity) r.buff ≡ take_last r.capacity es)

take_last-short {ℓ} : {A : Type ℓ} (n : ℕ) (xs : List A) → length xs ≤ n → take_last n xs ≡ xs
take_last-short n xs h = let e : length xs - n ≡ 0 = omega arith in ap (λ k. drop k xs) e

enqueue-room :
    (r : Logring) (now : ℕ) (msg : String)
    → r.ptr < r.capacity
    → let e : Event = record { ptr = r.ptr; ts = now; message = msg } in
      enqueue r now msg ≡ some (record r { buff = r.buff ++ e ∷ []; ptr = r.ptr + 1 })
unfolding enqueue
enqueue-room r now msg h = let t : ltb r.ptr r.capacity ≡ true = ground arith in rw t

enqueue-full :
    (r : Logring) (now : ℕ) (msg : String)
    → 0 < r.capacity
    → r.capacity ≤ r.ptr
    → let e : Event = record { ptr = r.ptr; ts = now; message = msg } in
      enqueue r now msg
      ≡ some (record r { buff = set r.buff (r.ptr % r.capacity) e; ptr = r.ptr + 1 })
unfolding enqueue
enqueue-full r now msg p h =
    let t : ltb r.ptr r.capacity ≡ false = ground arith in
    let u : (r.capacity == 0) ≡ false = ground arith in rw (t, u)

enqueue-Keeps :
    (r : Logring) (es : List Event) (now : ℕ) (msg : String)
    → Keeps r es
    → (r' : Logring) × (enqueue r now msg ≡ some r')
      × (r'.capacity ≡ r.capacity)
      × (r'.ptr ≡ r.ptr + 1)
      × Keeps r' (es ++ record { ptr = r.ptr; ts = now; message = msg } ∷ [])
enqueue-Keeps r es now msg k =
    let e : Event = record { ptr = r.ptr; ts = now; message = msg } in
    let counted : r.ptr + 1 ≡ length (es ++ e ∷ []) =
      omega (arith, k.count, length-append es (e ∷ [])) in
    elim (Bool-cases (ltb r.ptr r.capacity)) [
      | inl t ↦
          let small : r.ptr < r.capacity = ground arith in
          let added : r.buff ++ e ∷ [] ≡ es ++ e ∷ [] =
            ap (λ b. b ++ e ∷ []) (k.start (omega arith)) in
          (
            record r { buff = r.buff ++ e ∷ []; ptr = r.ptr + 1 },
            enqueue-room r now msg small,
            refl,
            refl,
            record {
              room = k.room;
              count = counted;
              start = λ _. added;
              full = λ h.
                  let end : r.ptr + 1 ≡ r.capacity = omega arith in
                  let turn : (r.ptr + 1) % r.capacity ≡ 0 = rw end (mod_self r.capacity) in
                  let many : length (r.buff ++ e ∷ []) ≡ r.capacity =
                    ap length added ∙ sym counted ∙ end in
                  (
                    many,
                    ap (λ q. in_order q (r.buff ++ e ∷ [])) turn
                        ∙ append-nil (r.buff ++ e ∷ [])
                        ∙ added
                        ∙ sym (take_last-short r.capacity (es ++ e ∷ []) (omega arith)),
                  );
            },
          )
      | inr t ↦
          let large : r.capacity ≤ r.ptr = ground arith in
          let (many, order) = k.full large in
          let q = r.ptr % r.capacity in
          let turned : in_order ((r.ptr + 1) % r.capacity) (set r.buff q e)
              ≡ take_last r.capacity (in_order q r.buff ++ e ∷ []) =
            subst
              (λ n.
                in_order ((r.ptr + 1) % n) (set r.buff (r.ptr % n) e)
                ≡ take_last n (in_order (r.ptr % n) r.buff ++ e ∷ []))
              many (in_order-set r.ptr r.buff e (omega (arith, k.room))) in
          (
            record r { buff = set r.buff q e; ptr = r.ptr + 1 },
            enqueue-full r now msg k.room large,
            refl,
            refl,
            record {
              room = k.room;
              count = counted;
              start = λ h. absurd (omega arith);
              full = λ h. (
                length-set r.buff q e ∙ many,
                turned
                    ∙ ap (λ v. take_last r.capacity (v ++ e ∷ [])) order
                    ∙ take_last-append r.capacity es (e ∷ []),
              );
            },
          )
    ]

pub values-Keeps :
    (r : Logring) (es : List Event) → Keeps r es → values r ≡ some (take_last r.capacity es)
unfolding values
values-Keeps r es k = elim (Bool-cases (ltb r.ptr r.capacity)) [
  | inl t ↦
      let small : r.ptr < r.capacity = ground arith in
      rw t (
        ap some
          (k.start (omega arith) ∙ sym (take_last-short r.capacity es (omega (arith, k.count)))))
  | inr t ↦
      let large : r.capacity ≤ r.ptr = ground arith in
      let written : (r.ptr == 0) ≡ false = let p = k.room in ground arith in
      let some_slot : (r.capacity == 0) ≡ false = let p = k.room in ground arith in
      rw (t, written, some_slot) (ap some (k.full large).1)
]

enqueue_all-step :
    (r r' : Logring) (now : ℕ) (msg : String) (more : List (ℕ × String))
    → enqueue r now msg ≡ some r'
    → enqueue_all r ((now, msg) ∷ more) ≡ enqueue_all r' more
unfolding enqueue_all
enqueue_all-step r r' now msg more e = rw (enqueue_all, e)

pub enqueue_all-Keeps :
    (r : Logring) (es : List Event) (ms : List (ℕ × String))
    → Keeps r es
    → (r' : Logring) × (enqueue_all r ms ≡ some r')
      × (r'.capacity ≡ r.capacity)
      × Keeps r' (es ++ events_from r.ptr ms)
unfolding enqueue_all
enqueue_all-Keeps r es [] k = (r, refl, refl, subst (Keeps r) (sym (append-nil es)) k)
enqueue_all-Keeps r es ((now, msg) ∷ more) k =
    let e : Event = record { ptr = r.ptr; ts = now; message = msg } in
    let (r', done, same, next, k') = enqueue-Keeps r es now msg k in
    let (r'', all, same', k'') = enqueue_all-Keeps r' (es ++ e ∷ []) more k' in
    let suc_ptr : r'.ptr ≡ suc r.ptr = omega arith in
    (
      r'',
      enqueue_all-step r r' now msg more done ∙ all,
      same' ∙ same,
      subst (Keeps r'')
          (append_assoc es (e ∷ []) (events_from r'.ptr more)
            ∙ ap (λ p. es ++ (e ∷ events_from p more)) suc_ptr)
          k'',
    )
