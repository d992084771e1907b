-- ===== src/Waits/Box/States.antt =====
-- internal/dwaits/box.go: the states that polls take a Box through, and the polls and emits of its two
-- tickers in the order in which the lock lets them run.
use isitsql.Common.{
  ℕ, ◌≡◌, ◌≢◌, refl, sym, ap, ◌∙◌, ◌⊎◌, inl, inr, true, false, Option, none, some, [], Text,
  text_eq, text_eq_iff, if◌then◌else◌, Bool-cases, Option-cases,
}
use isitsql.Maps.{Map, lookup, text_key, number_key}
use isitsql.Maps.Laws.{IsMap, same-false}
use isitsql.Waits.Mapping.{WaitMap}
use isitsql.Waits.Box.{
  Box, Rows, Poll, Answer, rows, failed, error_text, change_state, is_reset, take_rows, poll_waits,
  poll_waits_wrapper,
}
use isitsql.Waits.Box.Laws.{lookup-take_rows}

-- The state that the requests, the waits and the identity of the server make up
abbrev pub SameData : Box → Box → Type 0
SameData a b =
    (a.requests ≡ b.requests)
    × (a.waits ≡ b.waits)
    × (a.domain ≡ b.domain)
    × (a.server ≡ b.server)
    × (a.booted ≡ b.booted)
    × (a.first ≡ b.first)

join_same : (a b c : Box) → SameData a b → SameData b c → SameData a c
join_same a b c (r0, w0, d0, s0, k0, f0) (r1, w1, d1, s1, k1, f1) =
    (r0 ∙ r1, w0 ∙ w1, d0 ∙ d1, s0 ∙ s1, k0 ∙ k1, f0 ∙ f1)

-- The Box with its statement prepared
abbrev pub prepared : Box → Box
prepared b = record b { statement = true }

answer-cases : (a : Answer) → ((e : Text) × (a ≡ failed e)) ⊎ ((r : Rows) × (a ≡ rows r))
answer-cases (failed e) = inl (e, refl)
answer-cases (rows r) = inr (r, refl)

change_state-err :
    (now : ℕ) (e : Option Text) (b : Box) → error_text (change_state now e b).err ≡ error_text e
change_state-err now e b = elim (Option-cases b.err) [ inl q ↦ rw q | inr (t, q) ↦ rw q ]

change_state-data : (now : ℕ) (e : Option Text) (b : Box) → SameData (change_state now e b) b
change_state-data now e b = elim (Option-cases b.err) [
  | inl q ↦ rw (SameData, q) (refl, refl, refl, refl, refl, refl)
  | inr (t, q) ↦ rw (SameData, q) (refl, refl, refl, refl, refl, refl)
]

module _ (mappings : Map Text WaitMap) (p : Poll) (b : Box) where
  -- Preparing failed, the query failed, or there were rows.
  pub poll_waits-cases :
      ((e : Text) × (poll_waits mappings p b ≡ (some e, b)))
      ⊎ ((e : Text) × (poll_waits mappings p b ≡ (some e, prepared b)))
      ⊎ ((r : Rows) × (p.answer ≡ rows r)
          × (poll_waits mappings p b ≡ (none, take_rows mappings p.now r (prepared b))))
  unfolding poll_waits
  poll_waits-cases = elim (Option-cases (if b.statement then none else p.prepare_error)) [
    | inl e ↦ elim (answer-cases p.answer) [
      | inl (t, q) ↦ inr (inl (t, rw (poll_waits, e) (rw q)))
      | inr (r, q) ↦ inr (inr (r, q, rw (poll_waits, e) (rw q)))
    ]
    | inr (t, e) ↦ inl (t, rw (poll_waits, e))
  ]

  poll_waits-rows :
      (r : Rows)
      → p.prepare_error ≡ none
      → p.answer ≡ rows r
      → poll_waits mappings p b ≡ (none, take_rows mappings p.now r (prepared b))
  unfolding poll_waits
  poll_waits-rows r h a = elim (Bool-cases b.statement) [
    | inl e ↦ rw (poll_waits, e) (rw a)
    | inr e ↦ rw (poll_waits, e) (rw h (rw a))
  ]

  poll_waits-same :
      (e : Text) → (poll_waits mappings p b).0 ≡ some e → SameData (poll_waits mappings p b).1 b
  poll_waits-same e h = elim poll_waits-cases [
    | inl (t, q) ↦ rw (SameData, q) (refl, refl, refl, refl, refl, refl)
    | inr (inl (t, q)) ↦ rw (SameData, q) (refl, refl, refl, refl, refl, refl)
    | inr (inr (r, a, q)) ↦ absurd (cc (h, ap (λ x. x.0) q))
  ]

  poll_waits-err : (poll_waits mappings p b).1.err ≡ b.err
  unfolding take_rows
  poll_waits-err = elim poll_waits-cases [
    | inl (t, q) ↦ rw q
    | inr (inl (t, q)) ↦ rw q
    | inr (inr (r, a, q)) ↦
        rw q (elim (Bool-cases (is_reset (prepared b) r)) [ inl e ↦ rw e | inr e ↦ rw e ])
  ]

  -- After a poll the error of the Box has the text of the error that the poll met, which is empty where it
  -- met none.
  poll_waits_wrapper-err :
      error_text (poll_waits_wrapper mappings p b).err ≡ error_text (poll_waits mappings p b).0
  unfolding poll_waits_wrapper
  poll_waits_wrapper-err =
      let found = poll_waits mappings p b in
      elim (Bool-cases (text_eq (error_text found.1.err) (error_text found.0))) [
        | inl e ↦ rw e ((text_eq_iff (error_text found.1.err) (error_text found.0)).0 e)
        | inr e ↦ rw e (change_state-err p.now found.0 found.1)
      ]

  pub poll_waits_wrapper-same :
      SameData (poll_waits_wrapper mappings p b) (poll_waits mappings p b).1
  unfolding poll_waits_wrapper
  poll_waits_wrapper-same =
      let found = poll_waits mappings p b in
      elim (Bool-cases (text_eq (error_text found.1.err) (error_text found.0))) [
        | inl e ↦ rw (SameData, e) (refl, refl, refl, refl, refl, refl)
        | inr e ↦ rw (SameData, e) (change_state-data p.now found.0 found.1)
      ]

  poll_waits_wrapper-enters :
      (e : Text)
      → (poll_waits mappings p b).0 ≡ some e
      → b.err ≡ none
      → e ≢ []
      → poll_waits_wrapper mappings p b ≡ record (poll_waits mappings p b).1 {
        err = some e;
        statement = false;
        state_start = p.now;
      }
  unfolding poll_waits_wrapper
  poll_waits_wrapper-enters e h fine named =
      let found = poll_waits mappings p b in
      let before : found.1.err ≡ none = poll_waits-err ∙ fine in
      let new : text_eq (error_text found.1.err) (error_text found.0) ≡ false =
        rw (before, h) (same-false [] e (λ q. named (sym q))) in
      rw new (rw (change_state, before, h))

  -- A poll that meets an error leaves the requests, the waits and the identity of the server as they were.
  -- If the error has a text, a Box that had no error gets it, drops its statement, and has its state start
  -- at the time of the poll.
  pub poll_waits_wrapper-failed :
      (e : Text)
      → (poll_waits mappings p b).0 ≡ some e
      → let b' = poll_waits_wrapper mappings p b in
        SameData b' b
        × (b.err ≡ none
            → e ≢ []
            → (b'.err ≡ some e) × (b'.statement ≡ false) × (b'.state_start ≡ p.now))
  unfolding poll_waits_wrapper
  poll_waits_wrapper-failed e h = (
    join_same (poll_waits_wrapper mappings p b) (poll_waits mappings p b).1 b
        poll_waits_wrapper-same (poll_waits-same e h),
    λ fine named.
        let now = poll_waits_wrapper-enters e h fine named in
        (ap Box.err now, ap Box.statement now, ap Box.state_start now),
  )

  -- A poll whose statement can be prepared and whose query returns rows, each request once, leaves the Box
  -- without the text of an error and with the requests of these rows, whatever state the Box was in.
  pub poll_waits_wrapper-recovers :
      (r : Rows)
      → p.prepare_error ≡ none
      → p.answer ≡ rows r
      → IsMap r.requests
      → let b' = poll_waits_wrapper mappings p b in
        (error_text b'.err ≡ []) × ((id : ℕ) → lookup id b'.requests ≡ lookup id r.requests)
  poll_waits_wrapper-recovers r h a m =
      let found = poll_waits-rows r h a in
      (
        poll_waits_wrapper-err ∙ ap (λ x. error_text x.0) found,
        λ id.
            ap (lookup id) (poll_waits_wrapper-same.0 ∙ ap (λ x. x.1.requests) found)
            ∙ lookup-take_rows mappings id p.now r (prepared b) m,
      )
