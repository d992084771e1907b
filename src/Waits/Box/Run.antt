-- ===== src/Waits/Box/Run.antt =====
-- internal/dwaits/box.go: a Box under its two tickers. The lock lets a poll or an emit run at a time, so
-- what happens to the Box is a sequence of these.
use isitsql.Common.{
  ℕ, ◌+◌, ◌≡◌, ap, ◌∙◌, inl, inr, none, some, List, [], ◌∷◌, Text, if◌then◌else◌, arith,
}
use isitsql.Maps.{Map, text_key, number_key}
use isitsql.Maps.Laws.{IsMap}
use isitsql.Waits.Mapping.{WaitMap}
use isitsql.Waits.Box.{
  Box, Rows, Poll, rows, failed, is_reset, poll_waits, poll_waits_wrapper, emit_waits,
}
use isitsql.Waits.Box.Laws.{amount}
use isitsql.Waits.Box.Credit.{total, take_rows-amount}
use isitsql.Waits.Box.States.{poll_waits-cases, poll_waits_wrapper-same, prepared}

pub data Event : Type 0 where
  polled : Poll → Event
  emitted : ℕ → Event

-- The rows of an event, if it has any, are those of a map.
abbrev pub IsEvent : Event → Type 0
IsEvent (polled p) = (r : Rows) → p.answer ≡ rows r → IsMap r.requests
IsEvent (emitted now) = Unit

abbrev pub AreEvents : List Event → Type 0
AreEvents [] = Unit
AreEvents (e ∷ more) = IsEvent e × AreEvents more

-- The milliseconds that a list of emitted waits has of one wait
abbrev pub amounts : Text → List (Map Text ℕ) → ℕ
amounts w [] = 0
amounts w (m ∷ ms) = amount w m + amounts w ms

module _ (mappings : Map Text WaitMap) where
  -- What the pollTicker and the emitTicker make of the Box, and the waits that were written
  unfoldable pub run : List Event → Box → List (Map Text ℕ) × Box
  unfolding poll_waits_wrapper emit_waits
  run [] b = ([], b)
  run (polled p ∷ more) b = run more (poll_waits_wrapper mappings p b)
  run (emitted now ∷ more) b =
      let (waits, b') = emit_waits b in let (written, last) = run more b' in (waits ∷ written, last)

  -- What a poll counts for the wait w
  unfoldable pub counted : Text → Poll → Box → ℕ
  unfolding poll_waits total
  counted w p b = elim (poll_waits mappings p b).0 [
    | some e ↦ 0
    | none ↦ elim p.answer [
      | failed e ↦ 0
      | rows r ↦ if is_reset b r then 0 else total mappings w b.requests r.requests
    ]
  ]

  -- What the polls of a run count for the wait w
  unfoldable pub run_total : Text → List Event → Box → ℕ
  unfolding counted poll_waits_wrapper emit_waits
  run_total w [] b = 0
  run_total w (polled p ∷ more) b =
      counted w p b + run_total w more (poll_waits_wrapper mappings p b)
  run_total w (emitted now ∷ more) b = run_total w more (emit_waits b).1

  poll_waits_wrapper-amount :
      (w : Text) (p : Poll) (b : Box)
      → IsEvent (polled p)
      → amount w (poll_waits_wrapper mappings p b).waits ≡ amount w b.waits + counted w p b
  unfolding counted
  poll_waits_wrapper-amount w p b h =
      let same : (poll_waits_wrapper mappings p b).waits ≡ (poll_waits mappings p b).1.waits =
        (poll_waits_wrapper-same mappings p b).1 in
      let none_new : amount w b.waits ≡ amount w b.waits + 0 = omega arith in
      ap (amount w) same ∙ elim (poll_waits-cases mappings p b) [
        | inl (e, q) ↦ rw (counted, q) none_new
        | inr (inl (e, q)) ↦ rw (counted, q) none_new
        | inr (inr (r, a, q)) ↦
            rw (counted, q, a) (take_rows-amount mappings w p.now r (prepared b) (h r a))
      ]

  -- Over any sequence of polls, with rows that have each request once, and of emits, the waits that were
  -- written and those that the Box still keeps make up what it kept at the start and what its polls counted.
  pub run-amounts :
      (w : Text) (events : List Event) (b : Box)
      → AreEvents events
      → amounts w (run events b).0 + amount w (run events b).1.waits
        ≡ amount w b.waits + run_total w events b
  unfolding run run_total emit_waits
  run-amounts w [] b h = omega arith
  run-amounts w (polled p ∷ more) b (h, hs) =
      let rest = run-amounts w more (poll_waits_wrapper mappings p b) hs in
      let here = poll_waits_wrapper-amount w p b h in omega arith
  run-amounts w (emitted now ∷ more) b (h, hs) =
      let rest = run-amounts w more (emit_waits b).1 hs in omega arith
