-- ===== src/Waits/Box/Credit.antt =====
-- internal/dwaits/box.go: how the waits of the Box grow with a poll.
use isitsql.Common.{
  ℕ, ◌+◌, ◌-◌, ◌≡◌, refl, sym, ap, ◌∙◌, inl, inr, Bool, true, false, ◌&&◌, Option, none, some, [],
  ◌∷◌, Text, text_eq, ltb, ◌==◌, if◌then◌else◌, arith, Bool-cases, Option-cases,
}
use isitsql.Maps.{Map, lookup, insert, text_key, number_key}
use isitsql.Maps.Laws.{IsMap, lookup-insert_other, lookup-none}
use isitsql.Waits.Mapping.{WaitMap}
use isitsql.Waits.Box.{
  Request, Box, Rows, group_of, map_and_save_wait, save_increment, save_request, poll_requests,
  is_reset, take_rows,
}
use isitsql.Waits.Box.Laws.{amount, amount-add_to}

-- The request is known, and waits for the same as before.
abbrev pub is_same_wait : Request → Request → Bool
is_same_wait r active = (r.started == active.started) && text_eq r.wait active.wait

-- The milliseconds of a request that no earlier poll has seen
unfoldable pub unseen : Option Request → Request → ℕ
unseen none active = active.wait_time_ms
unseen (some r) active =
    if is_same_wait r active
    then (if ltb active.wait_time_ms r.wait_time_ms
        then active.wait_time_ms
        else active.wait_time_ms - r.wait_time_ms)
    else active.wait_time_ms

module _ (mappings : Map Text WaitMap) where
  -- A wait is counted for the group w.
  abbrev pub counts_for : Text → Text → Bool
  counts_for w wait = elim (group_of mappings wait) [ none ↦ false | some g ↦ text_eq g w ]

  -- The unseen milliseconds of the polled requests that are counted for w
  unfoldable pub total : Text → Map ℕ Request → Map ℕ Request → ℕ
  unfolding unseen lookup text_eq
  total w known [] = 0
  total w known ((id, active) ∷ more) =
      let rest = total w known more in
      (if counts_for w active.wait then unseen (lookup id known) active else 0) + rest

  amount-map_and_save_wait :
      (w wait : Text) (ms : ℕ) (waits : Map Text ℕ)
      → amount w (map_and_save_wait mappings wait ms waits)
        ≡ amount w waits + (if counts_for w wait then ms else 0)
  unfolding map_and_save_wait
  amount-map_and_save_wait w wait ms waits = elim (Option-cases (group_of mappings wait)) [
    | inl e ↦
        let n : amount w waits ≡ amount w waits + 0 = omega arith in
        rw (map_and_save_wait, counts_for, e) n
    | inr (g, e) ↦ rw (map_and_save_wait, counts_for, e) (amount-add_to w g ms waits)
  ]

  abbrev zero_ms : ℕ
  zero_ms = 0

  both_zero : (c : Bool) → (if c then zero_ms else zero_ms) ≡ zero_ms
  both_zero true = refl
  both_zero false = refl

  amount-save_increment :
      (w : Text) (r active : Request) (waits : Map Text ℕ)
      → amount w (save_increment mappings r active waits)
        ≡ amount w waits
          + (if counts_for w active.wait
              then (if ltb active.wait_time_ms r.wait_time_ms
                  then active.wait_time_ms
                  else active.wait_time_ms - r.wait_time_ms)
              else 0)
  amount-save_increment w r active waits =
      elim (Bool-cases (ltb r.wait_time_ms active.wait_time_ms)) [
        | inl more ↦
            let no_less : ltb active.wait_time_ms r.wait_time_ms ≡ false = ground arith in
            rw more (
              rw no_less (
                amount-map_and_save_wait w active.wait (active.wait_time_ms - r.wait_time_ms)
                  waits))
        | inr no_more ↦ elim (Bool-cases (ltb active.wait_time_ms r.wait_time_ms)) [
          | inl less ↦
              rw no_more
                (rw less (amount-map_and_save_wait w active.wait active.wait_time_ms waits))
          | inr no_less ↦
              let none_new : active.wait_time_ms - r.wait_time_ms ≡ 0 = ground arith in
              let n : amount w waits ≡ amount w waits + 0 = omega arith in
              rw no_more (
                rw (no_less, none_new)
                  (n ∙ ap (◌+◌ (amount w waits)) (sym (both_zero (counts_for w active.wait)))))
        ]
      ]

  amount-save_request :
      (w : Text) (known : Option Request) (active : Request) (waits : Map Text ℕ)
      → amount w (save_request mappings known active waits)
        ≡ amount w waits + (if counts_for w active.wait then unseen known active else 0)
  unfolding save_request unseen
  amount-save_request w none active waits =
      amount-map_and_save_wait w active.wait active.wait_time_ms waits
  amount-save_request w (some r) active waits = elim (Bool-cases (is_same_wait r active)) [
    | inl same ↦ rw same (amount-save_increment w r active waits)
    | inr other ↦ rw other (amount-map_and_save_wait w active.wait active.wait_time_ms waits)
  ]

  total-insert :
      (w : Text) (id : ℕ) (a : Request) (known polled : Map ℕ Request)
      → lookup id polled ≡ none
      → total w (insert id a known) polled ≡ total w known polled
  unfolding total lookup
  total-insert w id a known [] h = refl
  total-insert w id a known ((j, b) ∷ more) h =
      let (other, absent) = lookup-none id j b more h in
      let kept : lookup j (insert id a known) ≡ lookup j known =
        lookup-insert_other j id a known other in
      let rest = total-insert w id a known more absent in rw (kept, rest)

  amount-poll_requests :
      (w : Text) (polled known : Map ℕ Request) (waits : Map Text ℕ)
      → IsMap polled
      → amount w (poll_requests mappings polled known waits).1
        ≡ amount w waits + total w known polled
  unfolding poll_requests total
  amount-poll_requests w [] known waits h = omega arith
  amount-poll_requests w ((id, a) ∷ more) known waits (once, h) =
      let rest =
        amount-poll_requests w more (insert id a known)
          (save_request mappings (lookup id known) a waits) h in
      let here = amount-save_request w (lookup id known) a waits in
      let same_rest = total-insert w id a known more once in omega arith

  -- Rows with each request once raise a wait of the Box by the milliseconds that no earlier poll has seen,
  -- over the requests that are counted for the wait, and by nothing where the rows are the first ones, or
  -- come from another server or from one that was restarted.
  pub take_rows-amount :
      (w : Text) (now : ℕ) (r : Rows) (b : Box)
      → IsMap r.requests
      → amount w (take_rows mappings now r b).waits
        ≡ amount w b.waits + (if is_reset b r then 0 else total w b.requests r.requests)
  unfolding take_rows
  take_rows-amount w now r b h = elim (Bool-cases (is_reset b r)) [
    | inl reset ↦ let n : amount w b.waits ≡ amount w b.waits + 0 = omega arith in rw reset n
    | inr same_run ↦ rw same_run (amount-poll_requests w r.requests b.requests b.waits h)
  ]
