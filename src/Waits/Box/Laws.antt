-- ===== src/Waits/Box/Laws.antt =====
-- internal/dwaits/box.go: what a poll makes of the requests and of the waits of the Box.
use isitsql.Common.{
  ℕ, ◌+◌, ◌≡◌, ◌≢◌, refl, sym, ap, ap₂, ◌∙◌, inl, inr, true, false, Option, none, some, [], ◌∷◌,
  subst, ==_iff, text_eq_iff, Text, text_eq, ◌==◌, if◌then◌else◌, arith, Bool-cases, Option-cases,
}
use isitsql.Maps.{Map, lookup, insert, keep_if, text_key, number_key}
use isitsql.Maps.Laws.{
  IsMap, key-cases, same-false, lookup-insert_same, lookup-insert_other, lookup-keep_if_kept,
  lookup-keep_if_dropped,
}
use isitsql.Waits.Mapping.{WaitMap}
use isitsql.Waits.Box.{
  Request, Box, Rows, add_to, save_request, poll_requests, is_known, is_reset, take_rows,
}

-- The request that was polled, or else the one that was known
abbrev newer : Option Request → Option Request → Option Request
newer polled known = elim polled [ some r ↦ some r | none ↦ known ]

-- How many milliseconds a wait has.
abbrev pub amount : Text → Map Text ℕ → ℕ
amount w m = elim (lookup w m) [ some n ↦ n | none ↦ 0 ]

found-add_to :
    (g : Text) (ms : ℕ) (m : Map Text ℕ) → lookup g (add_to g ms m) ≡ some (amount g m + ms)
found-add_to g ms m = elim (Option-cases (lookup g m)) [
  | inl e ↦
      let n : ms ≡ 0 + ms = omega arith in
      rw (add_to, amount, e) (lookup-insert_same g ms m ∙ ap some n)
  | inr (n, e) ↦ rw (add_to, amount, e) (lookup-insert_same g (n + ms) m)
]

other-add_to :
    (w g : Text) (ms : ℕ) (m : Map Text ℕ) → w ≢ g → lookup w (add_to g ms m) ≡ lookup w m
other-add_to w g ms m h = elim (Option-cases (lookup g m)) [
  | inl e ↦ rw (add_to, e) (lookup-insert_other w g ms m h)
  | inr (n, e) ↦ rw (add_to, e) (lookup-insert_other w g (n + ms) m h)
]

abbrev or_zero : Option ℕ → ℕ
or_zero o = elim o [ some n ↦ n | none ↦ 0 ]

pub amount-add_to :
    (w g : Text) (ms : ℕ) (m : Map Text ℕ)
    → amount w (add_to g ms m) ≡ amount w m + (if text_eq g w then ms else 0)
amount-add_to w g ms m = elim (key-cases g w) [
  | inl same ↦
      let hit : text_eq g w ≡ true = (text_eq_iff g w).1 same in
      rw hit (
        subst (λ v. amount v (add_to g ms m) ≡ amount v m + ms) same
          (ap or_zero (found-add_to g ms m)))
  | inr other ↦
      let miss : text_eq g w ≡ false = same-false g w other in
      let n : amount w m ≡ amount w m + 0 = omega arith in
      rw miss (ap or_zero (other-add_to w g ms m (λ e. other (sym e))) ∙ n)
]

module _ (mappings : Map Text WaitMap) where
  lookup-poll_requests :
      (id : ℕ) (polled known : Map ℕ Request) (waits : Map Text ℕ)
      → IsMap polled
      → lookup id (poll_requests mappings polled known waits).0
        ≡ newer (lookup id polled) (lookup id known)
  unfolding poll_requests lookup
  lookup-poll_requests id [] known waits h = refl
  lookup-poll_requests id ((j, a) ∷ more) known waits (once, h) =
      let rest =
        lookup-poll_requests id more (insert j a known)
          (save_request mappings (lookup j known) a waits) h in
      elim (key-cases j id) [
        | inl same ↦
            let no_more : lookup id more ≡ none = subst (λ i. lookup i more ≡ none) same once in
            let stored : lookup id (insert j a known) ≡ some a =
              subst (λ i. lookup i (insert j a known) ≡ some a) same
                (lookup-insert_same j a known) in
            let here : (j == id) ≡ true = (==_iff j id).1 same in
            rest ∙ ap₂ newer no_more stored ∙ (rw here)
        | inr other ↦
            let kept : lookup id (insert j a known) ≡ lookup id known =
              lookup-insert_other id j a known (λ e. other (sym e)) in
            let away : (j == id) ≡ false = same-false j id other in
            rest ∙ ap (newer (lookup id more)) kept ∙ (rw away)
      ]

is_known-some :
    (polled : Map ℕ Request) (id : ℕ) (r : Request)
    → lookup id polled ≡ some r
    → is_known polled id ≡ true
is_known-some polled id r e = rw (is_known, e)

is_known-none :
    (polled : Map ℕ Request) (id : ℕ) → lookup id polled ≡ none → is_known polled id ≡ false
is_known-none polled id e = rw (is_known, e)

module _ (mappings : Map Text WaitMap) where
  lookup-kept :
      (id : ℕ) (polled known : Map ℕ Request) (waits : Map Text ℕ)
      → IsMap polled
      → lookup id (keep_if (is_known polled) (poll_requests mappings polled known waits).0)
        ≡ lookup id polled
  lookup-kept id polled known waits h =
      let all = lookup-poll_requests mappings id polled known waits h in
      let found = (poll_requests mappings polled known waits).0 in
      elim (Option-cases (lookup id polled)) [
        | inl e ↦
            lookup-keep_if_dropped id (is_known polled) found (is_known-none polled id e) ∙ sym e
        | inr (r, e) ↦
            lookup-keep_if_kept id (is_known polled) found (is_known-some polled id r e)
            ∙ all
            ∙ rw e
      ]

  pub lookup-take_rows :
      (id now : ℕ) (r : Rows) (b : Box)
      → IsMap r.requests
      → lookup id (take_rows mappings now r b).requests ≡ lookup id r.requests
  unfolding take_rows
  lookup-take_rows id now r b h = elim (Bool-cases (is_reset b r)) [
    | inl reset ↦ rw reset
    | inr same_run ↦ rw same_run (lookup-kept id r.requests b.requests b.waits h)
  ]
