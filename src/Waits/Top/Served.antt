-- ===== src/Waits/Top/Served.antt =====
-- internal/dwaits: what Top says of a server whose Box gives its waits to the repository.
use isitsql.Common.{
  ℕ, ◌+◌, ◌-◌, ◌≤◌, ◌≡◌, sym, ap, ◌∙◌, subst, inl, inr, ◌&&◌, Option, none, some, List, [], ◌∷◌,
  Text, map, length, drop, All, text_eq, ltb, ◌==◌, Bool-cases, Option-cases, arith,
}
use isitsql.Maps.{Map, lookup, text_key, number_key}
use isitsql.Maps.Laws.{IsMap, insert-IsMap}
use isitsql.Rings.Slots.{take_last}
use isitsql.Waits.Mapping.{WaitMap}
use isitsql.Waits.Box.{
  Request, Box, Rows, group_of, add_to, map_and_save_wait, save_increment, save_request,
  poll_requests, is_reset, take_rows, poll_waits, poll_waits_wrapper, emit_waits,
}
use isitsql.Waits.Box.Laws.{amount}
use isitsql.Waits.Box.States.{prepared, poll_waits-cases, poll_waits_wrapper-same}
use isitsql.Waits.Box.Run.{Event, polled, emitted, AreEvents, amounts, run, run_total, run-amounts}
use isitsql.Waits.Repository.{WaitList, Repository, empty_repository, repository_values}
use isitsql.Waits.Server.{wait_lists, waits-wait_lists, serve, serve-values}
use isitsql.Waits.Top.{value_of, repository_top}
use isitsql.Waits.Top.Laws.{ShowsFirst, repository_top-values}

add_to-IsMap :
    (wait : Text) (ms : ℕ) (waits : Map Text ℕ) → IsMap waits → IsMap (add_to wait ms waits)
add_to-IsMap wait ms waits h = elim (Option-cases (lookup wait waits)) [
  | inl e ↦ rw (add_to, e) (insert-IsMap wait ms waits h)
  | inr (n, e) ↦ rw (add_to, e) (insert-IsMap wait (n + ms) waits h)
]

module _ (mappings : Map Text WaitMap) where
  map_and_save_wait-IsMap :
      (wait : Text) (ms : ℕ) (waits : Map Text ℕ)
      → IsMap waits
      → IsMap (map_and_save_wait mappings wait ms waits)
  unfolding map_and_save_wait
  map_and_save_wait-IsMap wait ms waits h = elim (Option-cases (group_of mappings wait)) [
    | inl e ↦ rw (map_and_save_wait, e) h
    | inr (g, e) ↦ rw (map_and_save_wait, e) (add_to-IsMap g ms waits h)
  ]

  save_increment-IsMap :
      (r active : Request) (waits : Map Text ℕ)
      → IsMap waits
      → IsMap (save_increment mappings r active waits)
  save_increment-IsMap r active waits h =
      elim (Bool-cases (ltb r.wait_time_ms active.wait_time_ms)) [
        | inl more ↦
            rw more
              (map_and_save_wait-IsMap active.wait (active.wait_time_ms - r.wait_time_ms) waits h)
        | inr no_more ↦ elim (Bool-cases (ltb active.wait_time_ms r.wait_time_ms)) [
          | inl less ↦
              rw no_more (rw less (map_and_save_wait-IsMap active.wait active.wait_time_ms waits h))
          | inr no_less ↦ rw no_more (rw no_less h)
        ]
      ]

  save_request-IsMap :
      (known : Option Request) (active : Request) (waits : Map Text ℕ)
      → IsMap waits
      → IsMap (save_request mappings known active waits)
  unfolding save_request
  save_request-IsMap none active waits h =
      map_and_save_wait-IsMap active.wait active.wait_time_ms waits h
  save_request-IsMap (some r) active waits h =
      elim (Bool-cases ((r.started == active.started) && text_eq r.wait active.wait)) [
        | inl same ↦ rw same (save_increment-IsMap r active waits h)
        | inr other ↦ rw other (map_and_save_wait-IsMap active.wait active.wait_time_ms waits h)
      ]

  poll_requests-IsMap :
      (polled known : Map ℕ Request) (waits : Map Text ℕ)
      → IsMap waits
      → IsMap (poll_requests mappings polled known waits).1
  unfolding poll_requests
  poll_requests-IsMap [] known waits h = h
  poll_requests-IsMap ((id, a) ∷ more) known waits h =
      poll_requests-IsMap more _ _ (save_request-IsMap (lookup id known) a waits h)

  take_rows-IsMap :
      (now : ℕ) (r : Rows) (b : Box) → IsMap b.waits → IsMap (take_rows mappings now r b).waits
  unfolding take_rows
  take_rows-IsMap now r b h = elim (Bool-cases (is_reset b r)) [
    | inl reset ↦ rw reset h
    | inr same ↦ rw same (poll_requests-IsMap r.requests b.requests b.waits h)
  ]

  -- A poll keeps each wait of the Box once.
  poll_waits_wrapper-IsMap :
      (p : _) (b : Box) → IsMap b.waits → IsMap (poll_waits_wrapper mappings p b).waits
  poll_waits_wrapper-IsMap p b h =
      let same : (poll_waits_wrapper mappings p b).waits ≡ (poll_waits mappings p b).1.waits =
        (poll_waits_wrapper-same mappings p b).1 in
      subst IsMap (sym same) (elim (poll_waits-cases mappings p b) [
        | inl (e, q) ↦ rw q h
        | inr (inl (e, q)) ↦ rw q h
        | inr (inr (r, a, q)) ↦ rw q (take_rows-IsMap p.now r (prepared b) h)
      ])

  wait_lists-IsMap :
      (events : List Event) (b : Box)
      → IsMap b.waits
      → All (λ l. IsMap l.waits) (wait_lists mappings events b)
  unfolding emit_waits
  wait_lists-IsMap [] b h = tt
  wait_lists-IsMap (polled p ∷ more) b h =
      wait_lists-IsMap more (poll_waits_wrapper mappings p b) (poll_waits_wrapper-IsMap p b h)
  wait_lists-IsMap (emitted now ∷ more) b h = (h, wait_lists-IsMap more (emit_waits b).1 tt)

-- Where the rows of each poll have each request once, the Box starts with each wait once, and at most 60
-- lists are emitted, from an empty repository on: serving ends, and of every wait, the total that Top
-- has and what the Box still keeps make up what the Box had at the start and what the polls counted; Top shows
-- the five waits with the largest totals in their order, or all of them if they are fewer.
pub serve-repository_top :
    (mappings : Map Text WaitMap) (key : Text) (n : ℕ) (events : List Event) (b : Box)
    → AreEvents events
    → IsMap b.waits
    → length (wait_lists mappings events b) ≤ 60
    → (r : Repository) × (b' : Box) × (serve mappings key events b empty_repository ≡ some (b', r))
      × ((w : Text)
          → value_of w (repository_top key n r).base_map + amount w b'.waits
            ≡ amount w b.waits + run_total mappings w events b)
      × ShowsFirst 5 (repository_top key n r)
serve-repository_top mappings key n events b h once few =
    let ws = wait_lists mappings events b in
    let (r, served, values) = serve-values mappings key events b in
    let none_lost : length ws - 60 ≡ 0 = omega arith in
    let all : take_last 60 ws ≡ ws = ap (λ k. drop k ws) none_lost in
    let lists : repository_values key r ≡ ws = values ∙ all in
    let (totals, shown) =
      repository_top-values key n r
        (subst (All (λ l. IsMap l.waits)) (sym lists) (wait_lists-IsMap mappings events b once)) in
    let same : map WaitList.waits (repository_values key r) ≡ (run mappings events b).0 =
      ap (map WaitList.waits) lists ∙ waits-wait_lists mappings events b in
    (
      r,
      (run mappings events b).1,
      served,
      (λ w.
          let t = totals w in
          let s : amounts w (map WaitList.waits (repository_values key r))
              ≡ amounts w (run mappings events b).0 =
            ap (amounts w) same in
          let a = run-amounts mappings w events b h in omega arith),
      shown,
    )
