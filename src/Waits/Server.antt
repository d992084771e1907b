-- ===== src/Waits/Server.antt =====
-- internal/dwaits: a Box that gives its waits to the repository, from one tick to the next.
use isitsql.Common.{
  ℕ, ◌+◌, ◌≤◌, ◌-◌, ◌≡◌, refl, sym, ap, ◌∙◌, true, inl, inr, Option-cases, Option, none, some, List,
  [], ◌∷◌, ◌++◌, append_assoc, append-nil, Text, text_eq, text_eq_iff, map, length, drop, arith,
  if◌then◌else◌,
}
use isitsql.Maps.{Map, text_key}
use isitsql.Rings.Slots.{take_last}
use isitsql.Waits.Mapping.{WaitMap}
use isitsql.Waits.Box.{Box, poll_waits_wrapper, emit_waits}
use isitsql.Waits.Box.Laws.{amount}
use isitsql.Waits.Box.Run.{Event, polled, emitted, AreEvents, amounts, run, run_total, run-amounts}
use isitsql.Waits.Repository.{WaitList, Repository, empty_repository, write, repository_values}
use isitsql.Waits.Repository.Calls.{write_call, call, call_all, entries_after}
use isitsql.Waits.Repository.Laws.{call_all-entries}

-- What emitWaits gives to the repository
abbrev pub emitted_list : ℕ → Box → WaitList
emitted_list now b = record { ts = now; waits = b.waits }

module _ (mappings : Map Text WaitMap) where
  -- The lists of waits that are emitted
  abbrev pub wait_lists : List Event → Box → List WaitList
  wait_lists [] b = []
  wait_lists (polled p ∷ more) b = wait_lists more (poll_waits_wrapper mappings p b)
  wait_lists (emitted now ∷ more) b = emitted_list now b ∷ wait_lists more (emit_waits b).1

  pub waits-wait_lists :
      (events : List Event) (b : Box)
      → map WaitList.waits (wait_lists events b) ≡ (run mappings events b).0
  unfolding run emit_waits
  waits-wait_lists [] b = refl
  waits-wait_lists (polled p ∷ more) b = waits-wait_lists more (poll_waits_wrapper mappings p b)
  waits-wait_lists (emitted now ∷ more) b =
      ap (λ ms. b.waits ∷ ms) (waits-wait_lists more (emit_waits b).1)

module _ (mappings : Map Text WaitMap) (key : Text) where
  -- The ticks of a server with the given key, on its Box and the repository
  unfoldable pub serve : List Event → Box → Repository → Option (Box × Repository)
  unfolding poll_waits_wrapper emit_waits write
  serve [] b r = some (b, r)
  serve (polled p ∷ more) b r = serve more (poll_waits_wrapper mappings p b) r
  serve (emitted now ∷ more) b r = elim (write key (emitted_list now b) r) [
    | some r' ↦ serve more (emit_waits b).1 r'
    | none ↦ none
  ]

  serve-call_all :
      (events : List Event) (b : Box) (r r' : Repository)
      → call_all (map (write_call key) (wait_lists mappings events b)) r ≡ some r'
      → serve events b r ≡ some ((run mappings events b).1, r')
  unfolding serve call_all call run
  serve-call_all [] b r r' h = ap (λ o. elim o [ some x ↦ some (b, x) | none ↦ none ]) h
  serve-call_all (polled p ∷ more) b r r' h =
      serve-call_all more (poll_waits_wrapper mappings p b) r r' h
  serve-call_all (emitted now ∷ more) b r r' h =
      let rest = map (write_call key) (wait_lists mappings more (emit_waits b).1) in
      elim (Option-cases (write key (emitted_list now b) r)) [
        | inl e ↦
            let stopped : some r' ≡ none =
              sym h ∙ ap (λ o. elim o [ some x ↦ call_all rest x | none ↦ none ]) e in
            absurd (cc stopped)
        | inr (r1, e) ↦
            let step : some r' ≡ call_all rest r1 =
              sym h ∙ ap (λ o. elim o [ some x ↦ call_all rest x | none ↦ none ]) e in
            rw (serve, e) (serve-call_all more (emit_waits b).1 r1 r' (sym step))
      ]

entries_after-writes :
    (key : Text) (ws : List WaitList) (es : List WaitList)
    → entries_after key (map (write_call key) ws) (record { is_open = true; entries = es })
      ≡ record { is_open = true; entries = es ++ ws }
entries_after-writes key [] es =
    ap (λ l. record { is_open = true; entries = l }) (sym (append-nil es))
entries_after-writes key (w ∷ ws) es =
    let hit : text_eq key key ≡ true = (text_eq_iff key key).1 refl in
    ap
      (λ c.
        entries_after key (map (write_call key) ws)
          (record { is_open = true; entries = if c then es ++ (w ∷ []) else es }))
      hit
    ∙ entries_after-writes key ws (es ++ (w ∷ []))
    ∙ ap (λ l. record { is_open = true; entries = l }) (append_assoc es (w ∷ []) ws)

module _ (mappings : Map Text WaitMap) (key : Text) where
  -- A server that starts with an empty repository serves any ticks, and the repository then has the last 60
  -- of the lists that were emitted, in their order.
  pub serve-values :
      (events : List Event) (b : Box)
      → (r : Repository) × (serve mappings key events b empty_repository
          ≡ some ((run mappings events b).1, r))
        × (repository_values key r ≡ take_last 60 (wait_lists mappings events b))
  serve-values events b =
      let ws = wait_lists mappings events b in
      let (r, all, reads) = call_all-entries (map (write_call key) ws) in
      let entries = entries_after-writes key ws [] in
      (
        r,
        serve-call_all mappings key events b empty_repository r all,
        (reads key).0 ∙ ap (λ s. if s.is_open then take_last 60 s.entries else []) entries,
      )

  -- Where the rows of each poll are a map and at most 60 lists are emitted: of each wait, the lists of the
  -- repository and the Box together have what the Box had at the start and what the polls counted.
  pub serve-amounts :
      (w : Text) (events : List Event) (b : Box)
      → AreEvents events
      → length (wait_lists mappings events b) ≤ 60
      → (r : Repository) × (b' : Box) × (serve mappings key events b empty_repository
          ≡ some (b', r))
        × (amounts w (map WaitList.waits (repository_values key r)) + amount w b'.waits
            ≡ amount w b.waits + run_total mappings w events b)
  serve-amounts w events b h few =
      let ws = wait_lists mappings events b in
      let (r, served, values) = serve-values events b in
      let none_lost : length ws - 60 ≡ 0 = omega arith in
      let all : take_last 60 ws ≡ ws = ap (λ n. drop n ws) none_lost in
      let same : map WaitList.waits (repository_values key r) ≡ (run mappings events b).0 =
        ap (map WaitList.waits) (values ∙ all) ∙ waits-wait_lists mappings events b in
      (
        r,
        (run mappings events b).1,
        served,
        ap (λ ms. amounts w ms + amount w (run mappings events b).1.waits) same
            ∙ run-amounts mappings w events b h,
      )
