-- ===== src/Waits/Box/Start.antt =====
-- internal/dwaits/box.go: Start and setup, which connect a Box and run its two tickers. sql.Open, the answers to the query
-- of setup and the ticks come in any order that the code can take them in; a cancel is seen by the poller and
-- by the emitter at different times, and each may take ticks until it sees it.
use isitsql.Common.{
  ℕ, ◌≡◌, refl, sym, ap, ◌∙◌, inl, inr, Bool, true, false, Bool-cases, [], Text, ltb, if◌then◌else◌,
}
use isitsql.Maps.{Map}
use isitsql.Waits.Mapping.{WaitMap}
use isitsql.Waits.Box.{Box, Rows, Poll, is_reset, take_rows, poll_waits_wrapper, emit_waits}
use isitsql.Waits.Box.States.{prepared, poll_waits-cases, poll_waits_wrapper-same}

-- What the query of setup answers: an error, or the domain, the name, the start and the major version
pub data Info : Type 0 where
  no_info : Text → Info
  info : Text → Text → ℕ → ℕ → Info

-- What setup makes of it
pub data Setup : Type 0 where
  setup_failed : Text → Setup
  low_version : Setup
  set_up : Box → Setup

abbrev pub setup : Info → Box → Setup
setup (no_info e) b = setup_failed e
setup (info domain server started major) b =
    if ltb major 10
    then low_version
    else set_up (record b { domain = domain; server = server; booted = started })

-- The label `connected`
abbrev pub connected : Box → Box
connected b = record b { requests = []; waits = [] }

-- Where Start is. While it runs, whether the Box is cancelled, the poller runs, and the emitter runs.
pub data Phase : Type 0 where
  retrying : Phase
  running : Bool → Bool → Bool → Phase
  ended : Phase

-- From the first lines of Start to the first wait
unfoldable pub start : Bool → Info → Box → Phase × Box
start is_opened i b =
    let b' = record b { first = true } in
    if is_opened
    then elim (setup i b') [
      | setup_failed e ↦ (retrying, b')
      | low_version ↦ (ended, b')
      | set_up b'' ↦ (running false true true, connected b'')
    ]
    else (ended, b')

module _ (mappings : Map Text WaitMap) where
  -- What can happen next
  pub data Step : Phase → Box → Phase → Box → Type 0 where
    retry_failed :
        {b : Box} {e : Text} (i : Info) → setup i b ≡ setup_failed e → Step retrying b retrying b
    retry_low : {b : Box} (i : Info) → setup i b ≡ low_version → Step retrying b ended b
    retry_connected :
        {b b' : Box} (i : Info)
        → setup i b ≡ set_up b'
        → Step retrying b (running false true true) (connected b')
    retry_cancelled : {b : Box} → Step retrying b ended b
    cancelled : {b : Box} {p e : Bool} → Step (running false p e) b (running true p e) b
    polled :
        {b : Box} {c e : Bool} (p : Poll)
        → Step (running c true e) b (running c true e) (poll_waits_wrapper mappings p b)
    emitted : {b : Box} {c p : Bool} → Step (running c p true) b (running c p true) (emit_waits b).1
    poller_ended : {b : Box} {e : Bool} → Step (running true true e) b (running true false e) b
    emitter_ended : {b : Box} {p : Bool} → Step (running true p true) b (running true p false) b

  -- Any number of steps
  pub data Steps : Phase → Box → Phase → Box → Type 0 where
    stay : {x : Phase} {b : Box} → Steps x b x b
    next : {x y z : Phase} {a b c : Box} → Step x a y b → Steps y b z c → Steps x a z c

-- A Box that runs and has taken no rows yet knows no request and has counted no wait; one that retries has still to take its
-- first rows.
abbrev pub IsFresh : Phase → Box → Type 0
IsFresh retrying b = b.first ≡ true
IsFresh (running c p e) b = b.first ≡ true → (b.requests ≡ []) × (b.waits ≡ [])
IsFresh ended b = Unit

take_rows-first :
    (mappings : Map Text WaitMap) (now : ℕ) (r : Rows) (b : Box)
    → (take_rows mappings now r b).first ≡ false
unfolding take_rows
take_rows-first mappings now r b = elim (Bool-cases (is_reset b r)) [
  | inl reset ↦ rw reset refl
  | inr same ↦ rw same refl
]

polled-IsFresh :
    (mappings : Map Text WaitMap) (p : Poll) (b : Box)
    → IsFresh (running false true true) b
    → IsFresh (running false true true) (poll_waits_wrapper mappings p b)
polled-IsFresh mappings p b h first =
    let (reqs, waits, d, s, k, f) = poll_waits_wrapper-same mappings p b in
    let first' = sym f ∙ first in
    elim (poll_waits-cases mappings p b) [
      | inl (e, q) ↦
          let (r, w) = h (sym (ap (λ x. x.1.first) q) ∙ first') in
          (reqs ∙ ap (λ x. x.1.requests) q ∙ r, waits ∙ ap (λ x. x.1.waits) q ∙ w)
      | inr (inl (e, q)) ↦
          let (r, w) = h (sym (ap (λ x. x.1.first) q) ∙ first') in
          (reqs ∙ ap (λ x. x.1.requests) q ∙ r, waits ∙ ap (λ x. x.1.waits) q ∙ w)
      | inr (inr (rows, a, q)) ↦ absurd (
          cc (
            sym (ap (λ x. x.1.first) q) ∙ first',
            take_rows-first mappings p.now rows (prepared b),
          ))
    ]

module _ (mappings : Map Text WaitMap) where
  emitted-IsFresh :
      (b : Box)
      → IsFresh (running false true true) b
      → IsFresh (running false true true) (emit_waits b).1
  unfolding emit_waits
  emitted-IsFresh b h first = ((h first).0, refl)

  Step-IsFresh : {x y : Phase} {a b : Box} → Step mappings x a y b → IsFresh x a → IsFresh y b
  Step-IsFresh (retry_failed i e) h = h
  Step-IsFresh (retry_low i e) h = tt
  Step-IsFresh (retry_connected i e) h = λ first. (refl, refl)
  Step-IsFresh retry_cancelled h = tt
  Step-IsFresh cancelled h = h
  Step-IsFresh (polled {b} p) h = polled-IsFresh mappings p b h
  Step-IsFresh (emitted {b}) h = emitted-IsFresh b h
  Step-IsFresh poller_ended h = h
  Step-IsFresh emitter_ended h = h

  -- Before it is cancelled, the poller and the emitter run.
  abbrev pub RunsWhole : Phase → Type 0
  RunsWhole retrying = Unit
  RunsWhole (running c p e) = c ≡ false → (p ≡ true) × (e ≡ true)
  RunsWhole ended = Unit

  Step-RunsWhole : {x y : Phase} {a b : Box} → Step mappings x a y b → RunsWhole x → RunsWhole y
  Step-RunsWhole (retry_failed i e) h = h
  Step-RunsWhole (retry_low i e) h = tt
  Step-RunsWhole (retry_connected i e) h = λ c. (refl, refl)
  Step-RunsWhole retry_cancelled h = tt
  Step-RunsWhole cancelled h = λ c. absurd (cc c)
  Step-RunsWhole (polled p) h = h
  Step-RunsWhole emitted h = h
  Step-RunsWhole poller_ended h = λ c. absurd (cc c)
  Step-RunsWhole emitter_ended h = λ c. absurd (cc c)

  Steps-hold :
      {x y : Phase} {a b : Box}
      → Steps mappings x a y b
      → IsFresh x a × RunsWhole x
      → IsFresh y b × RunsWhole y
  Steps-hold stay h = h
  Steps-hold (next s more) (f, w) = Steps-hold more (Step-IsFresh s f, Step-RunsWhole s w)

  start-holds :
      (is_opened : Bool) (i : Info) (b : Box)
      → IsFresh (start is_opened i b).0 (start is_opened i b).1 × RunsWhole (start is_opened i b).0
  unfolding start
  start-holds false i b = (tt, tt)
  start-holds true (no_info e) b = (refl, tt)
  start-holds true (info domain server started major) b = elim (Bool-cases (ltb major 10)) [
    | inl low ↦ rw (start, low) (tt, tt)
    | inr good ↦ rw (start, good) (λ first. (refl, refl), λ c. (refl, refl))
  ]

  -- Whatever a Box was before Start, and whatever answers, ticks and cancel come in whatever order: as long as the Box is not
  -- cancelled, it retries, has ended, or both its tickers run; a Box that retries has `first` set; and a Box that
  -- runs and whose `first` is still set knows no request and has counted no wait.
  pub start-IsFresh :
      (is_opened : Bool) (i : Info) (b c : Box) (y : Phase)
      → Steps mappings (start is_opened i b).0 (start is_opened i b).1 y c
      → IsFresh y c × RunsWhole y
  start-IsFresh is_opened i b c y steps = Steps-hold steps (start-holds is_opened i b)
