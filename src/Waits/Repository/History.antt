-- ===== src/Waits/Repository/History.antt =====
-- internal/dwaits/repository.go: ReadHistory, which fills a new repository from the files that Write left. The
-- files are outside: what the channel of the reader gives is a list, and reading ends where it ends.
use isitsql.Common.{
  ℕ, ◌≡◌, refl, sym, ap, ◌∙◌, inl, inr, true, false, not, Option-cases, Option, none, some, List,
  [], ◌∷◌, ◌++◌, append-nil, append_assoc, map, All, Text, text_eq, ltb, if◌then◌else◌,
}
use isitsql.Maps.{insert, text_key}
use isitsql.Rings.Slots.{take_last}
use isitsql.Rings.WaitRing.{Ring, enqueue}
use isitsql.Rings.WaitRing.Laws.{last_or}
use isitsql.Waits.Repository.{
  WaitList, no_waits, Repository, empty_repository, ring_of, write, write_history,
  repository_values, repository_last,
}
use isitsql.Waits.Repository.Calls.{Call, write_call, history_call, call, call_all, entries_after}
use isitsql.Waits.Repository.Laws.{call_all-entries}

-- What the loop of ReadHistory receives: the time is out, or a text, which may not be read as an event with waits
pub data Item : Type 0 where
  timeout : Item
  unreadable : Item
  event : Text → WaitList → Item

-- The loop, where `limit` is an hour ago
unfoldable pub read_history : ℕ → List Item → Repository → Option Repository
unfolding write_history
read_history limit [] r = some r
read_history limit (timeout ∷ items) r = some r
read_history limit (unreadable ∷ items) r = read_history limit items r
read_history limit (event key waits ∷ items) r =
    elim (if ltb waits.ts limit then some r else write_history key waits r) [
      | some r' ↦ read_history limit items r'
      | none ↦ none
    ]

abbrev pub write_of : Text × WaitList → Call
write_of (key, w) = write_call key w

abbrev history_of : Text × WaitList → Call
history_of (key, w) = history_call key w

abbrev pub event_of : Text × WaitList → Item
event_of (key, w) = event key w

-- The events that are not too old are written as the history.
read_history-events :
    (limit : ℕ) (ws : List (Text × WaitList)) (r : Repository)
    → All (λ w. ltb w.1.ts limit ≡ false) ws
    → read_history limit (map event_of ws) r ≡ call_all (map history_of ws) r
unfolding read_history call_all call
read_history-events limit [] r h = refl
read_history-events limit ((key, w) ∷ ws) r (young, h) =
    elim (Option-cases (write_history key w r)) [
      | inl e ↦ rw (read_history, young) (rw (call_all, e) refl)
      | inr (r', e) ↦
          rw (read_history, young) (rw (call_all, e) (read_history-events limit ws r' h))
    ]

-- To one server, a sequence of writes means what it means as a history.
entries_after-history :
    (key : Text) (ws : List (Text × WaitList)) (es : List WaitList)
    → entries_after key (map history_of ws) (record { is_open = true; entries = es })
      ≡ entries_after key (map write_of ws) (record { is_open = true; entries = es })
entries_after-history key [] es = refl
entries_after-history key ((k, w) ∷ ws) es =
    entries_after-history key ws (if text_eq k key then es ++ (w ∷ []) else es)

abbrev put_into : Text → WaitList → Repository → Option (Ring WaitList) → Option Repository
put_into key w r o = elim o [
  | some ring ↦
      some
        (record r { servers = insert key ring r.servers; written = r.written ++ ((key, w) ∷ []) })
  | none ↦ none
]

-- A write that succeeds gives its list to the files.
written-write :
    (key : Text) (w : WaitList) (r r' : Repository)
    → r.is_open ≡ true
    → write key w r ≡ some r'
    → (r'.is_open ≡ true) × (r'.written ≡ r.written ++ ((key, w) ∷ []))
unfolding write
written-write key w r r' h e = elim (Option-cases (enqueue (ring_of key r.servers) w)) [
  | inl stuck ↦
      let got : write key w r ≡ none = rw (write, h) (rw stuck refl) in absurd (cc (e, got))
  | inr (ring, q) ↦
      let next : Repository = record r {
        servers = insert key ring r.servers;
        written = r.written ++ ((key, w) ∷ []);
      } in
      let got : write key w r ≡ some next =
        ap (λ c. if not c then some r else put_into key w r (enqueue (ring_of key r.servers) w)) h
        ∙ ap (put_into key w r) q in
      let same : next ≡ r' = ap (λ o. elim o [ some x ↦ x | none ↦ next ]) (sym got ∙ e) in
      (ap Repository.is_open (sym same) ∙ h, ap Repository.written (sym same))
]

written-call_all :
    (ws : List (Text × WaitList)) (r r' : Repository)
    → r.is_open ≡ true
    → call_all (map write_of ws) r ≡ some r'
    → r'.written ≡ r.written ++ ws
unfolding call_all call
written-call_all [] r r' h e =
    let same : r ≡ r' = ap (λ o. elim o [ some x ↦ x | none ↦ r ]) e in
    ap Repository.written (sym same) ∙ sym (append-nil r.written)
written-call_all ((key, w) ∷ ws) r r' h e = elim (Option-cases (write key w r)) [
  | inl stuck ↦
      let got : call_all (write_call key w ∷ map write_of ws) r ≡ none =
        rw (call_all, stuck) refl in
      absurd (cc (e, got))
  | inr (r1, q) ↦
      let rest : call_all (map write_of ws) r1 ≡ some r' =
        sym (ap (λ o. elim o [ some x ↦ call_all (map write_of ws) x | none ↦ none ]) q) ∙ e in
      let (still, put) = written-write key w r r1 h q in
      written-call_all ws r1 r' still rest
      ∙ ap (λ l. l ++ ws) put
      ∙ append_assoc r.written ((key, w) ∷ []) ws
]

-- Any waits are written to a new repository without an error. Where none of them is older than the limit, a new
-- repository that reads as its history what was given to the files, with no timeout, shows for every server the
-- same values and the same last entry.
pub read_history-written :
    (limit : ℕ) (ws : List (Text × WaitList))
    → All (λ w. ltb w.1.ts limit ≡ false) ws
    → (r : Repository) × (r' : Repository) × (call_all (map write_of ws) empty_repository ≡ some r)
      × (read_history limit (map event_of r.written) empty_repository ≡ some r')
      × ((key : Text)
          → (repository_values key r' ≡ repository_values key r)
            × (repository_last key r' ≡ repository_last key r))
read_history-written limit ws h =
    let (r, written, shows) = call_all-entries (map write_of ws) in
    let (r', done, shows') = call_all-entries (map history_of ws) in
    let log : r.written ≡ ws = written-call_all ws empty_repository r refl written in
    let means = λ (key : Text). entries_after-history key ws [] in
    (
      r,
      r',
      written,
      ap (λ l. read_history limit (map event_of l) empty_repository) log
          ∙ read_history-events limit ws empty_repository h
          ∙ done,
      λ key. (
        (shows' key).0
            ∙ ap (λ s. if s.is_open then take_last 60 s.entries else []) (means key)
            ∙ sym (shows key).0,
        (shows' key).1
            ∙ ap (λ s. some (if s.is_open then last_or no_waits s.entries else no_waits))
                (means key)
            ∙ sym (shows key).1,
      ),
    )
