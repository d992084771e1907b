-- ===== src/Waits/Repository/Laws.antt =====
-- internal/dwaits/repository.go: any sequence of calls, against a list of entries for each server.
use isitsql.Common.{
  ◌≡◌, refl, sym, ap, ◌∙◌, inl, inr, true, false, not, none, some, List, [], ◌∷◌, ◌++◌, Text,
  text_eq, if◌then◌else◌, arith, Bool-cases, Option-cases,
}
use isitsql.Maps.{lookup, insert, keep_if, text_key}
use isitsql.Rings.Slots.{take_last}
use isitsql.Rings.WaitRing.{Ring, new, enqueue, enqueue_all, values, last}
use isitsql.Rings.WaitRing.Laws.{enqueue_all-new, last_or}
use isitsql.Waits.Repository.{
  WaitList, no_waits, Repository, empty_repository, ring_of, write_history, write,
  repository_values, repository_last, delete, close,
}
use isitsql.Waits.Repository.Calls.{
  Call, write_call, history_call, delete_call, close_call, call, call_all, Entries, step_entries,
  entries_after, no_entries,
}
use isitsql.Waits.Repository.Store.{ring_of-stored, ring_of-dropped, enqueue-ring_of}

-- The ring of each server is the one that writing its entries makes.
abbrev Holds : Repository → (Text → Entries) → Type 0
Holds r f =
    (key : Text)
    → (r.is_open ≡ (f key).is_open)
      × (enqueue_all (new no_waits 60) (f key).entries ≡ some (ring_of key r.servers))

write_lem :
    (k : Text) (w : WaitList) (r : Repository) (ring : Ring WaitList)
    → r.is_open ≡ true
    → enqueue (ring_of k r.servers) w ≡ some ring
    → write k w r
      ≡ some (record r { servers = insert k ring r.servers; written = r.written ++ ((k, w) ∷ []) })
unfolding write
write_lem k w r ring e made =
    ap
      (λ c. if not c then some r else elim (enqueue (ring_of k r.servers) w) [
        | some ring' ↦
            some (record r {
              servers = insert k ring' r.servers;
              written = r.written ++ ((k, w) ∷ []);
            })
        | none ↦ none
      ])
      e
    ∙ rw made

values-ring_of :
    (key : Text) (r : Repository)
    → repository_values key r ≡ (if r.is_open then values (ring_of key r.servers) else [])
unfolding repository_values values new
values-ring_of key r = elim (Bool-cases r.is_open) [
  | inl e ↦
      rw (repository_values, e)
        (elim (Option-cases (lookup key r.servers)) [
          | inl q ↦ rw (ring_of, q)
          | inr (ring, q) ↦ rw (ring_of, q)
        ])
  | inr e ↦ rw (repository_values, e)
]

last-ring_of :
    (key : Text) (r : Repository)
    → repository_last key r
      ≡ (if r.is_open then last no_waits no_waits (ring_of key r.servers) else some no_waits)
unfolding repository_last last new
last-ring_of key r = elim (Bool-cases r.is_open) [
  | inl e ↦
      rw (repository_last, e)
        (elim (Option-cases (lookup key r.servers)) [
          | inl q ↦ rw (ring_of, q)
          | inr (ring, q) ↦ rw (ring_of, q)
        ])
  | inr e ↦ rw (repository_last, e)
]

module _ (r : Repository) (f : Text → Entries) (h : Holds r f) where
  write_history-Holds :
      (k : Text) (w : WaitList)
      → (r' : Repository) × (write_history k w r ≡ some r')
        × Holds r' (λ key. step_entries key (history_call k w) (f key))
  unfolding write_history
  write_history-Holds k w =
      let (ring, made) = enqueue-ring_of k w r.servers (f k).entries (h k).1 in
      (
        record r { servers = insert k ring r.servers },
        rw (write_history, made),
        λ key. ((h key).0, ring_of-stored key k w r.servers (f key).entries ring (h key).1 made),
      )

  call-Holds :
      (c : Call)
      → (r' : Repository) × (call c r ≡ some r') × Holds r' (λ key. step_entries key c (f key))
  unfolding call write delete new enqueue_all
  call-Holds (write_call k w) = elim (Bool-cases r.is_open) [
    | inl e ↦
        let (ring, made) = enqueue-ring_of k w r.servers (f k).entries (h k).1 in
        (
          record r { servers = insert k ring r.servers; written = r.written ++ ((k, w) ∷ []) },
          write_lem k w r ring e made,
          λ key.
              let still : (f key).is_open ≡ true = sym (h key).0 ∙ e in
              (
                (h key).0,
                rw still (ring_of-stored key k w r.servers (f key).entries ring (h key).1 made),
              ),
        )
    | inr e ↦ (
      r,
      rw (write, e),
      λ key.
          let closed : (f key).is_open ≡ false = sym (h key).0 ∙ e in
          rw closed ((h key).0 ∙ closed, (h key).1),
    )
  ]
  call-Holds (history_call k w) = write_history-Holds k w
  call-Holds (delete_call k) = elim (Bool-cases r.is_open) [
    | inl e ↦ (
      record r { servers = keep_if (λ j. not (text_eq j k)) r.servers },
      rw (delete, e),
      λ key.
          let still : (f key).is_open ≡ true = sym (h key).0 ∙ e in
          (
            (h key).0,
            rw (still, ring_of-dropped key k r.servers)
                (elim (Bool-cases (text_eq key k)) [
                  | inl hit ↦ rw hit
                  | inr miss ↦ rw miss (h key).1
                ]),
          ),
    )
    | inr e ↦ (
      r,
      rw (delete, e),
      λ key.
          let closed : (f key).is_open ≡ false = sym (h key).0 ∙ e in
          rw closed ((h key).0 ∙ closed, (h key).1),
    )
  ]
  call-Holds close_call = (close r, refl, λ key. (refl, (h key).1))

call_all-Holds :
    (cs : List Call) (r : Repository) (f : Text → Entries)
    → Holds r f
    → (r' : Repository) × (call_all cs r ≡ some r') × Holds r' (λ key. entries_after key cs (f key))
unfolding call_all
call_all-Holds [] r f h = (r, refl, h)
call_all-Holds (c ∷ cs) r f h =
    let (r1, one, h1) = call-Holds r f h c in
    let (r2, all, h2) = call_all-Holds cs r1 (λ key. step_entries key c (f key)) h1 in
    (r2, rw (call_all, one) all, h2)

Holds-reads :
    (r : Repository) (f : Text → Entries)
    → Holds r f
    → (key : Text)
    → (repository_values key r ≡ (if (f key).is_open then take_last 60 (f key).entries else []))
      × (repository_last key r
          ≡ some (if (f key).is_open then last_or no_waits (f key).entries else no_waits))
Holds-reads r f h key =
    let es = (f key).entries in
    let (ring, made, vs, end) = enqueue_all-new no_waits no_waits 60 es (omega arith) in
    let same : some ring ≡ some (ring_of key r.servers) = sym made ∙ (h key).1 in
    let kept : values (ring_of key r.servers) ≡ take_last 60 es =
      sym (ap (λ o. elim o [ some x ↦ values x | none ↦ [] ]) same) ∙ vs in
    let newest : last no_waits no_waits (ring_of key r.servers) ≡ some (last_or no_waits es) =
      sym (ap (λ o. elim o [ some x ↦ last no_waits no_waits x | none ↦ none ]) same) ∙ end in
    elim (Bool-cases (f key).is_open) [
      | inl e ↦
          let still : r.is_open ≡ true = (h key).0 ∙ e in
          rw e (values-ring_of key r ∙ rw still kept, last-ring_of key r ∙ rw still newest)
      | inr e ↦
          let closed : r.is_open ≡ false = (h key).0 ∙ e in
          rw e (values-ring_of key r ∙ (rw closed), last-ring_of key r ∙ (rw closed))
    ]

-- After any sequence of calls the repository has, for each server, the last 60 of the entries that were
-- written since the server was last deleted, in their order, and none once it is closed; Last gives the
-- newest of them, or the empty one. No call fails.
pub call_all-entries :
    (cs : List Call)
    → (r : Repository) × (call_all cs empty_repository ≡ some r)
      × ((key : Text)
          → let s = entries_after key cs no_entries in
            (repository_values key r ≡ (if s.is_open then take_last 60 s.entries else []))
            × (repository_last key r
                ≡ some (if s.is_open then last_or no_waits s.entries else no_waits)))
unfolding enqueue_all lookup new
call_all-entries cs =
    let (r, all, h) =
      call_all-Holds cs empty_repository (λ key. no_entries) (λ key. (refl, refl)) in
    (r, all, λ key. Holds-reads r (λ j. entries_after j cs no_entries) h key)
