-- ===== src/Waits/Repository/Store.antt =====
-- internal/dwaits/repository.go: the ring of a server in the map of the repository.
use isitsql.Common.{
  ◌≡◌, ◌≢◌, sym, ap, ◌∙◌, inl, inr, true, false, not, subst, none, some, List, [], ◌∷◌, ◌++◌, Text,
  text_eq, text_eq_iff, if◌then◌else◌, arith, Bool-cases, Option-cases,
}
use isitsql.Maps.{Map, insert, keep_if, text_key}
use isitsql.Maps.Laws.{
  key-cases, same-false, lookup-insert_same, lookup-insert_other, lookup-keep_if_kept,
  lookup-keep_if_dropped,
}
use isitsql.Rings.WaitRing.{Ring, new, enqueue, enqueue_all}
use isitsql.Rings.WaitRing.Laws.{enqueue_all-new}
use isitsql.Waits.Repository.{WaitList, no_waits, ring_of}

enqueue_all-append :
    (ring : Ring WaitList) (es : List WaitList) (w : WaitList)
    → enqueue_all ring (es ++ (w ∷ []))
      ≡ elim (enqueue_all ring es) [ some s ↦ enqueue s w | none ↦ none ]
unfolding enqueue_all
enqueue_all-append ring [] w = elim (Option-cases (enqueue ring w)) [
  | inl e ↦ rw (enqueue_all, e)
  | inr (s, e) ↦ rw (enqueue_all, e)
]
enqueue_all-append ring (x ∷ es) w = elim (Option-cases (enqueue ring x)) [
  | inl e ↦ rw (enqueue_all, e)
  | inr (s, e) ↦ rw (enqueue_all, e) (enqueue_all-append s es w)
]

-- A write to the ring of the server succeeds, and is its next entry.
ring-write :
    (ring : Ring WaitList) (es : List WaitList) (w : WaitList)
    → enqueue_all (new no_waits 60) es ≡ some ring
    → (ring' : Ring WaitList) × (enqueue ring w ≡ some ring')
      × (enqueue_all (new no_waits 60) (es ++ (w ∷ [])) ≡ some ring')
ring-write ring es w h =
    let (ring', all, rest, end) =
      enqueue_all-new no_waits no_waits 60 (es ++ (w ∷ [])) (omega arith) in
    let one = enqueue_all-append (new no_waits 60) es w in
    (ring', sym (ap (λ o. elim o [ some s ↦ enqueue s w | none ↦ none ]) h) ∙ sym one ∙ all, all)

ring_of-insert_same :
    (key : Text) (ring : Ring WaitList) (m : Map Text (Ring WaitList))
    → ring_of key (insert key ring m) ≡ ring
ring_of-insert_same key ring m = rw (ring_of, lookup-insert_same key ring m)

ring_of-insert_other :
    (key k : Text) (ring : Ring WaitList) (m : Map Text (Ring WaitList))
    → key ≢ k
    → ring_of key (insert k ring m) ≡ ring_of key m
ring_of-insert_other key k ring m h = rw (ring_of, lookup-insert_other key k ring m h)

pub ring_of-dropped :
    (key k : Text) (m : Map Text (Ring WaitList))
    → ring_of key (keep_if (λ j. not (text_eq j k)) m)
      ≡ (if text_eq key k then new no_waits 60 else ring_of key m)
ring_of-dropped key k m = elim (Bool-cases (text_eq key k)) [
  | inl e ↦
      let gone : not (text_eq key k) ≡ false = rw e in
      rw (e, ring_of, lookup-keep_if_dropped key (λ j. not (text_eq j k)) m gone)
  | inr e ↦
      let kept : not (text_eq key k) ≡ true = rw e in
      rw (e, ring_of, lookup-keep_if_kept key (λ j. not (text_eq j k)) m kept)
]

-- A write of one server's ring into the map, as it is seen from any server
pub ring_of-stored :
    (key k : Text) (w : WaitList) (m : Map Text (Ring WaitList)) (es : List WaitList)
    (ring : Ring WaitList)
    → enqueue_all (new no_waits 60) es ≡ some (ring_of key m)
    → enqueue (ring_of k m) w ≡ some ring
    → enqueue_all (new no_waits 60) (if text_eq k key then es ++ (w ∷ []) else es)
      ≡ some (ring_of key (insert k ring m))
ring_of-stored key k w m es ring h made = elim (key-cases k key) [
  | inl e ↦
      let hit : text_eq k key ≡ true = (text_eq_iff k key).1 e in
      let here : enqueue (ring_of key m) w ≡ some ring =
        subst (λ j. enqueue (ring_of j m) w ≡ some ring) e made in
      let found : ring_of key (insert k ring m) ≡ ring =
        subst (λ j. ring_of j (insert k ring m) ≡ ring) e (ring_of-insert_same k ring m) in
      rw hit (
        enqueue_all-append (new no_waits 60) es w
        ∙ ap (λ o. elim o [ some s ↦ enqueue s w | none ↦ none ]) h
        ∙ here
        ∙ ap some (sym found))
  | inr other ↦
      let miss : text_eq k key ≡ false = same-false k key other in
      rw miss (h ∙ ap some (sym (ring_of-insert_other key k ring m (λ e. other (sym e)))))
]

-- Every write to the ring of a server succeeds.
pub enqueue-ring_of :
    (key : Text) (w : WaitList) (m : Map Text (Ring WaitList)) (es : List WaitList)
    → enqueue_all (new no_waits 60) es ≡ some (ring_of key m)
    → (ring : Ring WaitList) × (enqueue (ring_of key m) w ≡ some ring)
enqueue-ring_of key w m es h =
    let (ring, made, all) = ring-write (ring_of key m) es w h in (ring, made)
