-- ===== src/Rings/SampleRing/Queue.antt =====
-- internal/cpuring/ring_cpu.go: a ring under any sequence of Enqueue and Dequeue, against a queue that
-- forgets its oldest samples when it is full.
use isitsql.Common.{ℕ, ◌≡◌, refl, ap, ap₂, ◌∙◌, Option, none, some, List, [], ◌∷◌, ◌++◌, drop}
use isitsql.Rings.Slots.{take_last}
use isitsql.Rings.SampleRing.{Kind, Ring, enqueue, dequeue, values}
use isitsql.Rings.SampleRing.Reads.{first_or}
use isitsql.Rings.SampleRing.Enqueue.{IsValid, room, contents, enqueue-contents}
use isitsql.Rings.SampleRing.Dequeue.{values-contents, dequeue-contents}

pub data Operation (A : Type 0) : Type 0 where
  put : A → Operation A
  take_out : Operation A

-- What a queue with room for n samples holds after some operations, and what its removals answered
abbrev pub queue_after : {A : Type 0} → ℕ → List (Operation A) → List A → List A
queue_after n [] q = q
queue_after n (put a ∷ ops) q = queue_after n ops (take_last n (q ++ a ∷ []))
queue_after n (take_out ∷ ops) q = queue_after n ops (drop 1 q)

abbrev pub queue_answers : {A : Type 0} → A → ℕ → List (Operation A) → List A → List A
queue_answers blank n [] q = []
queue_answers blank n (put a ∷ ops) q = queue_answers blank n ops (take_last n (q ++ a ∷ []))
queue_answers blank n (take_out ∷ ops) q = first_or blank q ∷ queue_answers blank n ops (drop 1 q)

module _ {A : Type 0} (kind : Kind A) where
  -- What the calls of Dequeue answer, and the ring
  unfoldable pub operate : List (Operation A) → Ring A → Option (List A × Ring A)
  unfolding enqueue dequeue
  operate [] r = some ([], r)
  operate (put a ∷ ops) r = elim (enqueue kind r a) [ some r' ↦ operate ops r' | none ↦ none ]
  operate (take_out ∷ ops) r = elim (dequeue kind r) [
    | some (a, r') ↦ elim (operate ops r') [ some (as', last) ↦ some (a ∷ as', last) | none ↦ none ]
    | none ↦ none
  ]

  -- Any sequence of Enqueue and Dequeue on a valid ring succeeds. The ring then shows what the queue with the
  -- room of the ring holds, and the calls of Dequeue answered what the queue gave away; the ring stays
  -- valid and as large as it was.
  pub operate-queue :
      (ops : List (Operation A)) (r : Ring A)
      → IsValid kind r
      → (answers : List A) × (r' : Ring A) × (operate ops r ≡ some (answers, r'))
        × (answers ≡ queue_answers kind.blank (room kind r) ops (contents kind r))
        × (values kind r' ≡ queue_after (room kind r) ops (contents kind r))
        × IsValid kind r'
        × (room kind r' ≡ room kind r)
  unfolding operate
  operate-queue [] r v = ([], r, refl, refl, (values-contents kind r v).0, v, refl)
  operate-queue (put a ∷ ops) r v =
      let (r1, done, v1, n1, held) = enqueue-contents kind r a v in
      let (answers, r2, all, given, shown, v2, n2) = operate-queue ops r1 v1 in
      (
        answers,
        r2,
        rw (operate, done) all,
        given ∙ ap₂ (λ n q. queue_answers kind.blank n ops q) n1 held,
        shown ∙ ap₂ (λ n q. queue_after n ops q) n1 held,
        v2,
        n2 ∙ n1,
      )
  operate-queue (take_out ∷ ops) r v =
      let (r1, done, v1, n1, held) = dequeue-contents kind r v in
      let (answers, r2, all, given, shown, v2, n2) = operate-queue ops r1 v1 in
      (
        first_or kind.blank (contents kind r) ∷ answers,
        r2,
        rw (operate, done) (rw all),
        ap (λ as'. first_or kind.blank (contents kind r) ∷ as')
            (given ∙ ap₂ (λ n q. queue_answers kind.blank n ops q) n1 held),
        shown ∙ ap₂ (λ n q. queue_after n ops q) n1 held,
        v2,
        n2 ∙ n1,
      )
