-- ===== src/Rings/LogRing.antt =====
-- internal/logring/logring.go: the latest messages of a part of the server. The number of messages stays
-- far below 2^63. An operation that would divide by a capacity of 0, and panic, is `none`.
pub mod Laws
pub mod Newest
use Prim.Native.String.{String}
use isitsql.Common.{
  ℕ, zero, suc, ◌+◌, ◌%◌, Bool, true, false, ◌||◌, Option, none, some, List, [], ◌∷◌, ◌++◌, map,
  length, take, drop, ltb, ◌==◌, if◌then◌else◌,
}
use isitsql.Rings.Slots.{set}

-- Times are only passed on.
pub record Event : Type 0 where
  pub ptr : ℕ
  pub ts : ℕ
  pub message : String

pub record Logring : Type 0 where
  pub capacity : ℕ
  pub buff : List Event
  pub ptr : ℕ

unfoldable pub new : ℕ → Logring
new n = record { capacity = n; buff = []; ptr = 0 }

-- enqueue, at the time `now`
unfoldable pub enqueue : Logring → ℕ → String → Option Logring
enqueue r now msg =
    let e : Event = record { ptr = r.ptr; ts = now; message = msg } in
    if ltb r.ptr r.capacity
    then some (record r { buff = r.buff ++ e ∷ []; ptr = r.ptr + 1 })
    else if r.capacity == 0
    then none
    else some (record r { buff = set r.buff (r.ptr % r.capacity) e; ptr = r.ptr + 1 })

unfoldable pub size : Logring → ℕ
size r = length r.buff

unfoldable pub values : Logring → Option (List Event)
values r =
    if ltb r.ptr r.capacity || r.ptr == 0
    then some r.buff
    else if r.capacity == 0
    then none
    else some (drop (r.ptr % r.capacity) r.buff ++ take (r.ptr % r.capacity) r.buff)

-- slices.SortStableFunc with the events that have the larger number first: a stable sort, here by
-- insertion.
unfoldable pub insert_newest : Event → List Event → List Event
insert_newest e [] = e ∷ []
insert_newest e (d ∷ ds) =
    let rest = insert_newest e ds in if ltb e.ptr d.ptr then d ∷ rest else e ∷ d ∷ ds

unfoldable pub sort_newest : List Event → List Event
unfolding insert_newest
sort_newest [] = []
sort_newest (e ∷ es) = insert_newest e (sort_newest es)

unfoldable pub newest : Logring → Option (List Event)
unfolding values sort_newest
newest r = elim (values r) [ some es ↦ some (sort_newest es) | none ↦ none ]

-- ee2array
unfoldable pub messages_of : List Event → List String
messages_of = map (λ e. e.message)

-- A sequence of calls of Enqueue, with the times at which they run.
unfoldable pub enqueue_all : Logring → List (ℕ × String) → Option Logring
unfolding enqueue
enqueue_all r [] = some r
enqueue_all r ((now, msg) ∷ more) = elim (enqueue r now msg) [
  | some r' ↦ enqueue_all r' more
  | none ↦ none
]
