-- ===== src/Rings/WaitRing.antt =====
-- internal/waitring/waitring.go: the waits of a server over the last hour. A slice of fixed size, and the
-- count `p` of all that was written to it, which stays far below 2^63. An operation that would divide by
-- the length of an empty slice, and panic, is `none`.
pub mod Laws
use isitsql.Common.{
  ℕ, zero, suc, ◌+◌, ◌-◌, ◌%◌, Bool, true, false, Option, none, some, List, [], ◌∷◌, ◌++◌, length,
  take, drop, replicate, ltb, ◌==◌, if◌then◌else◌,
}
use isitsql.Rings.Slots.{set, get_or}

pub record Ring (A : Type 0) : Type 0 where
  pub entries : List A
  pub p : ℕ

-- `blank` is the zero value of WaitList.
module _ {A : Type 0} (blank : A) where
  unfoldable pub new : ℕ → Ring A
  new size = record { entries = replicate size blank; p = 0 }

  -- Last, where `nothing` is the empty WaitList that it makes for an empty ring
  unfoldable pub last : A → Ring A → Option A
  last nothing r =
      if r.p == 0
      then some nothing
      else if length r.entries == 0
      then none
      else some (get_or blank r.entries ((r.p - 1) % length r.entries))

module _ {A : Type 0} where
  unfoldable pub enqueue : Ring A → A → Option (Ring A)
  enqueue r a =
      if length r.entries == 0
      then none
      else some (record { entries = set r.entries (r.p % length r.entries) a; p = r.p + 1 })

  unfoldable pub values : Ring A → List A
  values r =
      let q = r.p % length r.entries in
      if ltb r.p (length r.entries + 1)
      then take r.p r.entries
      else drop q r.entries ++ take q r.entries

  -- GetHistory copies into a slice of length 0, so it copies nothing.
  unfoldable pub get_history : Ring A → List A
  get_history r = take 0 r.entries

  -- A sequence of calls of Enqueue.
  unfoldable pub enqueue_all : Ring A → List A → Option (Ring A)
  unfolding enqueue
  enqueue_all r [] = some r
  enqueue_all r (a ∷ as') = elim (enqueue r a) [ some r' ↦ enqueue_all r' as' | none ↦ none ]
