-- ===== src/Rings/Tests.antt =====
-- Runs of the rings, and the theorems on concrete rings.
use Prim.Native.String.{String}
use isitsql.Common.{ℕ, ◌≡◌, refl, some, List, [], ◌∷◌, reverse, arith}
use isitsql.Rings.Slots.{take_last}
use isitsql.Rings.WaitRing
use isitsql.Rings.LogRing
use isitsql.Rings.LogRing.Laws.{events_from}
use isitsql.Rings.LogRing.Newest.{newest-new}
use isitsql.Rings.SampleRing
use isitsql.Rings.SampleRing.Enqueue.{IsValid, room, contents}
use isitsql.Rings.SampleRing.Queue.{
  Operation, put, take_out, queue_after, queue_answers, operate, operate-queue,
}

abbrev seven : List ℕ
seven = 1 ∷ 2 ∷ 3 ∷ 4 ∷ 5 ∷ 6 ∷ 7 ∷ []

abbrev messages : List (ℕ × String)
messages = (100, "up") ∷ (101, "down") ∷ (105, "up") ∷ []

newest-new_example :
    (r : LogRing.Logring) × (LogRing.enqueue_all (LogRing.new 2) messages ≡ some r)
    × (LogRing.values r ≡ some (take_last 2 (events_from 0 messages)))
    × (LogRing.newest r ≡ some (reverse (take_last 2 (events_from 0 messages))))
newest-new_example = newest-new 2 messages (omega arith)

-- Three slots, the samples 3, 4 and 5 from the second slot on
abbrev full_ring : SampleRing.Ring ℕ
full_ring = record { buff = some (5 ∷ 3 ∷ 4 ∷ []); head = some 0; tail = 1 }

abbrev kind : SampleRing.Kind ℕ
kind = SampleRing.log_kind 0

full_ring-IsValid : IsValid kind full_ring
unfolding SampleRing.check_init
full_ring-IsValid = (omega arith, omega arith, omega arith)

abbrev operations : List (Operation ℕ)
operations = take_out ∷ put 6 ∷ put 7 ∷ take_out ∷ []

operate-queue_example :
    (answers : List ℕ) × (r' : SampleRing.Ring ℕ) × (operate kind operations full_ring
      ≡ some (answers, r'))
    × (answers ≡ queue_answers 0 (room kind full_ring) operations (contents kind full_ring))
    × (SampleRing.values kind r'
        ≡ queue_after (room kind full_ring) operations (contents kind full_ring))
    × IsValid kind r'
    × (room kind r' ≡ room kind full_ring)
operate-queue_example = operate-queue kind operations full_ring full_ring-IsValid

values_run : SampleRing.values kind full_ring ≡ 3 ∷ 4 ∷ 5 ∷ []
unfolding SampleRing.values SampleRing.check_init
values_run = refl

-- GetHistory has nothing, whatever was written.
get_history_run : WaitRing.get_history (record { entries = seven; p = 7 }) ≡ []
unfolding WaitRing.get_history
get_history_run = refl

-- After a Dequeue of a ring that goes round the end, Len counts the slots and not the samples.
len_run :
    SampleRing.len {A = ℕ} (record { buff = some (5 ∷ 3 ∷ 4 ∷ []); head = some 0; tail = 2 }) ≡ 3
unfolding SampleRing.len
len_run = refl

-- The zero value, which holds nothing, has the length 1.
zero_len_run : SampleRing.len (SampleRing.zero_ring {A = ℕ}) ≡ 1
unfolding SampleRing.len
zero_len_run = refl

-- A ring that goes round the end of its slice is cut by extend where the slice ends.
set_capacity_run :
    SampleRing.values kind (SampleRing.set_capacity kind full_ring 5) ≡ 3 ∷ 4 ∷ 0 ∷ 0 ∷ 5 ∷ []
unfolding SampleRing.set_capacity SampleRing.values
set_capacity_run = refl
