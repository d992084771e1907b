-- ===== src/Rings/SampleRing.antt =====
-- internal/cpuring/ring_cpu.go, and the copies of it in internal/metricvaluering, internal/metric and
-- internal/appringlog: a slice with the slots of the newest and of the oldest sample. Indices stay
-- below twice the size of the slice. An operation that would divide by the length of an empty slice, and
-- panic, is `none`.
pub mod Window
pub mod Laws
pub mod Dequeue
pub mod Reads
pub mod Enqueue
pub mod Queue
use isitsql.Common.{
  ℕ, zero, suc, ◌+◌, ◌-◌, ◌%◌, Bool, true, false, Option, none, some, List, [], ◌∷◌, ◌++◌, length,
  take, replicate, reverse, leb, ltb, ◌==◌, if◌then◌else◌, ◌&&◌, not,
}
use isitsql.Rings.Slots.{set, get_or}

-- What the copies differ in: `blank` is what a new slice is filled with, and what an empty ring answers;
-- `added` fills the slots that `extend` adds; then the size of a slice that is made on first use.
pub record Kind (A : Type 0) : Type 0 where
  pub blank : A
  pub added : A
  pub default_capacity : ℕ

-- cpuring: pointers to samples. A missing sample is nil; `extend` adds pointers to zero samples.
abbrev pub cpu_kind : {A : Type 0} → A → Kind (Option A)
cpu_kind zero_sample = record { blank = none; added = some zero_sample; default_capacity = 60 }

-- metricvaluering and metric: nil in both places
abbrev pub metric_kind : {A : Type 0} → Kind (Option A)
metric_kind = record { blank = none; added = none; default_capacity = 60 }

-- appringlog: events themselves. It has no extend.
abbrev pub log_kind : {A : Type 0} → A → Kind A
log_kind zero_event = record { blank = zero_event; added = zero_event; default_capacity = 1000 }

-- A ring: `none` is the nil slice, and for `head` the number -1.
pub record Ring (A : Type 0) : Type 0 where
  pub buff : Option (List A)
  pub head : Option ℕ
  pub tail : ℕ

-- var r Ring
abbrev pub zero_ring : {A : Type 0} → Ring A
zero_ring = record { buff = none; head = some 0; tail = 0 }

-- head + 1
abbrev pub after_head : Option ℕ → ℕ
after_head none = 0
after_head (some h) = h + 1

-- old != -1 && r.head == r.tail, for the new head
abbrev pub overtakes : Option ℕ → ℕ → ℕ → Bool
overtakes none p t = false
overtakes (some h) p t = p == t

module _ {A : Type 0} where
  abbrev pub slots : Ring A → List A
  slots r = elim r.buff [ some b ↦ b | none ↦ [] ]

  unfoldable pub capacity : Ring A → ℕ
  capacity r = length (slots r)

  unfoldable pub len : Ring A → ℕ
  unfolding capacity
  len r = elim r.head [ none ↦ 0 | some h ↦ if leb r.tail h then h + 1 - r.tail else capacity r ]

module _ {A : Type 0} (kind : Kind A) where
  unfoldable pub check_init : Ring A → Ring A
  check_init r = elim r.buff [
    | some b ↦ r
    | none ↦ record {
      buff = some (replicate kind.default_capacity kind.blank);
      head = none;
      tail = 0;
    }
  ]

  -- extend(size): a slice that is cut keeps its first entries.
  unfoldable pub extend : Ring A → ℕ → Ring A
  extend r size =
      let b = slots r in
      if size == length b
      then r
      else record r { buff = some (take size b ++ replicate (size - length b) kind.added) }

  unfoldable pub set_capacity : Ring A → ℕ → Ring A
  unfolding check_init extend
  set_capacity r size = extend (check_init r) size

  unfoldable pub new : ℕ → Ring A
  unfolding check_init extend
  new size = extend (check_init zero_ring) size

  -- Enqueue, on a ring that is initialized
  unfoldable pub write : Ring A → A → Option (Ring A)
  unfolding capacity
  write r a =
      let n = capacity r in
      let p = after_head r.head % n in
      if n == 0
      then none
      else some (record {
        buff = some (set (slots r) p a);
        head = some p;
        tail = if overtakes r.head p r.tail then (r.tail + 1) % n else r.tail;
      })

  unfoldable pub enqueue : Ring A → A → Option (Ring A)
  unfolding check_init write
  enqueue r a = write (check_init r) a

  -- get(p)
  unfoldable pub get : Ring A → ℕ → Option A
  unfolding capacity
  get r p = if capacity r == 0 then none else some (get_or kind.blank (slots r) (p % capacity r))

  -- The ring without its oldest sample, when the newest one stands in slot h
  abbrev pub advance : Ring A → ℕ → Ring A
  advance r h =
      if r.tail == h
      then record r { head = none; tail = 0 }
      else record r { tail = (r.tail + 1) % capacity r }

  unfoldable pub dequeue : Ring A → Option (A × Ring A)
  unfolding check_init get capacity
  dequeue r =
      let s = check_init r in
      elim s.head [
        | none ↦ some (kind.blank, s)
        | some h ↦ elim (get s s.tail) [ some v ↦ some (v, advance s h) | none ↦ none ]
      ]

  unfoldable pub peek : Ring A → Option A
  unfolding check_init get
  peek r = let s = check_init r in elim s.head [ none ↦ some kind.blank | some h ↦ get s s.tail ]

  unfoldable pub get_newest : Ring A → Option (A × Bool)
  unfolding check_init get
  get_newest r =
      let s = check_init r in
      elim s.head [
        | none ↦ some (kind.blank, false)
        | some h ↦ elim (get s h) [ some v ↦ some (v, true) | none ↦ none ]
      ]

  -- The loop of Values from round i on, with the number of rounds that are left.
  unfoldable pub values_from : List A → ℕ → ℕ → ℕ → ℕ → List A
  values_from b h t i zero = []
  values_from b h t i (suc k) =
      let idx = (i + t) % length b in
      let rest = values_from b h t (suc i) k in
      get_or kind.blank b (idx % length b) ∷ (if idx == h then [] else rest)

  unfoldable pub values : Ring A → List A
  unfolding values_from
  values r = elim r.head [
    | none ↦ []
    | some h ↦ values_from (slots r) h r.tail 0 (length (slots r))
  ]

  -- NewestValues of appringlog
  unfoldable pub newest_values : Ring A → List A
  unfolding values
  newest_values r = reverse (values r)
