-- ===== src/Rings/LogRing/Newest.antt =====
-- internal/logring/logring.go: `Values` and `Newest` after any sequence of messages.
use mathlib.Core.List.{reverse-cons}
use Prim.Native.String.{String}
use isitsql.Common.{
  ℕ, zero, suc, ◌-◌, ◌<◌, ◌≡◌, refl, sym, ap, ◌∙◌, true, some, List, [], ◌∷◌, ◌++◌, length, drop,
  reverse, All, arith, ltb,
}
use isitsql.Rings.Slots.{take_last}
use isitsql.Rings.LogRing.{
  Event, Logring, new, values, insert_newest, sort_newest, newest, enqueue_all,
}
use isitsql.Rings.LogRing.Laws.{events_from, Keeps, values-Keeps, enqueue_all-Keeps}

-- Each event has a larger number than those before it.
abbrev IsRising : List Event → Type 0
IsRising [] = Unit
IsRising (e ∷ es) = All (λ d. e.ptr < d.ptr) es × IsRising es

events_from-above :
    (j k : ℕ) (ms : List (ℕ × String)) → j < k → All (λ d. j < d.ptr) (events_from k ms)
events_from-above j k [] h = tt
events_from-above j k ((now, msg) ∷ more) h = (h, events_from-above j (suc k) more (omega arith))

events_from-IsRising : (k : ℕ) (ms : List (ℕ × String)) → IsRising (events_from k ms)
events_from-IsRising k [] = tt
events_from-IsRising k ((now, msg) ∷ more) =
    (events_from-above k (suc k) more (omega arith), events_from-IsRising (suc k) more)

drop-IsRising : (n : ℕ) (es : List Event) → IsRising es → IsRising (drop n es)
drop-IsRising zero es h = h
drop-IsRising (suc n) [] h = tt
drop-IsRising (suc n) (e ∷ es) (a, h) = drop-IsRising n es h

All-append {ℓ κ} :
    {A : Type ℓ} (P : A → Type κ) (xs ys : List A) → All P xs → All P ys → All P (xs ++ ys)
All-append P [] ys p q = q
All-append P (x ∷ xs) ys (p, ps) q = (p, All-append P xs ys ps q)

All-reverse {ℓ κ} : {A : Type ℓ} (P : A → Type κ) (xs : List A) → All P xs → All P (reverse xs)
All-reverse P [] p = tt
All-reverse P (x ∷ xs) (p, ps) =
    rw (reverse-cons x xs) (All-append P (reverse xs) (x ∷ []) (All-reverse P xs ps) (p, tt))

insert_newest-oldest :
    (e : Event) (es : List Event) → All (λ d. e.ptr < d.ptr) es → insert_newest e es ≡ es ++ e ∷ []
unfolding insert_newest
insert_newest-oldest e [] h = refl
insert_newest-oldest e (d ∷ ds) (h, hs) =
    let t : ltb e.ptr d.ptr ≡ true = ground arith in
    rw t (ap (λ r. d ∷ r) (insert_newest-oldest e ds hs))

sort_newest-IsRising : (es : List Event) → IsRising es → sort_newest es ≡ reverse es
unfolding sort_newest
sort_newest-IsRising [] h = refl
sort_newest-IsRising (e ∷ es) (a, h) =
    ap (insert_newest e) (sort_newest-IsRising es h)
    ∙ insert_newest-oldest e (reverse es) (All-reverse (λ d. e.ptr < d.ptr) es a)
    ∙ sym (reverse-cons e es)

newest-values :
    (r : Logring) (es : List Event) → values r ≡ some es → newest r ≡ some (sort_newest es)
unfolding newest
newest-values r es e = rw (newest, e)

new-Keeps : (n : ℕ) → 0 < n → Keeps (new n) []
unfolding new
new-Keeps n h = record {
  room = h;
  count = refl;
  start = λ _. refl;
  full = λ p. absurd (omega arith);
}

-- A log with room for n messages, after any sequence of messages: its values are the last n messages,
-- numbered and in their order, or all of them if they are fewer, and Newest gives the same events in
-- the reverse order. No message fails.
pub newest-new :
    (n : ℕ) (ms : List (ℕ × String))
    → 0 < n
    → (r : Logring) × (enqueue_all (new n) ms ≡ some r)
      × (values r ≡ some (take_last n (events_from 0 ms)))
      × (newest r ≡ some (reverse (take_last n (events_from 0 ms))))
unfolding new
newest-new n ms h =
    let es = events_from 0 ms in
    let (r, all, same, k) = enqueue_all-Keeps (new n) [] ms (new-Keeps n h) in
    let vs : values r ≡ some (take_last n es) =
      values-Keeps r es k ∙ ap (λ c. some (take_last c es)) same in
    let rising : IsRising (take_last n es) =
      drop-IsRising (length es - n) es (events_from-IsRising 0 ms) in
    (
      r,
      all,
      vs,
      newest-values r (take_last n es) vs ∙ ap some (sort_newest-IsRising (take_last n es) rising),
    )
