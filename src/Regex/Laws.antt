-- ===== src/Regex/Laws.antt =====
-- The matcher on greedy classes: what it does where the text fits.
use isitsql.Common.{
  ℕ, zero, suc, ◌+◌, ◌≤◌, Bool, true, false, none, some, [], ◌∷◌, ◌++◌, Text, length, length-append,
  ltb, ◌≡◌, refl, arith, All, ap, ◌∙◌,
}
use isitsql.Regex.{one, star, opt, Place, Captures, Found, rounds, run}

-- A text that does not go on with a code unit of the class.
abbrev pub StartsOff : (ℕ → Bool) → Text → Type 0
StartsOff f [] = Unit
StartsOff f (c ∷ t) = f c ≡ false

abbrev pub AllIn : (ℕ → Bool) → Text → Type 0
AllIn f s = All (λ c. f c ≡ true) s

-- One code unit of the class.
pub run-one :
    (f : ℕ → Bool) (a o m : ℕ) (t : Text) (c : Captures) (k : Place → Captures → Found)
    → f a ≡ true
    → o + 1 ≡ m
    → run (one f) (record { offset = o; rest = a ∷ t }) c k ≡ k (record { offset = m; rest = t }) c
unfolding run
run-one f a o m t c k e h = rw (run, e) (ap (λ n. k (record { offset = n; rest = t }) c) h)

pub run-one_off :
    (f : ℕ → Bool) (o : ℕ) (t : Text) (c : Captures) (k : Place → Captures → Found)
    → StartsOff f t
    → run (one f) (record { offset = o; rest = t }) c k ≡ none
unfolding run
run-one_off f o [] c k h = refl
run-one_off f o (a ∷ t) c k h = rw (run, h)

-- An optional code unit that is not there.
pub run-opt_off :
    (f : ℕ → Bool) (o : ℕ) (t : Text) (c : Captures) (k : Place → Captures → Found)
    → StartsOff f t
    → run (opt (one f)) (record { offset = o; rest = t }) c k
      ≡ k (record { offset = o; rest = t }) c
unfolding run
run-opt_off f o [] c k h = refl
run-opt_off f o (a ∷ t) c k h = rw (run, h)

-- An attempt that fails leaves the word to the next one; one that succeeds has it.
pub next_attempt :
    (first next : Found)
    → first ≡ none
    → elim first [ some found ↦ some found | none ↦ next ] ≡ next
next_attempt none next e = refl
next_attempt (some x) next e = absurd (cc e)

pub first_attempt :
    (first next : Found) (x : Place × Captures)
    → first ≡ some x
    → elim first [ some found ↦ some found | none ↦ next ] ≡ some x
first_attempt none next x e = absurd (cc e)
first_attempt (some y) next x e = e

rounds-off :
    (f : ℕ → Bool) (n o : ℕ) (t : Text) (c : Captures) (k : Place → Captures → Found)
    → StartsOff f t
    → rounds (run (one f)) n (record { offset = o; rest = t }) c k
      ≡ k (record { offset = o; rest = t }) c
unfolding rounds
rounds-off f zero o t c k h = refl
rounds-off f (suc n) o t c k h = next_attempt _ _ (run-one_off f o t c _ h)

-- A class under a quantifier takes the longest run of its code units, if the match then goes on.
rounds-greedy :
    (f : ℕ → Bool) (ds t : Text) (n o m : ℕ) (c : Captures) (k : Place → Captures → Found)
    (x : Place × Captures)
    → AllIn f ds
    → StartsOff f t
    → length ds ≤ n
    → o + length ds ≡ m
    → k (record { offset = m; rest = t }) c ≡ some x
    → rounds (run (one f)) n (record { offset = o; rest = ds ++ t }) c k ≡ some x
unfolding rounds
rounds-greedy f [] t n o m c k x p q h e g =
    let e' : o ≡ m = omega arith in rounds-off f n o t c k q ∙ (rw e' g)
rounds-greedy f (d ∷ ds) t zero o m c k x p q h e g = absurd (omega arith)
rounds-greedy f (d ∷ ds) t (suc n) o m c k x (p, ps) q h e g =
    let step : ltb o (o + 1) ≡ true = ground arith in
    first_attempt _ _ x (
      run-one f d o (o + 1) (ds ++ t) c _ p refl
      ∙ rw step (rounds-greedy f ds t n (o + 1) m c k x ps q (omega arith) (omega arith) g))

pub run-star :
    (f : ℕ → Bool) (ds t : Text) (o m : ℕ) (c : Captures) (k : Place → Captures → Found)
    (x : Place × Captures)
    → AllIn f ds
    → StartsOff f t
    → o + length ds ≡ m
    → k (record { offset = m; rest = t }) c ≡ some x
    → run (star (one f)) (record { offset = o; rest = ds ++ t }) c k ≡ some x
unfolding run
run-star f ds t o m c k x p q e g =
    rounds-greedy f ds t (length (ds ++ t)) o m c k x p q (omega (arith, length-append {0} ds t)) e
      g

-- The same steps towards a match that is known.
module _ (f : ℕ → Bool) (c : Captures) (k : Place → Captures → Found) (x : Place × Captures) where
  pub run-one_found :
      (a o m : ℕ) (t : Text)
      → f a ≡ true
      → o + 1 ≡ m
      → k (record { offset = m; rest = t }) c ≡ some x
      → run (one f) (record { offset = o; rest = a ∷ t }) c k ≡ some x
  run-one_found a o m t p e g = run-one f a o m t c k p e ∙ g

  pub run-opt_found :
      (o : ℕ) (t : Text)
      → StartsOff f t
      → k (record { offset = o; rest = t }) c ≡ some x
      → run (opt (one f)) (record { offset = o; rest = t }) c k ≡ some x
  run-opt_found o t p g = run-opt_off f o t c k p ∙ g
