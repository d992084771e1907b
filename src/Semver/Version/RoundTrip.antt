-- ===== src/Semver/Version/RoundTrip.antt =====
-- static/js/semver.js: the pattern of a full version on the texts of releases.
use isitsql.Common.{
  ℕ, ◌+◌, ◌-◌, Bool, false, some, [], ◌∷◌, ◌++◌, Text, length, take, take-append, ◌==◌, leb, ◌≡◌,
  refl, arith, All, Bool-cases, inl, inr, ◌∙◌, ◌&&◌,
}
use isitsql.Regex.{
  Regex, one, star, opt, seq, group, char, Place, Captures, Found, run, is_digit, new_regexp,
  number, at_end,
}
use isitsql.Regex.Laws.{
  StartsOff, AllIn, run-one, run-one_off, run-opt_found, run-one_found, run-star, next_attempt,
  first_attempt,
}
use isitsql.Semver.Number.Laws.{IsDigit, IsDecimal}
use isitsql.Semver.Patterns.{numeric_identifier, full_re, prerelease_part, build_part}

digits-AllIn : (s : Text) → All IsDigit s → AllIn is_digit s
digits-AllIn [] h = tt
digits-AllIn (c ∷ s) (h, hs) = (ground arith, digits-AllIn s hs)

abbrev nonzero : ℕ → Bool
nonzero c = leb b'1' c && leb c b'9'

-- 0|[1-9]\d* takes the whole of a decimal number.
run-numeric :
    (v t : Text) (o m : ℕ) (c : Captures) (k : Place → Captures → Found) (x : Place × Captures)
    → IsDecimal v
    → StartsOff is_digit t
    → o + length v ≡ m
    → k (record { offset = m; rest = t }) c ≡ some x
    → run numeric_identifier (record { offset = o; rest = v ++ t }) c k ≡ some x
unfolding run
run-numeric [] t o m c k x p q e g = absurd p
run-numeric (d ∷ []) t o m c k x p q e g = elim (Bool-cases (d == b'0')) [
  | inl z ↦ first_attempt _ _ x (run-one (λ a. a == b'0') d o m t c k z (omega arith) ∙ g)
  | inr z ↦
      next_attempt _ _ (run-one_off (λ a. a == b'0') o (d ∷ t) c k z)
      ∙ run-one nonzero d o m t c (λ q e. run (star (one is_digit)) q e k) (ground arith)
          (omega arith)
      ∙ run-star is_digit [] t m m c k x tt q (omega arith) g
]
run-numeric (d ∷ d' ∷ v) t o m c k x (lo, hi, ds) q e g =
    next_attempt _ _ (run-one_off (λ a. a == b'0') o (d ∷ d' ∷ (v ++ t)) c k (ground arith))
    ∙ run-one nonzero d o (o + 1) (d' ∷ (v ++ t)) c (λ q e. run (star (one is_digit)) q e k)
        (ground arith) refl
    ∙ run-star is_digit (d' ∷ v) t (o + 1) m c k x (digits-AllIn (d' ∷ v) ds) q (omega arith) g

-- The same in a group, which captures the number.
run-group_numeric :
    (i : ℕ) (v t : Text) (o m : ℕ) (c : Captures) (k : Place → Captures → Found)
    (x : Place × Captures)
    → IsDecimal v
    → StartsOff is_digit t
    → o + length v ≡ m
    → k (record { offset = m; rest = t }) ((i, v) ∷ c) ≡ some x
    → run (group i numeric_identifier) (record { offset = o; rest = v ++ t }) c k ≡ some x
unfolding run
run-group_numeric i v t o m c k x p q e g =
    let d : m - o ≡ length v = omega arith in
    run-numeric v t o m c (λ y e. k y ((i, take (y.offset - o) (v ++ t)) ∷ e)) x p q e
      (rw (d, take-append v t) g)

-- The digits begin with no `v`.
decimal-StartsOff :
    (f : ℕ → Bool) (v t : Text)
    → IsDecimal v
    → ((c : ℕ) → IsDigit c → f c ≡ false)
    → StartsOff f (v ++ t)
decimal-StartsOff f [] t h off = absurd h
decimal-StartsOff f (c ∷ []) t h off = off c h
decimal-StartsOff f (c ∷ d ∷ v) t (lo, hi, h) off = off c (omega arith, omega arith)

abbrev pub after : ℕ → Text → Place
after n t = record { offset = n; rest = t }

abbrev dot : Regex
dot = char b'.'

abbrev is_dot : ℕ → Bool
is_dot c = c == b'.'

abbrev number_of : ℕ → Regex
number_of i = group i numeric_identifier

abbrev from_third : Regex
from_third = seq dot (number_of 3)

abbrev from_second : Regex
from_second = seq dot (seq (number_of 2) from_third)

abbrev main_numbers : Regex
main_numbers = seq (number_of 1) from_second

abbrev pub release_length : Text → Text → Text → ℕ
release_length u v w = length u + 1 + length v + 1 + length w

-- The three numbers of a release, up to the end of the text.
run-main :
    (u v w : Text) (k : Place → Captures → Found) (x : Place × Captures)
    → IsDecimal u
    → IsDecimal v
    → IsDecimal w
    → k (after (release_length u v w) []) ((3, w) ∷ (2, v) ∷ (1, u) ∷ []) ≡ some x
    → run main_numbers (after 0 (u ++ (b'.' ∷ (v ++ (b'.' ∷ (w ++ [])))))) [] k ≡ some x
unfolding run
run-main u v w k x p q r g =
    let m = length u in
    let n = m + 1 + length v in
    run-group_numeric 1 u (b'.' ∷ (v ++ (b'.' ∷ (w ++ [])))) 0 m [] (λ y c. run from_second y c k) x
      p refl (omega arith)
      (run-one_found is_dot ((1, u) ∷ []) (λ y c. run (seq (number_of 2) from_third) y c k) x b'.' m
        (m + 1) (v ++ (b'.' ∷ (w ++ []))) refl refl
        (run-group_numeric 2 v (b'.' ∷ (w ++ [])) (m + 1) n ((1, u) ∷ [])
          (λ y c. run from_third y c k) x q refl refl
          (run-one_found is_dot ((2, v) ∷ (1, u) ∷ []) (λ y c. run (number_of 3) y c k) x b'.' n
            (n + 1) (w ++ []) refl refl
            (run-group_numeric 3 w [] (n + 1) (release_length u v w) ((2, v) ∷ (1, u) ∷ []) k x r tt
              refl g))))

-- What may follow the numbers: a pre-release and a build.
abbrev rest_of_full : Regex
rest_of_full = (number 4 (seq (opt prerelease_part) (opt build_part))).1

-- The whole text of a release: the strict pattern matches, and captures its three numbers.
pub run-full :
    (u v w : Text)
    → IsDecimal u
    → IsDecimal v
    → IsDecimal w
    → run full_re (after 0 (u ++ (b'.' ∷ (v ++ (b'.' ∷ (w ++ [])))))) [] (λ q c. some (q, c))
      ≡ some (after (release_length u v w) [], (3, w) ∷ (2, v) ∷ (1, u) ∷ [])
unfolding run new_regexp
run-full u v w p q r =
    let x : Place × Captures = (after (release_length u v w) [], (3, w) ∷ (2, v) ∷ (1, u) ∷ []) in
    let finish : Place → Captures → Found = λ y c. run at_end y c (λ q d. some (q, d)) in
    run-opt_found (λ c. c == b'v') [] (λ y c. run (seq main_numbers rest_of_full) y c finish) x 0
      (u ++ (b'.' ∷ (v ++ (b'.' ∷ (w ++ [])))))
      (decimal-StartsOff (λ c. c == b'v') u _ p (λ c h. ground arith))
      (run-main u v w (λ y c. run rest_of_full y c finish) x p q r refl)
