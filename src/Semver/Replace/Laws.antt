-- ===== src/Semver/Replace/Laws.antt =====
-- static/js/semver.js: what replaceTilde and replaceCaret make of a complete release.
use isitsql.Common.{
  ℕ, zero, suc, ◌+◌, ◌<◌, true, false, [], ◌∷◌, Text, ◌≡◌, refl, ◌∙◌, ap, ap₂, sym, append_assoc,
  arith, Bool-cases, inl, inr, text_eq, text_eq_iff,
}
use isitsql.Semver.Number.{number_text, to_number, plus_one, two_53, digits_value}
use isitsql.Semver.Number.Laws.{
  IsDecimal, number_text-IsDecimal, to_number-number_text, plus_one-exact, digits_value-number_text,
}
use isitsql.Semver.Version.{main_text}
use isitsql.Semver.Replace.{
  is_x, next_text, text_is, dotted_text, zero_text, between, tilde_replacement, caret_high,
  caret_replacement,
}

decimal-is_x : (s : Text) → IsDecimal s → is_x s ≡ false
unfolding is_x text_eq
decimal-is_x [] h = absurd h
decimal-is_x (c ∷ []) h = ground arith
decimal-is_x (c ∷ d ∷ s) h = ground arith

number_text-is_x : (n : ℕ) → is_x (number_text n) ≡ false
number_text-is_x n = decimal-is_x (number_text n) (number_text-IsDecimal n)

next_text_lem : (s : Text) → next_text s ≡ number_text (plus_one (to_number s))
unfolding next_text
next_text_lem s = refl

next_text-number_text : (n : ℕ) → n < two_53 → next_text (number_text n) ≡ number_text (n + 1)
next_text-number_text n h =
    rw (next_text_lem, to_number-number_text n (omega arith), plus_one-exact n h)

number_text-zero : number_text 0 ≡ zero_text
unfolding number_text
number_text-zero = refl

zero-is_zero : text_is (number_text 0) zero_text ≡ true
zero-is_zero = (text_eq_iff (number_text 0) zero_text).1 number_text-zero

suc-is_zero : (n : ℕ) → text_is (number_text (suc n)) zero_text ≡ false
suc-is_zero n = elim (Bool-cases (text_is (number_text (suc n)) zero_text)) [
  | inl h ↦
      let same : suc n ≡ 0 =
        sym (digits_value-number_text (suc n))
        ∙ ap (digits_value 0) ((text_eq_iff (number_text (suc n)) zero_text).0 h)
        ∙ (unfold digits_value in refl) in
      absurd (omega arith)
  | inr h ↦ h
]

main_text_lem :
    (a b c : ℕ) → main_text a b c ≡ dotted_text (number_text a) (number_text b) (number_text c)
unfolding main_text
main_text_lem a b c =
    sym (append_assoc (number_text a) (b'.' ∷ number_text b) (b'.' ∷ number_text c))

-- The first version above the ones that a caret range admits: the leftmost number that is not 0,
-- or else the last one, goes up, and the numbers behind it are 0.
abbrev pub above_caret : ℕ → ℕ → ℕ → ℕ × ℕ × ℕ
above_caret zero zero c = (0, 0, c + 1)
above_caret zero (suc b) c = (0, suc b + 1, 0)
above_caret (suc a) b c = (suc a + 1, 0, 0)

abbrev pub main_of : ℕ × ℕ × ℕ → Text
main_of (a, b, c) = main_text a b c

caret_high-release :
    (a b c : ℕ)
    → a < two_53
    → b < two_53
    → c < two_53
    → caret_high (number_text a) (number_text b) (number_text c) ≡ main_of (above_caret a b c)
unfolding caret_high
caret_high-release zero zero c p q r =
    rw (caret_high, next_text-number_text c r, main_text_lem 0 0 (c + 1))
caret_high-release zero (suc b) c p q r =
    rw (caret_high, suc-is_zero b, next_text-number_text (suc b) q, main_text_lem 0 (suc b + 1) 0)
caret_high-release (suc a) b c p q r =
    rw (caret_high, suc-is_zero a, next_text-number_text (suc a) p, main_text_lem (suc a + 1) 0 0)

-- A caret before a release with numbers below 2^53 stands for: from that release on, up to but
-- without the one in which its leftmost number that is not 0 (or else the last) went up.
pub caret_replacement-release :
    (a b c : ℕ)
    → a < two_53
    → b < two_53
    → c < two_53
    → caret_replacement (number_text a) (number_text b) (number_text c) []
      ≡ between (main_text a b c) (main_of (above_caret a b c))
unfolding caret_replacement
caret_replacement-release a b c p q r =
    let rewritten : caret_replacement (number_text a) (number_text b) (number_text c) []
        ≡ between (dotted_text (number_text a) (number_text b) (number_text c))
            (caret_high (number_text a) (number_text b) (number_text c)) =
      rw (caret_replacement, number_text-is_x a, number_text-is_x b, number_text-is_x c) in
    rewritten ∙ ap₂ between (sym (main_text_lem a b c)) (caret_high-release a b c p q r)

-- A tilde before a release whose minor number is below 2^53 stands for: from that release on, up to
-- but without the next minor one.
pub tilde_replacement-release :
    (a b c : ℕ)
    → b < two_53
    → tilde_replacement (number_text a) (number_text b) (number_text c) []
      ≡ between (main_text a b c) (main_text a (b + 1) 0)
unfolding tilde_replacement
tilde_replacement-release a b c q =
    let rewritten : tilde_replacement (number_text a) (number_text b) (number_text c) []
        ≡ between (dotted_text (number_text a) (number_text b) (number_text c))
            (dotted_text (number_text a) (number_text (b + 1)) zero_text) =
      rw (
        tilde_replacement,
        number_text-is_x a,
        number_text-is_x b,
        number_text-is_x c,
        next_text-number_text b q,
      ) in
    rewritten ∙ ap₂ between (sym (main_text_lem a b c)) (sym (main_text_lem a (b + 1) 0))
