-- ===== src/Semver/Number/Laws.antt =====
-- Numbers as text and back.
use isitsql.Common.{
  ℕ, zero, suc, ◌+◌, ◌/◌, ◌%◌, ◌≤◌, ◌<◌, true, [], ◌∷◌, Text, ◌≡◌, refl, ◌⊎◌, ◌∙◌, ap, ltb→lt,
  arith, All, ltb, Bool-cases, inl, inr, leb,
}
use isitsql.Semver.Number.{
  print_digits, number_text, digits_value, round_double, to_number, plus_one, two_53,
}

-- The text of a number, given room for its digits, stands for the number.
digits_value-print_digits :
    (f n : ℕ) (out : Text) → n < f → digits_value 0 (print_digits f n out) ≡ digits_value n out
unfolding print_digits digits_value
digits_value-print_digits zero n out h = absurd (omega arith)
digits_value-print_digits (suc f) n out h = elim (Bool-cases (ltb n 10)) [
  | inl small ↦ rw small (ap (λ m. digits_value m out) (omega arith))
  | inr large ↦ rw large (
      digits_value-print_digits f (n / 10) ((b'0' + n % 10) ∷ out) (ground arith)
      ∙ ap (λ m. digits_value m out) (omega arith))
]

pub round_double-exact : (n : ℕ) → n ≤ two_53 → round_double n ≡ n
unfolding round_double
round_double-exact n h = let e : leb n two_53 ≡ true = ground arith in rw e

to_number_lem : (s : Text) → to_number s ≡ round_double (digits_value 0 s)
unfolding to_number
to_number_lem s = refl

pub number_text_lem : (n : ℕ) → number_text n ≡ print_digits (n + 1) n []
unfolding number_text
number_text_lem n = refl

pub digits_value-number_text : (n : ℕ) → digits_value 0 (number_text n) ≡ n
digits_value-number_text n =
    rw number_text_lem (digits_value-print_digits (n + 1) n [] (omega arith) ∙ nothing n)
  where
    nothing : (m : ℕ) → digits_value m [] ≡ m
    nothing m = unfold digits_value in refl

-- Up to 2^53 a number is read back from its text.
pub to_number-number_text : (n : ℕ) → n ≤ two_53 → to_number (number_text n) ≡ n
to_number-number_text n h = rw (to_number_lem, digits_value-number_text) (round_double-exact n h)

pub plus_one-exact : (n : ℕ) → n < two_53 → plus_one n ≡ n + 1
unfolding plus_one
plus_one-exact n h = let e : ltb n two_53 ≡ true = ground arith in rw e

abbrev pub IsDigit : ℕ → Type 0
IsDigit c = (b'0' ≤ c) × (c ≤ b'9')

-- The text of a number: one digit, or digits that do not begin with 0.
abbrev pub IsDecimal : Text → Type 0
IsDecimal [] = ⊥
IsDecimal (c ∷ []) = IsDigit c
IsDecimal (c ∷ d ∷ s) = (b'1' ≤ c) × (c ≤ b'9') × All IsDigit (d ∷ s)

-- Digits in front of digits: none in front yet, or the first one is not 0.
print_digits-IsDecimal :
    (f n : ℕ) (out : Text)
    → n < f
    → All IsDigit out
    → (out ≡ []) ⊎ (0 < n)
    → IsDecimal (print_digits f n out)
unfolding print_digits
print_digits-IsDecimal zero n out h p q = absurd (omega arith)
print_digits-IsDecimal (suc f) n out h p q = elim (Bool-cases (ltb n 10)) [
  | inl small ↦ rw small (one_digit n out (ltb→lt n 10 small) p q)
  | inr large ↦ rw large (
      print_digits-IsDecimal f (n / 10) ((b'0' + n % 10) ∷ out) (ground arith)
        ((omega arith, omega arith), p) (inr (ground arith)))
]
  where
    one_digit :
        (n : ℕ) (out : Text)
        → n < 10
        → All IsDigit out
        → (out ≡ []) ⊎ (0 < n)
        → IsDecimal ((b'0' + n) ∷ out)
    one_digit n [] h p q = (omega arith, omega arith)
    one_digit n (d ∷ out) h p (inl e) = absurd (cc e)
    one_digit n (d ∷ out) h p (inr q) = (omega arith, omega arith, p)

pub number_text-IsDecimal : (n : ℕ) → IsDecimal (number_text n)
number_text-IsDecimal n =
    rw number_text_lem (print_digits-IsDecimal (n + 1) n [] (omega arith) tt (inl refl))
