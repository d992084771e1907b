-- ===== src/Semver/Version/Releases.antt =====
-- static/js/semver.js: the constructor on the texts of releases, as `format` prints them.
use mathlib.Core.List.{reverse-cons, reverse-reverse}
use isitsql.Common.{
  ℕ, zero, suc, ◌+◌, ◌*◌, ◌/◌, ◌%◌, ◌≤◌, ◌<◌, true, false, some, [], ◌∷◌, ◌++◌, Text, length,
  length-append, ltb, ◌≡◌, refl, arith, All, Bool-cases, inl, inr, ap, ◌∙◌, append-nil, trim,
  trim_start, is_space, reverse,
}
use isitsql.Regex.{Captures, Place}
use isitsql.Regex.Ops.Laws.{match_of, match-start}
use isitsql.Regex.Ops.{match, capture}
use isitsql.Semver.Number.{print_digits, number_text, to_number}
use isitsql.Semver.Number.Laws.{
  IsDigit, IsDecimal, number_text-IsDecimal, number_text_lem, to_number-number_text,
}
use isitsql.Semver.Patterns.{full_re, max_safe_integer, max_length}
use isitsql.Semver.Version.{
  SemVer, Loose, is_loose, main_text, version_text, string, new_semver, from_text, from_match, ok,
  of_found, format,
}
use isitsql.Semver.Version.RoundTrip.{run-full, release_length, after}

-- 10^k
abbrev ten_power : ℕ → ℕ
ten_power zero = 1
ten_power (suc k) = 10 * ten_power k

-- A number below 10^k has k digits at most.
length-print_digits :
    (k f n : ℕ) (out : Text)
    → n < f
    → n < ten_power (suc k)
    → length (print_digits f n out) ≤ suc k + length out
unfolding print_digits
length-print_digits k zero n out h p = absurd (omega arith)
length-print_digits zero (suc f) n out h p =
    let e : ltb n 10 ≡ true = ground arith in rw e (omega arith)
length-print_digits (suc k) (suc f) n out h p = elim (Bool-cases (ltb n 10)) [
  | inl small ↦ rw small (omega arith)
  | inr large ↦
      let shorter : length (print_digits f (n / 10) ((b'0' + n % 10) ∷ out))
          ≤ suc k + length ((b'0' + n % 10) ∷ out) =
        length-print_digits k f (n / 10) ((b'0' + n % 10) ∷ out) (ground arith) (omega arith) in
      rw large (omega arith)
]

length-number_text : (n : ℕ) → n ≤ max_safe_integer → length (number_text n) ≤ 16
length-number_text n h =
    rw number_text_lem (length-print_digits 15 (n + 1) n [] (omega arith) (omega arith))

-- ## A text without white space is left alone by `trim`.

abbrev IsSolid : ℕ → Type 0
IsSolid c = is_space c ≡ false

trim_start-solid : (s : Text) → All IsSolid s → trim_start s ≡ s
unfolding trim_start
trim_start-solid [] h = refl
trim_start-solid (c ∷ s) (h, hs) = rw h

All-append : (P : ℕ → Type 0) (s t : Text) → All P s → All P t → All P (s ++ t)
All-append P [] t h k = k
All-append P (c ∷ s) t (h, hs) k = (h, All-append P s t hs k)

All-reverse : (P : ℕ → Type 0) (s : Text) → All P s → All P (reverse s)
All-reverse P [] h = tt
All-reverse P (c ∷ s) (h, hs) =
    rw (reverse-cons c s) (All-append P (reverse s) (c ∷ []) (All-reverse P s hs) (h, tt))

trim-solid : (s : Text) → All IsSolid s → trim s ≡ s
unfolding trim
trim-solid s h =
    rw (trim_start-solid s h, trim_start-solid (reverse s) (All-reverse IsSolid s h))
      (reverse-reverse s)

digit-IsSolid : (c : ℕ) → IsDigit c → IsSolid c
unfolding is_space
digit-IsSolid c h = ground arith

digits-IsSolid : (s : Text) → All IsDigit s → All IsSolid s
digits-IsSolid [] h = tt
digits-IsSolid (c ∷ s) (h, hs) = (digit-IsSolid c h, digits-IsSolid s hs)

decimal-IsSolid : (s : Text) → IsDecimal s → All IsSolid s
decimal-IsSolid [] h = absurd h
decimal-IsSolid (c ∷ []) h = (digit-IsSolid c h, tt)
decimal-IsSolid (c ∷ d ∷ s) (lo, hi, h) =
    (digit-IsSolid c (omega arith, omega arith), digits-IsSolid (d ∷ s) h)

main_text-IsSolid : (a b c : ℕ) → All IsSolid (main_text a b c)
unfolding main_text
main_text-IsSolid a b c =
    let solid = λ (n : ℕ). decimal-IsSolid (number_text n) (number_text-IsDecimal n) in
    let point : IsSolid b'.' = unfold is_space in refl in
    All-append IsSolid (number_text a) _ (solid a)
      (point, All-append IsSolid (number_text b) _ (solid b) (point, solid c))

pub length-main_text :
    (a b c : ℕ)
    → a ≤ max_safe_integer
    → b ≤ max_safe_integer
    → c ≤ max_safe_integer
    → length (main_text a b c) ≤ max_length
unfolding main_text
length-main_text a b c p q r = omega (
  arith,
  length-append (number_text a) (b'.' ∷ (number_text b ++ (b'.' ∷ number_text c))),
  length-append (number_text b) (b'.' ∷ number_text c),
  length-number_text a p,
  length-number_text b q,
  length-number_text c r,
)

-- ## The match, and what the constructor makes of it.

pub release_captures : ℕ → ℕ → ℕ → Captures
release_captures a b c = (3, number_text c) ∷ (2, number_text b) ∷ (1, number_text a) ∷ []

pub release_end : ℕ → ℕ → ℕ → Place
release_end a b c = after (release_length (number_text a) (number_text b) (number_text c)) []

main_text_lem :
    (a b c : ℕ)
    → number_text a ++ (b'.' ∷ (number_text b ++ (b'.' ∷ (number_text c ++ [])))) ≡ main_text a b c
unfolding main_text
main_text_lem a b c = rw (append-nil (number_text c))

pub match-main_text :
    (a b c : ℕ)
    → match full_re (main_text a b c)
      ≡ some (match_of (main_text a b c) (release_end a b c) (release_captures a b c))
match-main_text a b c =
    match-start full_re (main_text a b c) (release_end a b c) (release_captures a b c) (
      rw (← main_text_lem a b c) (
        unfold release_end release_captures in
        run-full (number_text a) (number_text b) (number_text c) (number_text-IsDecimal a)
          (number_text-IsDecimal b) (number_text-IsDecimal c)))

-- The release with these numbers, as the constructor builds it.
abbrev pub release : Loose → ℕ → ℕ → ℕ → SemVer
release loose a b c = record {
  loose = loose;
  raw = main_text a b c;
  major = a;
  minor = b;
  patch = c;
  prerelease = [];
  build = [];
  version = main_text a b c;
}

from_match-release :
    (loose : Loose) (a b c : ℕ)
    → a ≤ max_safe_integer
    → b ≤ max_safe_integer
    → c ≤ max_safe_integer
    → from_match
        (main_text a b c)
        loose
        (match_of (main_text a b c) (release_end a b c) (release_captures a b c))
      ≡ ok (release loose a b c)
unfolding release_captures from_match capture format version_text
from_match-release loose a b c p q r =
    let e : to_number (number_text a) ≡ a = to_number-number_text a (omega arith) in
    let f : to_number (number_text b) ≡ b = to_number-number_text b (omega arith) in
    let g : to_number (number_text c) ≡ c = to_number-number_text c (omega arith) in
    let e' : ltb max_safe_integer a ≡ false = ground arith in
    let f' : ltb max_safe_integer b ≡ false = ground arith in
    let g' : ltb max_safe_integer c ≡ false = ground arith in rw (from_match, e, f, g, e', f', g')

of_text :
    (s : Text) (loose : Loose)
    → is_loose loose ≡ false
    → length s ≤ max_length
    → All IsSolid s
    → from_text s loose ≡ of_found s loose (match full_re s)
unfolding from_text
of_text s loose strict short solid =
    let e : ltb max_length (length s) ≡ false = ground arith in rw (e, strict, trim-solid s solid)

-- A release within the safe numbers, printed and read in strict mode, is the release again.
pub new_semver-version_text :
    (loose : Loose) (a b c : ℕ)
    → is_loose loose ≡ false
    → a ≤ max_safe_integer
    → b ≤ max_safe_integer
    → c ≤ max_safe_integer
    → new_semver (string (version_text a b c [])) loose ≡ ok (release loose a b c)
unfolding new_semver version_text
new_semver-version_text loose a b c strict p q r =
    of_text (main_text a b c) loose strict (length-main_text a b c p q r) (main_text-IsSolid a b c)
    ∙ ap (of_found (main_text a b c) loose) (match-main_text a b c)
    ∙ from_match-release loose a b c p q r
