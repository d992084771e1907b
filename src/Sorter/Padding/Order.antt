-- ===== src/Sorter/Padding/Order.antt =====
-- The order of padded numbers as texts: the table sorter compares the keys of the parsers of
-- static/js/parser-duration.js as texts.
use isitsql.Common.{
  ℕ, zero, suc, ◌+◌, ◌-◌, ◌*◌, ◌≤◌, ◌<◌, List, [], ◌∷◌, ◌++◌, Text, length, drop, replicate,
  length-append, length-replicate, ◌≡◌, refl, arith, compare, All, ap₂, sym, ◌∙◌,
}
use isitsql.Semver.Number.{digits_value}
use isitsql.Semver.Compare.{compare_text, or_else}
use isitsql.Semver.Order.{compare_text-cons, compare_text_refl, compare_refl}
use isitsql.Sorter.Padding.{pad, length-pad}

abbrev pub IsDigit : ℕ → Type 0
IsDigit c = (b'0' ≤ c) × (c ≤ b'9')

-- A number of one digit at least, and of `width` digits at most.
abbrev pub Fits : ℕ → Text → Type 0
Fits width s = All IsDigit s × (length s ≤ width) × (0 < length s)

-- A larger beginning outweighs all the digits that follow.
digits_value_mono :
    (s t : Text) (n m : ℕ)
    → All IsDigit s
    → All IsDigit t
    → length s ≡ length t
    → n < m
    → digits_value n s < digits_value m t
unfolding digits_value
digits_value_mono [] [] n m p q e h = h
digits_value_mono [] (b ∷ t) n m p q e h = absurd (omega arith)
digits_value_mono (a ∷ s) [] n m p q e h = absurd (omega arith)
digits_value_mono (a ∷ s) (b ∷ t) n m (p, ps) (q, qs) e h =
    digits_value_mono s t _ _ ps qs (omega arith) (omega arith)

-- Texts of digits of one length are ordered as their numbers are.
compare_text-digits :
    (s t : Text) (n : ℕ)
    → All IsDigit s
    → All IsDigit t
    → length s ≡ length t
    → compare_text s t ≡ compare (digits_value n s) (digits_value n t)
unfolding digits_value
compare_text-digits [] [] n p q e = compare_text_refl [] ∙ sym (compare_refl n)
compare_text-digits [] (b ∷ t) n p q e = absurd (omega arith)
compare_text-digits (a ∷ s) [] n p q e = absurd (omega arith)
compare_text-digits (a ∷ s) (b ∷ t) n (p, ps) (q, qs) e = ground (
  arith,
  compare_text-cons a b s t,
  digits_value_mono s t (n * 10 + (a - b'0')) (n * 10 + (b - b'0')) ps qs,
  digits_value_mono t s (n * 10 + (b - b'0')) (n * 10 + (a - b'0')) qs ps,
  compare_text-digits s t (n * 10 + (a - b'0')) ps qs,
)

drop-replicate :
    (k w a : ℕ) (v : Text) → k ≤ w → drop k (replicate w a ++ v) ≡ replicate (w - k) a ++ v
drop-replicate zero w a v h = let e : w - 0 ≡ w = omega arith in rw e
drop-replicate (suc k) zero a v h = absurd (omega arith)
drop-replicate (suc k) (suc w) a v h =
    let e : suc w - suc k ≡ w - k = omega arith in rw e (drop-replicate k w a v (omega arith))

digits_value-zeros : (k : ℕ) (v : Text) → digits_value 0 (replicate k b'0' ++ v) ≡ digits_value 0 v
unfolding digits_value
digits_value-zeros zero v = refl
digits_value-zeros (suc k) v = digits_value-zeros k v

-- A number that fits is padded with zeros in front.
pub pad-zeros : (w : ℕ) (v : Text) → Fits w v → pad w v ≡ replicate (w - length v) b'0' ++ v
unfolding pad
pad-zeros w [] f = absurd (omega arith)
pad-zeros w (c ∷ v) f =
    let e : length (replicate w b'0' ++ c ∷ v) - w ≡ suc (length v) =
      omega (
        arith,
        length-append (replicate {A = ℕ} w b'0') (c ∷ v),
        length-replicate {A = ℕ} w b'0',
      ) in
    rw e (drop-replicate (suc (length v)) w b'0' (c ∷ v) (omega arith))

All-append {ℓ κ} :
    {A : Type ℓ} (P : A → Type κ) (xs ys : List A) → All P xs → All P ys → All P (xs ++ ys)
All-append P [] ys h k = k
All-append P (x ∷ xs) ys (h, hs) k = (h, All-append P xs ys hs k)

All-replicate {ℓ κ} : {A : Type ℓ} (P : A → Type κ) (n : ℕ) (a : A) → P a → All P (replicate n a)
All-replicate P zero a h = tt
All-replicate P (suc n) a h = (h, All-replicate P n a h)

pad-IsDigit : (w : ℕ) (v : Text) → Fits w v → All IsDigit (pad w v)
pad-IsDigit w v f = rw (pad-zeros w v f) (
    All-append IsDigit (replicate (w - length v) b'0') v
      (All-replicate IsDigit (w - length v) b'0' (omega arith)) f.0)

pad-value : (w : ℕ) (v : Text) → Fits w v → digits_value 0 (pad w v) ≡ digits_value 0 v
pad-value w v f = rw (pad-zeros w v f) (digits_value-zeros (w - length v) v)

-- Two numbers that fit are compared as padded texts exactly as they are compared as numbers.
pub compare_text-pad :
    (w : ℕ) (u v : Text)
    → Fits w u
    → Fits w v
    → compare_text (pad w u) (pad w v) ≡ compare (digits_value 0 u) (digits_value 0 v)
compare_text-pad w u v f g =
    compare_text-digits (pad w u) (pad w v) 0 (pad-IsDigit w u f) (pad-IsDigit w v g)
      (length-pad w u ∙ sym (length-pad w v))
    ∙ ap₂ compare (pad-value w u f) (pad-value w v g)

-- Behind beginnings of one length, the rest decides only if those are the same.
pub compare_text-append :
    (s t s' t' : Text)
    → length s ≡ length t
    → compare_text (s ++ s') (t ++ t') ≡ or_else (compare_text s t) (compare_text s' t')
compare_text-append [] [] s' t' e = rw (compare_text_refl [])
compare_text-append [] (b ∷ t) s' t' e = absurd (omega arith)
compare_text-append (a ∷ s) [] s' t' e = absurd (omega arith)
compare_text-append (a ∷ s) (b ∷ t) s' t' e = ground (
  arith,
  compare_text-cons a b s t,
  compare_text-cons a b (s ++ s') (t ++ t'),
  compare_text-append s t s' t',
)
