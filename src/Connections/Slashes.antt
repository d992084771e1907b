-- ===== src/Connections/Slashes.antt =====
-- internal/c2/utils.go: FixSlashes, with what bytes.ReplaceAll does there, and the backslashes of its result. A text in
-- a configuration file may have single backslashes or doubled ones; HCL reads `\\` as one backslash.
use isitsql.Common.{
  ℕ, ◌≡◌, refl, ap, ◌∙◌, inl, inr, true, false, ◌&&◌, Bool-cases, Option, none, some, [], ◌∷◌, Text,
  ◌==◌, ==_iff, subst, sym,
}

abbrev backslash : ℕ
backslash = 92

-- bytes.ReplaceAll of a backslash by two
unfoldable double_slashes : Text → Text
double_slashes [] = []
double_slashes (c ∷ t) = elim (c == backslash) [
  | true ↦ backslash ∷ backslash ∷ double_slashes t
  | false ↦ c ∷ double_slashes t
]

-- bytes.ReplaceAll of four backslashes by two, from the left
unfoldable halve_slashes : Text → Text
halve_slashes (a ∷ b ∷ c ∷ d ∷ t) =
    elim (a == backslash && (b == backslash && (c == backslash && d == backslash))) [
      | true ↦ backslash ∷ backslash ∷ halve_slashes t
      | false ↦ a ∷ halve_slashes (b ∷ c ∷ d ∷ t)
    ]
halve_slashes t = t

unfoldable pub fix_slashes : Text → Text
unfolding double_slashes halve_slashes
fix_slashes t = halve_slashes (double_slashes t)

abbrev after : ℕ → Option Text → Option Text
after c o = elim o [ some t ↦ some (c ∷ t) | none ↦ none ]

-- What a text stands for where a backslash has to be doubled: `none` where one is not
unfoldable pub unescape : Text → Option Text
unescape [] = some []
unescape (c ∷ []) = elim (c == backslash) [ true ↦ none | false ↦ some (c ∷ []) ]
unescape (c ∷ d ∷ t) = elim (c == backslash) [
  | true ↦ elim (d == backslash) [ true ↦ after backslash (unescape t) | false ↦ none ]
  | false ↦ after c (unescape (d ∷ t))
]

-- A text where both spellings are read: two backslashes, from the left, are one, and a single one is itself.
unfoldable pub single_slashes : Text → Text
single_slashes [] = []
single_slashes (c ∷ []) = c ∷ []
single_slashes (c ∷ d ∷ t) = elim (c == backslash && d == backslash) [
  | true ↦ backslash ∷ single_slashes t
  | false ↦ c ∷ single_slashes (d ∷ t)
]

-- A text from the left: each backslash stands alone or is one of a pair.
data Read : Text → Type 0 where
  at_end : Read []
  other : {c : ℕ} {t : Text} → (c == backslash) ≡ false → Read t → Read (c ∷ t)
  pair : {t : Text} → Read t → Read (backslash ∷ backslash ∷ t)
  last_alone : Read (backslash ∷ [])
  alone : {c : ℕ} {t : Text} → (c == backslash) ≡ false → Read t → Read (backslash ∷ c ∷ t)

is_backslash : (c : ℕ) → (c == backslash) ≡ true → c ≡ backslash
is_backslash c e = (==_iff c backslash).0 e

read : (t : Text) → Read t
read [] = at_end
read (c ∷ []) = elim (Bool-cases (c == backslash)) [
  | inl e ↦ subst (λ x. Read (x ∷ [])) (sym (is_backslash c e)) last_alone
  | inr e ↦ other e at_end
]
read (c ∷ d ∷ t) =
    let rest = read t in
    let rest' = read (d ∷ t) in
    elim (Bool-cases (c == backslash)) [
      | inr e ↦ other e rest'
      | inl e ↦
          subst (λ x. Read (x ∷ d ∷ t)) (sym (is_backslash c e))
            (elim (Bool-cases (d == backslash)) [
              | inl q ↦ subst (λ x. Read (backslash ∷ x ∷ t)) (sym (is_backslash d q)) (pair rest)
              | inr q ↦ alone q rest
            ])
    ]

halve-skips :
    (a b c d : ℕ) (t : Text)
    → (a == backslash && (b == backslash && (c == backslash && d == backslash))) ≡ false
    → halve_slashes (a ∷ b ∷ c ∷ d ∷ t) ≡ a ∷ halve_slashes (b ∷ c ∷ d ∷ t)
unfolding halve_slashes
halve-skips a b c d t e =
    ap
      (λ x. elim x [
        | true ↦ backslash ∷ backslash ∷ halve_slashes t
        | false ↦ a ∷ halve_slashes (b ∷ c ∷ d ∷ t)
      ])
      e

halve-other :
    (c : ℕ) (u : Text) → (c == backslash) ≡ false → halve_slashes (c ∷ u) ≡ c ∷ halve_slashes u
unfolding halve_slashes
halve-other c [] e = refl
halve-other c (x ∷ []) e = refl
halve-other c (x ∷ y ∷ []) e = refl
halve-other c (x ∷ y ∷ z ∷ u) e = halve-skips c x y z u (rw e refl)

halve-alone :
    (c : ℕ) (u : Text)
    → (c == backslash) ≡ false
    → halve_slashes (backslash ∷ backslash ∷ c ∷ u) ≡ backslash ∷ backslash ∷ c ∷ halve_slashes u
unfolding halve_slashes
halve-alone c [] e = refl
halve-alone c (x ∷ []) e = halve-skips backslash backslash c x [] (rw e refl)
halve-alone c (x ∷ y ∷ u) e =
    halve-skips backslash backslash c x (y ∷ u) (rw e refl)
    ∙ ap (λ l. backslash ∷ l)
        (halve-skips backslash c x y u (rw e refl)
          ∙ ap (λ l. backslash ∷ l) (halve-other c (x ∷ y ∷ u) e))

fix-other : (c : ℕ) (t : Text) → (c == backslash) ≡ false → fix_slashes (c ∷ t) ≡ c ∷ fix_slashes t
unfolding fix_slashes double_slashes
fix-other c t e = rw (fix_slashes, double_slashes, e) (halve-other c (double_slashes t) e)

fix-pair :
    (t : Text) → fix_slashes (backslash ∷ backslash ∷ t) ≡ backslash ∷ backslash ∷ fix_slashes t
unfolding fix_slashes double_slashes halve_slashes
fix-pair t = refl

fix-alone :
    (c : ℕ) (t : Text)
    → (c == backslash) ≡ false
    → fix_slashes (backslash ∷ c ∷ t) ≡ backslash ∷ backslash ∷ c ∷ fix_slashes t
unfolding fix_slashes double_slashes
fix-alone c t e = rw (fix_slashes, double_slashes, e) (halve-alone c (double_slashes t) e)

unescape-other :
    (c : ℕ) (t : Text) → (c == backslash) ≡ false → unescape (c ∷ t) ≡ after c (unescape t)
unfolding unescape
unescape-other c [] e = rw (unescape, e) refl
unescape-other c (d ∷ t) e = rw (unescape, e) refl

single-other :
    (c : ℕ) (t : Text) → (c == backslash) ≡ false → single_slashes (c ∷ t) ≡ c ∷ single_slashes t
unfolding single_slashes
single-other c [] e = refl
single-other c (d ∷ t) e = rw (single_slashes, e) refl

single-alone :
    (c : ℕ) (t : Text)
    → (c == backslash) ≡ false
    → single_slashes (backslash ∷ c ∷ t) ≡ backslash ∷ c ∷ single_slashes t
unfolding single_slashes
single-alone c t e = rw (single_slashes, e) (ap (λ l. backslash ∷ l) (single-other c t e))

unescape-pair :
    (t u : Text) → unescape t ≡ some u → unescape (backslash ∷ backslash ∷ t) ≡ some (backslash ∷ u)
unfolding unescape
unescape-pair t u e = ap (after backslash) e

fix-read :
    (t : Text)
    → Read t
    → (unescape (fix_slashes t) ≡ some (single_slashes t))
      × (fix_slashes (fix_slashes t) ≡ fix_slashes t)
unfolding fix_slashes single_slashes unescape double_slashes halve_slashes
fix-read [] at_end = (refl, refl)
fix-read (c ∷ t) (other e r) =
    let (h, again) = fix-read t r in
    (
      ap unescape (fix-other c t e)
          ∙ unescape-other c (fix_slashes t) e
          ∙ ap (after c) h
          ∙ ap some (sym (single-other c t e)),
      ap fix_slashes (fix-other c t e)
          ∙ fix-other c (fix_slashes t) e
          ∙ ap (λ l. c ∷ l) again
          ∙ sym (fix-other c t e),
    )
fix-read (_ ∷ _ ∷ t) (pair r) =
    let (h, again) = fix-read t r in
    (
      ap unescape (fix-pair t) ∙ unescape-pair (fix_slashes t) (single_slashes t) h,
      ap fix_slashes (fix-pair t)
          ∙ fix-pair (fix_slashes t)
          ∙ ap (λ l. backslash ∷ backslash ∷ l) again
          ∙ sym (fix-pair t),
    )
fix-read (_ ∷ []) last_alone = (refl, refl)
fix-read (_ ∷ c ∷ t) (alone e r) =
    let (h, again) = fix-read t r in
    (
      ap unescape (fix-alone c t e)
          ∙ unescape-pair (c ∷ fix_slashes t) (c ∷ single_slashes t)
              (unescape-other c (fix_slashes t) e ∙ ap (after c) h)
          ∙ ap some (sym (single-alone c t e)),
      ap fix_slashes (fix-alone c t e)
          ∙ fix-pair (c ∷ fix_slashes t)
          ∙ ap (λ l. backslash ∷ backslash ∷ l)
              (fix-other c (fix_slashes t) e ∙ ap (λ l. c ∷ l) again)
          ∙ sym (fix-alone c t e),
    )

-- Where every backslash has to be doubled, the result of FixSlashes stands for the text with both spellings read: two
-- backslashes, from the left, as one, and a single one as itself. And to fix the slashes twice is to fix them once.
pub fix_slashes_lem :
    (t : Text)
    → (unescape (fix_slashes t) ≡ some (single_slashes t))
      × (fix_slashes (fix_slashes t) ≡ fix_slashes t)
fix_slashes_lem t = fix-read t (read t)
