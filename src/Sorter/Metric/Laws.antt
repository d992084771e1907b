-- ===== src/Sorter/Metric/Laws.antt =====
-- static/js/parser-metric.js: which factor a cell's prefix stands for.
use isitsql.Common.{
  ℕ, zero, suc, get_elem?, subst, Option, none, some, List, [], ◌∷◌, Text, codes, ◌≡◌, refl, All,
  if◌then◌else◌,
}
use isitsql.Regex.{Regex, one}
use isitsql.Regex.Ops.{replace_all}
use isitsql.Sorter.Metric.{
  Factor, ten_to, ten_to_minus, kilo_to, Header, byte_test, factor_of, find_unit, with_regexes,
  format_metric, is_junk,
}

-- The prefixes whose names the parser tells apart, with the exponents of their two factors: the
-- abbreviations but `k`, and the long names but micro, pico, femto, zepto and yocto, each name that can
-- begin with either case in one of them.
abbrev pub told_apart : List (Text × (Factor × Factor))
told_apart =
    (codes "Z", (ten_to 21, kilo_to 7))
    ∷ (codes "E", (ten_to 18, kilo_to 6))
    ∷ (codes "P", (ten_to 15, kilo_to 5))
    ∷ (codes "T", (ten_to 12, kilo_to 4))
    ∷ (codes "G", (ten_to 9, kilo_to 3))
    ∷ (codes "M", (ten_to 6, kilo_to 2))
    ∷ (codes "h", (ten_to 2, ten_to 2))
    ∷ (codes "da", (ten_to 1, ten_to 1))
    ∷ (codes "d", (ten_to_minus 1, ten_to_minus 1))
    ∷ (codes "c", (ten_to_minus 2, ten_to_minus 2))
    ∷ (codes "m", (ten_to_minus 3, ten_to_minus 3))
    ∷ (codes "µ", (ten_to_minus 6, ten_to_minus 6))
    ∷ (codes "n", (ten_to_minus 9, ten_to_minus 9))
    ∷ (codes "p", (ten_to_minus 12, ten_to_minus 12))
    ∷ (codes "f", (ten_to_minus 15, ten_to_minus 15))
    ∷ (codes "a", (ten_to_minus 18, ten_to_minus 18))
    ∷ (codes "z", (ten_to_minus 21, ten_to_minus 21))
    ∷ (codes "y", (ten_to_minus 24, ten_to_minus 24))
    ∷ (codes "Zetta", (ten_to 21, kilo_to 7))
    ∷ (codes "exa", (ten_to 18, kilo_to 6))
    ∷ (codes "peta", (ten_to 15, kilo_to 5))
    ∷ (codes "tera", (ten_to 12, kilo_to 4))
    ∷ (codes "giga", (ten_to 9, kilo_to 3))
    ∷ (codes "mega", (ten_to 6, kilo_to 2))
    ∷ (codes "kilo", (ten_to 3, kilo_to 1))
    ∷ (codes "hecto", (ten_to 2, ten_to 2))
    ∷ (codes "deka", (ten_to 1, ten_to 1))
    ∷ (codes "deci", (ten_to_minus 1, ten_to_minus 1))
    ∷ (codes "centi", (ten_to_minus 2, ten_to_minus 2))
    ∷ (codes "milli", (ten_to_minus 3, ten_to_minus 3))
    ∷ (codes "nano", (ten_to_minus 9, ten_to_minus 9))
    ∷ (codes "atto", (ten_to_minus 18, ten_to_minus 18))
    ∷ []

abbrev Chosen : Text × (Factor × Factor) → Type 0
Chosen (name, (decimal, binary)) =
    (unit : Text) → factor_of name unit ≡ some (if byte_test unit then binary else decimal)

-- The prefixes that are mistaken for another one whose abbreviation occurs in them.
abbrev pub mistaken : List (Text × (Factor × Factor))
mistaken =
    (codes "micro", (ten_to_minus 2, ten_to_minus 2))
    ∷ (codes "pico", (ten_to_minus 2, ten_to_minus 2))
    ∷ (codes "yocto", (ten_to_minus 2, ten_to_minus 2))
    ∷ (codes "femto", (ten_to_minus 3, ten_to_minus 3))
    ∷ (codes "zepto", (ten_to_minus 12, ten_to_minus 12))
    ∷ []

mistaken-Chosen : All Chosen mistaken
unfolding factor_of
mistaken-Chosen = (λ u. refl, (λ u. refl, (λ u. refl, (λ u. refl, (λ u. refl, tt)))))

told_apart-Chosen : All Chosen told_apart
unfolding factor_of
told_apart-Chosen = (
  λ u. refl,
  (
    λ u. refl,
    (
      λ u. refl,
      (
        λ u. refl,
        (
          λ u. refl,
          (
            λ u. refl,
            (
              λ u. refl,
              (
                λ u. refl,
                (
                  λ u. refl,
                  (
                    λ u. refl,
                    (
                      λ u. refl,
                      (
                        λ u. refl,
                        (
                          λ u. refl,
                          (
                            λ u. refl,
                            (
                              λ u. refl,
                              (
                                λ u. refl,
                                (
                                  λ u. refl,
                                  (
                                    λ u. refl,
                                    (
                                      λ u. refl,
                                      (
                                        λ u. refl,
                                        (
                                          λ u. refl,
                                          (
                                            λ u. refl,
                                            (
                                              λ u. refl,
                                              (
                                                λ u. refl,
                                                (
                                                  λ u. refl,
                                                  (
                                                    λ u. refl,
                                                    (
                                                      λ u. refl,
                                                      (
                                                        λ u. refl,
                                                        (
                                                          λ u. refl,
                                                          (λ u. refl, (λ u. refl, (λ u. refl, tt))),
                                                        ),
                                                      ),
                                                    ),
                                                  ),
                                                ),
                                              ),
                                            ),
                                          ),
                                        ),
                                      ),
                                    ),
                                  ),
                                ),
                              ),
                            ),
                          ),
                        ),
                      ),
                    ),
                  ),
                ),
              ),
            ),
          ),
        ),
      ),
    ),
  ),
)

All-get {ℓ κ} :
    {A : Type ℓ} (P : A → Type κ) (xs : List A) (i : ℕ) {x : A}
    → All P xs
    → get_elem? xs i ≡ some x
    → P x
All-get P [] i h e = cc
All-get P (y ∷ xs) zero {x} (h, hs) e = let p : y ≡ x = cc in subst P p h
All-get P (y ∷ xs) (suc i) (h, hs) e = All-get P xs i hs e

abbrev pub cleaned : Text → Text
cleaned txt = replace_all (one is_junk) (λ m. []) txt

module _ {Number : Type 0} (format_float : Text → Number) (times : Number → Factor → Number) where
  -- A cell whose unit has a factor is its number times that factor.
  format_metric-factor :
      (txt : Text) (h : Header) (name unit : Text) (f : Factor)
      → find_unit (with_regexes h).0 txt ≡ some (name, unit)
      → factor_of name unit ≡ some f
      → (format_metric format_float times txt h).0 ≡ times (format_float (cleaned txt)) f
  unfolding format_metric
  format_metric-factor txt h name unit f e g = rw (format_metric, e) (rw g)

  -- A cell whose unit is found behind one of the prefixes that are told apart is its number times
  -- the prefix's factor: the one of base 2 if the unit's name looks like bytes, else the one of
  -- base 10.
  pub format_metric-told_apart :
      (txt : Text) (h : Header) (name unit : Text) (i : ℕ) (decimal binary : Factor)
      → get_elem? told_apart i ≡ some (name, (decimal, binary))
      → find_unit (with_regexes h).0 txt ≡ some (name, unit)
      → (format_metric format_float times txt h).0
        ≡ times (format_float (cleaned txt)) (if byte_test unit then binary else decimal)
  format_metric-told_apart txt h name unit i decimal binary listed found =
      format_metric-factor txt h name unit _ found
        (All-get Chosen told_apart i told_apart-Chosen listed unit)

  -- A cell whose unit is found behind micro, pico, yocto, femto or zepto is multiplied by the
  -- factor of another prefix: centi, centi, centi, milli and pico.
  pub format_metric-mistaken :
      (txt : Text) (h : Header) (name unit : Text) (i : ℕ) (decimal binary : Factor)
      → get_elem? mistaken i ≡ some (name, (decimal, binary))
      → find_unit (with_regexes h).0 txt ≡ some (name, unit)
      → (format_metric format_float times txt h).0
        ≡ times (format_float (cleaned txt)) (if byte_test unit then binary else decimal)
  format_metric-mistaken txt h name unit i decimal binary listed found =
      format_metric-factor txt h name unit _ found
        (All-get Chosen mistaken i mistaken-Chosen listed unit)

  -- A cell whose unit is found behind the abbreviation `k` keeps its number, without a factor.
  pub format_metric-kilo :
      (txt : Text) (h : Header) (unit : Text)
      → find_unit (with_regexes h).0 txt ≡ some (codes "k", unit)
      → (format_metric format_float times txt h).0 ≡ format_float (cleaned txt)
  unfolding format_metric factor_of
  format_metric-kilo txt h unit e = rw (format_metric, e)

  -- Whatever cell was formatted before, a cell gets the same number: the patterns that are kept in
  -- the header are those that would be built.
  pub format_metric_cached :
      (s t : Text) (h : Header)
      → (format_metric format_float times t (format_metric format_float times s h).1).0
        ≡ (format_metric format_float times t h).0
  unfolding format_metric
  format_metric_cached s t h = kept_at t h.metric_name h.name_full h.name_abbr h.metric
    where
      kept_at :
          (t name full abbr : Text) (kept : Option (Regex × Regex))
          → let h : Header = record {
            metric_name = name;
            name_full = full;
            name_abbr = abbr;
            metric = kept;
          } in
            (format_metric format_float times t (with_regexes h).1).0
            ≡ (format_metric format_float times t h).0
      kept_at t name full abbr none = refl
      kept_at t name full abbr (some r) = refl
