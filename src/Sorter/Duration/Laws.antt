-- ===== src/Sorter/Duration/Laws.antt =====
-- static/js/parser-duration.js, "duration": the sort keys and the pattern that is kept.
use isitsql.Common.{
  ℕ, zero, suc, ◌*◌, Bool, Option, none, some, List, [], ◌∷◌, Text, length, take, ◌-◌,
  length-append, ◌≡◌, refl, arith,
}
use isitsql.Regex.{
  Regex, empty, at_start, at_end, one, seq, alt, star, opt, group, Place, Captures, Found, run,
  number, new_regexp,
}
use isitsql.Regex.Ops.{Match, match, match_at, search_from, leftmost}
use isitsql.Sorter.Padding.{pad, length-pad, width_of}
use isitsql.Sorter.Duration.{
  Config, labels_of, label_parts, with_regex, without_separators, columns, format_duration,
  group_or_empty, key_of,
}

-- A pattern of optional parts only.
abbrev IsOptional : Regex → Type 0
IsOptional empty = Unit
IsOptional (seq r s) = IsOptional r × IsOptional s
IsOptional (opt r) = Unit
IsOptional _ = ⊥

number-IsOptional : (n : ℕ) (r : Regex) → IsOptional r → IsOptional (number n r).1
unfolding number
number-IsOptional n empty h = tt
number-IsOptional n (seq r s) (h, k) =
    (number-IsOptional n r h, number-IsOptional (number n r).0 s k)
number-IsOptional n (opt r) h = tt
number-IsOptional n at_start h = absurd h
number-IsOptional n at_end h = absurd h
number-IsOptional n (one f) h = absurd h
number-IsOptional n (alt r s) h = absurd h
number-IsOptional n (star r) h = absurd h
number-IsOptional n (group i r) h = absurd h

label_parts-IsOptional : (labels : List Regex) → IsOptional (label_parts labels)
unfolding label_parts
label_parts-IsOptional [] = tt
label_parts-IsOptional (label ∷ labels) = (tt, label_parts-IsOptional labels)

abbrev IsFound : Found → Type 0
IsFound none = ⊥
IsFound (some found) = Unit

or_else-IsFound :
    (f g : Found) → IsFound g → IsFound (elim f [ some found ↦ some found | none ↦ g ])
or_else-IsFound none g h = h
or_else-IsFound (some x) g h = tt

-- Such a pattern matches wherever it is tried.
run-IsOptional :
    (r : Regex) (p : Place) (c : Captures) (k : Place → Captures → Found)
    → IsOptional r
    → ((q : Place) (d : Captures) → IsFound (k q d))
    → IsFound (run r p c k)
unfolding run
run-IsOptional empty p c k h goes = goes p c
run-IsOptional (seq r s) p c k (h, h') goes =
    run-IsOptional r p c (λ q d. run s q d k) h (λ q d. run-IsOptional s q d k h' goes)
run-IsOptional (opt r) p c k h goes = or_else-IsFound _ (k p c) (goes p c)
run-IsOptional at_start p c k h goes = absurd h
run-IsOptional at_end p c k h goes = absurd h
run-IsOptional (one f) p c k h goes = absurd h
run-IsOptional (alt r s) p c k h goes = absurd h
run-IsOptional (star r) p c k h goes = absurd h
run-IsOptional (group i r) p c k h goes = absurd h

length-columns : (w : ℕ) (groups : Captures) (i n : ℕ) → length (columns w groups i n) ≡ w * n
unfolding columns
length-columns w groups i zero = omega arith
length-columns w groups i (suc n) = omega (
  arith,
  length-append (pad w (group_or_empty i groups)) (columns w groups (suc i) n),
  length-pad w (group_or_empty i groups),
  length-columns w groups (suc i) n,
)

found-some :
    (f : Found) (make : Place × Captures → Match)
    → IsFound f
    → (m : Match) × (elim f [ some (q, c) ↦ some (make (q, c)) | none ↦ none ] ≡ some m)
found-some none make h = absurd h
found-some (some x) make h = (make x, refl)

search_from-IsOptional :
    (r : Regex) (n : ℕ) (before s : Text)
    → IsOptional r
    → (m : Match) × (search_from r n before s ≡ some m)
unfolding search_from
search_from-IsOptional r n before s h =
    found-some (match_at r (record { offset = n; rest = s }))
      (λ (q, c). record {
        before = before;
        whole = take (q.offset - n) s;
        after = q.rest;
        captures = c;
      })
      (run-IsOptional r (record { offset = n; rest = s }) [] (λ q c. some (q, c)) h (λ q c. tt))

match-IsOptional : (r : Regex) (s : Text) → IsOptional r → (m : Match) × (match r s ≡ some m)
unfolding match
match-IsOptional r [] h = search_from-IsOptional r 0 [] [] h
match-IsOptional r (x ∷ s) h =
    let (m, e) = search_from-IsOptional r 0 [] (x ∷ s) h in (m, rw (leftmost, e))

built-IsOptional : (labels : List Regex) → IsOptional (new_regexp (label_parts labels))
unfolding new_regexp
built-IsOptional labels = number-IsOptional 1 (label_parts labels) (label_parts-IsOptional labels)

-- With no pattern in the configuration yet, every cell gets a sort key, and the key is as long as
-- the width times the number of labels.
pub format_duration_lem :
    (s : Text) (c : Config)
    → c.duration_regex ≡ none
    → (key : Text) × ((format_duration s c).0 ≡ some key)
      × (length key ≡ width_of c.duration_length * length (labels_of c))
unfolding format_duration with_regex
format_duration_lem s c e =
    let us = c.us_number_format in
    let w = width_of c.duration_length in
    let n = length (labels_of c) in
    let r = new_regexp (label_parts (labels_of c)) in
    let (m, found) =
      match-IsOptional r (without_separators us s) (built-IsOptional (labels_of c)) in
    (
      columns w m.captures 1 n,
      rw (with_regex, e) (rw (key_of, found)),
      length-columns w m.captures 1 n,
    )

-- The same, by the configuration's fields.
cached_at :
    (s t : Text) (width : Option ℕ) (labels : Option (List Regex)) (us : Bool) (kept : Option Regex)
    → let c : Config = record {
      duration_length = width;
      duration_labels = labels;
      duration_regex = kept;
      us_number_format = us;
    } in
      (format_duration t (format_duration s c).1).0 ≡ (format_duration t c).0
unfolding format_duration labels_of
cached_at s t width labels us none = refl
cached_at s t width labels us (some r) = refl

-- The pattern that one call leaves in the configuration serves every later call: a cell gets the
-- same key whether or not another was formatted before.
pub format_duration_cached :
    (s t : Text) (c : Config)
    → (format_duration t (format_duration s c).1).0 ≡ (format_duration t c).0
format_duration_cached s t c =
    cached_at s t c.duration_length c.duration_labels c.us_number_format c.duration_regex
