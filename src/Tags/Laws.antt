-- ===== src/Tags/Laws.antt =====
-- internal/tags/tags.go: which strings the merged list has, and in which order.
use isitsql.Common.{
  ◌≡◌, ◌≢◌, refl, sym, ap, ap₂, ◌∙◌, Bool, true, false, ◌||◌, Bool-cases, or_none, or_left,
  or_right, inl, inr, Option, none, some, List, [], ◌∷◌, Text, map, text_eq, text_eq_iff, text_ltb,
  ltb, ◌==◌, ◌&&◌, arith, subst,
}
use isitsql.Maps.{Map, lookup, insert, text_key}
use isitsql.Maps.Laws.{
  IsMap, key-cases, same-false, lookup-insert_same, lookup-insert_other, insert-IsMap,
}
use isitsql.Tags.{insert_tag, sort_tags, add_tags, add_arrays, merge}

-- A list has a string.
abbrev pub has : Text → List Text → Bool
has t [] = false
has t (s ∷ ts) = text_eq s t || has t ts

-- Each string of a list stands before a larger one.
abbrev pub IsRising : List Text → Type 0
IsRising [] = Unit
IsRising (s ∷ []) = Unit
IsRising (s ∷ t ∷ ts) = (text_ltb s t ≡ true) × IsRising (t ∷ ts)

abbrev found : {V : Type 0} → Option V → Bool
found o = elim o [ some v ↦ true | none ↦ false ]

abbrev keys : Map Text Text → List Text
keys m = map (λ entry. entry.0) m

has-keys : (t : Text) (m : Map Text Text) → has t (keys m) ≡ found (lookup t m)
unfolding lookup
has-keys t [] = refl
has-keys t ((k, v) ∷ m) = elim (Bool-cases (text_eq k t)) [
  | inl e ↦ rw e
  | inr e ↦ rw e (has-keys t m)
]

swap : (a b c : Bool) → (a || (b || c)) ≡ (b || (a || c))
swap true true c = refl
swap true false c = refl
swap false true c = refl
swap false false c = refl

swap_left : (a b c : Bool) → (a || (b || c)) ≡ ((b || a) || c)
swap_left true true c = refl
swap_left true false c = refl
swap_left false true c = refl
swap_left false false c = refl

has-insert_tag : (t s : Text) (ts : List Text) → has t (insert_tag s ts) ≡ (text_eq s t || has t ts)
unfolding insert_tag
has-insert_tag t s [] = refl
has-insert_tag t s (d ∷ ds) = elim (Bool-cases (text_ltb d s)) [
  | inl e ↦ rw e (
      ap (λ b. text_eq d t || b) (has-insert_tag t s ds)
      ∙ swap (text_eq d t) (text_eq s t) (has t ds))
  | inr e ↦ rw e
]

has-sort_tags : (t : Text) (ts : List Text) → has t (sort_tags ts) ≡ has t ts
unfolding sort_tags
has-sort_tags t [] = refl
has-sort_tags t (s ∷ ts) =
    has-insert_tag t s (sort_tags ts) ∙ ap (λ b. text_eq s t || b) (has-sort_tags t ts)

found-insert :
    (t k : Text) (m : Map Text Text)
    → found (lookup t (insert k [] m)) ≡ (text_eq k t || found (lookup t m))
found-insert t k m = elim (key-cases t k) [
  | inl e ↦
      let hit : text_eq k t ≡ true = (text_eq_iff k t).1 (sym e) in
      rw hit (
        ap found
          (subst (λ i. lookup i (insert k [] m) ≡ some []) (sym e) (lookup-insert_same k [] m)))
  | inr other ↦
      let miss : text_eq k t ≡ false = same-false k t (λ e. other (sym e)) in
      rw miss (ap found (lookup-insert_other t k [] m other))
]

-- Two different strings are ordered one way.
text_ltb-total : (s t : Text) → s ≢ t → text_ltb s t ≡ false → text_ltb t s ≡ true
unfolding text_ltb
text_ltb-total [] [] h e = absurd (h refl)
text_ltb-total [] (b ∷ t) h e = absurd (cc e)
text_ltb-total (a ∷ s) [] h e = refl
text_ltb-total (a ∷ s) (b ∷ t) h e = elim (Bool-cases (ltb b a)) [
  | inl less ↦ rw less
  | inr no_less ↦ elim (Bool-cases (ltb a b)) [
    | inl more ↦ absurd (cc (e, ap (λ c. c || ((a == b) && text_ltb s t)) more))
    | inr no_more ↦
        let same : a ≡ b = ground arith in
        let eq_ab : (a == b) ≡ true = ground arith in
        let eq_ba : (b == a) ≡ true = ground arith in
        let rest : text_ltb s t ≡ false =
          sym (ap₂ (λ c d. c || (d && text_ltb s t)) no_more eq_ab) ∙ e in
        ap₂ (λ c d. c || (d && text_ltb t s)) no_less eq_ba
        ∙ text_ltb-total s t (λ q. h (ap₂ (λ x y. x ∷ y) same q)) rest
  ]
]

-- The string that is put in comes behind those that are smaller.
insert_tag-behind :
    (d s : Text) (ts : List Text)
    → IsRising (d ∷ ts)
    → text_ltb d s ≡ true
    → has s ts ≡ false
    → IsRising (d ∷ insert_tag s ts)
unfolding insert_tag
insert_tag-behind d s [] r h n = (h, tt)
insert_tag-behind d s (t ∷ ts) (below, r) h n = elim (Bool-cases (text_ltb t s)) [
  | inl e ↦ rw e (below, insert_tag-behind t s ts r e (or_right (text_eq t s) (has s ts) n))
  | inr e ↦
      let apart : t ≢ s =
        λ q. absurd (cc (or_left (text_eq t s) (has s ts) n, (text_eq_iff t s).1 q)) in
      rw e (h, (text_ltb-total t s apart e, r))
]

insert_tag-IsRising :
    (s : Text) (ts : List Text) → IsRising ts → has s ts ≡ false → IsRising (insert_tag s ts)
unfolding insert_tag
insert_tag-IsRising s [] r n = tt
insert_tag-IsRising s (t ∷ ts) r n = elim (Bool-cases (text_ltb t s)) [
  | inl e ↦ rw e (insert_tag-behind t s ts r e (or_right (text_eq t s) (has s ts) n))
  | inr e ↦
      let apart : t ≢ s =
        λ q. absurd (cc (or_left (text_eq t s) (has s ts) n, (text_eq_iff t s).1 q)) in
      rw e (text_ltb-total t s apart e, r)
]

sort_tags-IsRising : (m : Map Text Text) → IsMap m → IsRising (sort_tags (keys m))
unfolding sort_tags
sort_tags-IsRising [] h = tt
sort_tags-IsRising ((k, v) ∷ m) (once, h) =
    insert_tag-IsRising k (sort_tags (keys m)) (sort_tags-IsRising m h)
      (has-sort_tags k (keys m) ∙ has-keys k m ∙ ap found once)

module _ (lower : Text → Text) where
  -- Some string of the lists has this string in lower case.
  abbrev pub mentions : Text → List (Option (List Text)) → Bool
  mentions t [] = false
  mentions t (none ∷ src) = mentions t src
  mentions t (some array ∷ src) = has t (map lower array) || mentions t src

  found-add_tags :
      (t : Text) (array : List Text) (m : Map Text Text)
      → found (lookup t (add_tags lower array m)) ≡ (has t (map lower array) || found (lookup t m))
  unfolding add_tags
  found-add_tags t [] m = refl
  found-add_tags t (s ∷ array) m =
      found-add_tags t array (insert (lower s) [] m)
      ∙ ap (λ b. has t (map lower array) || b) (found-insert t (lower s) m)
      ∙ swap_left (has t (map lower array)) (text_eq (lower s) t) (found (lookup t m))

  found-add_arrays :
      (t : Text) (src : List (Option (List Text))) (m : Map Text Text)
      → found (lookup t (add_arrays lower src m)) ≡ (mentions t src || found (lookup t m))
  unfolding add_arrays
  found-add_arrays t [] m = refl
  found-add_arrays t (none ∷ src) m = found-add_arrays t src m
  found-add_arrays t (some array ∷ src) m =
      found-add_arrays t src (add_tags lower array m)
      ∙ ap (λ b. mentions t src || b) (found-add_tags t array m)
      ∙ swap_left (mentions t src) (has t (map lower array)) (found (lookup t m))

  add_tags-IsMap :
      (array : List Text) (m : Map Text Text) → IsMap m → IsMap (add_tags lower array m)
  unfolding add_tags
  add_tags-IsMap [] m h = h
  add_tags-IsMap (s ∷ array) m h =
      add_tags-IsMap array (insert (lower s) [] m) (insert-IsMap (lower s) [] m h)

  add_arrays-IsMap :
      (src : List (Option (List Text))) (m : Map Text Text)
      → IsMap m
      → IsMap (add_arrays lower src m)
  unfolding add_arrays
  add_arrays-IsMap [] m h = h
  add_arrays-IsMap (none ∷ src) m h = add_arrays-IsMap src m h
  add_arrays-IsMap (some array ∷ src) m h =
      add_arrays-IsMap src (add_tags lower array m) (add_tags-IsMap array m h)

  -- The merged list has exactly the strings of the lists, in lower case, each once and in ascending order.
  pub merge-IsRising :
      (src : List (Option (List Text)))
      → IsRising (merge lower src) × ((t : Text) → has t (merge lower src) ≡ mentions t src)
  unfolding merge lookup
  merge-IsRising src =
      let all = add_arrays lower src [] in
      (
        sort_tags-IsRising all (add_arrays-IsMap src [] tt),
        λ t.
            has-sort_tags t (keys all)
            ∙ has-keys t all
            ∙ found-add_arrays t src []
            ∙ or_none (mentions t src),
      )
