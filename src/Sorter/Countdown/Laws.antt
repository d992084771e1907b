-- ===== src/Sorter/Countdown/Laws.antt =====
-- static/js/parser-duration.js, "countdown": the sort keys and their order.
use isitsql.Common.{
  ℕ, zero, suc, ◌*◌, Option, List, [], ◌∷◌, ◌++◌, Text, map, reverse, join, length, length-append,
  append-nil, append_assoc, ◌≡◌, refl, ◌≢◌, arith, compare, Ordering, All, ap, ap₂, sym, ◌∙◌,
}
use mathlib.Core.List.{reverse-reverse, map-append, reverse-cons}
use isitsql.Regex.Ops.{split_from}
use isitsql.Semver.Number.{digits_value}
use isitsql.Semver.Compare.{compare_text, or_else}
use isitsql.Sorter.Padding.{pad, length-pad, width_of}
use isitsql.Sorter.Padding.Order.{Fits, compare_text-pad, compare_text-append}
use isitsql.Sorter.Countdown.{colon, push_blocks, joined_or, blocks_of, format_countdown}

-- The padded blocks, one after the other.
pub padded : ℕ → List Text → Text
padded w [] = []
padded w (b ∷ bs) = pad w b ++ padded w bs

-- The blocks of a time, compared as numbers from the first on.
pub compare_blocks : List Text → List Text → Ordering
compare_blocks (b ∷ bs) (c ∷ cs) =
    or_else (compare (digits_value 0 b) (digits_value 0 c)) (compare_blocks bs cs)
compare_blocks [] [] = Ordering.eq
compare_blocks [] (c ∷ cs) = Ordering.lt
compare_blocks (b ∷ bs) [] = Ordering.gt

push_blocks-eq :
    (w : ℕ) (bs result : List Text) → push_blocks w bs result ≡ result ++ map (pad w) bs
unfolding push_blocks
push_blocks-eq w [] result = sym (append-nil result)
push_blocks-eq w (b ∷ bs) result =
    push_blocks-eq w bs (result ++ pad w b ∷ [])
    ∙ append_assoc result (pad w b ∷ []) (map (pad w) bs)

map-reverse : (f : Text → Text) (bs : List Text) → map f (reverse bs) ≡ reverse (map f bs)
map-reverse f [] = refl
map-reverse f (b ∷ bs) = simp (reverse-cons, map-append, map-reverse f bs)

join-padded : (w : ℕ) (bs : List Text) → join [] (map (pad w) bs) ≡ padded w bs
unfolding join padded
join-padded w [] = refl
join-padded w (b ∷ []) = sym (append-nil (pad w b))
join-padded w (b ∷ c ∷ bs) =
    rw (append-nil (pad w b)) (ap (λ t. pad w b ++ t) (join-padded w (c ∷ bs)))

joined_or-eq : (text : Text) (bs : List Text) → bs ≢ [] → joined_or bs text ≡ join [] (reverse bs)
unfolding joined_or
joined_or-eq text [] h = absurd (h refl)
joined_or-eq text (b ∷ bs) h = refl

split_from-ne-nil : (k n : ℕ) (part s : Text) → split_from k colon n part s ≢ []
unfolding split_from
split_from-ne-nil zero n part s = cc
split_from-ne-nil (suc k) n part [] = cc
split_from-ne-nil (suc k) n part (x ∷ s) = grind (arith, split_from-ne-nil k)

blocks_of-ne-nil : (text : Text) → blocks_of text ≢ []
unfolding blocks_of
blocks_of-ne-nil [] = cc
blocks_of-ne-nil (x ∷ s) = split_from-ne-nil _ 0 [] (x ∷ s)

reverse-map-ne-nil : (f : Text → Text) (bs : List Text) → bs ≢ [] → reverse (map f bs) ≢ []
reverse-map-ne-nil f [] h = absurd (h refl)
reverse-map-ne-nil f (b ∷ bs) h = λ e. cc (sym (reverse-reverse (map f (b ∷ bs))) ∙ ap reverse e)

-- The sort key of a time is its blocks in their order, each padded to the width.
pub format_countdown-eq :
    (dl : Option ℕ) (text : Text) → format_countdown dl text ≡ padded (width_of dl) (blocks_of text)
unfolding format_countdown
format_countdown-eq dl text =
    let w = width_of dl in
    let bs = blocks_of text in
    let pushed : push_blocks w (reverse bs) [] ≡ reverse (map (pad w) bs) =
      push_blocks-eq w (reverse bs) [] ∙ map-reverse (pad w) bs in
    rw pushed (
      joined_or-eq text (reverse (map (pad w) bs))
        (reverse-map-ne-nil (pad w) bs (blocks_of-ne-nil text))
      ∙ ap (join []) (reverse-reverse (map (pad w) bs))
      ∙ join-padded w bs)

length-padded : (w : ℕ) (bs : List Text) → length (padded w bs) ≡ w * length bs
unfolding padded
length-padded w [] = omega arith
length-padded w (b ∷ bs) =
    omega (arith, length-append (pad w b) (padded w bs), length-pad w b, length-padded w bs)

-- A sort key is as long as the width times the number of blocks, whatever the blocks hold.
pub length-format_countdown :
    (dl : Option ℕ) (text : Text)
    → length (format_countdown dl text) ≡ width_of dl * length (blocks_of text)
length-format_countdown dl text =
    rw (format_countdown-eq dl text) (length-padded (width_of dl) (blocks_of text))

compare_text-padded :
    (w : ℕ) (bs cs : List Text)
    → length bs ≡ length cs
    → All (Fits w) bs
    → All (Fits w) cs
    → compare_text (padded w bs) (padded w cs) ≡ compare_blocks bs cs
unfolding padded compare_blocks
compare_text-padded w [] [] e p q = unfold compare_text in refl
compare_text-padded w [] (c ∷ cs) e p q = absurd (omega arith)
compare_text-padded w (b ∷ bs) [] e p q = absurd (omega arith)
compare_text-padded w (b ∷ bs) (c ∷ cs) e (p, ps) (q, qs) =
    compare_text-append (pad w b) (pad w c) (padded w bs) (padded w cs)
      (length-pad w b ∙ sym (length-pad w c))
    ∙ ap₂ or_else (compare_text-pad w b c p q) (compare_text-padded w bs cs (omega arith) ps qs)

-- Two times of equally many blocks, each a number of at most the configured width, are sorted by
-- their texts exactly as by their numbers, the first block counting most.
pub format_countdown-order :
    (dl : Option ℕ) (s t : Text)
    → length (blocks_of s) ≡ length (blocks_of t)
    → All (Fits (width_of dl)) (blocks_of s)
    → All (Fits (width_of dl)) (blocks_of t)
    → compare_text (format_countdown dl s) (format_countdown dl t)
      ≡ compare_blocks (blocks_of s) (blocks_of t)
format_countdown-order dl s t e p q =
    rw (format_countdown-eq dl s, format_countdown-eq dl t)
      (compare_text-padded (width_of dl) (blocks_of s) (blocks_of t) e p q)
