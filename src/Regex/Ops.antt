-- ===== src/Regex/Ops.antt =====
-- The methods of strings and patterns that the scripts call: `test`, `match`, `replace` with and
-- without the flag `g`, and `split`.
pub mod Laws
use isitsql.Common.{
  ℕ, zero, suc, ◌+◌, ◌-◌, ◌*◌, Bool, true, false, Option, none, some, List, [], ◌∷◌, ◌++◌, Text,
  take, length, ltb, ◌==◌, if◌then◌else◌,
}
use isitsql.Regex.{Regex, Place, Captures, Found, run}

-- A match: where it begins, its text, what follows it, and the groups.
pub record Match : Type 0 where
  pub before : Text
  pub whole : Text
  pub after : Text
  pub captures : Captures

-- The group of a number; a group that took no part is undefined.
unfoldable pub capture : ℕ → Captures → Option Text
capture i [] = none
capture i ((j, s) ∷ c) = if j == i then some s else capture i c

-- An attempt at one place only.
unfoldable pub match_at : Regex → Place → Found
unfolding run
match_at r p = run r p [] (λ q c. some (q, c))

-- The leftmost match from a place on, `seen` being the text passed over, in reverse.
unfoldable pub search_from : Regex → ℕ → Text → Text → Option Match
unfolding match_at
search_from r n before s = elim (match_at r (record { offset = n; rest = s })) [
  | some (q, c) ↦
      some (record { before = before; whole = take (q.offset - n) s; after = q.rest; captures = c })
  | none ↦ none
]

unfoldable pub leftmost : Regex → ℕ → Text → Text → Option Match
unfolding search_from
leftmost r n before [] = search_from r n before []
leftmost r n before (x ∷ s) = elim (search_from r n before (x ∷ s)) [
  | some m ↦ some m
  | none ↦ leftmost r (n + 1) (before ++ x ∷ []) s
]

-- s.match(r), with no flag g
unfoldable pub match : Regex → Text → Option Match
unfolding leftmost
match r s = leftmost r 0 [] s

-- r.test(s)
unfoldable pub test : Regex → Text → Bool
unfolding match
test r s = elim (match r s) [ some m ↦ true | none ↦ false ]

-- s.replace(r, f), with no flag g: the first match only.
unfoldable pub replace : Regex → (Match → Text) → Text → Text
unfolding match
replace r f s = elim (match r s) [ some m ↦ m.before ++ f m ++ m.after | none ↦ s ]

-- The text of a group in a replacement pattern, `$1`: nothing where it is undefined.
abbrev pub dollar : ℕ → Match → Text
dollar i m = elim (capture i m.captures) [ some s ↦ s | none ↦ [] ]

-- s.replace(r, f) with the flag g. After an empty match the next code unit is passed over.
-- The first argument bounds the rounds: each passes at least one code unit.
unfoldable pub replace_from : ℕ → Regex → (Match → Text) → ℕ → Text → Text
unfolding leftmost
replace_from zero r f n s = s
replace_from (suc k) r f n s = elim (leftmost r n [] s) [
  | none ↦ s
  | some m ↦ elim m.whole [
    | c ∷ w ↦ m.before ++ f m ++ replace_from k r f (n + length m.before + length m.whole) m.after
    | [] ↦ elim m.after [
      | [] ↦ m.before ++ f m
      | x ∷ t ↦ m.before ++ f m ++ x ∷ replace_from k r f (n + length m.before + 1) t
    ]
  ]
]

unfoldable pub replace_all : Regex → (Match → Text) → Text → Text
unfolding replace_from
replace_all r f s = replace_from (length s + 1) r f 0 s

-- s.split(r) for a pattern without groups, at `n`: `part` is the piece begun. A match that is empty
-- splits nothing at the start of a piece.
unfoldable pub split_from : ℕ → Regex → ℕ → Text → Text → List Text
unfolding match_at
split_from zero r n part s = (part ++ s) ∷ []
split_from (suc k) r n part [] = part ∷ []
split_from (suc k) r n part (x ∷ s) = elim (match_at r (record { offset = n; rest = x ∷ s })) [
  | none ↦ split_from k r (n + 1) (part ++ x ∷ []) s
  | some (q, c) ↦ elim (ltb (n - length part) q.offset) [
    | true ↦ part ∷ split_from k r q.offset [] q.rest
    | false ↦ split_from k r (n + 1) (part ++ x ∷ []) s
  ]
]

-- A place takes two rounds at most, one of them for an empty match inside a piece, so the rounds
-- are enough. The whole of an empty text is split into nothing if the pattern matches it.
unfoldable pub split : Regex → Text → List Text
unfolding split_from
split r [] = elim (match_at r (record { offset = 0; rest = [] })) [
  | some found ↦ []
  | none ↦ [] ∷ []
]
split r (x ∷ s) = split_from (2 * length (x ∷ s) + 1) r 0 [] (x ∷ s)
