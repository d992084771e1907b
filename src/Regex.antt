-- ===== src/Regex.antt =====
-- Regular expressions of ECMAScript, as far as the scripts under static/js use them: the patterns
-- as a data type, and the backtracking matcher of the language's specification. The matcher belongs
-- to the language: it takes the first match in the order of the alternatives, and quantifiers are
-- greedy. No script quantifies a group that captures more than once, so that the reset of captures
-- at each round of a quantifier is not modelled.
pub mod Ops
pub mod Laws
use isitsql.Common.{
  ℕ, zero, suc, ◌+◌, ◌-◌, Bool, true, false, Option, none, some, List, [], ◌∷◌, Text, take, length,
  ltb, ◌==◌, if◌then◌else◌, ◌||◌, ◌&&◌, leb, any, codes, is_space,
}

-- `one` is a class of code units, `group` a capturing group with its number, `star` and `opt` the
-- greedy quantifiers `*` and `?`, and `at_start` and `at_end` are `^` and `$`.
pub data Regex : Type 0 where
  empty at_start at_end : Regex
  one : (ℕ → Bool) → Regex
  seq alt : Regex → Regex → Regex
  star opt : Regex → Regex
  group : ℕ → Regex → Regex

-- A place in the text: how many code units stand before it, and the text from there.
pub record Place : Type 0 where
  pub offset : ℕ
  pub rest : Text

-- What the groups captured, latest first.
abbrev pub Captures : Type 0
Captures = List (ℕ × Text)

abbrev pub Found : Type 0
Found = Option (Place × Captures)

abbrev pub Matcher : Type 0
Matcher = Place → Captures → (Place → Captures → Found) → Found

-- At most `n` rounds, as many as possible; a round that consumes nothing is refused.
unfoldable pub rounds : Matcher → ℕ → Matcher
rounds m zero p c k = k p c
rounds m (suc n) p c k =
    elim (m p c (λ q d. elim (ltb p.offset q.offset) [ true ↦ rounds m n q d k | false ↦ none ])) [
      | some found ↦ some found
      | none ↦ k p c
    ]

unfoldable pub run : Regex → Matcher
unfolding rounds
run empty p c k = k p c
run at_start p c k = elim (p.offset == 0) [ true ↦ k p c | false ↦ none ]
run at_end p c k = elim p.rest [ [] ↦ k p c | x ∷ s ↦ none ]
run (one f) p c k = elim p.rest [
  | [] ↦ none
  | x ∷ s ↦ elim (f x) [ true ↦ k (record { offset = p.offset + 1; rest = s }) c | false ↦ none ]
]
run (seq r s) p c k = run r p c (λ q d. run s q d k)
run (alt r s) p c k = elim (run r p c k) [ some found ↦ some found | none ↦ run s p c k ]
run (star r) p c k = rounds (run r) (length p.rest) p c k
run (opt r) p c k = rounds (run r) 1 p c k
run (group i r) p c k = run r p c (λ q d. k q ((i, take (q.offset - p.offset) p.rest) ∷ d))

-- r+
abbrev pub plus : Regex → Regex
plus r = seq r (star r)

abbrev pub char : ℕ → Regex
char a = one (λ c. c == a)

-- The text itself.
abbrev pub lit : Text → Regex
lit [] = empty
lit (a ∷ []) = char a
lit (a ∷ b ∷ s) = seq (char a) (lit (b ∷ s))

-- (…|…|…) of two or more.
abbrev pub one_of : Regex → List Regex → Regex
one_of r [] = r
one_of r (s ∷ ss) = alt r (one_of s ss)

-- One after the other, from the left.
abbrev pub all_of : Regex → List Regex → Regex
all_of r [] = r
all_of r (s ∷ ss) = seq r (all_of s ss)

abbrev pub is_digit : ℕ → Bool
is_digit c = leb b'0' c && leb c b'9'

-- \d, \s
abbrev pub digit : Regex
digit = one is_digit

abbrev pub space : Regex
space = one is_space

-- `new RegExp(source)` counts the capturing groups by their opening brackets. A pattern that is
-- put together from parts writes `group 0`, and `number` gives the groups their numbers from `n`.
unfoldable pub number : ℕ → Regex → ℕ × Regex
number n (seq r s) = let a = number n r in let b = number a.0 s in (b.0, seq a.1 b.1)
number n (alt r s) = let a = number n r in let b = number a.0 s in (b.0, alt a.1 b.1)
number n (star r) = let a = number n r in (a.0, star a.1)
number n (opt r) = let a = number n r in (a.0, opt a.1)
number n (group i r) = let a = number (n + 1) r in (a.0, group n a.1)
number n r = (n, r)

unfoldable pub new_regexp : Regex → Regex
unfolding number
new_regexp r = (number 1 r).1
