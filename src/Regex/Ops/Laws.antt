-- ===== src/Regex/Ops/Laws.antt =====
-- A match at the start of the text is the leftmost one.
use isitsql.Common.{◌-◌, some, [], ◌∷◌, Text, take, ◌≡◌}
use isitsql.Regex.{Regex, Place, Captures, run}
use isitsql.Regex.Ops.{Match, match, match_at, search_from, leftmost}

abbrev pub match_of : Text → Place → Captures → Match
match_of s q c = record { before = []; whole = take (q.offset - 0) s; after = q.rest; captures = c }

search_from-start :
    (r : Regex) (s : Text) (q : Place) (c : Captures)
    → run r (record { offset = 0; rest = s }) [] (λ q c. some (q, c)) ≡ some (q, c)
    → search_from r 0 [] s ≡ some (match_of s q c)
unfolding search_from
search_from-start r s q c e = rw (search_from, match_at, e)

pub match-start :
    (r : Regex) (s : Text) (q : Place) (c : Captures)
    → run r (record { offset = 0; rest = s }) [] (λ q c. some (q, c)) ≡ some (q, c)
    → match r s ≡ some (match_of s q c)
unfolding match
match-start r [] q c e = search_from-start r [] q c e
match-start r (x ∷ s) q c e = rw (leftmost, search_from-start r (x ∷ s) q c e)
