-- ===== src/Sorter/Countdown.antt =====
-- static/js/parser-duration.js: the parser "countdown", for cells such as `12:05:09`.
pub mod Laws
use isitsql.Common.{
  ℕ, zero, suc, ◌+◌, ◌-◌, ◌*◌, Bool, true, false, Option, none, some, List, [], ◌∷◌, ◌++◌, Text,
  codes, reverse, join, length,
}
use isitsql.Regex.{Regex, star, char, all_of, space}
use isitsql.Regex.Ops.{split}
use isitsql.Sorter.Padding.{pad, width_of}

-- \s*:\s*
abbrev colon : Regex
colon = all_of (star space) (char b':' ∷ star space ∷ [])

-- The while loop: the blocks from the last to the first, each padded and pushed. The blocks that
-- are still to come are given in reverse.
unfoldable pub push_blocks : ℕ → List Text → List Text → List Text
unfolding pad
push_blocks width [] result = result
push_blocks width (b ∷ bs) result = push_blocks width bs (result ++ pad width b ∷ [])

-- result.length ? result.reverse().join('') : text
unfoldable pub joined_or : List Text → Text → Text
unfolding join
joined_or [] text = text
joined_or (b ∷ bs) text = join [] (reverse (b ∷ bs))

unfoldable pub blocks_of : Text → List Text
unfolding split
blocks_of text = split colon text

unfoldable pub format_countdown : Option ℕ → Text → Text
unfolding push_blocks joined_or blocks_of width_of
format_countdown duration_length text =
    joined_or (push_blocks (width_of duration_length) (reverse (blocks_of text)) []) text
