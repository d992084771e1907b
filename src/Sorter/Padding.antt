-- ===== src/Sorter/Padding.antt =====
-- Fixed-width numbers, as both parsers of static/js/parser-duration.js write them:
-- `( zeros + value ).slice( -width )`, with `zeros` as long as the width.
pub mod Order
use isitsql.Common.{
  ℕ, zero, suc, ◌+◌, ◌-◌, ◌*◌, ◌≤◌, ◌<◌, ◌^◌, Bool, true, false, Option, none, some, List, [], ◌∷◌,
  ◌++◌, Text, length, drop, replicate, length-append, length-replicate, length-drop, ◌≡◌, refl,
  arith, codes,
}

-- s.slice(-n), for n > 0
unfoldable pub slice_end : ℕ → Text → Text
slice_end n s = drop (length s - n) s

-- value || 0, as text: an undefined or empty value is 0.
unfoldable pub or_zero : Text → Text
or_zero [] = b'0' ∷ []
or_zero (c ∷ s) = c ∷ s

unfoldable pub pad : ℕ → Text → Text
unfolding slice_end or_zero
pad width value = slice_end width (replicate width b'0' ++ or_zero value)

-- config.durationLength || 4
unfoldable pub width_of : Option ℕ → ℕ
width_of none = 4
width_of (some zero) = 4
width_of (some (suc n)) = suc n

-- A padded value has exactly the width.
pub length-pad : (width : ℕ) (value : Text) → length (pad width value) ≡ width
unfolding pad
length-pad width value = omega (
  arith,
  length-drop (length (replicate {A = ℕ} width b'0' ++ or_zero value) - width)
      (replicate {A = ℕ} width b'0' ++ or_zero value),
  length-append (replicate {A = ℕ} width b'0') (or_zero value),
  length-replicate {A = ℕ} width b'0',
)
