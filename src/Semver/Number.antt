-- ===== src/Semver/Number.antt =====
-- Numbers of ECMAScript as far as static/js/semver.js uses them: `+text` on digits, `n + 1`, and
-- numbers as text. A number there is a double, so it is exact below 2^53 and rounded from there.
-- The text of a number is exact below 2^53 too; the library refuses larger version numbers.
pub mod Laws
use isitsql.Common.{
  ℕ, zero, suc, ◌+◌, ◌-◌, ◌*◌, ◌/◌, ◌%◌, ◌^◌, Bool, ◌&&◌, not, ◌||◌, Text, [], ◌∷◌, leb, ltb, ◌==◌,
  if◌then◌else◌, all, is_empty,
}
use isitsql.Regex.{is_digit}

abbrev pub two_53 : ℕ
two_53 = 9007199254740992

-- The digits of `n` in front of `out`; a round for each digit.
unfoldable pub print_digits : ℕ → ℕ → Text → Text
print_digits zero n out = out
print_digits (suc f) n out =
    let more = print_digits f (n / 10) ((b'0' + n % 10) ∷ out) in
    if ltb n 10 then (b'0' + n) ∷ out else more

-- String(n)
unfoldable pub number_text : ℕ → Text
unfolding print_digits
number_text n = print_digits (n + 1) n []

-- The number that digits stand for, before rounding.
unfoldable pub digits_value : ℕ → Text → ℕ
digits_value n [] = n
digits_value n (c ∷ s) = digits_value (n * 10 + (c - b'0')) s

-- How many bits have to go until 53 are left.
unfoldable pub excess_bits : ℕ → ℕ → ℕ
excess_bits zero n = 0
excess_bits (suc f) n = let more = excess_bits f (n / 2) in if ltb n two_53 then 0 else suc more

-- The nearest double; at a tie the one with an even significand.
abbrev nearest : ℕ → ℕ → ℕ
nearest n unit =
    let q = n / unit in
    let r = n % unit in
    if ltb unit (2 * r) || (2 * r == unit && q % 2 == 1) then (q + 1) * unit else q * unit

unfoldable pub round_double : ℕ → ℕ
unfolding excess_bits
round_double n = let far = nearest n (2 ^ excess_bits n n) in if leb n two_53 then n else far

-- +text, on digits
unfoldable pub to_number : Text → ℕ
unfolding digits_value round_double
to_number s = round_double (digits_value 0 s)

-- n + 1
unfoldable pub plus_one : ℕ → ℕ
unfolding round_double
plus_one n = if ltb n two_53 then n + 1 else round_double (n + 1)

-- /^[0-9]+$/.test(text)
unfoldable pub is_numeric : Text → Bool
is_numeric s = not (is_empty s) && all is_digit s
