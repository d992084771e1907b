-- ===== src/Semver/Version/Parsed.antt =====
-- static/js/semver.js: `parse` and `valid` on the texts of releases.
use isitsql.Common.{
  ℕ, ◌≤◌, true, false, some, [], Text, ◌≡◌, refl, ◌∙◌, ap, sym, arith, length, ltb,
}
use isitsql.Regex.{Regex}
use isitsql.Regex.Ops.{Match, match, test}
use isitsql.Semver.Patterns.{full_re, max_length, max_safe_integer}
use isitsql.Semver.Version.{
  Loose, is_loose, string, new_semver, parse, valid, version_text, main_text, or_null,
  version_or_null,
}
use isitsql.Semver.Version.Releases.{
  release, new_semver-version_text, match-main_text, length-main_text,
}

test-match : (r : Regex) (s : Text) (m : Match) → match r s ≡ some m → test r s ≡ true
unfolding test
test-match r s m e = rw (test, e)

parse_lem :
    (s : Text) (loose : Loose)
    → is_loose loose ≡ false
    → ltb max_length (length s) ≡ false
    → test full_re s ≡ true
    → parse (string s) loose ≡ or_null (new_semver (string s) loose)
unfolding parse
parse_lem s loose strict short tested = rw (parse, strict, short, tested)

version_text-release : (a b c : ℕ) → version_text a b c [] ≡ main_text a b c
unfolding version_text
version_text-release a b c = refl

-- The text of a release within the safe numbers is parsed in strict mode.
pub parse-version_text :
    (loose : Loose) (a b c : ℕ)
    → is_loose loose ≡ false
    → a ≤ max_safe_integer
    → b ≤ max_safe_integer
    → c ≤ max_safe_integer
    → parse (string (version_text a b c [])) loose ≡ some (release loose a b c)
parse-version_text loose a b c strict p q r =
    let short : ltb max_length (length (main_text a b c)) ≡ false =
      ground (arith, length-main_text a b c p q r) in
    let tested : test full_re (main_text a b c) ≡ true =
      test-match full_re (main_text a b c) _ (match-main_text a b c) in
    ap (λ s. parse (string s) loose) (version_text-release a b c)
    ∙ parse_lem (main_text a b c) loose strict short tested
    ∙ ap (λ s. or_null (new_semver (string s) loose)) (sym (version_text-release a b c))
    ∙ ap or_null (new_semver-version_text loose a b c strict p q r)

valid_lem :
    (s : Text) (loose : Loose) → valid (string s) loose ≡ version_or_null (parse (string s) loose)
unfolding valid
valid_lem s loose = refl

-- In strict mode the text of a release within the safe numbers is valid as it is.
pub valid-version_text :
    (loose : Loose) (a b c : ℕ)
    → is_loose loose ≡ false
    → a ≤ max_safe_integer
    → b ≤ max_safe_integer
    → c ≤ max_safe_integer
    → valid (string (version_text a b c [])) loose ≡ some (version_text a b c [])
valid-version_text loose a b c strict p q r =
    valid_lem (version_text a b c []) loose
    ∙ ap version_or_null (parse-version_text loose a b c strict p q r)
    ∙ ap some (sym (version_text-release a b c))
