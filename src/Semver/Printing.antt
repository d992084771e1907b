-- ===== src/Semver/Printing.antt =====
-- static/js/semver.js: the version of the specification, and how versions, comparators and ranges are
-- shown. `inspect` adds its object to a text, which calls the object's `toString`.
use isitsql.Common.{Text, codes, ◌++◌}
use isitsql.Semver.Version.{SemVer}
use isitsql.Semver.Comparator.{Comparator}
use isitsql.Semver.Range.{Range}

abbrev pub semver_spec_version : Text
semver_spec_version = codes "2.0.0"

unfoldable pub semver_to_string : SemVer → Text
semver_to_string v = v.version

unfoldable pub semver_inspect : SemVer → Text
unfolding semver_to_string
semver_inspect v = codes "<SemVer \"" ++ semver_to_string v ++ codes "\">"

unfoldable pub comparator_to_string : Comparator → Text
comparator_to_string c = c.value

unfoldable pub comparator_inspect : Comparator → Text
unfolding comparator_to_string
comparator_inspect c = codes "<SemVer Comparator \"" ++ comparator_to_string c ++ codes "\">"

unfoldable pub range_to_string : Range → Text
range_to_string r = r.range

unfoldable pub range_inspect : Range → Text
unfolding range_to_string
range_inspect r = codes "<SemVer Range \"" ++ range_to_string r ++ codes "\">"
