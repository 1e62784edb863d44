-- ===== src/Version/Tests.antt =====
-- Comparisons of versions, and the theorem applied to some.
use rssam.Common.{◌≡◌, refl}
use rssam.Common.Int.{wrap64, ◌+ℤ◌, ◌*ℤ◌}
use rssam.Common.Text.{Text, codes, trim_space, has_prefix, split}
use rssam.Version.{
  less, equal, greater, text_compare, normalize, semver_suffix, parse_semver, git_describe_ahead,
  compare_semver_suffix, compare_semver,
}
use rssam.Version.Order.{negate, AtMost, compare_semver-ordered}

version_runs : Unit {0}
unfolding text_compare normalize semver_suffix parse_semver git_describe_ahead compare_semver_suffix
    compare_semver trim_space has_prefix split wrap64 ◌+ℤ◌ ◌*ℤ◌
version_runs = tt

abbrev v : Text
v = codes "v0.1.0"

abbrev ahead : Text
ahead = codes "0.1.0-1-gabcdef-dirty"

abbrev candidate : Text
candidate = codes "0.1.0-rc1+build"

versions_run :
    (compare_semver v ahead ≡ less)
    × (compare_semver ahead (codes "0.1.1") ≡ less)
    × (compare_semver v candidate ≡ greater)
    × (compare_semver v (codes "0.1") ≡ equal)
    × (compare_semver v (codes "dev") ≡ greater)
    × (compare_semver (codes "1.10.0") (codes "1.9.9") ≡ greater)
unfolding version_runs
versions_run = (refl, refl, refl, refl, refl, refl)

compare_semver-ordered_example :
    (compare_semver v candidate ≡ negate (compare_semver candidate v))
    × (AtMost (compare_semver candidate v)
        → AtMost (compare_semver v ahead)
        → AtMost (compare_semver candidate ahead))
compare_semver-ordered_example = compare_semver-ordered candidate v ahead
