-- ===== src/Version/Examples.antt =====
-- Runs of the version functions, and their theorems at concrete versions.
use torrent_builder.Common.{◌≡◌, refl, true, some, codes, arith}
use torrent_builder.Text.{find_byte, starts_with, split}
use torrent_builder.Version.{
  negative, same, positive, digits_value, skip_spaces, skip_plus, leading_int, stoi, part_value,
  parse_version, number_sign, bytes_lt, text_sign, split_dots, is_numeric, clamped_value,
  identifier_sign, identifiers_sign, compare_prerelease_identifiers, version_sign, compare_versions,
}
use torrent_builder.Version.Order.{Chain}
use torrent_builder.Version.Laws.{compare_versions-Chain}
use torrent_builder.Version.Roundtrip.{version_text, parse_version-version_text}

program : Unit {0}
unfolding find_byte starts_with split digits_value skip_spaces skip_plus leading_int stoi part_value
    parse_version number_sign bytes_lt text_sign split_dots is_numeric clamped_value identifier_sign
    identifiers_sign compare_prerelease_identifiers version_sign compare_versions
program = tt

numeric_identifiers : compare_versions (codes "v1.2.0-rc.9") (codes "1.2-rc.10") ≡ negative
unfolding program
numeric_identifiers = refl

release_last : compare_versions (codes "2.0.0") (codes "2.0.0-beta") ≡ positive
unfolding program
release_last = refl

bad_part : compare_versions (codes "1.x.3") (codes "1.0.3") ≡ same
unfolding program
bad_part = refl

compare_versions-Chain_example :
    Chain
      (compare_versions (codes "1.0.0-a") (codes "1.0.0"))
      (compare_versions (codes "1.0.0") (codes "1.0.1"))
      (compare_versions (codes "1.0.0-a") (codes "1.0.1"))
compare_versions-Chain_example =
    compare_versions-Chain (codes "1.0.0-a") (codes "1.0.0") (codes "1.0.1")

parse_version-version_text_example :
    parse_version (version_text true 1 12 3 (some (codes "rc.1")))
    ≡ record { major = 1; minor = 12; patch = 3; prerelease = codes "rc.1" }
parse_version-version_text_example =
    parse_version-version_text true 1 12 3 (some (codes "rc.1")) (omega arith) (omega arith)
      (omega arith)
