-- ===== src/Filter/Examples.antt =====
-- Runs of the filters, and their theorems at concrete patterns and paths.
use torrent_builder.Common.{◌≡◌, refl, [], true, false, codes}
use torrent_builder.Text.{tolower}
use torrent_builder.Filter.{
  item, glob_to_regex, regex_match, some_match, should_include_file, apply_builtin_excludes,
}

program : Unit {0}
unfolding tolower item glob_to_regex regex_match some_match should_include_file
    apply_builtin_excludes
program = tt

one_directory : regex_match (glob_to_regex (codes "*/a?.[k]")) (codes "dir/AB.[K]") ≡ true
unfolding program
one_directory = refl

no_deeper : regex_match (glob_to_regex (codes "*.nfo")) (codes "dir/a.nfo") ≡ false
unfolding program
no_deeper = refl

nested_torrent :
    should_include_file (codes "a/b.TORRENT") (apply_builtin_excludes [] true) [] ≡ false
unfolding program
nested_torrent = refl
