-- ===== src/Rules/Loading/Examples.antt =====
-- A document with one tracker, whose two overrides are given in ascending order, and a search: the
-- loading of src/tracker_rules.cpp.
use torrent_builder.Common.{
  ℕ, ◌≡◌, refl, Bytes, [], ◌∷◌, true, if◌then◌else◌, ◌==◌, Option, none, some, ok, bytes_eq, codes,
}
use torrent_builder.Text.{starts_with, ends_with}
use torrent_builder.Yaml.{pos, Yaml, FileSystem, join_path, optional_field}
use torrent_builder.Preset.{check_version}
use torrent_builder.Rules.{sort_overrides}
use torrent_builder.Rules.Matching.{TrackerRulesDatabase}
use torrent_builder.Rules.Loading.{find_rules_file, load_rules, parse_override}
use torrent_builder.Rules.Loading.Laws.{
  places, returned, first_existing, IsSortedDatabase, load_rules-IsSortedDatabase,
  find_rules_file_lem,
}

-- The node of a key: 0 the root, 4 the rule, 6 and 7 its overrides.
abbrev get_node : ℕ → Bytes → Option ℕ
get_node n key =
    if bytes_eq key (codes "version")
    then some 1
    else if bytes_eq key (codes "trackers")
    then some 2
    else if bytes_eq key (codes "piece_length_overrides")
    then some 5
    else if bytes_eq key (codes "size_below")
    then (if n == 6 then some 8 else some 9)
    else if bytes_eq key (codes "piece_length")
    then some 64
    else none

abbrev document : Yaml
document = record {
  Node = ℕ;
  get = λ n key. ok (get_node n key);
  items = λ n. 6 ∷ 7 ∷ [];
  entries = λ n. (3, 4) ∷ [];
  as_string = λ n. ok (codes "t");
  as_bool = λ n. ok true;
  as_int = λ n. ok (pos n);
  as_int64 = λ n. ok (pos n);
  load_file = λ path. ok 0;
}

abbrev rules_path : Bytes
rules_path = codes "/home/u/.config/torrent-builder/rules.yaml"

abbrev files : FileSystem
files = record {
  exists = λ path. bytes_eq path rules_path;
  file_size = λ path. ok 300;
  current_path = codes "/work";
  getenv = λ name.
      if bytes_eq name (codes "HOME")
      then some (codes "/home/u")
      else if bytes_eq name (codes "XDG_CONFIG_HOME")
      then some (codes "/xdg")
      else none;
}

abbrev no_rules : TrackerRulesDatabase
no_rules = record { default_rules = none; trackers = [] }

abbrev loaded : TrackerRulesDatabase
loaded = record {
  default_rules = none;
  trackers =
      (record {
        name = codes "t";
        domain = none;
        source = none;
        max_piece_length = none;
        max_torrent_size = none;
        piece_length_overrides =
            record { size_below = 9; piece_length_kb = 64 }
            ∷ record { size_below = 8; piece_length_kb = 64 }
            ∷ [];
      })
      ∷ [];
}

loaded_run : load_rules document files rules_path no_rules ≡ ok loaded
unfolding load_rules sort_overrides check_version optional_field parse_override
loaded_run = refl

load_rules-IsSortedDatabase_example : IsSortedDatabase loaded
load_rules-IsSortedDatabase_example =
    load_rules-IsSortedDatabase document files rules_path no_rules (tt, tt) loaded_run

found_run : find_rules_file files none ≡ ok rules_path
unfolding find_rules_file join_path starts_with ends_with
found_run = refl

find_rules_file_lem_example :
    returned (find_rules_file files none) ≡ first_existing files (places files)
find_rules_file_lem_example = find_rules_file_lem files
