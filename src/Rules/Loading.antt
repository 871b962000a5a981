-- ===== src/Rules/Loading.antt =====
-- Loading the rules: `parse_override`, `parse_rule`, `find_rules_file` and `load` of
-- src/tracker_rules.cpp. A negative number is read as 0.
pub mod Laws
mod Examples
use torrent_builder.Common.{
  ℕ, ◌*◌, ◌≡◌, refl, Bytes, List, [], ◌∷◌, ◌++◌, Bool, true, false, not, ltb, if◌then◌else◌, Option,
  none, some, Result, ok, err, ◌>>=◌, ◌>>◌, guard, is_empty, value_or, codes, All, Always,
  Always->>=, Always-any, Always-ok, Bool-cases, inl, inr,
}
use torrent_builder.Text.{join}
use torrent_builder.Yaml.{ℤ, pos, negsuc, Yaml, FileSystem, join_path, optional_field}
use torrent_builder.Preset.{check_version}
use torrent_builder.Rules.{PieceLengthOverride, TrackerRule, sort_overrides}
use torrent_builder.Rules.Matching.{TrackerRulesDatabase}
use torrent_builder.Rules.Overrides.{IsDescending, sort_overrides-IsDescending}

abbrev pub natural : ℤ → ℕ
natural (pos n) = n
natural (negsuc n) = 0

-- The rules file below a directory for configurations.
abbrev pub rules_below : Bytes → Bytes
rules_below directory =
    join_path (join_path directory (codes "torrent-builder")) (codes "rules.yaml")

-- Where `XDG_CONFIG_HOME` is set and not empty.
unfoldable pub xdg_rules : FileSystem → Option Bytes
xdg_rules files = elim (files.getenv (codes "XDG_CONFIG_HOME")) [
  | none ↦ none
  | some xdg_config ↦ if is_empty xdg_config then none else some (rules_below xdg_config)
]

unfoldable pub home_rules : FileSystem → Option Bytes
home_rules files = elim (files.getenv (codes "HOME")) [
  | none ↦ none
  | some home ↦ some (rules_below (join_path home (codes ".config")))
]

abbrev pub searched_part : Option Bytes → Bytes
searched_part none = []
searched_part (some path) = codes ", " ++ path

-- `if (path) { if (fs::exists(path)) return path; }`, else the rest of the search.
abbrev pub existing : FileSystem → Option Bytes → Result Bytes Bytes → Result Bytes Bytes
existing files none rest = rest
existing files (some path) rest = if files.exists path then ok path else rest

unfoldable pub find_rules_file : FileSystem → Option Bytes → Result Bytes Bytes
unfolding xdg_rules home_rules
find_rules_file files (some explicit_path) =
    if not (files.exists explicit_path)
    then err (codes "Rules file not found: " ++ explicit_path)
    else ok explicit_path
find_rules_file files none =
    let cwd_rules = join_path files.current_path (codes "rules.yaml") in
    existing files (some cwd_rules) (
      existing files (xdg_rules files) (
        existing files (home_rules files) (
          err (
            codes "No rules file found. Searched: ./rules.yaml"
            ++ (searched_part (xdg_rules files)
                ++ (searched_part (home_rules files)
                    ++ codes ". Use --rules-file to specify a path."))))))

module _ (yaml : Yaml) where
  -- A field that has to be there.
  unfoldable pub required_field : Bytes → yaml.Node → Bytes → Result Bytes yaml.Node
  required_field message node key = do
    found ← yaml.get node key
    elim found [ none ↦ err message | some value ↦ ok value ]

  unfoldable pub parse_override : yaml.Node → Result Bytes PieceLengthOverride
  unfolding required_field
  parse_override node = do
    size_node ←
        required_field (codes "Missing 'size_below' in piece_length_overrides entry") node
          (codes "size_below")
    length_node ←
        required_field (codes "Missing 'piece_length' in piece_length_overrides entry") node
          (codes "piece_length")
    size_below ← yaml.as_int64 size_node
    piece_length ← yaml.as_int length_node
    ok (record { size_below = natural size_below; piece_length_kb = natural piece_length })

  unfoldable pub parse_overrides : List yaml.Node → Result Bytes (List PieceLengthOverride)
  parse_overrides [] = ok []
  parse_overrides (node ∷ nodes) = do
    ov ← parse_override node
    rest ← parse_overrides nodes
    ok (ov ∷ rest)

  abbrev pub as_natural : yaml.Node → Result Bytes ℕ
  as_natural node = yaml.as_int node >>= λ n. ok (natural n)

  unfoldable pub parse_rule : yaml.Node → Bytes → Result Bytes TrackerRule
  unfolding parse_overrides
  parse_rule node name = do
    domain ← optional_field yaml yaml.as_string node (codes "domain")
    source ← optional_field yaml yaml.as_string node (codes "source")
    max_piece_length ← optional_field yaml as_natural node (codes "max_piece_length")
    max_torrent_size ← optional_field yaml as_natural node (codes "max_torrent_size")
    overrides ←
        optional_field yaml (λ entries. parse_overrides (yaml.items entries)) node
          (codes "piece_length_overrides")
    ok (record {
      name = name;
      domain = domain;
      source = source;
      max_piece_length = max_piece_length;
      max_torrent_size = max_torrent_size;
      piece_length_overrides = sort_overrides (value_or overrides []);
    })

  -- The loop over `root["trackers"]`.
  unfoldable pub parse_trackers : List (yaml.Node × yaml.Node) → Result Bytes (List TrackerRule)
  parse_trackers [] = ok []
  parse_trackers ((key, value) ∷ entries) = do
    name ← yaml.as_string key
    rule ← parse_rule value name
    rest ← parse_trackers entries
    ok (rule ∷ rest)

  unfoldable pub parse_default :
      Option yaml.Node → Option TrackerRule → Result Bytes (Option TrackerRule)
  unfolding parse_rule
  parse_default none old = ok old
  parse_default (some node) old = parse_rule node (codes "default") >>= λ rule. ok (some rule)

  unfoldable pub added_trackers :
      Option yaml.Node → List TrackerRule → Result Bytes (List TrackerRule)
  unfolding parse_trackers
  added_trackers none old = ok old
  added_trackers (some node) old = parse_trackers (yaml.entries node) >>= λ rules. ok (old ++ rules)

  -- The document of `load`.
  unfoldable pub load_document :
      yaml.Node → TrackerRulesDatabase → Result Bytes TrackerRulesDatabase
  unfolding parse_default added_trackers
  load_document root db = do
    check_version yaml (codes "Unsupported rules file version (expected: 1)") root
    found_default ← yaml.get root (codes "default")
    default_rules ← parse_default found_default db.default_rules
    found_trackers ← yaml.get root (codes "trackers")
    trackers ← added_trackers found_trackers db.trackers
    ok (record { default_rules = default_rules; trackers = trackers })

  unfoldable pub load_rules :
      FileSystem → Bytes → TrackerRulesDatabase → Result Bytes TrackerRulesDatabase
  unfolding load_document
  load_rules files path db = do
    size ← files.file_size path
    guard (not (ltb (1 * 1024 * 1024) size)) (codes "Rules file too large (max 1 MB): " ++ path)
    root ← yaml.load_file path
    load_document root db
