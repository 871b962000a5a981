-- ===== src/Preset.antt =====
-- Presets: src/preset.cpp and include/preset.hpp.
pub mod Merge
pub mod Parse
pub mod Load
pub mod Valid
pub mod Search
mod Examples
use torrent_builder.Common.{
  ℕ, ◌+◌, ◌*◌, Bytes, List, [], ◌∷◌, ◌++◌, map, Bool, true, false, not, ◌&&◌, ltb, if◌then◌else◌,
  Option, none, some, Result, ok, err, ◌>>=◌, ◌>>◌, guard, is_empty, has_value, value_or, codes,
  bytes_eq,
}
use torrent_builder.Text.{join}
use torrent_builder.Url.{is_valid_url}
use torrent_builder.Yaml.{ℤ, pos, negsuc, Yaml, FileSystem, join_path, optional_field, strings}

pub record ConfigValues : Type 0 where
  pub path : Option Bytes
  pub output : Option Bytes
  pub trackers : Option (List Bytes)
  pub web_seeds : Option (List Bytes)
  pub is_private : Option Bool
  pub source : Option Bytes
  pub piece_size : Option ℤ
  pub target_piece_count : Option ℤ
  pub comment : Option Bytes
  pub creator : Option Bytes
  pub name : Option Bytes
  pub creation_date : Option Bool
  pub torrent_version : Option ℤ
  pub entropy : Option Bool
  pub no_creator : Option Bool
  pub no_date : Option Bool
  pub exclude_patterns : Option (List Bytes)
  pub include_patterns : Option (List Bytes)
  pub builtin_excludes : Option Bool

-- A value-initialised `ConfigValues`.
abbrev pub empty_config : ConfigValues
empty_config = record {
  path = none;
  output = none;
  trackers = none;
  web_seeds = none;
  is_private = none;
  source = none;
  piece_size = none;
  target_piece_count = none;
  comment = none;
  creator = none;
  name = none;
  creation_date = none;
  torrent_version = none;
  entropy = none;
  no_creator = none;
  no_date = none;
  exclude_patterns = none;
  include_patterns = none;
  builtin_excludes = none;
}

-- `if (overlay.x) result.x = overlay.x;`
unfoldable pub overlaid : {A : Type 0} → Option A → Option A → Option A
overlaid base none = base
overlaid base (some a) = some a

unfoldable pub merge_config_values : ConfigValues → ConfigValues → ConfigValues
merge_config_values base overlay = record {
  path = overlaid base.path overlay.path;
  output = overlaid base.output overlay.output;
  trackers = overlaid base.trackers overlay.trackers;
  web_seeds = overlaid base.web_seeds overlay.web_seeds;
  is_private = overlaid base.is_private overlay.is_private;
  source = overlaid base.source overlay.source;
  piece_size = overlaid base.piece_size overlay.piece_size;
  target_piece_count = overlaid base.target_piece_count overlay.target_piece_count;
  comment = overlaid base.comment overlay.comment;
  creator = overlaid base.creator overlay.creator;
  name = overlaid base.name overlay.name;
  creation_date = overlaid base.creation_date overlay.creation_date;
  torrent_version = overlaid base.torrent_version overlay.torrent_version;
  entropy = overlaid base.entropy overlay.entropy;
  no_creator = overlaid base.no_creator overlay.no_creator;
  no_date = overlaid base.no_date overlay.no_date;
  exclude_patterns = overlaid base.exclude_patterns overlay.exclude_patterns;
  include_patterns = overlaid base.include_patterns overlay.include_patterns;
  builtin_excludes = overlaid base.builtin_excludes overlay.builtin_excludes;
}

-- The presets stand in the order in which the unordered map is walked.
pub record PresetLoader : Type 0 where
  pub defaults : ConfigValues
  pub presets : List (Bytes × ConfigValues)

abbrev pub new_loader : PresetLoader
new_loader = record { defaults = empty_config; presets = [] }

-- `presets_[name] = config;`, where a name that is there keeps its place.
unfoldable pub put_preset :
    Bytes → ConfigValues → List (Bytes × ConfigValues) → List (Bytes × ConfigValues)
put_preset name config [] = (name, config) ∷ []
put_preset name config ((k, c) ∷ presets) =
    let rest = put_preset name config presets in
    if bytes_eq k name then (k, config) ∷ presets else (k, c) ∷ rest

-- `presets_.find(name)`
unfoldable pub find_preset : Bytes → List (Bytes × ConfigValues) → Option ConfigValues
find_preset name [] = none
find_preset name ((k, c) ∷ presets) =
    let rest = find_preset name presets in if bytes_eq k name then some c else rest

unfoldable pub has_preset : PresetLoader → Bytes → Bool
has_preset loader name = has_value (find_preset name loader.presets)

unfoldable pub unknown_preset_message : PresetLoader → Bytes → Bytes
unknown_preset_message loader name =
    codes "Unknown preset: '"
    ++ (name
        ++ (codes "'. Available: "
            ++ (if is_empty loader.presets
                then codes "(none)"
                else join (map (λ p. p.0) loader.presets) (codes ", "))))

unfoldable pub resolve : PresetLoader → Bytes → Result Bytes ConfigValues
unfolding unknown_preset_message
resolve loader name = elim (find_preset name loader.presets) [
  | none ↦ err (unknown_preset_message loader name)
  | some config ↦ ok (merge_config_values loader.defaults config)
]

-- The file in the user's configuration directory; the empty path if neither variable is set.
unfoldable pub config_file : FileSystem → Bytes
config_file files =
    let xdg_config = value_or (files.getenv (codes "XDG_CONFIG_HOME")) [] in
    if not (is_empty xdg_config)
    then join_path (join_path xdg_config (codes "torrent-builder")) (codes "presets.yaml")
    else (elim (files.getenv (codes "HOME")) [
      | none ↦ []
      | some home ↦
          join_path (join_path (join_path home (codes ".config")) (codes "torrent-builder"))
            (codes "presets.yaml")
    ])

unfoldable pub find_preset_file : FileSystem → Option Bytes → Result Bytes Bytes
find_preset_file files (some explicit_path) =
    if not (files.exists explicit_path)
    then err (codes "Preset file not found: " ++ explicit_path)
    else ok explicit_path
find_preset_file files none =
    let cwd_preset = join_path files.current_path (codes "presets.yaml") in
    let config = config_file files in
    if files.exists cwd_preset
    then ok cwd_preset
    else if not (is_empty config) && files.exists config
    then ok config
    else err (
        codes "No preset file found. Searched: ./presets.yaml"
        ++ ((if is_empty config then [] else codes ", " ++ config)
            ++ codes ". Use --preset-file to specify a path."))

module _ (yaml : Yaml) where
  -- The URLs of a list, each checked as it is read.
  unfoldable pub urls : Bytes → List yaml.Node → Result Bytes (List Bytes)
  urls message [] = ok []
  urls message (node ∷ nodes) = do
    url ← yaml.as_string node
    guard (is_valid_url url) (message ++ url)
    rest ← urls message nodes
    ok (url ∷ rest)

  unfoldable pub url_field : Bytes → yaml.Node → Bytes → Result Bytes (Option (List Bytes))
  url_field message = optional_field yaml (λ node. urls message (yaml.items node))

  unfoldable pub patterns_field : yaml.Node → Bytes → Result Bytes (Option (List Bytes))
  patterns_field = optional_field yaml (λ node. strings yaml (yaml.items node))

  unfoldable pub parse_yaml_config : yaml.Node → Result Bytes ConfigValues
  unfolding patterns_field
  parse_yaml_config node = do
    trackers ← url_field (codes "Invalid tracker URL in config: ") node (codes "trackers")
    web_seeds ← url_field (codes "Invalid web seed URL in config: ") node (codes "web_seeds")
    is_private ← optional_field yaml yaml.as_bool node (codes "private")
    source ← optional_field yaml yaml.as_string node (codes "source")
    piece_size ← optional_field yaml yaml.as_int node (codes "piece_size")
    target_piece_count ← optional_field yaml yaml.as_int node (codes "target_piece_count")
    comment ← optional_field yaml yaml.as_string node (codes "comment")
    creator ← optional_field yaml yaml.as_string node (codes "creator")
    name ← optional_field yaml yaml.as_string node (codes "name")
    creation_date ← optional_field yaml yaml.as_bool node (codes "creation_date")
    torrent_version ← optional_field yaml yaml.as_int node (codes "torrent_version")
    entropy ← optional_field yaml yaml.as_bool node (codes "entropy")
    no_creator ← optional_field yaml yaml.as_bool node (codes "no_creator")
    no_date ← optional_field yaml yaml.as_bool node (codes "no_date")
    builtin_excludes ← optional_field yaml yaml.as_bool node (codes "builtin_excludes")
    exclude_patterns ← patterns_field node (codes "exclude_patterns")
    include_patterns ← patterns_field node (codes "include_patterns")
    ok (record {
      path = none;
      output = none;
      trackers = trackers;
      web_seeds = web_seeds;
      is_private = is_private;
      source = source;
      piece_size = piece_size;
      target_piece_count = target_piece_count;
      comment = comment;
      creator = creator;
      name = name;
      creation_date = creation_date;
      torrent_version = torrent_version;
      entropy = entropy;
      no_creator = no_creator;
      no_date = no_date;
      exclude_patterns = exclude_patterns;
      include_patterns = include_patterns;
      builtin_excludes = builtin_excludes;
    })

  -- The loop over `root["presets"]`.
  unfoldable pub load_presets :
      List (yaml.Node × yaml.Node)
      → List (Bytes × ConfigValues)
      → Result Bytes (List (Bytes × ConfigValues))
  load_presets [] presets = ok presets
  load_presets ((key, value) ∷ entries) presets = do
    name ← yaml.as_string key
    config ← parse_yaml_config value
    load_presets entries (put_preset name config presets)

  -- `!root["version"] || root["version"].as<int>() != 1` throws.
  unfoldable pub check_version : Bytes → yaml.Node → Result Bytes (Unit {0})
  check_version message root = do
    version ← optional_field yaml yaml.as_int root (codes "version")
    elim version [
      | some (pos n) ↦ guard (not (ltb n 1) && not (ltb 1 n)) message
      | some (negsuc n) ↦ err message
      | none ↦ err message
    ]

  -- The presets that the document adds.
  unfoldable pub added_presets :
      Option yaml.Node → List (Bytes × ConfigValues) → Result Bytes (List (Bytes × ConfigValues))
  added_presets none presets = ok presets
  added_presets (some node) presets = load_presets (yaml.entries node) presets

  -- The document of `load`.
  unfoldable pub load_root : yaml.Node → PresetLoader → Result Bytes PresetLoader
  load_root root loader = do
    check_version (codes "Unsupported preset file version (expected: 1)") root
    found_default ← optional_field yaml parse_yaml_config root (codes "default")
    found_presets ← yaml.get root (codes "presets")
    presets ← added_presets found_presets loader.presets
    ok (record { defaults = value_or found_default loader.defaults; presets = presets })

  unfoldable pub load : FileSystem → Bytes → PresetLoader → Result Bytes PresetLoader
  load files path loader = do
    size ← files.file_size path
    guard (not (ltb (1024 * 1024) size)) (codes "Preset file too large (max 1 MB): " ++ path)
    root ← yaml.load_file path
    load_root root loader
