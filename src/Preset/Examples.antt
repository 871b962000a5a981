-- ===== src/Preset/Examples.antt =====
-- A small document with one preset, and the theorems about presets at it.
use torrent_builder.Common.{
  ℕ, ◌≡◌, refl, Bytes, List, [], ◌∷◌, true, Option, none, some, Result, ok, err, codes, bytes_eq,
  if◌then◌else◌, ◌==◌, ◌&&◌,
}
use torrent_builder.Text.{starts_with, to_lower, tolower}
use torrent_builder.Url.{is_valid_url, matches_scheme}
use torrent_builder.Yaml.{pos, Yaml, FileSystem, optional_field, strings}
use torrent_builder.Preset.{
  ConfigValues, empty_config, PresetLoader, new_loader, overlaid, merge_config_values, put_preset,
  find_preset, resolve, urls, url_field, parse_yaml_config, load_presets, added_presets,
  check_version, load_root, load, patterns_field,
}
use torrent_builder.Preset.Load.{IsParsed, last_config, resolved, load_lem}
use torrent_builder.Preset.Valid.{LoaderHasValidUrls, load-LoaderHasValidUrls}
use torrent_builder.Preset.Parse.{HasValidUrls}

-- The nodes: 0 the document, 1 its version, 2 the default section, 3 the presets, 4 the name of a
-- preset, 5 the preset, 6 its trackers, 7 a tracker, 8 a Boolean.
abbrev get_node : ℕ → Bytes → Result Bytes (Option ℕ)
get_node n key =
    if (n == 0) && bytes_eq key (codes "version")
    then ok (some 1)
    else if (n == 0) && bytes_eq key (codes "default")
    then ok (some 2)
    else if (n == 0) && bytes_eq key (codes "presets")
    then ok (some 3)
    else if (n == 5) && bytes_eq key (codes "trackers")
    then ok (some 6)
    else if (n == 2) && bytes_eq key (codes "private")
    then ok (some 8)
    else ok none

abbrev node_text : ℕ → Result Bytes Bytes
node_text n =
    if n == 4
    then ok (codes "ptp")
    else if n == 7
    then ok (codes "https://t.org/a")
    else err (codes "bad conversion")

abbrev document : Yaml
document = record {
  Node = ℕ;
  get = get_node;
  items = λ n. if n == 6 then 7 ∷ [] else [];
  entries = λ n. if n == 3 then (4, 5) ∷ [] else [];
  as_string = node_text;
  as_bool = λ n. ok true;
  as_int = λ n. ok (pos n);
  as_int64 = λ n. ok (pos n);
  load_file = λ path. ok 0;
}

abbrev files : FileSystem
files = record {
  exists = λ path. bytes_eq path (codes "/home/u/.config/torrent-builder/presets.yaml");
  file_size = λ path. ok 300;
  current_path = codes "/work";
  getenv = λ name.
      if bytes_eq name (codes "HOME")
      then some (codes "/home/u")
      else if bytes_eq name (codes "XDG_CONFIG_HOME")
      then some (codes "/xdg")
      else none;
}

abbrev ptp : ConfigValues
ptp = record empty_config { trackers = some (codes "https://t.org/a" ∷ []) }

abbrev loaded : PresetLoader
loaded = record {
  defaults = record empty_config { is_private = some true };
  presets = (codes "ptp", ptp) ∷ [];
}

load_run : load document files (codes "p.yaml") new_loader ≡ ok loaded
unfolding load load_root load_presets added_presets check_version parse_yaml_config url_field urls
    patterns_field optional_field strings put_preset is_valid_url matches_scheme starts_with
    to_lower tolower
load_run = refl

resolve_run : resolve loaded (codes "ptp") ≡ ok (record ptp { is_private = some true })
unfolding resolve find_preset merge_config_values overlaid
resolve_run = refl

load_lem_example :
    (pairs : List (Bytes × ConfigValues)) × IsParsed document ((4, 5) ∷ []) pairs
    × ((name : Bytes) → resolve loaded name ≡ resolved loaded name (last_config name pairs none))
load_lem_example = load_lem document files (codes "p.yaml") 0 3 loaded load_run refl refl

load-LoaderHasValidUrls_example :
    LoaderHasValidUrls loaded × HasValidUrls (record ptp { is_private = some true })
load-LoaderHasValidUrls_example =
    load-LoaderHasValidUrls document files (codes "p.yaml") (codes "ptp") new_loader loaded
      (record ptp { is_private = some true }) ((tt, tt), tt) load_run resolve_run
