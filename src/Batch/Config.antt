-- ===== src/Batch/Config.antt =====
-- `build_torrent_config` of src/batch.cpp.
use torrent_builder.Common.{
  ℕ, Bytes, List, [], ◌++◌, map, Bool, true, false, not, ◌&&◌, ltb, if◌then◌else◌, Option, none,
  some, Result, ok, err, ◌>>=◌, ◌>>◌, guard, is_empty, value_or, codes,
}
use torrent_builder.Text.{starts_with}
use torrent_builder.Yaml.{ℤ, pos, negsuc, FileSystem, join_path}
use torrent_builder.Preset.{ConfigValues}
use torrent_builder.Filter.{Item, glob_to_regex, apply_builtin_excludes}
use torrent_builder.Filename.Output.{Paths, parent_path, generate_auto_output_path}
use torrent_builder.ContentSize.{Sizes}
use torrent_builder.SeasonPack.Analyze.{Directory}
use torrent_builder.Batch.{
  TorrentVersion, hybrid, resolve_version, validate_piece_size, TorrentConfig,
}

-- What the file system says while a job runs: a snapshot, and what the creation of a directory comes
-- to, which is none where it succeeds and else the text of the error.
pub record Host : Type 0 where
  pub files : FileSystem
  pub paths : Paths
  pub sizes : Sizes
  pub directory : Directory
  pub holds : Bytes → Bytes → Bool
  pub create_directories : Bytes → Option Bytes

-- `compile_patterns`. The regular expressions that `glob_to_regex` writes are always well-formed.
unfoldable pub compile_patterns : Option (List Bytes) → List (List Item)
compile_patterns patterns = map glob_to_regex (value_or patterns [])

-- `fs::create_directories(dir, ec)`, and the throw where it fails.
unfoldable pub create_output_dir : Host → Bytes → Result Bytes (Unit {0})
create_output_dir host dir = elim (host.create_directories dir) [
  | none ↦ ok tt
  | some message ↦ err (
      codes "Failed to create output directory: "
      ++ (dir ++ (codes " (" ++ (message ++ codes ")"))))
]

-- `output`, where the job names one and where it does not.
unfoldable pub output_path : Host → ConfigValues → Bytes → Bytes → Result Bytes Bytes
unfolding create_output_dir
output_path host cv input_path default_output_dir = elim cv.output [
  | some named ↦
      let output =
        if not (starts_with named (codes "/")) && not (is_empty default_output_dir)
        then join_path default_output_dir named
        else named in
      if not (is_empty (parent_path output))
      then create_output_dir host (parent_path output) >>= (λ _. ok output)
      else ok output
  | none ↦
      let out_dir =
        if is_empty default_output_dir then host.files.current_path else default_output_dir in
      (if not (is_empty out_dir) && not (host.files.exists out_dir)
        then create_output_dir host out_dir
        else ok tt)
      >>= (λ _.
          generate_auto_output_path host.paths host.holds input_path (value_or cv.trackers []) false
            (pos 0) out_dir)
]

-- `cv.piece_size && *cv.piece_size > 0`
unfoldable pub piece_size_bytes : Option ℤ → Result Bytes (Option ℕ)
piece_size_bytes none = ok none
piece_size_bytes (some (pos kb)) = if ltb 0 kb then validate_piece_size (pos kb) else ok none
piece_size_bytes (some (negsuc n)) = ok none

unfoldable pub creator_of : ConfigValues → Option Bytes
creator_of cv =
    if value_or cv.no_creator false
    then none
    else some (value_or cv.creator (codes "Torrent Builder"))

unfoldable pub creation_date_of : ConfigValues → Bool
creation_date_of cv = if value_or cv.no_date false then false else value_or cv.creation_date true

unfoldable pub version_of : Option ℤ → TorrentVersion
version_of none = hybrid
version_of (some v) = resolve_version v

-- `cv.path.value()`, which throws where there is none.
unfoldable pub path_value : Option Bytes → Result Bytes Bytes
path_value none = err (codes "bad optional access")
path_value (some path) = ok path

-- The constructor of `TorrentConfig` asks once more whether the path exists, which the snapshot
-- answers as before.
unfoldable pub build_torrent_config : Host → ConfigValues → Bytes → Result Bytes TorrentConfig
unfolding output_path piece_size_bytes creator_of creation_date_of version_of path_value
    compile_patterns
build_torrent_config host cv default_output_dir = do
  input_path ← path_value cv.path
  guard (host.files.exists input_path) (codes "Path does not exist: " ++ input_path)
  output ← output_path host cv input_path default_output_dir
  piece_size ← piece_size_bytes cv.piece_size
  ok (record {
    path = input_path;
    output = output;
    trackers = value_or cv.trackers [];
    version = version_of cv.torrent_version;
    comment = cv.comment;
    is_private = value_or cv.is_private false;
    web_seeds = value_or cv.web_seeds [];
    piece_size = piece_size;
    target_piece_count = cv.target_piece_count;
    creator = creator_of cv;
    name = cv.name;
    include_creation_date = creation_date_of cv;
    source = cv.source;
    entropy = value_or cv.entropy false;
    exclude_regex =
        apply_builtin_excludes (compile_patterns cv.exclude_patterns)
          (value_or cv.builtin_excludes true);
    include_regex = compile_patterns cv.include_patterns;
    silent = false;
  })
