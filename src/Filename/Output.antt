-- ===== src/Filename/Output.antt =====
-- The name of the output file: `generate_output_filename` and `generate_auto_output_path` of
-- src/utils.cpp, with the parts of a path on POSIX.
pub mod Clean
use torrent_builder.Common.{
  ℕ, suc, ◌+◌, Bytes, List, [], ◌∷◌, ◌++◌, Bool, true, false, not, ◌&&◌, ◌||◌, ltb, ◌==◌,
  if◌then◌else◌, Option, none, some, value_or, Result, ok, err, ◌>>=◌, is_empty, length, take, drop,
  get_elem?, codes, bytes_eq,
}
use torrent_builder.Text.{rfind_byte}
use torrent_builder.Domain.{extract_domain}
use torrent_builder.Yaml.{ℤ, pos, negsuc, join_path}
use torrent_builder.Filename.{sanitize_filename_part, truncate_filename, resolve_collision}

-- `path.filename()`: what stands behind the last slash.
unfoldable pub filename : Bytes → Bytes
filename path = elim (rfind_byte b'/' path) [ none ↦ path | some i ↦ drop (i + 1) path ]

-- A path without the slashes at its end.
unfoldable pub strip_slashes : Bytes → Bytes
strip_slashes [] = []
strip_slashes (c ∷ s) =
    let rest = strip_slashes s in if is_empty rest && (c == b'/') then [] else c ∷ rest

-- `path.parent_path()`: what stands in front of the last slash, the root for a path whose only part
-- stands behind it, and empty where there is no slash.
unfoldable pub parent_path : Bytes → Bytes
unfolding strip_slashes
parent_path path = elim (rfind_byte b'/' path) [
  | none ↦ []
  | some i ↦
      let parent = strip_slashes (take i path) in if is_empty parent then codes "/" else parent
]

-- `stem()` of a file name.
unfoldable pub stem : Bytes → Bytes
stem name = elim (rfind_byte b'.' name) [
  | none ↦ name
  | some i ↦ if bytes_eq name (codes "..") then name else if i == 0 then name else take i name
]

-- What the file system says of paths. `canonical` is none where it fails.
pub record Paths : Type 0 where
  pub canonical : Bytes → Option Bytes
  pub absolute : Bytes → Bytes
  pub current_path : Bytes
  pub is_regular_file : Bytes → Bool

abbrev pub is_dots : Bytes → Bool
is_dots name = bytes_eq name (codes ".") || bytes_eq name (codes "..")

-- The name of the content, before it is sanitized.
unfoldable pub content_name : Paths → Bytes → Bytes
content_name paths resolved =
    let plain = filename resolved in
    let canonical_name = filename (value_or (paths.canonical resolved) (paths.absolute resolved)) in
    let real =
      if is_dots plain
      then (if is_dots canonical_name then filename paths.current_path else canonical_name)
      else plain in
    let named = if is_empty real then codes "torrent" else real in
    if paths.is_regular_file resolved && not (is_empty (stem plain)) then stem plain else named

-- The tracker whose domain is the prefix: the first one where the index is out of range.
unfoldable pub chosen_tracker : List Bytes → ℤ → Bytes
chosen_tracker trackers (pos i) =
    value_or (get_elem? trackers i) (value_or (get_elem? trackers 0) [])
chosen_tracker trackers (negsuc i) = value_or (get_elem? trackers 0) []

unfoldable pub generate_output_filename : Paths → Bytes → List Bytes → Bool → ℤ → Bytes
generate_output_filename paths content_path trackers skip_prefix tracker_index =
    let resolved =
      if is_empty (filename content_path) then parent_path content_path else content_path in
    let name = sanitize_filename_part (content_name paths resolved) in
    let domain = extract_domain (chosen_tracker trackers tracker_index) in
    if skip_prefix || is_empty trackers
    then name ++ codes ".torrent"
    else if is_empty domain
    then name ++ codes ".torrent"
    else sanitize_filename_part domain ++ (codes "_" ++ (name ++ codes ".torrent"))

-- `exists` says whether the directory holds a file of that name.
unfoldable pub generate_auto_output_path :
    Paths → (Bytes → Bytes → Bool) → Bytes → List Bytes → Bool → ℤ → Bytes → Result Bytes Bytes
generate_auto_output_path paths exists content_path trackers skip_prefix tracker_index output_dir =
    let name =
      truncate_filename
        (generate_output_filename paths content_path trackers skip_prefix tracker_index) 249 in
    let dir = if is_empty output_dir then paths.current_path else output_dir in
    resolve_collision (exists dir) dir name 255 >>= λ resolved. ok (join_path dir resolved)
