-- ===== src/Checker/Verify.antt =====
-- The verification of `TorrentChecker::check`, src/torrent_checker.cpp. What libtorrent reports of the
-- torrent and its hash functions are parameters.
pub mod Pieces
pub mod Files
pub mod Intact
mod Examples
use torrent_builder.Common.{
  ℕ, zero, suc, ◌+◌, ◌-◌, ◌*◌, ◌/◌, Bytes, List, [], ◌∷◌, ◌++◌, map, Bool, true, false, not, ◌&&◌,
  ◌||◌, ltb, leb, ◌==◌, if◌then◌else◌, Option, none, some, has_value, Result, ok, err, ◌>>=◌,
  is_empty, length, take, drop, any, codes, bytes_eq,
}
use Prim.Native.Nat.{min}
use torrent_builder.Text.{to_lower}
use torrent_builder.Checker.{StoredFile, file_end, Disk, find_file_for_piece, read_piece_data}

pub record MissingFile : Type 0 where
  pub path : Bytes
  pub expected_size : ℕ

pub record CorruptedPiece : Type 0 where
  pub index : ℕ
  pub offset : ℕ

pub record ExtraFile : Type 0 where
  pub path : Bytes
  pub size : ℕ

pub record FileResult : Type 0 where
  pub path : Bytes
  pub expected_size : ℕ
  pub actual_size : ℕ
  pub exists : Bool
  pub size_matches : Bool

-- `CheckResult` without its percentage, a floating-point number for printing.
pub record CheckResult : Type 0 where
  pub passed : Bool
  pub total_size_expected : ℕ
  pub total_size_verified : ℕ
  pub pieces_total : ℕ
  pub pieces_verified : ℕ
  pub pieces_corrupted : ℕ
  pub missing_files : List MissingFile
  pub corrupted_pieces : List CorruptedPiece
  pub extra_files : List ExtraFile
  pub file_results : List FileResult

-- What `lt::torrent_info` reports: `hash_for_piece` is the 20 bytes of a v1 hash, `piece_layer` the
-- hashes of a file of a v2 torrent, 32 bytes each.
pub record TorrentInfo : Type 0 where
  pub files : List StoredFile
  pub piece_length : ℕ
  pub total_size : ℕ
  pub num_pieces : ℕ
  pub has_v1 : Bool
  pub has_v2 : Bool
  pub hash_for_piece : ℕ → Bytes
  pub piece_layer : ℕ → Bytes

-- `lt::hasher` and `lt::hasher256`.
pub record Hashers : Type 0 where
  pub sha1 : Bytes → Bytes
  pub sha256 : Bytes → Bytes

-- An entry of the directory that is walked for extra files, its path relative to the directory.
pub record DirEntry : Type 0 where
  pub path : Bytes
  pub is_symlink : Bool
  pub is_regular_file : Bool
  -- none where it cannot be read
  pub size : Option ℕ

-- The result of one file. A path that exists without a file size (a directory) is none on the disk.
unfoldable pub file_result : Disk → StoredFile → FileResult
file_result disk f = elim (disk f.path) [
  | none ↦ record {
    path = f.path;
    expected_size = f.size;
    actual_size = 0;
    exists = false;
    size_matches = false;
  }
  | some content ↦ record {
    path = f.path;
    expected_size = f.size;
    actual_size = length content;
    exists = true;
    size_matches = length content == f.size;
  }
]

-- `check_missing_files`: the missing files, and the results of all files.
unfoldable pub check_missing_files : Disk → List StoredFile → List MissingFile × List FileResult
unfolding file_result
check_missing_files disk [] = ([], [])
check_missing_files disk (f ∷ fs) =
    let rest = check_missing_files disk fs in
    let fr = file_result disk f in
    if f.pad
    then rest
    else if not fr.exists
    then (record { path = fr.path; expected_size = fr.expected_size } ∷ rest.0, fr ∷ rest.1)
    else (rest.0, fr ∷ rest.1)

module _ (hashers : Hashers) (info : TorrentInfo) where
  unfoldable pub verify_piece_v1 : ℕ → Bytes → Bool
  verify_piece_v1 piece_index buffer =
      bytes_eq (hashers.sha1 buffer) (info.hash_for_piece piece_index)

  -- The file that holds the start of the piece, with its index.
  unfoldable pub verify_layer : ℕ → Bytes → StoredFile → ℕ → Bool
  verify_layer piece_index buffer f i =
      let piece_offset = piece_index * info.piece_length in
      let layer = info.piece_layer i in
      let file_piece_offset = f.offset / info.piece_length in
      let local_index = piece_index - file_piece_offset in
      let data_start = f.offset - piece_offset in
      let data_end = min info.piece_length (file_end f - piece_offset) in
      if is_empty layer
      then true
      else if ltb piece_index file_piece_offset || leb (length layer / 32) local_index
      then true
      else bytes_eq (hashers.sha256 (take (data_end - data_start) (drop data_start buffer)))
          (take 32 (drop (local_index * 32) layer))

  -- The loop of `verify_piece_v2`, from the file with the index `i` on.
  unfoldable pub verify_v2_loop : ℕ → Bytes → List StoredFile → ℕ → Bool
  verify_v2_loop piece_index buffer [] i = true
  verify_v2_loop piece_index buffer (f ∷ fs) i =
      let piece_offset = piece_index * info.piece_length in
      let rest = verify_v2_loop piece_index buffer fs (i + 1) in
      if f.pad
      then rest
      else if leb (piece_offset + info.piece_length) f.offset
      then true
      else if not (leb f.offset piece_offset && ltb piece_offset (file_end f))
      then rest
      else verify_layer piece_index buffer f i

  unfoldable pub verify_piece_v2 : ℕ → Bytes → Bool
  unfolding verify_v2_loop verify_layer
  verify_piece_v2 piece_index buffer =
      elim (find_file_for_piece info.files (piece_index * info.piece_length)) [
        | none ↦ true
        | some file_idx ↦ verify_v2_loop piece_index buffer (drop file_idx info.files) file_idx
      ]

  -- `piece_ok`, for the buffer that was read.
  unfoldable pub piece_ok : Disk → ℕ → Bool
  piece_ok disk i =
      let buffer = read_piece_data i info.piece_length info.total_size disk info.files in
      (not info.has_v1 || verify_piece_v1 i buffer) && (not info.has_v2 || verify_piece_v2 i buffer)

  -- The loop of `verify_all_pieces`, over `count` pieces from `i` on.
  unfoldable pub verify_loop : Disk → ℕ → ℕ → List CorruptedPiece
  verify_loop disk zero i = []
  verify_loop disk (suc count) i =
      let rest = verify_loop disk count (i + 1) in
      if piece_ok disk i then rest else record { index = i; offset = i * info.piece_length } ∷ rest

  unfoldable pub verify_all_pieces : Disk → List CorruptedPiece
  unfolding verify_loop
  verify_all_pieces disk = verify_loop disk info.num_pieces 0

-- The paths of the torrent, in lower case.
unfoldable pub torrent_paths : List StoredFile → List Bytes
torrent_paths [] = []
torrent_paths (f ∷ fs) =
    let rest = torrent_paths fs in if f.pad then rest else to_lower f.path ∷ rest

-- The loop of `find_extra_files`. A size that cannot be read is reported as 0, and its error ends the
-- loop at the next entry.
unfoldable pub extra_loop : List Bytes → List DirEntry → List ExtraFile
extra_loop paths [] = []
extra_loop paths (entry ∷ entries) =
    let rest = extra_loop paths entries in
    if entry.is_symlink
    then rest
    else if not entry.is_regular_file
    then rest
    else if any (bytes_eq (to_lower entry.path)) paths
    then rest
    else (elim entry.size [
      | none ↦ record { path = entry.path; size = 0 } ∷ []
      | some size ↦ record { path = entry.path; size = size } ∷ rest
    ])

-- The walk has no entries if the path is no directory, or if it cannot be opened; where going on or
-- asking for the kind of an entry throws, the walk is the text of the exception.
unfoldable pub find_extra_files :
    List Bytes → Result Bytes (List DirEntry) → Result Bytes (List ExtraFile)
unfolding extra_loop
find_extra_files paths walk = walk >>= λ entries. ok (extra_loop paths entries)

-- `if (fr.exists) result.total_size_verified += fr.actual_size;`
unfoldable pub verified_size : List FileResult → ℕ → ℕ
verified_size [] sum = sum
verified_size (fr ∷ frs) sum = verified_size frs (if fr.exists then sum + fr.actual_size else sum)

-- `TorrentChecker::check` behind its test that the torrent is loaded; `walk` are the entries below
-- the content path, `exists` says whether there is such a path.
unfoldable pub check :
    Hashers
    → TorrentInfo
    → Bool
    → Bytes
    → Disk
    → Result Bytes (List DirEntry)
    → Result Bytes CheckResult
check hashers info exists content_path disk walk =
    let (missing, results) = check_missing_files disk info.files in
    let corrupted = verify_all_pieces hashers info disk in
    if not exists
    then err (codes "Content path does not exist: " ++ content_path)
    else find_extra_files (torrent_paths info.files) walk >>= (λ extra. ok (record {
      passed = is_empty missing && is_empty corrupted;
      total_size_expected = info.total_size;
      total_size_verified = verified_size results 0;
      pieces_total = info.num_pieces;
      pieces_verified = info.num_pieces - length corrupted;
      pieces_corrupted = length corrupted;
      missing_files = missing;
      corrupted_pieces = corrupted;
      extra_files = extra;
      file_results = results;
    }))
