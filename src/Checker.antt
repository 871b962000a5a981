-- ===== src/Checker.antt =====
-- The piece reader of the checker, src/torrent_checker.cpp. The layout of the files is what
-- libtorrent's `file_storage` reports; a disk is a function from paths to file contents.
pub mod Search
pub mod Read
pub mod Piece
pub mod Verify
mod Examples
use torrent_builder.Common.{
  ℕ, zero, suc, ◌+◌, ◌-◌, ◌*◌, ◌/◌, Bytes, List, [], ◌∷◌, ◌++◌, Bool, true, false, ltb, leb,
  if◌then◌else◌, Option, none, some, length, take, drop, get_elem?, replicate,
}
use Prim.Native.Nat.{min, max}

-- What `files.file_offset`, `file_size`, `pad_file_at` and `file_path` say of one file.
pub record StoredFile : Type 0 where
  pub offset : ℕ
  pub size : ℕ
  pub pad : Bool
  pub path : Bytes

abbrev pub file_end : StoredFile → ℕ
file_end f = f.offset + f.size

-- The binary search of `find_file_for_piece`. `past` is `hi + 1`, since `hi` may be -1; `none` is
-- the result -1. Each round takes the fuel one down; as many rounds as files are enough.
unfoldable pub find_loop : List StoredFile → ℕ → ℕ → ℕ → ℕ → Option ℕ → Option ℕ
find_loop files piece_offset zero lo past result = result
find_loop files piece_offset (suc fuel) lo past result =
    let mid = lo + (past - 1 - lo) / 2 in
    let right = find_loop files piece_offset fuel (mid + 1) past result in
    let left = find_loop files piece_offset fuel lo mid (some mid) in
    if ltb lo past
    then (elim (get_elem? files mid) [
      | none ↦ result
      | some f ↦ if leb (file_end f) piece_offset then right else left
    ])
    else result

unfoldable pub find_file_for_piece : List StoredFile → ℕ → Option ℕ
unfolding find_loop
find_file_for_piece files piece_offset =
    find_loop files piece_offset (length files) 0 (length files) none

abbrev pub Disk : Type 0
Disk = Bytes → Option Bytes

-- A buffer of `n` zeros.
abbrev pub zeros : ℕ → Bytes
zeros n = replicate n 0

-- The bytes of `source` written over those of `buffer` from the position `pos` on.
unfoldable pub write_at : Bytes → ℕ → Bytes → Bytes
write_at buffer pos source = take pos buffer ++ (source ++ drop (pos + length source) buffer)

-- One file of the loop of `read_piece_data`: `f.seekg(start)` and `f.read(buffer + pos, size)`, which
-- reads what there is.
unfoldable pub read_file : ℕ → ℕ → Disk → StoredFile → Bytes → Bytes
read_file piece_start piece_end disk f buffer = elim (disk f.path) [
  | none ↦ buffer
  | some content ↦
      let read_start = max f.offset piece_start - f.offset in
      let read_end = min (file_end f) piece_end - f.offset in
      let buf_pos = max f.offset piece_start - piece_start in
      let read_size = if ltb f.size read_end then f.size - read_start else read_end - read_start in
      write_at buffer buf_pos (take read_size (drop read_start content))
]

unfoldable pub read_loop : ℕ → ℕ → Disk → List StoredFile → Bytes → Bytes
read_loop piece_start piece_end disk [] buffer = buffer
read_loop piece_start piece_end disk (f ∷ fs) buffer =
    let skip = read_loop piece_start piece_end disk fs buffer in
    let next =
      read_loop piece_start piece_end disk fs (read_file piece_start piece_end disk f buffer) in
    if leb piece_end f.offset
    then buffer
    else if leb (file_end f) piece_start
    then skip
    else if f.pad
    then skip
    else next

-- The piece buffer after `read_piece_data`.
unfoldable pub read_piece_data : ℕ → ℕ → ℕ → Disk → List StoredFile → Bytes
read_piece_data piece_index piece_length total_size disk files =
    let piece_start = piece_index * piece_length in
    let piece_end = min (piece_start + piece_length) total_size in
    let buffer = zeros (piece_end - piece_start) in
    elim (find_file_for_piece files piece_start) [
      | none ↦ buffer
      | some start_file ↦ read_loop piece_start piece_end disk (drop start_file files) buffer
    ]
