-- ===== src/Checker/Examples.antt =====
-- Two files with padding between them, a piece read from them, and the theorems at that torrent.
use torrent_builder.Common.{
  ◌+◌, ◌-◌, ◌*◌, ◌≡◌, refl, List, [], ◌∷◌, true, false, inl, inr, none, some, take, drop, bytes_eq,
  codes, if◌then◌else◌, arith,
}
use Prim.Native.Nat.{min}
use torrent_builder.Checker.{
  StoredFile, Disk, find_file_for_piece, read_piece_data, read_loop, read_file, write_at,
}
use torrent_builder.Checker.Read.{stream, IsComplete}
use torrent_builder.Checker.Piece.{read_piece_data-stream}

abbrev disk : Disk
disk path =
    if bytes_eq path (codes "a.mkv")
    then some (codes "abcdef")
    else if bytes_eq path (codes "b.srt")
    then some (codes "XYZ")
    else none

abbrev files : List StoredFile
files =
    record { offset = 0; size = 6; pad = false; path = codes "a.mkv" }
    ∷ record { offset = 6; size = 2; pad = true; path = codes ".pad/2" }
    ∷ record { offset = 8; size = 3; pad = false; path = codes "b.srt" }
    ∷ []

disk-IsComplete : IsComplete disk files
disk-IsComplete =
    (inr (codes "abcdef", refl, refl, refl), (inl refl, (inr (codes "XYZ", refl, refl, refl), tt)))

second_piece : read_piece_data 1 4 11 disk files ≡ b'e' ∷ b'f' ∷ 0 ∷ 0 ∷ []
unfolding read_piece_data find_file_for_piece read_loop read_file write_at
second_piece = refl

last_piece : read_piece_data 2 4 11 disk files ≡ codes "XYZ"
unfolding read_piece_data find_file_for_piece read_loop read_file write_at
last_piece = refl

read_piece_data-stream_example :
    read_piece_data 1 4 11 disk files
    ≡ take (min (1 * 4 + 4) 11 - 1 * 4) (drop (1 * 4) (stream disk files))
read_piece_data-stream_example =
    read_piece_data-stream 1 4 11 disk files (omega arith) disk-IsComplete refl (omega arith)
      (omega arith)
