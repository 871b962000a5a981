-- ===== src/Checker/Verify/Examples.antt =====
-- A torrent of two files, its check, and the theorems at it. The hash of a text is the text itself.
use torrent_builder.Common.{
  ℕ, ◌+◌, ◌<◌, ◌≡◌, ◌↔◌, ◌⊎◌, refl, inr, List, [], ◌∷◌, ◌++◌, true, false, ◌==◌, if◌then◌else◌,
  none, some, All, ok, err, codes, bytes_eq, arith,
}
use torrent_builder.Text.{to_lower, tolower}
use torrent_builder.Checker.{
  Disk, find_file_for_piece, read_piece_data, read_loop, read_file, write_at,
}
use torrent_builder.Common.{Bytes, Result, err}
use torrent_builder.Checker.Verify.{
  DirEntry, CheckResult, TorrentInfo, Hashers, verify_piece_v1, piece_ok, verify_loop,
  verify_all_pieces, check_missing_files, file_result, torrent_paths, extra_loop, find_extra_files,
  verified_size, check,
}
use torrent_builder.Checker.Verify.Files.{IsPresent, AllVerified, check_lem}
use torrent_builder.Checker.Verify.Intact.{IsStored, IsHashed, check-IsHashed}

abbrev identity : Hashers
identity = record { sha1 = λ b. b; sha256 = λ b. b }

abbrev disk : Disk
disk path =
    if bytes_eq path (codes "A.mkv")
    then some (codes "abc")
    else if bytes_eq path (codes "b.srt")
    then some (codes "defg")
    else none

abbrev two_files : TorrentInfo
two_files = record {
  files =
      record { offset = 0; size = 3; pad = false; path = codes "A.mkv" }
      ∷ record { offset = 3; size = 4; pad = false; path = codes "b.srt" }
      ∷ [];
  piece_length = 4;
  total_size = 7;
  num_pieces = 2;
  has_v1 = true;
  has_v2 = false;
  hash_for_piece = λ i. if i == 0 then codes "abcd" else codes "efX";
  piece_layer = λ i. [];
}

abbrev walk : List DirEntry
walk =
    record { path = codes "a.MKV"; is_symlink = false; is_regular_file = true; size = some 3 }
    ∷ record { path = codes "c.txt"; is_symlink = false; is_regular_file = true; size = some 9 }
    ∷ []

program : Unit {0}
unfolding read_piece_data find_file_for_piece read_loop read_file write_at verify_piece_v1 piece_ok
    verify_loop verify_all_pieces check_missing_files file_result torrent_paths extra_loop
    find_extra_files verified_size check to_lower tolower
program = tt

corrupted : verify_all_pieces identity two_files disk ≡ record { index = 1; offset = 4 } ∷ []
unfolding program
corrupted = refl

extra :
    find_extra_files (torrent_paths two_files.files) (ok walk)
    ≡ ok (record { path = codes "c.txt"; size = 9 } ∷ [])
unfolding program
extra = refl

stored : IsStored identity two_files disk
stored = record {
  laid = (refl, (refl, tt));
  complete = (inr (codes "abc", refl, refl, refl), (inr (codes "defg", refl, refl, refl), tt));
  total = refl;
  some_byte = omega arith;
  inside = λ i lt. omega (arith, lt);
  is_v1 = refl;
  only_v1 = refl;
}

check-IsHashed_example :
    (result : CheckResult) × (check identity two_files true (codes "/data") disk (ok walk)
      ≡ ok result)
    × ((result.passed ≡ true) ↔ ((i : ℕ) → i < 2 → IsHashed identity two_files disk i))
check-IsHashed_example = check-IsHashed identity two_files disk (codes "/data") walk stored

check_lem_example :
    ((true ≡ true)
      × (entries : List DirEntry) × (◌≡◌ {A = Result Bytes (List DirEntry)} (ok walk) (ok entries))
      × (result : CheckResult) × (check identity two_files true (codes "/data") disk (ok walk)
          ≡ ok result)
      × ((result.passed ≡ true)
          ↔ (All (IsPresent disk) two_files.files × AllVerified identity two_files disk))
      × (result.pieces_verified + result.pieces_corrupted ≡ result.pieces_total))
    ⊎ ((true ≡ true)
        × (e : Bytes) × (◌≡◌ {A = Result Bytes (List DirEntry)} (ok walk) (err e))
        × (check identity two_files true (codes "/data") disk (ok walk) ≡ err e))
    ⊎ ((true ≡ false)
        × (check identity two_files true (codes "/data") disk (ok walk)
            ≡ err (codes "Content path does not exist: " ++ codes "/data")))
check_lem_example = check_lem identity two_files disk true (codes "/data") (ok walk)
