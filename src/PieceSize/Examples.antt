-- ===== src/PieceSize/Examples.antt =====
-- Runs of the piece size functions, and the theorems at concrete inputs.
use torrent_builder.Common.{ℕ, ◌*◌, ◌≡◌, refl, arith, ok, err, codes}
use torrent_builder.PieceSize.{auto_piece_size, piece_size_for_target_count}
use torrent_builder.PieceSize.Target.{IsNearest, piece_size_for_target_count-IsNearest}

auto_700_mib : auto_piece_size (700 * 1024 * 1024) ≡ 256 * 1024
unfolding auto_piece_size
auto_700_mib = refl

target_1000 : piece_size_for_target_count (700 * 1024 * 1024) 1000 ≡ ok (1024 * 1024)
unfolding piece_size_for_target_count
target_1000 = refl

target_zero : piece_size_for_target_count 5 0 ≡ err (codes "target_piece_count must be positive")
unfolding piece_size_for_target_count
target_zero = refl

piece_size_for_target_count-IsNearest_example :
    (kb : ℕ) × (piece_size_for_target_count 700000000 1000 ≡ ok (kb * 1024))
    × IsNearest 700000000 1000 kb
piece_size_for_target_count-IsNearest_example =
    piece_size_for_target_count-IsNearest 700000000 1000 (omega arith) (omega arith) (omega arith)
      (omega arith)
