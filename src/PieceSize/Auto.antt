-- ===== src/PieceSize/Auto.antt =====
-- What `auto_piece_size` promises.
use torrent_builder.Common.{ℕ, ◌*◌, ◌/◌, ◌≤◌, ◌<◌, ◌≡◌, ◌⊎◌, true, All, arith}
use torrent_builder.PieceSize.{allowed_piece_sizes, contains, auto_piece_size}

-- A size is admissible for a total if it cuts it into fewer than 4096 whole pieces; the largest
-- allowed size is admissible for every total.
abbrev pub IsAdmissible : ℕ → ℕ → Type 0
IsAdmissible total kb = (total < 4096 * (kb * 1024)) ⊎ (kb ≡ 32768)

-- The automatic size is the least admissible one among the allowed sizes.
pub auto_piece_size-least :
    (total : ℕ)
    → (contains allowed_piece_sizes (auto_piece_size total / 1024) ≡ true)
      × (auto_piece_size total / 1024 * 1024 ≡ auto_piece_size total)
      × IsAdmissible total (auto_piece_size total / 1024)
      × All (λ kb. IsAdmissible total kb → auto_piece_size total ≤ kb * 1024) allowed_piece_sizes
unfolding auto_piece_size
auto_piece_size-least total = ground arith
