-- ===== src/Rules/Cap.antt =====
-- The cap of a rule's `max_piece_length`.
use torrent_builder.Common.{ℕ, ◌≤◌, ◌<◌, ◌≡◌, true, All, arith}
use torrent_builder.PieceSize.{allowed_piece_sizes, contains}
use torrent_builder.Rules.{capped_kb}

capped_kb-contains : (max_kb : ℕ) → contains allowed_piece_sizes (capped_kb max_kb) ≡ true
unfolding capped_kb
capped_kb-contains max_kb = ground arith

capped_kb-below : (max_kb : ℕ) → max_kb < 16 → capped_kb max_kb ≡ 16
unfolding capped_kb
capped_kb-below max_kb h = ground arith

capped_kb-le : (max_kb : ℕ) → 16 ≤ max_kb → capped_kb max_kb ≤ max_kb
unfolding capped_kb
capped_kb-le max_kb h = ground arith

capped_kb-ge : (max_kb : ℕ) → All (λ kb. kb ≤ max_kb → kb ≤ capped_kb max_kb) allowed_piece_sizes
unfolding capped_kb
capped_kb-ge max_kb = ground arith

-- The capped size is an allowed size; from 16 KB on it is the largest allowed size that is not above
-- the cap, and below 16 KB there is none, and it is the smallest allowed size.
pub capped_kb-largest :
    (max_kb : ℕ)
    → (contains allowed_piece_sizes (capped_kb max_kb) ≡ true)
      × (16 ≤ max_kb → capped_kb max_kb ≤ max_kb)
      × All (λ kb. kb ≤ max_kb → kb ≤ capped_kb max_kb) allowed_piece_sizes
      × (max_kb < 16 → capped_kb max_kb ≡ 16)
capped_kb-largest max_kb =
    (capped_kb-contains max_kb, capped_kb-le max_kb, capped_kb-ge max_kb, capped_kb-below max_kb)
