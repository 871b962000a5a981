-- ===== src/PieceSize.antt =====
-- The piece sizes: include/constants.hpp, and `auto_piece_size` and `piece_size_for_target_count`
-- of src/utils.cpp. An `int64_t` size is a natural number: the code takes the branch of zero for a
-- negative one.
pub mod Auto
pub mod Target
mod Examples
use torrent_builder.Common.{
  ℕ, ◌+◌, ◌-◌, ◌*◌, ◌/◌, ◌^◌, Bytes, List, [], ◌∷◌, Bool, true, false, ltb, leb, ◌==◌,
  if◌then◌else◌, any, Result, ok, err, guard, ◌>>=◌, ◌>>◌, codes,
}

-- `AllowedPieceSizes::values`, in KB.
abbrev pub allowed_piece_sizes : List ℕ
allowed_piece_sizes =
    16 ∷ 32 ∷ 64 ∷ 128 ∷ 256 ∷ 512 ∷ 1024 ∷ 2048 ∷ 4096 ∷ 8192 ∷ 16384 ∷ 32768 ∷ []

-- `std::ranges::contains` on a list of numbers.
abbrev pub contains : List ℕ → ℕ → Bool
contains xs x = any (λ y. y == x) xs

abbrev mib : ℕ
mib = 1024 * 1024

abbrev gib : ℕ
gib = 1024 * 1024 * 1024

unfoldable pub auto_piece_size : ℕ → ℕ
auto_piece_size total_size =
    if ltb total_size (64 * mib)
    then 16 * 1024
    else if ltb total_size (128 * mib)
    then 32 * 1024
    else if ltb total_size (256 * mib)
    then 64 * 1024
    else if ltb total_size (512 * mib)
    then 128 * 1024
    else if ltb total_size (1 * gib)
    then 256 * 1024
    else if ltb total_size (2 * gib)
    then 512 * 1024
    else if ltb total_size (4 * gib)
    then 1024 * 1024
    else if ltb total_size (8 * gib)
    then 2048 * 1024
    else if ltb total_size (16 * gib)
    then 4096 * 1024
    else if ltb total_size (32 * gib)
    then 8192 * 1024
    else if ltb total_size (64 * gib)
    then 16384 * 1024
    else 32768 * 1024

-- `(total_size + piece_bytes - 1) / piece_bytes`.
abbrev pub piece_count : ℕ → ℕ → ℕ
piece_count total_size piece_bytes = (total_size + piece_bytes - 1) / piece_bytes

-- `std::abs(a - b)`.
abbrev pub distance : ℕ → ℕ → ℕ
distance a b = (a - b) + (b - a)

abbrev pub int64_max : ℕ
int64_max = 2 ^ 63 - 1

-- How far the piece count of the allowed size `kb` lies from the target.
abbrev pub count_gap : ℕ → ℕ → ℕ → ℕ
count_gap total_size target kb = distance (piece_count total_size (kb * 1024)) target

-- The loop variables of `piece_size_for_target_count`.
pub record Best : Type 0 where
  pub piece_bytes : ℕ
  pub diff : ℕ

-- One round, for the allowed size `kb`.
unfoldable pub improve : ℕ → ℕ → ℕ → Best → Best
improve total_size target kb best =
    let piece_bytes = kb * 1024 in
    let diff = distance (piece_count total_size piece_bytes) target in
    if ltb diff best.diff then record { piece_bytes = piece_bytes; diff = diff } else best

-- `for (i = size - 1; i >= 0; --i)`: the last element of the list goes first.
unfoldable pub search_sizes : ℕ → ℕ → List ℕ → Best → Best
search_sizes total_size target [] best = best
search_sizes total_size target (kb ∷ kbs) best =
    improve total_size target kb (search_sizes total_size target kbs best)

unfoldable pub piece_size_for_target_count : ℕ → ℕ → Result Bytes ℕ
unfolding improve search_sizes
piece_size_for_target_count total_size target = do
  guard (ltb 0 total_size) (codes "total_size must be positive")
  guard (ltb 0 target) (codes "target_piece_count must be positive")
  let start : Best = record { piece_bytes = 16 * 1024; diff = int64_max }
  ok (search_sizes total_size target allowed_piece_sizes start).piece_bytes
