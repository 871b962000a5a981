-- ===== src/ContentSize.antt =====
-- `compute_content_size` of src/utils.cpp. A size is a natural number; logging is left out.
use torrent_builder.Common.{
  ℕ, ◌+◌, Bytes, List, [], ◌∷◌, Bool, true, false, if◌then◌else◌, Result, ok, err,
}

-- What the file system says of a path. An entry of the walk over a directory is an error, or says
-- whether it is a regular file, and its size. An error is the text of an exception.
pub record Sizes : Type 0 where
  pub is_directory : Bytes → Result Bytes Bool
  pub walk : Bytes → List (Result Bytes (Bool × ℕ))
  pub file_size : Bytes → Result Bytes ℕ

-- The loop over the directory. An exception ends it, and the sizes added up to there remain.
unfoldable pub add_sizes : List (Result Bytes (Bool × ℕ)) → ℕ → ℕ
add_sizes [] total_size = total_size
add_sizes (err e ∷ entries) total_size = total_size
add_sizes (ok (is_regular_file, size) ∷ entries) total_size =
    add_sizes entries (if is_regular_file then total_size + size else total_size)

unfoldable pub compute_content_size : Sizes → Bytes → ℕ
unfolding add_sizes
compute_content_size sizes path = elim (sizes.is_directory path) [
  | err e ↦ 0
  | ok true ↦ add_sizes (sizes.walk path) 0
  | ok false ↦ elim (sizes.file_size path) [ err e ↦ 0 | ok size ↦ size ]
]
