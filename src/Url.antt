-- ===== src/Url.antt =====
-- `is_valid_url` of src/utils.cpp.
pub mod Laws
mod Examples
use torrent_builder.Common.{
  Bytes, List, [], ◌∷◌, Bool, not, ◌&&◌, ◌||◌, ◌==◌, all, any, is_empty, length, drop, codes,
  if◌then◌else◌, false,
}
use torrent_builder.Text.{starts_with, to_lower}

-- What `.` matches in a regular expression: any byte but a line terminator.
abbrev pub is_dot : Bytes → Bool
is_dot s = all (λ c. not ((c == b'\n') || (c == b'\r'))) s

-- A match of the whole text with `scheme://.+`, without regard to case.
unfoldable pub matches_scheme : Bytes → Bytes → Bool
matches_scheme url scheme =
    let rest = drop (length scheme) url in
    starts_with (to_lower url) scheme && (not (is_empty rest) && is_dot rest)

-- `^(http|https|udp)://.+$`
unfoldable pub is_valid_url : Bytes → Bool
is_valid_url url =
    any (matches_scheme url) (codes "http://" ∷ codes "https://" ∷ codes "udp://" ∷ [])
