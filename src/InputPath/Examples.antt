-- ===== src/InputPath/Examples.antt =====
-- Runs of `sanitize_path`, and its theorem at a concrete path.
use torrent_builder.Common.{◌≡◌, refl, codes}
use torrent_builder.InputPath.{ltrim, rtrim, is_quoted, unquote, unescape, sanitize_path}

quoted : sanitize_path (codes " '/my films/a' ") ≡ codes "/my films/a"
unfolding sanitize_path unquote is_quoted ltrim rtrim unescape
quoted = refl
