-- ===== src/InputPath.antt =====
-- `sanitize_path` of src/utils.cpp: a path as a user types or pastes it.
pub mod Laws
mod Examples
use torrent_builder.Common.{
  ℕ, ◌-◌, Bytes, List, [], ◌∷◌, ◌++◌, Bool, true, false, ◌&&◌, ◌||◌, ltb, leb, ◌==◌, if◌then◌else◌,
  is_empty, isspace, length, take, drop, get_or,
}

unfoldable pub ltrim : Bytes → Bytes
ltrim [] = []
ltrim (c ∷ s) = let rest = ltrim s in if isspace c then rest else c ∷ s

unfoldable pub rtrim : Bytes → Bytes
rtrim [] = []
rtrim (c ∷ s) = let rest = rtrim s in if is_empty rest && isspace c then [] else c ∷ rest

-- The two quotes around a text, if both are the same kind.
unfoldable pub is_quoted : Bytes → Bool
is_quoted s =
    let front = get_or s 0 0 in
    let back = get_or s (length s - 1) 0 in
    leb 2 (length s)
    && (((front == b'"') && (back == b'"')) || ((front == b'\'') && (back == b'\'')))

unfoldable pub unquote : Bytes → Bytes
unquote s = if is_quoted s then rtrim (ltrim (take (length s - 2) (drop 1 s))) else s

-- The loop: a backslash stands for the byte behind it, and the last byte is dropped if it is one.
unfoldable pub unescape : Bytes → Bytes
unescape [] = []
unescape (c ∷ []) = if c == b'\\' then [] else c ∷ []
unescape (c ∷ d ∷ s) =
    let skip = unescape s in
    let next = unescape (d ∷ s) in if c == b'\\' then d ∷ skip else c ∷ next

unfoldable pub sanitize_path : Bytes → Bytes
sanitize_path input = unescape (unquote (ltrim (rtrim input)))
