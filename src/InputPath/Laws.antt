-- ===== src/InputPath/Laws.antt =====
-- How a path can be typed.
use torrent_builder.Common.{◌≡◌, refl, ap, arith, Bytes, [], ◌∷◌, false, isspace}
use torrent_builder.InputPath.{ltrim, rtrim, is_quoted, unquote, unescape, sanitize_path}

-- A backslash in front of every byte.
abbrev pub escape_all : Bytes → Bytes
escape_all [] = []
escape_all (c ∷ s) = b'\\' ∷ c ∷ escape_all s

unescape-escape_all : (s : Bytes) → unescape (escape_all s) ≡ s
unfolding unescape
unescape-escape_all [] = refl
unescape-escape_all (c ∷ s) = ap (λ t. c ∷ t) (unescape-escape_all s)

-- The last byte is no space.
abbrev pub EndsSolid : Bytes → Type 0
EndsSolid [] = Unit
EndsSolid (c ∷ []) = isspace c ≡ false
EndsSolid (c ∷ d ∷ s) = EndsSolid (d ∷ s)

rtrim_solid : (s : Bytes) → EndsSolid s → rtrim s ≡ s
unfolding rtrim
rtrim_solid [] h = refl
rtrim_solid (c ∷ []) h = rw h refl
rtrim_solid (c ∷ d ∷ s) h = rw (rtrim_solid (d ∷ s) h) refl

escape_all-EndsSolid : (s : Bytes) → EndsSolid s → EndsSolid (escape_all s)
escape_all-EndsSolid [] h = tt
escape_all-EndsSolid (c ∷ []) h = h
escape_all-EndsSolid (c ∷ d ∷ s) h = escape_all-EndsSolid (d ∷ s) h

ltrim-escape_all : (s : Bytes) → ltrim (escape_all s) ≡ escape_all s
unfolding ltrim
ltrim-escape_all [] = refl
ltrim-escape_all (c ∷ s) = refl

quoted_escape : (s : Bytes) → is_quoted (escape_all s) ≡ false
unfolding is_quoted
quoted_escape [] = refl
quoted_escape (c ∷ s) = ground arith

-- A path that does not end in a space is read back if it is typed with a backslash in front of every
-- byte.
pub sanitize_path-escape_all : (s : Bytes) → EndsSolid s → sanitize_path (escape_all s) ≡ s
unfolding sanitize_path unquote
sanitize_path-escape_all s h =
    rw (rtrim_solid (escape_all s) (escape_all-EndsSolid s h), ltrim-escape_all s, quoted_escape s)
      (unescape-escape_all s)
