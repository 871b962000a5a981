-- ===== src/Escape/Examples.antt =====
-- Runs of the escape functions, and their theorems at concrete texts.
use torrent_builder.Common.{◌≡◌, refl, Bytes, [], ◌∷◌, ◌++◌, codes, arith, some}
use torrent_builder.Escape.{
  hex_digit, encode_byte, url_encode, short_escape, unicode_escape, escape_byte, escape_json,
}
use torrent_builder.Escape.Json.{copying, json_read, escape_json-json_read}

-- "é" in UTF-8.
abbrev accented : Bytes
accented = 195 ∷ 169 ∷ []

encoded : url_encode (codes "a b/" ++ accented) ≡ codes "a%20b%2F%C3%A9"
unfolding url_encode encode_byte hex_digit
encoded = refl

escaped : escape_json (b'"' ∷ 10 ∷ accented) ≡ codes "\\\"\\n\\u00C3\\u00A9"
unfolding escape_json escape_byte short_escape unicode_escape hex_digit
escaped = refl

-- The reader gets a quote and the two characters U+00C3 and U+00A9.
escape_json-json_read_example :
    json_read copying (escape_json (b'"' ∷ accented) ++ b'"' ∷ codes " }")
    ≡ some (b'"' ∷ accented, codes " }")
escape_json-json_read_example =
    escape_json-json_read (b'"' ∷ accented) (codes " }")
      (omega arith, (omega arith, (omega arith, tt)))
