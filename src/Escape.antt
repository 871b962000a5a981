-- ===== src/Escape.antt =====
-- `url_encode` and `escape_json` of src/utils.cpp, with decoders that they are compared to.
pub mod Json
pub mod Percent
mod Examples
use torrent_builder.Common.{
  ℕ, zero, suc, ◌+◌, ◌-◌, ◌*◌, ◌/◌, ◌%◌, Bytes, List, [], ◌∷◌, ◌++◌, Bool, true, false, ◌&&◌, ◌||◌,
  ltb, leb, ◌==◌, if◌then◌else◌, Option, none, some, isdigit, codes,
}

-- An upper-case hexadecimal digit.
unfoldable pub hex_digit : ℕ → ℕ
hex_digit n = if ltb n 10 then b'0' + n else b'A' + (n - 10)

abbrev pub isalnum : ℕ → Bool
isalnum c = isdigit c || ((leb b'A' c && leb c b'Z') || (leb b'a' c && leb c b'z'))

abbrev pub is_unreserved : ℕ → Bool
is_unreserved c = isalnum c || (c == b'-' || (c == b'_' || (c == b'.' || c == b'~')))

-- One byte of `url_encode`.
unfoldable pub encode_byte : ℕ → Bytes
encode_byte c =
    if is_unreserved c
    then c ∷ []
    else if c == b' '
    then codes "%20"
    else b'%' ∷ hex_digit (c / 16) ∷ hex_digit (c % 16) ∷ []

unfoldable pub url_encode : Bytes → Bytes
url_encode [] = []
url_encode (c ∷ s) = encode_byte c ++ url_encode s

-- The letter of a short escape: the cases of the `switch`.
unfoldable pub short_escape : ℕ → Option ℕ
short_escape c =
    if c == b'"'
    then some b'"'
    else if c == b'\\'
    then some b'\\'
    else if c == 8
    then some b'b'
    else if c == 12
    then some b'f'
    else if c == 10
    then some b'n'
    else if c == 13
    then some b'r'
    else if c == 9
    then some b't'
    else none

-- `\u` and four hexadecimal digits, of which a byte needs the last two.
unfoldable pub unicode_escape : ℕ → Bytes
unicode_escape c = b'\\' ∷ b'u' ∷ b'0' ∷ b'0' ∷ hex_digit (c / 16) ∷ hex_digit (c % 16) ∷ []

-- One byte of `escape_json`.
unfoldable pub escape_byte : ℕ → Bytes
escape_byte c = elim (short_escape c) [
  | some letter ↦ b'\\' ∷ letter ∷ []
  | none ↦ if ltb c 32 then unicode_escape c else if leb 128 c then unicode_escape c else c ∷ []
]

unfoldable pub escape_json : Bytes → Bytes
escape_json [] = []
escape_json (c ∷ s) = escape_byte c ++ escape_json s
