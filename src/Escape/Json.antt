-- ===== src/Escape/Json.antt =====
-- What a JSON reader makes of the result of `escape_json`.
use torrent_builder.Common.{
  ℕ, zero, suc, ◌+◌, ◌-◌, ◌*◌, ◌/◌, ◌%◌, ◌<◌, ◌≡◌, refl, ◌∙◌, arith, Bytes, List, [], ◌∷◌, ◌++◌,
  false, ltb, leb, ◌==◌, if◌then◌else◌, Bool-cases, inl, inr, none, some, Option, Option-cases, All,
  append_assoc, Bool, true, isdigit, ◌&&◌, ◌||◌, ap,
}
use torrent_builder.Escape.{hex_digit, short_escape, unicode_escape, escape_byte, escape_json}

-- The number of an upper-case hexadecimal digit.
abbrev pub hex_value : ℕ → ℕ
hex_value d = if ltb d b'A' then d - b'0' else d - b'A' + 10

pub hex_value-hex_digit : (n : ℕ) → n < 16 → hex_value (hex_digit n) ≡ n
unfolding hex_digit
hex_value-hex_digit n h = ground arith

abbrev pub is_hex : ℕ → Bool
is_hex d = isdigit d || ((leb b'A' d && leb d b'F') || (leb b'a' d && leb d b'f'))

pub is_hex-hex_digit : (n : ℕ) → n < 16 → is_hex (hex_digit n) ≡ true
unfolding hex_digit
is_hex-hex_digit n h = elim (Bool-cases (ltb n 10)) [
  | inl small ↦ rw small (ground arith)
  | inr big ↦ rw big (ground arith)
]

-- Inside a JSON string a reader copies, is behind a backslash, or expects hexadecimal digits.
pub data Reading : Type 0 where
  copying : Reading
  escaped : Reading
  digits : ℕ → ℕ → Reading

-- The escapes of one letter: \b \f \n \r \t \" \\ \/ and no other.
abbrev pub unescape : ℕ → Option ℕ
unescape e =
    if e == b'b'
    then some 8
    else if e == b'f'
    then some 12
    else if e == b'n'
    then some 10
    else if e == b'r'
    then some 13
    else if e == b't'
    then some 9
    else if (e == b'"') || ((e == b'\\') || (e == b'/'))
    then some e
    else none

-- What a reader has of a string: its code points, and the text behind the closing quote.
abbrev pub Rest : Type 0
Rest = Option (List ℕ × Bytes)

abbrev pub cons_point : ℕ → Rest → Rest
cons_point c none = none
cons_point c (some (points, rest)) = some (c ∷ points, rest)

-- Reads an ASCII text from behind the opening quote of a JSON string. It ends at the closing quote, and
-- it fails at a control character, at a byte that is not ASCII, at an escape that JSON has not and where
-- the text ends before the string. `digits k n` expects `k + 1` more digits behind the number `n`.
abbrev pub json_read : Reading → Bytes → Rest
json_read r [] = none
json_read copying (c ∷ s) =
    let plain = json_read copying s in
    let escape = json_read escaped s in
    if c == b'"'
    then some ([], s)
    else if ltb c 32 || leb 128 c
    then none
    else if c == b'\\'
    then escape
    else cons_point c plain
json_read escaped (e ∷ s) =
    let plain = json_read copying s in
    let number = json_read (digits 3 0) s in
    if e == b'u' then number else (elim (unescape e) [ none ↦ none | some c ↦ cons_point c plain ])
json_read (digits zero n) (d ∷ s) =
    let plain = json_read copying s in
    if is_hex d then cons_point (n * 16 + hex_value d) plain else none
json_read (digits (suc k) n) (d ∷ s) =
    let further = json_read (digits k (n * 16 + hex_value d)) s in
    if is_hex d then further else none

short_escape-unescape :
    (c letter : ℕ)
    → short_escape c ≡ some letter
    → (unescape letter ≡ some c) × ((letter == b'u') ≡ false)
unfolding short_escape
short_escape-unescape c letter h = ground arith

no_escape : (c : ℕ) → short_escape c ≡ none → ((c == b'\\') ≡ false) × ((c == b'"') ≡ false)
unfolding short_escape
no_escape c h = ground arith

read_unicode :
    (c : ℕ) (t : Bytes)
    → c < 256
    → json_read copying (unicode_escape c ++ t) ≡ cons_point c (json_read copying t)
unfolding unicode_escape
read_unicode c t h =
    rw
      (
        is_hex-hex_digit (c / 16) (omega (arith, h)),
        is_hex-hex_digit (c % 16) (omega arith),
        hex_value-hex_digit (c / 16) (omega (arith, h)),
        hex_value-hex_digit (c % 16) (omega arith),
      )
      (ap (λ n. cons_point n (json_read copying t)) (omega (arith, h)))

read_plain :
    (c : ℕ) (t : Bytes)
    → ((c == b'\\') ≡ false) × ((c == b'"') ≡ false)
    → (ltb c 32 || leb 128 c) ≡ false
    → json_read copying (c ∷ t) ≡ cons_point c (json_read copying t)
read_plain c t (no_slash, no_quote) ascii = rw (no_quote, ascii, no_slash) refl

read_short :
    (c letter : ℕ) (t : Bytes)
    → short_escape c ≡ some letter
    → json_read copying (b'\\' ∷ letter ∷ t) ≡ cons_point c (json_read copying t)
read_short c letter t h =
    let (value, no_number) = short_escape-unescape c letter h in rw (no_number, value) refl

read_byte :
    (c : ℕ) (t : Bytes)
    → c < 256
    → json_read copying (escape_byte c ++ t) ≡ cons_point c (json_read copying t)
unfolding escape_byte
read_byte c t h = elim (Option-cases (short_escape c)) [
  | inr (letter, e) ↦ rw (e, escape_byte) (read_short c letter t e)
  | inl e ↦ elim (Bool-cases (ltb c 32)) [
    | inl low ↦ rw (e, escape_byte, low) (read_unicode c t h)
    | inr printable ↦ elim (Bool-cases (leb 128 c)) [
      | inl high ↦ rw (e, escape_byte, printable, high) (read_unicode c t h)
      | inr ascii ↦
          rw (e, escape_byte, printable, ascii)
            (read_plain c t (no_escape c e) (rw (printable, ascii) refl))
    ]
  ]
]

-- Between quotes, the result for a text of bytes is a JSON string in ASCII: a reader ends at the closing
-- quote and gives one code point per byte, each with the value of the byte, and what stands behind.
pub escape_json-json_read :
    (s rest : Bytes)
    → All (λ c. c < 256) s
    → json_read copying (escape_json s ++ b'"' ∷ rest) ≡ some (s, rest)
unfolding escape_json
escape_json-json_read [] rest h = refl
escape_json-json_read (c ∷ s) rest (byte, h) =
    ap (json_read copying) (append_assoc (escape_byte c) (escape_json s) (b'"' ∷ rest))
    ∙ (read_byte c (escape_json s ++ b'"' ∷ rest) byte
        ∙ ap (cons_point c) (escape_json-json_read s rest h))
