-- ===== src/Text.antt =====
-- String helpers of src/utils.cpp (`to_lower`, `starts_with`, `join`, `split`) and src/updater.cpp
-- (`ends_with`), with the searches of `std::string` that the components use.
pub mod Laws
mod Examples
use torrent_builder.Common.{
  ℕ, suc, ◌+◌, ◌-◌, Bytes, List, [], ◌∷◌, ◌++◌, Bool, true, false, ◌&&◌, ltb, leb, ◌==◌,
  if◌then◌else◌, Option, none, some, is_empty, length, take, drop, map, bytes_eq,
}

-- `s.find(c)`: the position of the first `c`.
unfoldable pub find_byte : ℕ → Bytes → Option ℕ
find_byte c [] = none
find_byte c (d ∷ s) =
    if d == c then some 0 else elim (find_byte c s) [ none ↦ none | some i ↦ some (suc i) ]

-- `s.rfind(c)`: the position of the last `c`.
unfoldable pub rfind_byte : ℕ → Bytes → Option ℕ
rfind_byte c [] = none
rfind_byte c (d ∷ s) = elim (rfind_byte c s) [
  | none ↦ if d == c then some 0 else none
  | some i ↦ some (suc i)
]

-- Whether `s` begins with the bytes of `p`.
unfoldable pub is_prefix : Bytes → Bytes → Bool
is_prefix [] s = true
is_prefix (c ∷ p) [] = false
is_prefix (c ∷ p) (d ∷ s) = (c == d) && is_prefix p s

-- `s.find(p)` for a text `p`.
unfoldable pub find_text : Bytes → Bytes → Option ℕ
unfolding is_prefix
find_text p [] = if is_empty p then some 0 else none
find_text p (d ∷ s) =
    if is_prefix p (d ∷ s)
    then some 0
    else elim (find_text p s) [ none ↦ none | some i ↦ some (suc i) ]

-- `s.substr(pos, len)`.
abbrev pub substr : Bytes → ℕ → ℕ → Bytes
substr s pos len = take len (drop pos s)

-- `std::tolower` of a byte, in the "C" locale.
unfoldable pub tolower : ℕ → ℕ
tolower c = if leb b'A' c && leb c b'Z' then c + 32 else c

unfoldable pub to_lower : Bytes → Bytes
unfolding tolower
to_lower s = map tolower s

unfoldable pub starts_with : Bytes → Bytes → Bool
starts_with str prefix =
    if ltb (length str) (length prefix)
    then false
    else bytes_eq (substr str 0 (length prefix)) prefix

unfoldable pub ends_with : Bytes → Bytes → Bool
ends_with str suffix =
    if ltb (length str) (length suffix)
    then false
    else bytes_eq (substr str (length str - length suffix) (length suffix)) suffix

-- The loop of `join`, over the parts behind the first.
join_loop : Bytes → List Bytes → Bytes → Bytes
join_loop delimiter [] result = result
join_loop delimiter (p ∷ ps) result = join_loop delimiter ps (result ++ (delimiter ++ p))

unfoldable pub join : List Bytes → Bytes → Bytes
unfolding join_loop
join [] delimiter = []
join (p ∷ ps) delimiter = join_loop delimiter ps p

-- `if (!token.empty()) tokens.push_back(token);`
push_token : List Bytes → Bytes → List Bytes
push_token tokens token = if is_empty token then tokens else tokens ++ token ∷ []

-- The loop over `std::getline`: a token ends at a delimiter, or at the end of the text.
split_loop : ℕ → Bytes → List Bytes → Bytes → List Bytes
unfolding push_token
split_loop delimiter [] tokens token = push_token tokens token
split_loop delimiter (c ∷ s) tokens token = elim (c == delimiter) [
  | true ↦ split_loop delimiter s (push_token tokens token) []
  | false ↦ split_loop delimiter s tokens (token ++ c ∷ [])
]

unfoldable pub split : Bytes → ℕ → List Bytes
unfolding split_loop
split str delimiter = split_loop delimiter str [] []
