-- ===== src/Filename.antt =====
-- File names: `sanitize_filename_part`, `truncate_filename`, `resolve_collision` and the generated
-- output name, src/utils.cpp. Names are bytes, each below 256.
pub mod Sanitize
pub mod Truncate
pub mod Collision
pub mod Output
mod Examples
use torrent_builder.Common.{
  ℕ, zero, suc, ◌+◌, ◌-◌, ◌*◌, ◌/◌, Bytes, List, [], ◌∷◌, ◌++◌, Bool, true, false, not, ◌&&◌, ◌||◌,
  ltb, leb, ◌==◌, if◌then◌else◌, Option, none, some, Result, ok, err, any, length, take, drop,
  get_or, codes, to_string,
}
use torrent_builder.Text.{rfind_byte}

-- The bytes that a file name may not hold, and the underscore itself.
unfoldable pub is_replaced : ℕ → Bool
is_replaced c = any (λ d. d == c) (codes ":<>\"|?*\\/_")

-- The loop of `sanitize_filename_part`, with `prev_underscore`.
unfoldable pub sanitize_loop : Bytes → Bytes → Bool → Bytes
sanitize_loop [] result prev_underscore = result
sanitize_loop (c ∷ s) result prev_underscore = elim (is_replaced c) [
  | true ↦ sanitize_loop s (if prev_underscore then result else result ++ b'_' ∷ []) true
  | false ↦ sanitize_loop s (result ++ c ∷ []) false
]

unfoldable pub sanitize_filename_part : Bytes → Bytes
sanitize_filename_part part = sanitize_loop part [] false

-- The extension, with its dot: none if the only dot stands first.
unfoldable pub extension : Bytes → Bytes
extension filename = elim (rfind_byte b'.' filename) [
  | none ↦ []
  | some dot_pos ↦ if ltb 0 dot_pos then drop dot_pos filename else []
]

-- `(c & 0xC0) == 0x80`: the two high bits of a byte are 10.
unfoldable pub is_continuation : ℕ → Bool
is_continuation c = c / 64 == 2

-- `(c & 0xC0) == 0xC0`: the two high bits are 11.
unfoldable pub is_lead : ℕ → Bool
is_lead c = c / 64 == 3

-- How many continuation bytes follow a lead byte: `(c & 0xF0) == 0xE0`, `(c & 0xF8) == 0xF0`.
unfoldable pub expected_continuations : ℕ → ℕ
expected_continuations c = if c / 16 == 14 then 2 else if c / 8 == 30 then 3 else 1

-- `while (available > 0 && …) --available;`
unfoldable pub walk_back : Bytes → ℕ → ℕ
walk_back s zero = 0
walk_back s (suc n) =
    let further = walk_back s n in if is_continuation (get_or s n 0) then further else suc n

-- Keeps the character whose lead byte is the last byte, if it fits, and drops the lead byte if not.
unfoldable pub settle : Bytes → ℕ → ℕ → ℕ
settle s orig_available zero = 0
settle s orig_available (suc n) =
    let expected = expected_continuations (get_or s n 0) in
    if is_lead (get_or s n 0)
    then (if leb (suc n + expected) orig_available then suc n + expected else n)
    else suc n

-- The number of bytes to keep in front of the extension.
unfoldable pub cut_length : Bytes → ℕ → ℕ
cut_length s available = settle s available (walk_back s available)

unfoldable pub truncate_filename : Bytes → ℕ → Bytes
truncate_filename filename max_bytes =
    let ext = extension filename in
    let available = cut_length filename (max_bytes - length ext) in
    if leb (length filename) max_bytes
    then filename
    else if leb max_bytes (length ext)
    then filename
    else take (if available == 0 then 1 else available) filename ++ ext

-- `while (size() > 1 && …) pop_back();` over a stem of `n` bytes.
unfoldable pub strip_continuations : Bytes → ℕ → ℕ
strip_continuations s zero = 0
strip_continuations s (suc n) =
    let further = strip_continuations s n in
    if ltb 0 n && is_continuation (get_or s n 0) then further else suc n

-- `if (size() > 1 && …) pop_back();`
unfoldable pub strip_lead : Bytes → ℕ → ℕ
strip_lead s zero = 0
strip_lead s (suc n) = if ltb 0 n && is_lead (get_or s n 0) then n else suc n

-- The candidate name with a suffix; none where the suffix leaves no room (`continue`).
unfoldable pub candidate_with : Bytes → Bytes → Bytes → ℕ → Option Bytes
candidate_with stem suffix ext max_bytes =
    let max_stem = max_bytes - (length suffix + length ext) in
    if ltb 0 max_bytes && ltb max_bytes (length stem + length suffix + length ext)
    then (if max_stem == 0
        then none
        else some
            (take (strip_lead stem (strip_continuations stem max_stem)) stem ++ (suffix ++ ext)))
    else some (stem ++ (suffix ++ ext))

-- The candidate with the number `i`.
unfoldable pub candidate : Bytes → Bytes → ℕ → ℕ → Option Bytes
candidate stem ext max_bytes i =
    candidate_with stem (codes "(" ++ (to_string i ++ codes ")")) ext max_bytes

-- The text of the exception after 1000 attempts.
unfoldable pub collision_message : Bytes → Bytes → Bytes
collision_message directory base_filename =
    codes "Could not resolve filename collision for '"
    ++ (base_filename ++ (codes "' in directory '" ++ (directory ++ codes "' after 1000 attempts")))

module _ (exists : Bytes → Bool) where
  -- `for (int i = 1; i <= 1000; ++i)`, with the rounds that are left.
  unfoldable pub collision_loop : Bytes → Bytes → ℕ → ℕ → ℕ → Option Bytes
  collision_loop stem ext max_bytes zero i = none
  collision_loop stem ext max_bytes (suc rounds) i =
      let further = collision_loop stem ext max_bytes rounds (i + 1) in
      elim (candidate stem ext max_bytes i) [
        | none ↦ further
        | some name ↦ if exists name then further else some name
      ]

  -- `exists` says whether the directory holds a file of that name.
  unfoldable pub resolve_collision : Bytes → Bytes → ℕ → Result Bytes Bytes
  unfolding collision_message
  resolve_collision directory base_filename max_bytes =
      let ext = extension base_filename in
      let stem = take (length base_filename - length ext) base_filename in
      if not (exists base_filename)
      then ok base_filename
      else (elim (collision_loop stem ext max_bytes 1000 1) [
        | none ↦ err (collision_message directory base_filename)
        | some name ↦ ok name
      ])
