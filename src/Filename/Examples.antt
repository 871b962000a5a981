-- ===== src/Filename/Examples.antt =====
-- Runs of the file name functions, and their theorems at concrete names.
use torrent_builder.Common.{
  ◌+◌, ◌-◌, ◌≡◌, ◌<◌, ◌≤◌, to_string, refl, List, Bytes, [], ◌∷◌, ◌++◌, Bool, false, All, length,
  take, is_empty, if◌then◌else◌, ok, codes, none, arith, bytes_eq, ◌||◌,
}
use torrent_builder.Text.{rfind_byte}
use torrent_builder.Filename.{
  is_replaced, sanitize_loop, sanitize_filename_part, extension, is_lead, is_continuation,
  expected_continuations, walk_back, settle, cut_length, truncate_filename, candidate,
  candidate_with, collision_loop, resolve_collision,
}
use torrent_builder.Filename.Truncate.Chars.{IsChar}
use torrent_builder.Filename.Truncate.Utf8.{flatten, NextTooLong, truncate_filename-flatten}
use torrent_builder.Filename.Collision.{resolve_collision_free}
use torrent_builder.Yaml.{pos}
use torrent_builder.Filename.Output.{Paths, generate_output_filename}
use torrent_builder.Filename.Output.Clean.{IsSafe, generate_output_filename-IsSafe}

cleaned : sanitize_filename_part (codes "a<b>?c__d") ≡ codes "a_b_c_d"
unfolding sanitize_filename_part sanitize_loop is_replaced
cleaned = refl

-- "aé.mkv", with é in two bytes.
abbrev accented : Bytes
accented = codes "a" ++ 195 ∷ 169 ∷ codes ".mkv"

accented_cut : truncate_filename accented 6 ≡ codes "a.mkv"
unfolding truncate_filename extension rfind_byte cut_length walk_back settle is_lead is_continuation
    expected_continuations
accented_cut = refl

abbrev taken : Bytes → Bool
taken name = bytes_eq name (codes "x.torrent") || bytes_eq name (codes "x(1).torrent")

second_candidate :
    resolve_collision taken (codes "/d") (codes "x.torrent") 0 ≡ ok (codes "x(2).torrent")
unfolding resolve_collision extension rfind_byte candidate candidate_with collision_loop to_string
second_candidate = refl

abbrev accented_chars : List Bytes
accented_chars = codes "a" ∷ (195 ∷ 169 ∷ []) ∷ codes "." ∷ codes "m" ∷ codes "k" ∷ codes "v" ∷ []

accented_chars-IsChar : All IsChar accented_chars
accented_chars-IsChar = ground arith

truncate_filename-flatten_example :
    (kept rest : List Bytes) × (accented_chars ≡ kept ++ rest)
    × (length (flatten kept) + length (extension (flatten accented_chars)) ≤ 6)
    × NextTooLong rest (length (flatten kept)) (6 - length (extension (flatten accented_chars)))
    × (truncate_filename (flatten accented_chars) 6
        ≡ (if is_empty (flatten kept) then take 1 (flatten accented_chars) else flatten kept)
          ++ extension (flatten accented_chars))
unfolding extension rfind_byte
truncate_filename-flatten_example =
    truncate_filename-flatten accented_chars 6 accented_chars-IsChar (omega arith) (omega arith)

resolve_collision_free_example :
    (taken (codes "x(2).torrent") ≡ false)
    × (0 < 0 → length (codes "x.torrent") ≤ 0 → length (codes "x(2).torrent") ≤ 0)
resolve_collision_free_example =
    resolve_collision_free taken (codes "/d") (codes "x.torrent") 0 (codes "x(2).torrent")
      second_candidate

abbrev paths : Paths
paths = record {
  canonical = λ path. none;
  absolute = λ path. codes "/work/" ++ path;
  current_path = codes "/work";
  is_regular_file = λ path. bytes_eq path (codes "/d/my:film.mkv");
}

generate_output_filename-IsSafe_example :
    (name : Bytes) × (generate_output_filename paths
        (codes "/d/my:film.mkv")
        (codes "https://t.org/a" ∷ [])
        false
        (pos 0)
      ≡ name ++ codes ".torrent")
    × All IsSafe (name ++ codes ".torrent")
generate_output_filename-IsSafe_example =
    generate_output_filename-IsSafe paths (codes "/d/my:film.mkv") (codes "https://t.org/a" ∷ [])
      false (pos 0)
