-- ===== src/SeasonPack.antt =====
-- Season packs: src/season_pack.cpp and include/season_pack.hpp. Logging is left out.
pub mod Search
pub mod Analyze
pub mod Warning
pub mod Gaps
pub mod Episodes
pub mod Order
pub mod Laws
mod Tests
mod Examples
use torrent_builder.Common.{
  ℕ, suc, ◌+◌, ◌-◌, ◌≤◌, Bytes, List, [], ◌∷◌, ◌++◌, Bool, true, false, not, ◌&&◌, ◌||◌, ltb, leb,
  ◌==◌, if◌then◌else◌, Option, none, some, is_empty, length, drop, take, any, codes, to_string,
  decimal, bytes_eq, isspace, isdigit,
}
use torrent_builder.Text.{to_lower}
use torrent_builder.Filename.Output.{filename, stem}
use torrent_builder.SeasonPack.Search.{
  Regex, empty, class, many, number, line_start, line_end, either, ◌⨟◌, text, some_of, optional,
  regex_search,
}

-- `safe_stoi` of a group, which is one to three digits.
unfoldable pub safe_stoi : Bytes → ℕ
safe_stoi s = decimal s 0

-- `\.|-|_|\s`
abbrev separator : ℕ → Bool
separator c = (c == b'.') || ((c == b'-') || ((c == b'_') || isspace c))

-- `[-_\s]`
abbrev dash_or_space : ℕ → Bool
dash_or_space c = (c == b'-') || ((c == b'_') || isspace c)

-- `[/\\]`
abbrev slash : ℕ → Bool
slash c = (c == b'/') || (c == b'\\')

abbrev pub season_patterns : List Regex
season_patterns =
    (text ".S" ⨟ number 2 ⨟ class separator ⨟ text "Complete")
    ∷ (text ".Season." ⨟ number 2 ⨟ text ".")
    ∷ (text ".S" ⨟ number 2 ⨟ many separator ⨟ line_end)
    ∷ (class dash_or_space ⨟ text "S" ⨟ number 2 ⨟ class dash_or_space)
    ∷ (class slash ⨟ text "Season" ⨟ many isspace ⨟ number 2 ⨟ class slash)
    ∷ (class slash ⨟ text "S" ⨟ number 2 ⨟ class slash)
    ∷ (text ".S"
        ⨟ number 2
        ⨟ text "."
        ⨟ either (some_of isdigit ⨟ text "p") (either (text "Complete") (text "COMPLETE")))
    ∷ (text "Season" ⨟ many isspace ⨟ number 2 ⨟ either (class slash) line_end)
    ∷ (text ".S" ⨟ number 2 ⨟ line_end)
    ∷ []

-- The season's digits are no group here, so the group is dropped.
abbrev season_digits : Regex
season_digits = class isdigit ⨟ optional (class isdigit)

abbrev pub episode_pattern : Regex
episode_pattern = text "S" ⨟ season_digits ⨟ text "E" ⨟ number 3

abbrev pub multi_episode_pattern : Regex
multi_episode_pattern =
    text "S"
    ⨟ season_digits
    ⨟ text "E"
    ⨟ number 3
    ⨟ either (text "-" ⨟ optional (text "E")) (text "E")
    ⨟ number 3

abbrev pub season_in_filename_pattern : Regex
season_in_filename_pattern = text "S" ⨟ number 2

abbrev pub alt_episode_pattern : Regex
alt_episode_pattern =
    either line_start (class separator)
    ⨟ number 2
    ⨟ text "x"
    ⨟ number 3
    ⨟ either (class separator) line_end

abbrev pub video_extensions : List Bytes
video_extensions =
    codes ".mkv"
    ∷ codes ".mp4"
    ∷ codes ".avi"
    ∷ codes ".ts"
    ∷ codes ".m2ts"
    ∷ codes ".webm"
    ∷ codes ".flv"
    ∷ codes ".wmv"
    ∷ codes ".mov"
    ∷ codes ".m4v"
    ∷ codes ".mpg"
    ∷ codes ".mpeg"
    ∷ codes ".ogv"
    ∷ []

-- `path.extension()` of a file name.
unfoldable pub file_extension : Bytes → Bytes
file_extension name = drop (length (stem name)) name

unfoldable pub is_video_file : Bytes → Bool
unfolding file_extension
is_video_file path =
    any (λ ext. bytes_eq ext (to_lower (file_extension (filename path)))) video_extensions

-- The loop of `detect_season_number`.
unfoldable pub season_by : List Regex → Bytes → ℕ
unfolding regex_search safe_stoi
season_by [] path = 0
season_by (pattern ∷ patterns) path =
    let rest = season_by patterns path in
    elim (regex_search pattern path) [
      | none ↦ rest
      | some [] ↦ rest
      | some (group ∷ groups) ↦ if ltb 0 (safe_stoi group) then safe_stoi group else rest
    ]

unfoldable pub detect_season_number : Bytes → ℕ
unfolding season_by
detect_season_number path = season_by season_patterns path

-- The number in the first group, 0 if the pattern is not found.
unfoldable pub first_number : Regex → Bytes → ℕ
unfolding regex_search safe_stoi
first_number pattern name = elim (regex_search pattern name) [
  | none ↦ 0
  | some [] ↦ 0
  | some (group ∷ groups) ↦ safe_stoi group
]

-- The numbers in the first two groups.
unfoldable pub two_numbers : Regex → Bytes → Option (ℕ × ℕ)
unfolding regex_search safe_stoi
two_numbers pattern name = elim (regex_search pattern name) [
  | none ↦ none
  | some [] ↦ none
  | some (a ∷ []) ↦ none
  | some (a ∷ b ∷ groups) ↦ some (safe_stoi a, safe_stoi b)
]

unfoldable pub extract_season_episode : Bytes → ℕ × ℕ
unfolding first_number two_numbers
extract_season_episode name =
    let episode = first_number episode_pattern name in
    let plain : ℕ × ℕ = (first_number season_in_filename_pattern name, episode) in
    if episode == 0
    then (elim (two_numbers alt_episode_pattern name) [ none ↦ plain | some numbers ↦ numbers ])
    else plain

-- `for (int i = start; i <= end; ++i) episodes.push_back(i);`, in `n` rounds.
unfoldable pub count_up : ℕ → ℕ → List ℕ
count_up from ℕ.zero = []
count_up from (suc n) = from ∷ count_up (from + 1) n

unfoldable pub extract_multi_episodes : Bytes → List ℕ
unfolding two_numbers count_up
extract_multi_episodes name = elim (two_numbers multi_episode_pattern name) [
  | none ↦ []
  | some (start, end) ↦
      if leb start end && ltb (end - start) 100 then count_up start (end + 1 - start) else []
]
