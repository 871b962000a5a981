-- ===== src/SeasonPack/Warning.antt =====
-- The messages of src/season_pack.cpp.
use torrent_builder.Common.{
  ℕ, Bytes, List, [], ◌∷◌, ◌++◌, Bool, not, ◌&&◌, ◌||◌, ltb, if◌then◌else◌, Option, none, some,
  codes, to_string,
}
use torrent_builder.Filename.Output.{filename}
use torrent_builder.SeasonPack.Analyze.{Directory, analyze}

-- An episode number, with two digits at least.
unfoldable pub episode_code : ℕ → Bytes
episode_code e = codes "E" ++ (if ltb e 10 then codes "0" else []) ++ to_string e

-- The rounds of the loop behind the first one.
unfoldable pub more_codes : List ℕ → Bytes
unfolding episode_code
more_codes [] = []
more_codes (e ∷ es) = codes ", " ++ episode_code e ++ more_codes es

unfoldable pub format_missing_episodes : List ℕ → Bytes
unfolding episode_code more_codes
format_missing_episodes [] = []
format_missing_episodes (e ∷ es) = episode_code e ++ more_codes es

-- The error for a job that fails on a warning.
unfoldable pub evaluate_season_warning : Directory → Bytes → Bool → Option Bytes
unfolding analyze format_missing_episodes
evaluate_season_warning dir input_path fail_on_warning =
    let info = analyze dir input_path in
    if not fail_on_warning || not (dir.is_directory input_path)
    then none
    else if info.is_season_pack && info.is_suspicious
    then some (
        codes "Season "
        ++ to_string info.season
        ++ codes " pack has missing episodes ("
        ++ format_missing_episodes info.missing_episodes
        ++ codes ") in: "
        ++ filename input_path)
    else none
