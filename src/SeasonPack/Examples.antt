-- ===== src/SeasonPack/Examples.antt =====
-- A directory with three episodes of which one is missing, and the theorems about season packs at it.
use mathlib.Core.List.{Permᴰ}
use torrent_builder.Common.{
  ℕ, ◌≤◌, ◌≡◌, ◌↔◌, refl, [], ◌∷◌, true, false, codes, to_string, none, some,
}
use torrent_builder.Text.{tolower, to_lower, rfind_byte}
use torrent_builder.Filename.Output.{stem, filename}
use torrent_builder.SeasonPack.{
  two_numbers, multi_episode_pattern, extract_multi_episodes, detect_season_number, is_video_file,
  extract_season_episode,
}
use torrent_builder.SeasonPack.Analyze.{
  regular, other, unreadable, scan, nothing_found, add_files, Directory, analyze,
}
use torrent_builder.SeasonPack.Warning.{evaluate_season_warning}
use torrent_builder.SeasonPack.Gaps.{is_in}
use torrent_builder.SeasonPack.Order.{add_files_perm}
use torrent_builder.SeasonPack.Laws.{
  IsChecked, IsRange, analyze-IsChecked, evaluate_season_warning_complete, scan-unreadable,
  extract_multi_episodes-IsRange,
}

abbrev tv : Directory
tv = record {
  exists = λ path. true;
  is_directory = λ path. true;
  walk = λ path.
      regular (codes "/S01/s01e03.mkv")
      ∷ other (codes "/S01/x")
      ∷ regular (codes "/S01/s01e01.mkv")
      ∷ [];
}

tv_pack : (analyze tv (codes "/tv.S01")).is_season_pack ≡ true
unfolding analyze tolower to_lower stem filename rfind_byte detect_season_number is_video_file
    extract_multi_episodes extract_season_episode
tv_pack = refl

analyze-IsChecked_example : IsChecked (analyze tv (codes "/tv.S01"))
analyze-IsChecked_example = analyze-IsChecked tv (codes "/tv.S01") tv_pack

tv_missing :
    evaluate_season_warning tv (codes "/tv.S01") true
    ≡ some (codes "Season 1 pack has missing episodes (E02) in: tv.S01")
unfolding evaluate_season_warning tolower to_lower stem filename rfind_byte detect_season_number
    is_video_file extract_multi_episodes extract_season_episode to_string
tv_missing = refl

evaluate_season_warning_complete_example :
    (evaluate_season_warning tv (codes "/tv.S01") true ≡ none) ↔ (
      (x : ℕ)
      → 1 ≤ x
      → x ≤ (analyze tv (codes "/tv.S01")).max_episode
      → is_in x (analyze tv (codes "/tv.S01")).episodes ≡ true)
evaluate_season_warning_complete_example =
    evaluate_season_warning_complete tv (codes "/tv.S01") refl tv_pack

add_files_perm_example :
    add_files (codes "s01e03.mkv" ∷ codes "s01e01.mkv" ∷ []) nothing_found
    ≡ add_files (codes "s01e01.mkv" ∷ codes "s01e03.mkv" ∷ []) nothing_found
add_files_perm_example = add_files_perm (Permᴰ.swap refl refl) nothing_found

scan-unreadable_example :
    scan (regular (codes "a") ∷ unreadable (codes "b") ∷ regular (codes "c") ∷ []) false
    ≡ (codes "a" ∷ [], true)
unfolding scan
scan-unreadable_example =
    scan-unreadable (regular (codes "a") ∷ []) (regular (codes "c") ∷ []) (codes "b") (refl, tt)

extract_multi_episodes-IsRange_example :
    IsRange
      (two_numbers multi_episode_pattern (codes "S01E03-E05"))
      (extract_multi_episodes (codes "S01E03-E05"))
extract_multi_episodes-IsRange_example = extract_multi_episodes-IsRange (codes "S01E03-E05")
