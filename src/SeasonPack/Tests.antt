-- ===== src/SeasonPack/Tests.antt =====
-- Names of files and directories, on the patterns of src/season_pack.cpp.
use torrent_builder.Common.{◌≡◌, refl, [], ◌∷◌, codes, true}
use torrent_builder.Text.{tolower, to_lower, rfind_byte}
use torrent_builder.Filename.Output.{stem, filename}
use torrent_builder.SeasonPack.{
  detect_season_number, extract_season_episode, extract_multi_episodes, is_video_file,
}

season_of_directory : detect_season_number (codes "Show.S03.1080p") ≡ 3
unfolding detect_season_number tolower
season_of_directory = refl

season_in_words : detect_season_number (codes "/tv/Show/Season 12/") ≡ 12
unfolding detect_season_number tolower
season_in_words = refl

episode_of_file : extract_season_episode (codes "Show.s02e014.mkv") ≡ (2, 14)
unfolding extract_season_episode tolower
episode_of_file = refl

alternative_numbers : extract_season_episode (codes "Show 1x05.avi") ≡ (1, 5)
unfolding extract_season_episode tolower
alternative_numbers = refl

several_episodes : extract_multi_episodes (codes "Show.S01E03-E05.mkv") ≡ 3 ∷ 4 ∷ 5 ∷ []
unfolding extract_multi_episodes tolower
several_episodes = refl

video_file : is_video_file (codes "/tv/a.MKV") ≡ true
unfolding is_video_file tolower to_lower stem rfind_byte filename
video_file = refl
