-- ===== src/SeasonPack/Analyze.antt =====
-- `analyze` of src/season_pack.cpp.
use torrent_builder.Common.{
  ℕ, suc, ◌+◌, Bytes, List, [], ◌∷◌, Bool, true, false, not, ◌&&◌, ◌||◌, ltb, ◌==◌, if◌then◌else◌,
  is_empty, length, any,
}
use torrent_builder.Filename.Output.{filename}
use torrent_builder.SeasonPack.{
  is_video_file, detect_season_number, extract_season_episode, extract_multi_episodes,
}

-- What the walk over a directory comes to: a regular file, another kind of file, and a file whose
-- kind cannot be read.
pub data Entry : Type 0 where
  regular : Bytes → Entry
  other : Bytes → Entry
  unreadable : Bytes → Entry

-- The loop of `analyze` over the directory: the files, and `iteration_error`. The error code `ec` is
-- that of the round before.
unfoldable pub scan : List Entry → Bool → List Bytes × Bool
scan [] ec = ([], false)
scan (entry ∷ entries) true = ([], true)
scan (regular path ∷ entries) false =
    let (files, iteration_error) = scan entries false in (path ∷ files, iteration_error)
scan (other path ∷ entries) false = scan entries false
scan (unreadable path ∷ entries) false = scan entries true

-- The loop over the first files.
unfoldable pub season_of_files : ℕ → List Bytes → ℕ
season_of_files ℕ.zero files = 0
season_of_files (suc limit) [] = 0
season_of_files (suc limit) (file ∷ files) =
    let rest = season_of_files limit files in
    let (season, episode) = extract_season_episode (filename file) in
    if ltb 0 season then season else rest

unfoldable pub season_of : Bytes → List Bytes → ℕ
unfolding season_of_files
season_of path files =
    let by_name = detect_season_number (filename path) in
    let by_path = detect_season_number path in
    let by_files = if ltb 1 (length files) then season_of_files 5 files else 0 in
    if not (by_name == 0) then by_name else if not (by_path == 0) then by_path else by_files

-- `episode_set.insert(episode)`, on the ascending list of the set's elements.
unfoldable pub insert : ℕ → List ℕ → List ℕ
insert episode [] = episode ∷ []
insert episode (e ∷ es) =
    let rest = insert episode es in
    if ltb episode e then episode ∷ (e ∷ es) else if ltb e episode then e ∷ rest else e ∷ es

pub record SeasonPackInfo : Type 0 where
  pub episodes : List ℕ
  pub missing_episodes : List ℕ
  pub season : ℕ
  pub max_episode : ℕ
  pub video_file_count : ℕ
  pub is_season_pack : Bool
  pub is_suspicious : Bool

abbrev pub no_info : SeasonPackInfo
no_info = record {
  episodes = [];
  missing_episodes = [];
  season = 0;
  max_episode = 0;
  video_file_count = 0;
  is_season_pack = false;
  is_suspicious = false;
}

-- The variables of the loop over the files.
pub record Found : Type 0 where
  pub episode_set : List ℕ
  pub max_episode : ℕ
  pub video_file_count : ℕ

abbrev pub nothing_found : Found
nothing_found = record { episode_set = []; max_episode = 0; video_file_count = 0 }

unfoldable pub add_episode : ℕ → Found → Found
unfolding insert
add_episode ep found =
    if ltb 0 ep
    then record found {
      episode_set = insert ep found.episode_set;
      max_episode = if ltb found.max_episode ep then ep else found.max_episode;
    }
    else found

unfoldable pub add_episodes : List ℕ → Found → Found
unfolding add_episode
add_episodes [] found = found
add_episodes (ep ∷ eps) found = add_episodes eps (add_episode ep found)

-- The episodes that a file name names.
unfoldable pub episodes_of : Bytes → List ℕ
episodes_of name =
    let multi_eps = extract_multi_episodes name in
    let (season, episode) = extract_season_episode name in
    if not (is_empty multi_eps) then multi_eps else episode ∷ []

-- `info.video_file_count++;`
abbrev pub count_video : Found → Found
count_video found = record found { video_file_count = found.video_file_count + 1 }

unfoldable pub add_files : List Bytes → Found → Found
unfolding add_episodes episodes_of
add_files [] found = found
add_files (file ∷ files) found =
    if not (is_video_file file)
    then add_files files found
    else add_files files (add_episodes (episodes_of (filename file)) (count_video found))

-- The episodes from `i` on, in `n` rounds, that are not in the set.
unfoldable pub missing_from : List ℕ → ℕ → ℕ → List ℕ
missing_from episode_set i ℕ.zero = []
missing_from episode_set i (suc n) =
    let rest = missing_from episode_set (i + 1) n in
    if any (λ e. e == i) episode_set then rest else i ∷ rest

-- What `analyze` concludes from the season and the loop over the files.
unfoldable pub conclude : ℕ → Found → SeasonPackInfo
unfolding missing_from
conclude season found =
    let is_season_pack = ltb 1 (length found.episode_set) in
    let checked = ltb 0 found.max_episode && is_season_pack in
    record {
      episodes = found.episode_set;
      missing_episodes = if checked then missing_from found.episode_set 1 found.max_episode else [];
      season = season;
      max_episode = found.max_episode;
      video_file_count = found.video_file_count;
      is_season_pack = is_season_pack;
      is_suspicious = checked && ltb (length found.episode_set) found.max_episode;
    }

-- What the file system says of a path, and the walk over it.
pub record Directory : Type 0 where
  pub exists : Bytes → Bool
  pub is_directory : Bytes → Bool
  pub walk : Bytes → List Entry

unfoldable pub analyze : Directory → Bytes → SeasonPackInfo
unfolding scan season_of add_files conclude
analyze dir input_path =
    let files = (scan (dir.walk input_path) false).0 in
    let season = season_of input_path files in
    if not (dir.exists input_path) || not (dir.is_directory input_path)
    then no_info
    else if is_empty files
    then no_info
    else if season == 0
    then no_info
    else conclude season (add_files files nothing_found)
