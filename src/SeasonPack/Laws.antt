-- ===== src/SeasonPack/Laws.antt =====
-- What `analyze` and `evaluate_season_warning` of src/season_pack.cpp promise.
use torrent_builder.Common.{
  ℕ, zero, suc, ◌+◌, ◌-◌, ◌≤◌, ◌<◌, ◌≡◌, ◌↔◌, ◌⊎◌, inl, inr, refl, ap, ◌∙◌, arith, List, [], ◌∷◌,
  ◌++◌, Bool, true, false, not, ◌&&◌, ◌||◌, ltb, leb, ◌==◌, if◌then◌else◌, length, All, is_empty,
  Bytes, Option, Option-cases, none, some,
}
use torrent_builder.SeasonPack.{
  two_numbers, count_up, extract_multi_episodes, multi_episode_pattern,
}
use torrent_builder.SeasonPack.Analyze.{
  Entry, regular, other, unreadable, scan, Found, nothing_found, add_files, SeasonPackInfo,
  conclude, season_of, missing_from, Directory, no_info, analyze,
}
use torrent_builder.SeasonPack.Warning.{evaluate_season_warning}
use torrent_builder.SeasonPack.Gaps.{IsIncreasing, is_in, length-missing_from, is_in-missing_from}
use torrent_builder.SeasonPack.Episodes.{IsFound, add_files-nothing_found-IsFound}

-- What holds of the information on a season pack.
pub record IsChecked (info : SeasonPackInfo) : Type 0 where
  pub counted : length info.episodes + length info.missing_episodes ≡ info.max_episode
  pub missed :
      (x : ℕ)
      → is_in x info.missing_episodes
        ≡ (leb 1 x && (ltb x (1 + info.max_episode) && not (is_in x info.episodes)))
  pub suspicious : info.is_suspicious ≡ not (is_empty info.missing_episodes)

suspicious_iff : (e m max : ℕ) → e + m ≡ max → ltb e max ≡ not (m == 0)
suspicious_iff e m max h = ground arith

is_empty_lem : {A : Type 0} (xs : List A) → is_empty xs ≡ (length xs == 0)
is_empty_lem xs = ground arith

positive_max :
    (es : List ℕ) (max : ℕ)
    → All (λ y. (1 ≤ y) × (y < 1 + max)) es
    → ltb 1 (length es) ≡ true
    → ltb 0 max ≡ true
positive_max [] max h k = cc
positive_max (e ∷ es) max h k = ground arith

conclude-IsChecked :
    (season : ℕ) (found : Found)
    → IsFound found
    → (conclude season found).is_season_pack ≡ true
    → IsChecked (conclude season found)
unfolding conclude
conclude-IsChecked season found h pack =
    rw (positive_max found.episode_set found.max_episode h.ranged pack, pack)
      (record {
        counted = length-missing_from found.episode_set 1 found.max_episode h.increasing h.ranged;
        missed = λ x. is_in-missing_from x found.episode_set 1 found.max_episode;
        suspicious = rw (is_empty_lem (missing_from found.episode_set 1 found.max_episode)) (
            suspicious_iff _ _ _
              (length-missing_from found.episode_set 1 found.max_episode h.increasing h.ranged));
      })

-- If `analyze` reports a season pack, the episodes found and the missing ones are as many as the
-- highest episode's number, the missing ones are exactly the numbers from 1 to it that are not
-- found, and the pack is suspicious exactly if one is missing.
pub analyze-IsChecked :
    (dir : Directory) (path : Bytes)
    → (analyze dir path).is_season_pack ≡ true
    → IsChecked (analyze dir path)
unfolding analyze
analyze-IsChecked dir path =
    branches (not (dir.exists path) || not (dir.is_directory path)) (is_empty files)
      (season_of path files == 0) (season_of path files) (add_files files nothing_found)
      (add_files-nothing_found-IsFound files)
  where
    files : List Bytes
    files = (scan (dir.walk path) false).0

    branches :
        (a b c : Bool) (season : ℕ) (found : Found)
        → IsFound found
        → let info =
            if a
            then no_info
            else if b
            then no_info
            else if c
            then no_info
            else conclude season found in
          info.is_season_pack ≡ true → IsChecked info
    branches true b c season found h pack = cc
    branches false true c season found h pack = cc
    branches false false true season found h pack = cc
    branches false false false season found h pack = conclude-IsChecked season found h pack

-- Nothing is missing exactly if every episode up to the highest one is found.
complete_iff :
    (info : SeasonPackInfo)
    → IsChecked info
    → (info.is_suspicious ≡ false)
      ↔ ((x : ℕ) → 1 ≤ x → x ≤ info.max_episode → is_in x info.episodes ≡ true)
complete_iff info checked = (
  λ calm x low high.
      found x low high (unmissed info.missing_episodes (ground (arith, checked.suspicious)) x),
  λ whole.
      ground (arith, checked.suspicious, none_missing info.missing_episodes (λ x. absent x whole)),
)
  where
    unmissed : (ms : List ℕ) → is_empty ms ≡ true → (x : ℕ) → is_in x ms ≡ false
    unmissed [] e x = refl
    unmissed (m ∷ ms) e x = cc

    none_missing : (ms : List ℕ) → ((x : ℕ) → is_in x ms ≡ false) → is_empty ms ≡ true
    none_missing [] h = refl
    none_missing (m ∷ ms) h = ground (arith, h m)

    found :
        (x : ℕ)
        → 1 ≤ x
        → x ≤ info.max_episode
        → is_in x info.missing_episodes ≡ false
        → is_in x info.episodes ≡ true
    found x low high h = ground (arith, checked.missed x)

    absent :
        (x : ℕ)
        → ((x : ℕ) → 1 ≤ x → x ≤ info.max_episode → is_in x info.episodes ≡ true)
        → is_in x info.missing_episodes ≡ false
    absent x whole = ground (arith, checked.missed x, whole x)

warning_iff :
    (is_dir : Bool) (info : SeasonPackInfo) (message : Bytes)
    → is_dir ≡ true
    → info.is_season_pack ≡ true
    → ((if not true || not is_dir
          then none
          else if info.is_season_pack && info.is_suspicious
          then some message
          else none)
        ≡ none)
      ↔ (info.is_suspicious ≡ false)
warning_iff is_dir info message d pack = ground arith

evaluated :
    (dir : Directory) (path : Bytes)
    → dir.is_directory path ≡ true
    → (analyze dir path).is_season_pack ≡ true
    → (evaluate_season_warning dir path true ≡ none) ↔ ((analyze dir path).is_suspicious ≡ false)
unfolding evaluate_season_warning
evaluated dir path is_dir pack =
    warning_iff (dir.is_directory path) (analyze dir path) _ is_dir pack

-- A directory that is a season pack passes the check of a job that fails on a warning exactly if
-- every episode up to the highest one is found.
pub evaluate_season_warning_complete :
    (dir : Directory) (path : Bytes)
    → dir.is_directory path ≡ true
    → (analyze dir path).is_season_pack ≡ true
    → (evaluate_season_warning dir path true ≡ none) ↔ (
        (x : ℕ)
        → 1 ≤ x
        → x ≤ (analyze dir path).max_episode
        → is_in x (analyze dir path).episodes ≡ true)
evaluate_season_warning_complete dir path is_dir pack =
    let (to, from) = complete_iff (analyze dir path) (analyze-IsChecked dir path pack) in
    let (none_calm, calm_none) = evaluated dir path is_dir pack in
    (λ passed. to (none_calm passed), λ whole. calm_none (from whole))

abbrev pub is_readable : Entry → Bool
is_readable (regular path) = true
is_readable (other path) = true
is_readable (unreadable path) = false

-- The first entry whose kind cannot be read ends the scan at the entry behind it: the files behind it
-- are not found, and where there is an entry behind it the scan reports an error.
pub scan-unreadable :
    (before after : List Entry) (bad : Bytes)
    → All (λ e. is_readable e ≡ true) before
    → scan (before ++ unreadable bad ∷ after) false ≡ ((scan before false).0, not (is_empty after))
unfolding scan
scan-unreadable [] [] bad h = refl
scan-unreadable [] (e ∷ after) bad h = refl
scan-unreadable (regular p ∷ before) after bad (r, h) = rw (scan-unreadable before after bad h) refl
scan-unreadable (other p ∷ before) after bad (r, h) = scan-unreadable before after bad h
scan-unreadable (unreadable p ∷ before) after bad (r, h) = cc

length-count_up : (from n : ℕ) → length (count_up from n) ≡ n
unfolding count_up
length-count_up from zero = refl
length-count_up from (suc n) = ap suc (length-count_up (from + 1) n)

is_in-count_up : (x from n : ℕ) → is_in x (count_up from n) ≡ (leb from x && ltb x (from + n))
unfolding count_up
is_in-count_up x from zero = ground arith
is_in-count_up x from (suc n) = ground (arith, is_in-count_up x (from + 1) n)

-- The list for the numbers that the pattern finds.
abbrev between : Option (ℕ × ℕ) → List ℕ
between none = []
between (some (start, end)) =
    if leb start end && ltb (end - start) 100 then count_up start (end + 1 - start) else []

extract_multi_episodes_lem :
    (name : Bytes) → extract_multi_episodes name ≡ between (two_numbers multi_episode_pattern name)
unfolding extract_multi_episodes
extract_multi_episodes_lem name = elim (Option-cases (two_numbers multi_episode_pattern name)) [
  | inl missing ↦ rw (missing, extract_multi_episodes) refl
  | inr (numbers, found) ↦ rw (found, extract_multi_episodes) refl
]

-- What the list is for the numbers that the pattern finds.
abbrev pub IsRange : Option (ℕ × ℕ) → List ℕ → Type 0
IsRange none episodes = episodes ≡ []
IsRange (some (start, end)) episodes =
    (start ≤ end
      → end < start + 100
      → (length episodes ≡ end + 1 - start)
        × IsIncreasing episodes
        × ((x : ℕ) → is_in x episodes ≡ (leb start x && leb x end)))
    × ((end < start) ⊎ (start + 100 ≤ end) → episodes ≡ [])

count_up-above : (x from n : ℕ) → x < from → All (λ y. x < y) (count_up from n)
unfolding count_up
count_up-above x from zero h = tt
count_up-above x from (suc n) h = (h, count_up-above x (from + 1) n (omega (arith, h)))

count_up-IsIncreasing : (from n : ℕ) → IsIncreasing (count_up from n)
unfolding count_up
count_up-IsIncreasing from zero = tt
count_up-IsIncreasing from (suc n) =
    (count_up-above from (from + 1) n (omega arith), count_up-IsIncreasing (from + 1) n)

between-IsRange : (numbers : Option (ℕ × ℕ)) → IsRange numbers (between numbers)
between-IsRange none = refl
between-IsRange (some (start, end)) = (inside, outside)
  where
    in_test : start ≤ end → end < start + 100 → (leb start end && ltb (end - start) 100) ≡ true
    in_test a b = ground arith

    out_test :
        (end < start) ⊎ (start + 100 ≤ end) → (leb start end && ltb (end - start) 100) ≡ false
    out_test (inl a) = ground arith
    out_test (inr a) = ground arith

    same_range :
        (x : ℕ)
        → start ≤ end
        → (leb start x && ltb x (start + (end + 1 - start))) ≡ (leb start x && leb x end)
    same_range x h = ground arith

    inside :
        start ≤ end
        → end < start + 100
        → (length (between (some (start, end))) ≡ end + 1 - start)
          × IsIncreasing (between (some (start, end)))
          × ((x : ℕ) → is_in x (between (some (start, end))) ≡ (leb start x && leb x end))
    inside a b = rw (in_test a b) (
      length-count_up start (end + 1 - start),
      count_up-IsIncreasing start (end + 1 - start),
      λ x. is_in-count_up x start (end + 1 - start) ∙ same_range x a,
    )

    outside : (end < start) ⊎ (start + 100 ≤ end) → between (some (start, end)) ≡ []
    outside h = rw (out_test h) refl

-- The episodes that a file name lists: none where the pattern finds no two numbers in it, and none where
-- the second number is below the first one or 100 or more above it; else every number from the first
-- one to the second one, in ascending order, each once.
pub extract_multi_episodes-IsRange :
    (name : Bytes) → IsRange (two_numbers multi_episode_pattern name) (extract_multi_episodes name)
extract_multi_episodes-IsRange name =
    rw (extract_multi_episodes_lem name) (between-IsRange (two_numbers multi_episode_pattern name))
