-- ===== src/SeasonPack/Episodes.antt =====
-- The loops of `analyze` of src/season_pack.cpp over the files and their episodes.
use torrent_builder.Common.{
  ℕ, ◌+◌, ◌≤◌, ◌<◌, ◌≡◌, inl, inr, ◌∙◌, arith, List, [], ◌∷◌, Bool, false, ◌&&◌, ◌||◌, ltb, ◌==◌,
  Bool-cases, any, All, Bytes,
}
use torrent_builder.Filename.Output.{filename}
use torrent_builder.SeasonPack.{is_video_file}
use torrent_builder.SeasonPack.Analyze.{
  insert, Found, nothing_found, count_video, add_episode, add_episodes, add_files, episodes_of,
}
use torrent_builder.SeasonPack.Gaps.{IsIncreasing, is_in, above_from}

-- The set of episodes, with the highest of them.
pub record IsEpisodes (episode_set : List ℕ) (max_episode : ℕ) : Type 0 where
  pub increasing : IsIncreasing episode_set
  pub ranged : All (λ y. (1 ≤ y) × (y < 1 + max_episode)) episode_set

widen :
    (m n : ℕ) (es : List ℕ)
    → m ≤ n
    → All (λ y. (1 ≤ y) × (y < 1 + m)) es
    → All (λ y. (1 ≤ y) × (y < 1 + n)) es
widen m n [] h a = tt
widen m n (e ∷ es) h (k, a) = ((k.0, omega (arith, h, k)), widen m n es h a)

insert-All : (P : ℕ → Type 0) (x : ℕ) (es : List ℕ) → P x → All P es → All P (insert x es)
unfolding insert
insert-All P x [] p a = (p, tt)
insert-All P x (e ∷ es) p (q, a) = elim (Bool-cases (ltb x e)) [
  | inl less ↦ rw less (p, (q, a))
  | inr more ↦ rw more (elim (Bool-cases (ltb e x)) [
    | inl greater ↦ rw greater (q, insert-All P x es p a)
    | inr equal ↦ rw equal (q, a)
  ])
]

insert-IsIncreasing : (x : ℕ) (es : List ℕ) → IsIncreasing es → IsIncreasing (insert x es)
unfolding insert
insert-IsIncreasing x [] s = (tt, tt)
insert-IsIncreasing x (e ∷ es) (l, s) = elim (Bool-cases (ltb x e)) [
  | inl less ↦ rw less ((ground arith, above_from x e es (ground arith) l), (l, s))
  | inr more ↦ rw more (elim (Bool-cases (ltb e x)) [
    | inl greater ↦
        rw greater (insert-All (λ y. e < y) x es (ground arith) l, insert-IsIncreasing x es s)
    | inr equal ↦ rw equal (l, s)
  ])
]

is_in-insert : (y x : ℕ) (es : List ℕ) → is_in y (insert x es) ≡ ((x == y) || is_in y es)
unfolding insert
is_in-insert y x [] = ground arith
is_in-insert y x (e ∷ es) = ground (arith, is_in-insert y x es)

abbrev pub IsFound : Found → Type 0
IsFound found = IsEpisodes found.episode_set found.max_episode

add_episode-IsFound : (ep : ℕ) (found : Found) → IsFound found → IsFound (add_episode ep found)
unfolding add_episode
add_episode-IsFound ep found h = elim (Bool-cases (ltb 0 ep)) [
  | inr none ↦ rw none h
  | inl positive ↦ rw positive (record {
    increasing = insert-IsIncreasing ep found.episode_set h.increasing;
    ranged =
        insert-All _ ep found.episode_set (ground arith, ground arith)
          (widen found.max_episode _ found.episode_set (ground arith) h.ranged);
  })
]

add_episodes-IsFound :
    (eps : List ℕ) (found : Found) → IsFound found → IsFound (add_episodes eps found)
unfolding add_episodes
add_episodes-IsFound [] found h = h
add_episodes-IsFound (ep ∷ eps) found h =
    add_episodes-IsFound eps (add_episode ep found) (add_episode-IsFound ep found h)

add_files-IsFound :
    (files : List Bytes) (found : Found) → IsFound found → IsFound (add_files files found)
unfolding add_files
add_files-IsFound [] found h = h
add_files-IsFound (file ∷ files) found h = elim (Bool-cases (is_video_file file)) [
  | inr other ↦ rw other (add_files-IsFound files found h)
  | inl video ↦ rw video (
      add_files-IsFound files _ (
        add_episodes-IsFound (episodes_of (filename file)) (count_video found)
          (record { increasing = h.increasing; ranged = h.ranged })))
]

pub add_files-nothing_found-IsFound : (files : List Bytes) → IsFound (add_files files nothing_found)
add_files-nothing_found-IsFound files =
    add_files-IsFound files nothing_found (record { increasing = tt; ranged = tt })

is_in-add_episode :
    (x ep : ℕ) (found : Found)
    → is_in x (add_episode ep found).episode_set
      ≡ ((ltb 0 ep && (ep == x)) || is_in x found.episode_set)
unfolding add_episode
is_in-add_episode x ep found = elim (Bool-cases (ltb 0 ep)) [
  | inr none ↦ rw none
  | inl positive ↦ rw positive (is_in-insert x ep found.episode_set)
]

is_in-add_episodes :
    (x : ℕ) (eps : List ℕ) (found : Found)
    → is_in x (add_episodes eps found).episode_set
      ≡ ((ltb 0 x && is_in x eps) || is_in x found.episode_set)
unfolding add_episodes
is_in-add_episodes x [] found = ground arith
is_in-add_episodes x (ep ∷ eps) found =
    rw (is_in-add_episodes x eps (add_episode ep found), is_in-add_episode x ep found)
      (regroup x ep (is_in x eps) (is_in x found.episode_set))
  where
    regroup :
        (x ep : ℕ) (a b : Bool)
        → ((ltb 0 x && a) || ((ltb 0 ep && (ep == x)) || b)) ≡ ((ltb 0 x && ((ep == x) || a)) || b)
    regroup x ep a b = ground arith

-- Some video file names the episode.
abbrev pub names_episode : ℕ → List Bytes → Bool
names_episode x = any (λ file. is_video_file file && is_in x (episodes_of (filename file)))

is_in-add_files :
    (x : ℕ) (files : List Bytes) (found : Found)
    → is_in x (add_files files found).episode_set
      ≡ ((ltb 0 x && names_episode x files) || is_in x found.episode_set)
unfolding add_files
is_in-add_files x [] found = ground arith
is_in-add_files x (file ∷ files) found = elim (Bool-cases (is_video_file file)) [
  | inr other ↦ rw other (is_in-add_files x files found)
  | inl video ↦
      rw
        (
          video,
          is_in-add_files x files (add_episodes (episodes_of (filename file)) (count_video found)),
          is_in-add_episodes x (episodes_of (filename file)) (count_video found),
        )
        (regroup (ltb 0 x) (names_episode x files) (is_in x (episodes_of (filename file)))
          (is_in x found.episode_set))
]
  where
    regroup : (p a b c : Bool) → ((p && a) || ((p && b) || c)) ≡ ((p && (b || a)) || c)
    regroup p a b c = ground arith

-- An episode is found exactly if it is not 0 and some video file names it.
pub is_in-found :
    (x : ℕ) (files : List Bytes)
    → is_in x (add_files files nothing_found).episode_set ≡ (ltb 0 x && names_episode x files)
is_in-found x files =
    is_in-add_files x files nothing_found ∙ or_false (ltb 0 x && names_episode x files)
  where
    or_false : (b : Bool) → (b || false) ≡ b
    or_false b = ground arith
