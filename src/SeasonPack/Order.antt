-- ===== src/SeasonPack/Order.antt =====
-- The order in which `analyze` of src/season_pack.cpp meets the files and their episodes.
use mathlib.Core.List.{Permᴰ}
use torrent_builder.Common.{
  ℕ, ◌≡◌, refl, sym, ap, ◌∙◌, arith, List, [], ◌∷◌, Bool-cases, inl, inr, Bytes, if◌then◌else◌,
}
use torrent_builder.Filename.Output.{filename}
use torrent_builder.SeasonPack.{is_video_file}
use torrent_builder.SeasonPack.Analyze.{
  insert, Found, count_video, add_episode, add_episodes, add_files, episodes_of,
}

insert_comm : (a b : ℕ) (es : List ℕ) → insert a (insert b es) ≡ insert b (insert a es)
unfolding insert
insert_comm a b [] = ground arith
insert_comm a b (e ∷ es) = ground (arith, insert_comm a b es)

add_episode_comm :
    (a b : ℕ) (found : Found)
    → add_episode a (add_episode b found) ≡ add_episode b (add_episode a found)
unfolding add_episode
add_episode_comm a b found = ground (arith, insert_comm a b found.episode_set)

add_episode-add_episodes :
    (a : ℕ) (eps : List ℕ) (found : Found)
    → add_episodes eps (add_episode a found) ≡ add_episode a (add_episodes eps found)
unfolding add_episodes
add_episode-add_episodes a [] found = refl
add_episode-add_episodes a (ep ∷ eps) found =
    ap (add_episodes eps) (add_episode_comm ep a found)
    ∙ add_episode-add_episodes a eps (add_episode ep found)

add_episodes_comm :
    (xs ys : List ℕ) (found : Found)
    → add_episodes xs (add_episodes ys found) ≡ add_episodes ys (add_episodes xs found)
unfolding add_episodes
add_episodes_comm [] ys found = refl
add_episodes_comm (x ∷ xs) ys found =
    ap (add_episodes xs) (sym (add_episode-add_episodes x ys found))
    ∙ add_episodes_comm xs ys (add_episode x found)

-- One round of the loop over the files.
abbrev add_file : Bytes → Found → Found
add_file file found =
    if is_video_file file
    then add_episodes (episodes_of (filename file)) (count_video found)
    else found

add_files_lem :
    (file : Bytes) (files : List Bytes) (found : Found)
    → add_files (file ∷ files) found ≡ add_files files (add_file file found)
unfolding add_files
add_files_lem file files found = elim (Bool-cases (is_video_file file)) [
  | inl video ↦ rw video
  | inr other ↦ rw other
]

add_episode-count_video :
    (ep : ℕ) (found : Found)
    → count_video (add_episode ep found) ≡ add_episode ep (count_video found)
unfolding add_episode
add_episode-count_video ep found = ground arith

add_episodes-count_video :
    (eps : List ℕ) (found : Found)
    → count_video (add_episodes eps found) ≡ add_episodes eps (count_video found)
unfolding add_episodes
add_episodes-count_video [] found = refl
add_episodes-count_video (ep ∷ eps) found =
    add_episodes-count_video eps (add_episode ep found)
    ∙ ap (add_episodes eps) (add_episode-count_video ep found)

add_file_comm :
    (a b : Bytes) (found : Found) → add_file a (add_file b found) ≡ add_file b (add_file a found)
add_file_comm a b found = elim (Bool-cases (is_video_file a)) [
  | inr other ↦ rw other
  | inl video ↦ elim (Bool-cases (is_video_file b)) [
    | inr not_b ↦ rw (video, not_b)
    | inl both ↦
        rw (video, both)
          (ap (add_episodes (episodes_of (filename a)))
              (add_episodes-count_video (episodes_of (filename b)) (count_video found))
            ∙ add_episodes_comm (episodes_of (filename a)) (episodes_of (filename b))
                (count_video (count_video found))
            ∙ ap (add_episodes (episodes_of (filename b)))
                (sym (add_episodes-count_video (episodes_of (filename a)) (count_video found))))
  ]
]

-- The episodes found, the highest of them and the number of video files do not depend on the order
-- in which the directory is walked.
pub add_files_perm :
    {xs ys : List Bytes} → Permᴰ xs ys → (found : Found) → add_files xs found ≡ add_files ys found
add_files_perm Permᴰ.nil found = refl
add_files_perm (Permᴰ.cons {a} {b} {l₁ = xs} {l₂ = ys} e p) found =
    add_files_lem a xs found
    ∙ add_files_perm p (add_file a found)
    ∙ ap (λ f. add_files ys (add_file f found)) e
    ∙ sym (add_files_lem b ys found)
add_files_perm (Permᴰ.swap {a} {b} {a'} {b'} {l} e f) found =
    add_files_lem a (b ∷ l) found
    ∙ add_files_lem b l (add_file a found)
    ∙ ap (add_files l) (add_file_comm b a found)
    ∙ ap (λ x. add_files l (add_file x (add_file b found))) e
    ∙ ap (λ x. add_files l (add_file b' (add_file x found))) f
    ∙ sym (add_files_lem b' l (add_file a' found))
    ∙ sym (add_files_lem a' (b' ∷ l) found)
add_files_perm (Permᴰ.trans p q) found = add_files_perm p found ∙ add_files_perm q found
