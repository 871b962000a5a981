-- ===== src/Modifier/Frame.antt =====
-- Observations of a torrent that the changes behind the trackers keep: `apply_modifications` of
-- src/torrent_modifier.cpp.
use torrent_builder.Common.{
  ◌≡◌, refl, ◌∙◌, Bytes, List, [], ◌∷◌, Bool, true, false, Option, none, some, Result, ok, err,
  ◌>>=◌, if◌then◌else◌, codes, Always, Always->>=, Always-map,
}
use torrent_builder.Modifier.{ModifyConfig}
use torrent_builder.Modifier.Bencode.{Dictionary, Entry, integer, string, list, dict, other}
use torrent_builder.Modifier.Trackers.{is_one_of}
use torrent_builder.Modifier.Apply.{
  info_key, changed_info, in_info, put_text, set_private, set_source, set_comment, set_name,
  set_entropy, change_fields,
}

-- The keys of the info dictionary that the modifier changes.
abbrev pub changed_keys : List Bytes
changed_keys = codes "private" ∷ codes "source" ∷ codes "name" ∷ codes "entropy" ∷ []

module _ (lib : Dictionary) where
  -- An observation that no change of these keys and of the comment shows in.
  module _ {ℓ} {B : Type ℓ} (look : lib.Fields → B)
      (put_keeps : (root info : lib.Fields) (key : Bytes) (value : (Entry lib.Fields))
        → is_one_of key changed_keys ≡ true
        → lib.find_key info_key root ≡ some (dict info)
        → look (lib.put info_key (dict (lib.put key value info)) root) ≡ look root)
      (erase_keeps : (root info : lib.Fields)
        → lib.find_key info_key root ≡ some (dict info)
        → look (lib.put info_key (dict (lib.erase (codes "source") info)) root) ≡ look root)
      (comment_keeps : (root : lib.Fields) (comment : Bytes)
        → look (put_text lib (codes "comment") comment root) ≡ look root) where
    in_info-keeps :
        (change : lib.Fields → lib.Fields) (root : lib.Fields)
        → ((info : lib.Fields)
            → lib.find_key info_key root ≡ some (dict info)
            → look (lib.put info_key (dict (change info)) root) ≡ look root)
        → Always (λ r. look r ≡ look root) (in_info lib change root)
    unfolding in_info changed_info
    in_info-keeps change root h = at (lib.find_key info_key root) h
      where
        at :
            (e : Option (Entry lib.Fields))
            → ((info : lib.Fields)
                → e ≡ some (dict info)
                → look (lib.put info_key (dict (change info)) root) ≡ look root)
            → Always (λ r. look r ≡ look root) (changed_info lib change e root)
        at none h = tt
        at (some (integer n)) h = tt
        at (some (string s)) h = tt
        at (some (list l)) h = tt
        at (some other) h = tt
        at (some (dict info)) h = h info refl

    put-keeps :
        (key : Bytes) (value : (Entry lib.Fields)) (root : lib.Fields)
        → is_one_of key changed_keys ≡ true
        → Always (λ r. look r ≡ look root) (in_info lib (lib.put key value) root)
    put-keeps key value root h =
        in_info-keeps (lib.put key value) root (λ info e. put_keeps root info key value h e)

    set_private-keeps :
        (p : Option Bool) (root : lib.Fields)
        → Always (λ r. look r ≡ look root) (set_private lib p root)
    unfolding set_private
    set_private-keeps none root = refl
    set_private-keeps (some p) root =
        put-keeps (codes "private") (integer (if p then 1 else 0)) root refl

    set_source-keeps :
        (s : Option Bytes) (root : lib.Fields)
        → Always (λ r. look r ≡ look root) (set_source lib s root)
    unfolding set_source put_text
    set_source-keeps none root = refl
    set_source-keeps (some []) root =
        in_info-keeps (λ info. lib.erase (codes "source") info) root
          (λ info e. erase_keeps root info e)
    set_source-keeps (some (c ∷ s)) root = put-keeps (codes "source") (string (c ∷ s)) root refl

    set_comment-keeps :
        (c : Option Bytes) (root : lib.Fields) → look (set_comment lib c root) ≡ look root
    unfolding set_comment
    set_comment-keeps none root = refl
    set_comment-keeps (some c) root = comment_keeps root c

    set_name-keeps :
        (n : Option Bytes) (root : lib.Fields)
        → Always (λ r. look r ≡ look root) (set_name lib n root)
    unfolding set_name
    set_name-keeps none root = refl
    set_name-keeps (some n) root = put-keeps (codes "name") (string n) root refl

    set_entropy-keeps :
        (b : Bool) (entropy : Result Bytes Bytes) (root : lib.Fields)
        → Always (λ r. look r ≡ look root) (set_entropy lib b entropy root)
    unfolding set_entropy
    set_entropy-keeps false entropy root = refl
    set_entropy-keeps true (err e) root = tt
    set_entropy-keeps true (ok hex) root = put-keeps (codes "entropy") (string hex) root refl

    -- A step behind another one.
    then_keeps :
        (m : Result Bytes lib.Fields) (f : lib.Fields → Result Bytes lib.Fields) (b : B)
        → Always (λ r. look r ≡ b) m
        → ((r : lib.Fields) → Always (λ s. look s ≡ look r) (f r))
        → Always (λ s. look s ≡ b) (m >>= f)
    then_keeps m f b h k =
        Always->>= (λ r. look r ≡ b) (λ s. look s ≡ b) m f h
          (λ r e. Always-map (λ s d. d ∙ e) (f r) (k r))

    pub change_fields-keeps :
        (config : ModifyConfig) (entropy : Result Bytes Bytes) (root : lib.Fields)
        → Always (λ r. look r ≡ look root) (change_fields lib config entropy root)
    unfolding change_fields
    change_fields-keeps config entropy root =
        then_keeps (set_private lib config.is_private root)
          (λ private. set_source lib config.source private >>= λ sourced.
            set_name lib config.name (set_comment lib config.comment sourced) >>= λ named.
            set_entropy lib config.entropy entropy named)
          (look root) (set_private-keeps config.is_private root)
          (λ private.
            then_keeps (set_source lib config.source private)
              (λ sourced.
                set_name lib config.name (set_comment lib config.comment sourced) >>= λ named.
                set_entropy lib config.entropy entropy named)
              (look private) (set_source-keeps config.source private)
              (λ sourced.
                then_keeps (set_name lib config.name (set_comment lib config.comment sourced))
                  (λ named. set_entropy lib config.entropy entropy named) (look sourced)
                  (Always-map (λ r h. h ∙ set_comment-keeps config.comment sourced)
                    (set_name lib config.name (set_comment lib config.comment sourced))
                    (set_name-keeps config.name (set_comment lib config.comment sourced)))
                  (λ named. set_entropy-keeps config.entropy entropy named)))
