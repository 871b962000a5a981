-- ===== src/Modifier/Untouched.antt =====
-- The keys that `apply_modifications` of src/torrent_modifier.cpp leaves alone.
use torrent_builder.Common.{
  ◌≡◌, refl, sym, ap, ◌∙◌, subst, Bytes, List, [], ◌∷◌, ◌||◌, Bool, true, false, Bool-cases, inl,
  inr, Option, none, some, Result, ok, bytes_eq, bytes_eq_sound, codes, has_value, Always,
  Always-map, Always-ok,
}
use torrent_builder.Modifier.{ModifyConfig}
use torrent_builder.Modifier.Bencode.{Dictionary, Entry, dict}
use torrent_builder.Modifier.Trackers.{announce, announce_list, is_one_of}
use torrent_builder.Modifier.Apply.{
  info_key, change_trackers, put_text, set_private, set_source, set_name, set_comment, set_entropy,
  change_fields, apply_modifications, info_modified,
}
use torrent_builder.Modifier.Frame.{changed_keys, change_fields-keeps}
use torrent_builder.Modifier.Laws.{find_key-put_text, find_key-change_fields, observe_lem}
use torrent_builder.Modifier.Kept.{find_key-change_trackers}

-- The keys of the torrent that the modifier changes.
abbrev pub root_keys : List Bytes
root_keys = announce ∷ announce_list ∷ codes "comment" ∷ info_key ∷ []

differs :
    (k key : Bytes) (keys : List Bytes)
    → is_one_of k keys ≡ false
    → is_one_of key keys ≡ true
    → bytes_eq key k ≡ false
differs k key keys h one = elim (Bool-cases (bytes_eq key k)) [
  | inr e ↦ e
  | inl e ↦
      let member : is_one_of k keys ≡ true =
        subst (λ x. is_one_of x keys ≡ true) (bytes_eq_sound key k e) one in
      absurd (cc (sym h ∙ member))
]

has_value-none {ℓ} : {A : Type ℓ} (o : Option A) → has_value o ≡ false → o ≡ none
has_value-none none h = refl
has_value-none (some a) h = cc

or_false : (a b : Bool) → (a || b) ≡ false → (a ≡ false) × (b ≡ false)
or_false false b h = (refl, h)
or_false true b h = cc

module _ (lib : Dictionary) where
  -- What the info dictionary has at a key.
  unfoldable pub info_entry : Bytes → Option (Entry lib.Fields) → Option (Entry lib.Fields)
  info_entry k (some (dict info)) = lib.find_key k info
  info_entry k _ = none

  module _ (k : Bytes) (apart : is_one_of k changed_keys ≡ false) where
    info_entry-put :
        (root info info' : lib.Fields)
        → lib.find_key k info' ≡ lib.find_key k info
        → lib.find_key info_key root ≡ some (dict info)
        → info_entry k (lib.find_key info_key (lib.put info_key (dict info') root))
          ≡ info_entry k (lib.find_key info_key root)
    unfolding info_entry
    info_entry-put root info info' h e = rw (lib.find_key-put info_key (dict info') root, e) h

    info_entry-comment :
        (root : lib.Fields) (comment : Bytes)
        → info_entry k (lib.find_key info_key (put_text lib (codes "comment") comment root))
          ≡ info_entry k (lib.find_key info_key root)
    info_entry-comment root comment =
        ap (λ e. info_entry k e)
          (find_key-put_text lib info_key (codes "comment") comment root refl)

    info_entry-change_fields :
        (config : ModifyConfig) (entropy : Result Bytes Bytes) (root : lib.Fields)
        → Always
            (λ r.
              info_entry k (lib.find_key info_key r) ≡ info_entry k (lib.find_key info_key root))
            (change_fields lib config entropy root)
    info_entry-change_fields config entropy root =
        change_fields-keeps lib (λ r. info_entry k (lib.find_key info_key r))
          (λ r info key value h e.
            info_entry-put r info (lib.put key value info)
              (lib.find_key-put_other k key value info (differs k key changed_keys apart h)) e)
          (λ r info e.
            info_entry-put r info (lib.erase (codes "source") info)
              (lib.find_key-erase_other k (codes "source") info
                (differs k (codes "source") changed_keys apart refl))
              e)
          info_entry-comment config entropy root

    -- A key of the info dictionary other than `private`, `source`, `name` and `entropy` has the same
    -- entry after a modification that succeeds: the pieces, their length, the files stay.
    pub apply_modifications-info_entry :
        (config : ModifyConfig) (entropy : Result Bytes Bytes) (root : lib.Fields) {r : lib.Fields}
        → apply_modifications lib config entropy root ≡ ok r
        → info_entry k (lib.find_key info_key r) ≡ info_entry k (lib.find_key info_key root)
    apply_modifications-info_entry config entropy root h =
        Always-ok
          (λ r. info_entry k (lib.find_key info_key r) ≡ info_entry k (lib.find_key info_key root))
          (apply_modifications lib config entropy root)
          (observe_lem lib (λ r. info_entry k (lib.find_key info_key r))
            (info_entry k (lib.find_key info_key root)) config entropy root
            (Always-map (λ r e. ap (λ x. info_entry k x) e) (change_trackers lib config root)
              (find_key-change_trackers lib info_key refl refl config root))
            (info_entry-change_fields config entropy))
          h

  -- A key of the torrent other than the announce URL, the tiers, the comment and the info dictionary
  -- has the same entry after a modification that succeeds.
  pub apply_modifications-find_key :
      (k : Bytes)
      → is_one_of k root_keys ≡ false
      → (config : ModifyConfig) (entropy : Result Bytes Bytes) (root : lib.Fields) {r : lib.Fields}
      → apply_modifications lib config entropy root ≡ ok r
      → lib.find_key k r ≡ lib.find_key k root
  apply_modifications-find_key k apart config entropy root h =
      Always-ok (λ r. lib.find_key k r ≡ lib.find_key k root)
        (apply_modifications lib config entropy root)
        (observe_lem lib (λ r. lib.find_key k r) (lib.find_key k root) config entropy root
          (find_key-change_trackers lib k (differs k announce root_keys apart refl)
            (differs k announce_list root_keys apart refl) config root)
          (find_key-change_fields lib k (differs k info_key root_keys apart refl)
            (differs k (codes "comment") root_keys apart refl) config entropy))
        h

  find_key-set_comment :
      (c : Option Bytes) (root : lib.Fields)
      → lib.find_key info_key (set_comment lib c root) ≡ lib.find_key info_key root
  unfolding set_comment
  find_key-set_comment none root = refl
  find_key-set_comment (some c) root = find_key-put_text lib info_key (codes "comment") c root refl

  unmodified :
      (config : ModifyConfig) (entropy : Result Bytes Bytes) (root : lib.Fields)
      → info_modified config ≡ false
      → change_fields lib config entropy root ≡ ok (set_comment lib config.comment root)
  unfolding change_fields set_private set_source set_name set_entropy info_modified
  unmodified config entropy root h =
      let p = or_false (has_value config.is_private) _ h in
      let s = or_false (has_value config.source) _ p.1 in
      let n = or_false (has_value config.name) _ s.1 in
      rw
        (
          has_value-none config.is_private p.0,
          has_value-none config.source s.0,
          has_value-none config.name n.0,
          n.1,
        )
        refl

  -- A modification that succeeds and sets neither the private flag nor the source nor the name and
  -- adds no entropy leaves the info dictionary as it is.
  pub apply_modifications-info :
      (config : ModifyConfig) (entropy : Result Bytes Bytes) (root : lib.Fields) {r : lib.Fields}
      → info_modified config ≡ false
      → apply_modifications lib config entropy root ≡ ok r
      → lib.find_key info_key r ≡ lib.find_key info_key root
  apply_modifications-info config entropy root u h =
      Always-ok (λ r. lib.find_key info_key r ≡ lib.find_key info_key root)
        (apply_modifications lib config entropy root)
        (observe_lem lib (λ r. lib.find_key info_key r) (lib.find_key info_key root) config entropy
          root (find_key-change_trackers lib info_key refl refl config root)
          (λ r.
            subst (Always (λ s. lib.find_key info_key s ≡ lib.find_key info_key r))
              (sym (unmodified config entropy r u)) (find_key-set_comment config.comment r)))
        h
