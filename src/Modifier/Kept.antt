-- ===== src/Modifier/Kept.antt =====
-- The keys that the operations of src/torrent_modifier.cpp on the trackers leave alone.
use torrent_builder.Common.{
  ◌≡◌, refl, ◌∙◌, Bytes, List, [], ◌∷◌, false, Option, none, some, ok, bytes_eq, Always, Always-any,
  Always-map,
}
use torrent_builder.Modifier.{ModifyConfig}
use torrent_builder.Modifier.Bencode.{
  Dictionary, Entry, integer, string, list, dict, other, Entries, nil, item,
}
use torrent_builder.Modifier.Trackers.{
  announce, announce_list, rebuild_trackers, add_trackers, remove_trackers, remove_by_tiers,
  store_tiers, remaining_announce, remove_url_from_tiers, extended_tiers, ensure_announce,
  single_tiers,
}
use torrent_builder.Modifier.Apply.{change_trackers}
use torrent_builder.Modifier.Urls.{find_key-ensure_announce}
use torrent_builder.Modifier.Removal.{find_key-update}

module _ (lib : Dictionary) where
  -- A key that is none of the two of the trackers.
  module _ (k : Bytes) (da : bytes_eq announce k ≡ false)
      (dl : bytes_eq announce_list k ≡ false) where
    find_key-rebuild_trackers :
        (root : lib.Fields) (urls : List Bytes)
        → lib.find_key k (rebuild_trackers lib root urls) ≡ lib.find_key k root
    unfolding rebuild_trackers
    find_key-rebuild_trackers root [] =
        lib.find_key-erase_other k announce_list (lib.erase announce root) dl
        ∙ lib.find_key-erase_other k announce root da
    find_key-rebuild_trackers root (url ∷ urls) =
        lib.find_key-put_other k announce_list (list (single_tiers lib (url ∷ urls)))
          (lib.put announce (string url) root) dl
        ∙ lib.find_key-put_other k announce (string url) root da

    find_key-add_trackers :
        (root : lib.Fields) (urls : List Bytes)
        → Always (λ r. lib.find_key k r ≡ lib.find_key k root) (add_trackers lib root urls)
    unfolding add_trackers
    find_key-add_trackers root [] = refl
    find_key-add_trackers root (url ∷ urls) =
        let ann = lib.find_key announce root in
        Always-any (λ r. lib.find_key k r ≡ lib.find_key k root)
          (extended_tiers lib (lib.find_key announce_list root) ann (url ∷ urls))
          (λ tiers. ok (ensure_announce lib ann url (lib.put announce_list (list tiers) root)))
          (λ tiers.
            find_key-ensure_announce lib k ann url (lib.put announce_list (list tiers) root) da
            ∙ lib.find_key-put_other k announce_list (list tiers) root dl)

    find_key-store_tiers :
        (tiers : (Entries lib.Fields)) (root : lib.Fields)
        → lib.find_key k (store_tiers lib tiers root) ≡ lib.find_key k root
    unfolding store_tiers
    find_key-store_tiers nil root = lib.find_key-erase_other k announce_list root dl
    find_key-store_tiers (item e es) root =
        lib.find_key-put_other k announce_list (list (item e es)) root dl

    find_key-remove_by_tiers :
        (tiers : Option (Entry lib.Fields)) (root : lib.Fields) (urls : List Bytes)
        → lib.find_key k (remove_by_tiers lib tiers root urls) ≡ lib.find_key k root
    unfolding remove_by_tiers
    find_key-remove_by_tiers (some (list tiers)) root urls =
        find_key-update lib k (store_tiers lib (remove_url_from_tiers lib urls tiers).0 root)
          (remove_url_from_tiers lib urls tiers).1 da
        ∙ find_key-store_tiers (remove_url_from_tiers lib urls tiers).0 root
    find_key-remove_by_tiers none root urls =
        find_key-update lib k root (remaining_announce lib (lib.find_key announce root) urls) da
    find_key-remove_by_tiers (some (integer n)) root urls =
        find_key-update lib k root (remaining_announce lib (lib.find_key announce root) urls) da
    find_key-remove_by_tiers (some (string s)) root urls =
        find_key-update lib k root (remaining_announce lib (lib.find_key announce root) urls) da
    find_key-remove_by_tiers (some (dict d)) root urls =
        find_key-update lib k root (remaining_announce lib (lib.find_key announce root) urls) da
    find_key-remove_by_tiers (some other) root urls =
        find_key-update lib k root (remaining_announce lib (lib.find_key announce root) urls) da

    find_key-remove_trackers :
        (root : lib.Fields) (urls : List Bytes)
        → lib.find_key k (remove_trackers lib root urls) ≡ lib.find_key k root
    unfolding remove_trackers
    find_key-remove_trackers root [] = refl
    find_key-remove_trackers root (url ∷ urls) =
        find_key-remove_by_tiers (lib.find_key announce_list root) root (url ∷ urls)

    pub find_key-change_trackers :
        (config : ModifyConfig) (root : lib.Fields)
        → Always (λ r. lib.find_key k r ≡ lib.find_key k root) (change_trackers lib config root)
    unfolding change_trackers
    find_key-change_trackers config root = at config.trackers
      where
        at :
            (t : Option (List Bytes))
            → Always
                (λ r. lib.find_key k r ≡ lib.find_key k root)
                (elim t [
                  | some urls ↦ ok (rebuild_trackers lib root urls)
                  | none ↦
                      add_trackers lib
                        (remove_trackers lib root config.remove_trackers)
                        config.add_trackers
                ])
        at (some urls) = find_key-rebuild_trackers root urls
        at none =
            Always-map (λ r h. h ∙ find_key-remove_trackers root config.remove_trackers)
              (add_trackers lib (remove_trackers lib root config.remove_trackers)
                config.add_trackers)
              (find_key-add_trackers (remove_trackers lib root config.remove_trackers)
                config.add_trackers)
