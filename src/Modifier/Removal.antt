-- ===== src/Modifier/Removal.antt =====
-- What `remove_trackers` of src/torrent_modifier.cpp leaves of the URLs that a torrent announces to.
use torrent_builder.Common.{
  ◌≡◌, refl, sym, ap, ap₂, ◌∙◌, Bytes, List, [], ◌∷◌, ◌++◌, false, Bool-cases, inl, inr, Option,
  none, some, if◌then◌else◌, bytes_eq,
}
use torrent_builder.Modifier.Bencode.{
  Dictionary, Entry, integer, string, list, dict, other, Entries, nil, item,
}
use torrent_builder.Modifier.Trackers.{
  announce, announce_list, is_one_of, remove_from_tier, keep_tier, remove_url_from_tiers,
  update_announce_from_remaining, store_tiers, remaining_announce, remove_by_tiers, remove_trackers,
}
use torrent_builder.Modifier.Urls.{
  tier_urls, tiers_urls, urls_by, announce_urls, announced, announced-stored,
}

unfoldable pub without : List Bytes → List Bytes → List Bytes
without urls [] = []
without urls (url ∷ rest) =
    let kept = without urls rest in if is_one_of url urls then kept else url ∷ kept

without-append : (urls a b : List Bytes) → without urls (a ++ b) ≡ without urls a ++ without urls b
unfolding without
without-append urls [] b = refl
without-append urls (x ∷ a) b = elim (Bool-cases (is_one_of x urls)) [
  | inl h ↦ rw (h, without-append urls a b)
  | inr h ↦ rw (h, without-append urls a b)
]

without-none : (a : List Bytes) → without [] a ≡ a
unfolding without
without-none [] = refl
without-none (x ∷ a) = ap (λ r. x ∷ r) (without-none a)

module _ (lib : Dictionary) where
  remove_from_tier_lem :
      (urls : List Bytes) (tier : (Entries lib.Fields))
      → (tier_urls lib (remove_from_tier lib urls tier).0 ≡ without urls (tier_urls lib tier))
        × ((remove_from_tier lib urls tier).1 ≡ without urls (tier_urls lib tier))
  unfolding remove_from_tier tier_urls without
  remove_from_tier_lem urls nil = (refl, refl)
  remove_from_tier_lem urls (item (string url) es) = elim (Bool-cases (is_one_of url urls)) [
    | inl h ↦ rw (h) (remove_from_tier_lem urls es)
    | inr h ↦ rw (h) (
      ap (λ u. url ∷ u) (remove_from_tier_lem urls es).0,
      ap (λ u. url ∷ u) (remove_from_tier_lem urls es).1,
    )
  ]
  remove_from_tier_lem urls (item (integer n) es) = remove_from_tier_lem urls es
  remove_from_tier_lem urls (item (list l) es) = remove_from_tier_lem urls es
  remove_from_tier_lem urls (item (dict d) es) = remove_from_tier_lem urls es
  remove_from_tier_lem urls (item other es) = remove_from_tier_lem urls es

  tiers_urls-keep_tier :
      (kept tiers : (Entries lib.Fields))
      → tiers_urls lib (keep_tier lib kept tiers) ≡ tier_urls lib kept ++ tiers_urls lib tiers
  unfolding tiers_urls keep_tier tier_urls
  tiers_urls-keep_tier nil tiers = refl
  tiers_urls-keep_tier (item e es) tiers = refl

  remove_url_from_tiers_lem :
      (urls : List Bytes) (tiers : (Entries lib.Fields))
      → (tiers_urls lib (remove_url_from_tiers lib urls tiers).0
          ≡ without urls (tiers_urls lib tiers))
        × ((remove_url_from_tiers lib urls tiers).1 ≡ without urls (tiers_urls lib tiers))
  unfolding remove_url_from_tiers tiers_urls without
  remove_url_from_tiers_lem urls nil = (refl, refl)
  remove_url_from_tiers_lem urls (item (list tier) tiers) =
      let one = remove_from_tier_lem urls tier in
      let all = remove_url_from_tiers_lem urls tiers in
      let parts = sym (without-append urls (tier_urls lib tier) (tiers_urls lib tiers)) in
      (
        tiers_urls-keep_tier (remove_from_tier lib urls tier).0
              (remove_url_from_tiers lib urls tiers).0
            ∙ (ap₂ (λ a b. a ++ b) one.0 all.0 ∙ parts),
        ap₂ (λ a b. a ++ b) one.1 all.1 ∙ parts,
      )
  remove_url_from_tiers_lem urls (item (integer n) tiers) = remove_url_from_tiers_lem urls tiers
  remove_url_from_tiers_lem urls (item (string s) tiers) = remove_url_from_tiers_lem urls tiers
  remove_url_from_tiers_lem urls (item (dict d) tiers) = remove_url_from_tiers_lem urls tiers
  remove_url_from_tiers_lem urls (item other tiers) = remove_url_from_tiers_lem urls tiers

  pub find_key-update :
      (k : Bytes) (root : lib.Fields) (remaining : List Bytes)
      → bytes_eq announce k ≡ false
      → lib.find_key k (update_announce_from_remaining lib root remaining) ≡ lib.find_key k root
  unfolding update_announce_from_remaining
  find_key-update k root [] d = lib.find_key-erase_other k announce root d
  find_key-update k root (url ∷ urls) d = lib.find_key-put_other k announce (string url) root d

  unfoldable pub head_url : List Bytes → Option (Entry lib.Fields)
  head_url [] = none
  head_url (url ∷ urls) = some (string url)

  find_key-update-announce :
      (root : lib.Fields) (remaining : List Bytes)
      → lib.find_key announce (update_announce_from_remaining lib root remaining)
        ≡ head_url remaining
  unfolding update_announce_from_remaining head_url
  find_key-update-announce root [] = lib.find_key-erase announce root
  find_key-update-announce root (url ∷ urls) = lib.find_key-put announce (string url) root

  announced-update :
      (root : lib.Fields) (remaining : List Bytes)
      → announced lib (update_announce_from_remaining lib root remaining)
        ≡ urls_by lib (lib.find_key announce_list root) (head_url remaining)
  unfolding announced
  announced-update root remaining =
      ap₂ (λ t a. urls_by lib t a) (find_key-update announce_list root remaining refl)
        (find_key-update-announce root remaining)

  announced-store_tiers :
      (kept : (Entries lib.Fields)) (root : lib.Fields) (remaining : List Bytes)
      → tiers_urls lib kept ≡ remaining
      → announced lib (update_announce_from_remaining lib (store_tiers lib kept root) remaining)
        ≡ remaining
  unfolding store_tiers urls_by announce_urls head_url tiers_urls
  announced-store_tiers nil root remaining h =
      announced-update (lib.erase announce_list root) remaining
      ∙ (ap₂ (λ t a. urls_by lib t (head_url a)) (lib.find_key-erase announce_list root) (sym h)
          ∙ h)
  announced-store_tiers (item e es) root remaining h =
      announced-stored lib
        (update_announce_from_remaining lib (lib.put announce_list (list (item e es)) root)
          remaining)
        (item e es)
        (find_key-update announce_list (lib.put announce_list (list (item e es)) root) remaining
            refl
          ∙ lib.find_key-put announce_list (list (item e es)) root)
      ∙ h

  remaining_announce_lem :
      (ann : Option (Entry lib.Fields)) (urls : List Bytes)
      → announce_urls lib (head_url (remaining_announce lib ann urls))
        ≡ without urls (announce_urls lib ann)
  unfolding announce_urls head_url remaining_announce without
  remaining_announce_lem none urls = refl
  remaining_announce_lem (some (integer n)) urls = refl
  remaining_announce_lem (some (list l)) urls = refl
  remaining_announce_lem (some (dict d)) urls = refl
  remaining_announce_lem (some other) urls = refl
  remaining_announce_lem (some (string url)) urls = elim (Bool-cases (is_one_of url urls)) [
    | inl h ↦ rw (h) refl
    | inr h ↦ rw (h) refl
  ]

  -- Where the announce-list is no list.
  announced-no_list :
      (root : lib.Fields) (urls : List Bytes) {tiers : Option (Entry lib.Fields)}
      → lib.find_key announce_list root ≡ tiers
      → ((ann : Option (Entry lib.Fields)) → urls_by lib tiers ann ≡ announce_urls lib ann)
      → announced lib (
          update_announce_from_remaining lib root
            (remaining_announce lib (lib.find_key announce root) urls))
        ≡ without urls (announce_urls lib (lib.find_key announce root))
  announced-no_list root urls h no_list =
      let remaining = remaining_announce lib (lib.find_key announce root) urls in
      announced-update root remaining
      ∙ (ap (λ t. urls_by lib t (head_url remaining)) h
          ∙ (no_list (head_url remaining)
              ∙ remaining_announce_lem (lib.find_key announce root) urls))

  announced-remove_by_tiers :
      (tiers : Option (Entry lib.Fields)) (root : lib.Fields) (urls : List Bytes)
      → lib.find_key announce_list root ≡ tiers
      → announced lib (remove_by_tiers lib tiers root urls)
        ≡ without urls (urls_by lib tiers (lib.find_key announce root))
  unfolding remove_by_tiers urls_by
  announced-remove_by_tiers (some (list tiers)) root urls h =
      let parts = remove_url_from_tiers_lem urls tiers in
      announced-store_tiers (remove_url_from_tiers lib urls tiers).0 root
        (remove_url_from_tiers lib urls tiers).1 (parts.0 ∙ sym parts.1)
      ∙ parts.1
  announced-remove_by_tiers none root urls h = announced-no_list root urls h (λ ann. refl)
  announced-remove_by_tiers (some (integer n)) root urls h =
      announced-no_list root urls h (λ ann. refl)
  announced-remove_by_tiers (some (string s)) root urls h =
      announced-no_list root urls h (λ ann. refl)
  announced-remove_by_tiers (some (dict d)) root urls h =
      announced-no_list root urls h (λ ann. refl)
  announced-remove_by_tiers (some other) root urls h = announced-no_list root urls h (λ ann. refl)

  pub announced-remove_trackers :
      (root : lib.Fields) (urls : List Bytes)
      → announced lib (remove_trackers lib root urls) ≡ without urls (announced lib root)
  unfolding remove_trackers announced
  announced-remove_trackers root [] = sym (without-none (announced lib root))
  announced-remove_trackers root (url ∷ urls) =
      announced-remove_by_tiers (lib.find_key announce_list root) root (url ∷ urls) refl
