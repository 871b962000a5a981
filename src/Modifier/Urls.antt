-- ===== src/Modifier/Urls.antt =====
-- The URLs that a torrent announces to, behind the operations of src/torrent_modifier.cpp.
use torrent_builder.Common.{
  ◌≡◌, refl, sym, ap, ◌∙◌, Bytes, List, [], ◌∷◌, ◌++◌, append-nil, append_assoc, false, Option,
  none, some, ok, bytes_eq, Always, Always->>=,
}
use torrent_builder.Modifier.Bencode.{
  Dictionary, Entry, integer, string, list, dict, other, Entries, nil, item,
}
use torrent_builder.Modifier.Trackers.{
  announce, announce_list, append_urls, single_tiers, rebuild_trackers, add_to_last, first_tier,
  ensure_announce, extended_tiers, add_trackers,
}

module _ (lib : Dictionary) where
  unfoldable pub tier_urls : (Entries lib.Fields) → List Bytes
  tier_urls nil = []
  tier_urls (item (string url) es) = url ∷ tier_urls es
  tier_urls (item e es) = tier_urls es

  unfoldable pub tiers_urls : (Entries lib.Fields) → List Bytes
  unfolding tier_urls
  tiers_urls nil = []
  tiers_urls (item (list tier) tiers) = tier_urls tier ++ tiers_urls tiers
  tiers_urls (item e tiers) = tiers_urls tiers

  unfoldable pub announce_urls : Option (Entry lib.Fields) → List Bytes
  announce_urls (some (string url)) = url ∷ []
  announce_urls ann = []

  -- By the announce-list where it is a list, else by the announce URL.
  unfoldable pub urls_by : Option (Entry lib.Fields) → Option (Entry lib.Fields) → List Bytes
  unfolding tiers_urls announce_urls
  urls_by (some (list tiers)) ann = tiers_urls tiers
  urls_by tiers ann = announce_urls ann

  unfoldable pub announced : lib.Fields → List Bytes
  unfolding urls_by
  announced root = urls_by (lib.find_key announce_list root) (lib.find_key announce root)

  pub tier_urls-append_urls :
      (es : (Entries lib.Fields)) (urls : List Bytes)
      → tier_urls (append_urls lib es urls) ≡ tier_urls es ++ urls
  unfolding tier_urls append_urls
  tier_urls-append_urls nil [] = refl
  tier_urls-append_urls nil (url ∷ urls) = ap (λ r. url ∷ r) (tier_urls-append_urls nil urls)
  tier_urls-append_urls (item (integer n) es) urls = tier_urls-append_urls es urls
  tier_urls-append_urls (item (string url) es) urls =
      ap (λ r. url ∷ r) (tier_urls-append_urls es urls)
  tier_urls-append_urls (item (list l) es) urls = tier_urls-append_urls es urls
  tier_urls-append_urls (item (dict d) es) urls = tier_urls-append_urls es urls
  tier_urls-append_urls (item other es) urls = tier_urls-append_urls es urls

  pub tiers_urls-single_tiers : (urls : List Bytes) → tiers_urls (single_tiers lib urls) ≡ urls
  unfolding tiers_urls single_tiers
  tiers_urls-single_tiers [] = refl
  tiers_urls-single_tiers (url ∷ urls) = ap (λ r. url ∷ r) (tiers_urls-single_tiers urls)

  pub announced-rebuild_trackers :
      (root : lib.Fields) (urls : List Bytes) → announced (rebuild_trackers lib root urls) ≡ urls
  unfolding announced rebuild_trackers
  announced-rebuild_trackers root [] = rw (
    lib.find_key-erase announce_list (lib.erase announce root),
    lib.find_key-erase_other announce announce_list (lib.erase announce root) refl,
    lib.find_key-erase announce root,
  )
  announced-rebuild_trackers root (url ∷ urls) = rw (
    lib.find_key-put announce_list (list (single_tiers lib (url ∷ urls)))
        (lib.put announce (string url) root),
    tiers_urls-single_tiers (url ∷ urls),
  )

  -- Behind an entry before the last tier.
  tiers_urls-item :
      (e : (Entry lib.Fields)) (tiers r : (Entries lib.Fields)) (urls : List Bytes)
      → tiers_urls r ≡ tiers_urls tiers ++ urls
      → tiers_urls (item e r) ≡ tiers_urls (item e tiers) ++ urls
  unfolding tiers_urls
  tiers_urls-item (integer n) tiers r urls h = h
  tiers_urls-item (string s) tiers r urls h = h
  tiers_urls-item (dict d) tiers r urls h = h
  tiers_urls-item other tiers r urls h = h
  tiers_urls-item (list tier) tiers r urls h =
      ap (λ u. tier_urls tier ++ u) h ∙ sym (append_assoc (tier_urls tier) (tiers_urls tiers) urls)

  pub tiers_urls-add_to_last :
      (tiers : (Entries lib.Fields)) (urls : List Bytes)
      → Always (λ r. tiers_urls r ≡ tiers_urls tiers ++ urls) (add_to_last lib tiers urls)
  unfolding add_to_last tiers_urls
  tiers_urls-add_to_last nil urls =
      append-nil (tier_urls (append_urls lib nil urls)) ∙ tier_urls-append_urls nil urls
  tiers_urls-add_to_last (item (list tier) nil) urls =
      append-nil (tier_urls (append_urls lib tier urls))
      ∙ (tier_urls-append_urls tier urls ∙ ap (λ u. u ++ urls) (sym (append-nil (tier_urls tier))))
  tiers_urls-add_to_last (item (integer n) nil) urls = tt
  tiers_urls-add_to_last (item (string s) nil) urls = tt
  tiers_urls-add_to_last (item (dict d) nil) urls = tt
  tiers_urls-add_to_last (item other nil) urls = tt
  tiers_urls-add_to_last (item e (item f es)) urls =
      Always->>= (λ r. tiers_urls r ≡ tiers_urls (item f es) ++ urls)
        (λ r. tiers_urls r ≡ tiers_urls (item e (item f es)) ++ urls)
        (add_to_last lib (item f es) urls) (λ r. ok (item e r))
        (tiers_urls-add_to_last (item f es) urls) (λ r h. tiers_urls-item e (item f es) r urls h)

  tier_urls-first_tier :
      (ann : Option (Entry lib.Fields)) → tier_urls (first_tier lib ann) ≡ announce_urls ann
  unfolding tier_urls first_tier announce_urls
  tier_urls-first_tier none = refl
  tier_urls-first_tier (some (integer n)) = refl
  tier_urls-first_tier (some (string s)) = refl
  tier_urls-first_tier (some (list l)) = refl
  tier_urls-first_tier (some (dict d)) = refl
  tier_urls-first_tier (some other) = refl

  one_tier :
      (ann : Option (Entry lib.Fields)) (urls : List Bytes)
      → tiers_urls (item (list (append_urls lib (first_tier lib ann) urls)) nil)
        ≡ announce_urls ann ++ urls
  unfolding tiers_urls
  one_tier ann urls =
      append-nil (tier_urls (append_urls lib (first_tier lib ann) urls))
      ∙ (tier_urls-append_urls (first_tier lib ann) urls
          ∙ ap (λ u. u ++ urls) (tier_urls-first_tier ann))

  tiers_urls-extended_tiers :
      (tiers ann : Option (Entry lib.Fields)) (urls : List Bytes)
      → Always (λ r. tiers_urls r ≡ urls_by tiers ann ++ urls) (extended_tiers lib tiers ann urls)
  unfolding extended_tiers urls_by
  tiers_urls-extended_tiers (some (list tiers)) ann urls = tiers_urls-add_to_last tiers urls
  tiers_urls-extended_tiers none ann urls = one_tier ann urls
  tiers_urls-extended_tiers (some (integer n)) ann urls = one_tier ann urls
  tiers_urls-extended_tiers (some (string s)) ann urls = one_tier ann urls
  tiers_urls-extended_tiers (some (dict d)) ann urls = one_tier ann urls
  tiers_urls-extended_tiers (some other) ann urls = one_tier ann urls

  pub find_key-ensure_announce :
      (k : Bytes) (old : Option (Entry lib.Fields)) (url : Bytes) (root : lib.Fields)
      → bytes_eq announce k ≡ false
      → lib.find_key k (ensure_announce lib old url root) ≡ lib.find_key k root
  unfolding ensure_announce
  find_key-ensure_announce k none url root d = lib.find_key-put_other k announce (string url) root d
  find_key-ensure_announce k (some (integer n)) url root d =
      lib.find_key-put_other k announce (string url) root d
  find_key-ensure_announce k (some (string s)) url root d = refl
  find_key-ensure_announce k (some (list l)) url root d =
      lib.find_key-put_other k announce (string url) root d
  find_key-ensure_announce k (some (dict e)) url root d =
      lib.find_key-put_other k announce (string url) root d
  find_key-ensure_announce k (some other) url root d =
      lib.find_key-put_other k announce (string url) root d

  -- Where a list of tiers is stored last.
  pub announced-stored :
      (root : lib.Fields) (tiers : (Entries lib.Fields))
      → lib.find_key announce_list root ≡ some (list tiers)
      → announced root ≡ tiers_urls tiers
  unfolding announced urls_by
  announced-stored root tiers h = ap (λ t. urls_by t (lib.find_key announce root)) h

  pub announced-add_trackers :
      (root : lib.Fields) (urls : List Bytes)
      → Always (λ r. announced r ≡ announced root ++ urls) (add_trackers lib root urls)
  unfolding add_trackers announced
  announced-add_trackers root [] = sym (append-nil (announced root))
  announced-add_trackers root (url ∷ urls) =
      let tiers = lib.find_key announce_list root in
      let ann = lib.find_key announce root in
      Always->>= (λ r. tiers_urls r ≡ announced root ++ (url ∷ urls))
        (λ r. announced r ≡ announced root ++ (url ∷ urls))
        (extended_tiers lib tiers ann (url ∷ urls))
        (λ r. ok (ensure_announce lib ann url (lib.put announce_list (list r) root)))
        (tiers_urls-extended_tiers tiers ann (url ∷ urls))
        (λ r h.
          announced-stored (ensure_announce lib ann url (lib.put announce_list (list r) root)) r (
            find_key-ensure_announce announce_list ann url (lib.put announce_list (list r) root)
              refl
            ∙ lib.find_key-put announce_list (list r) root)
          ∙ h)
