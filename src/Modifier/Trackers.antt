-- ===== src/Modifier/Trackers.antt =====
-- The operations of src/torrent_modifier.cpp on the trackers.
use torrent_builder.Common.{
  Bytes, List, [], ◌∷◌, ◌++◌, Bool, any, Option, some, Result, ok, err, ◌>>=◌, if◌then◌else◌,
  bytes_eq, codes,
}
use torrent_builder.Modifier.Bencode.{Dictionary, Entry, string, list, Entries, nil, item}

abbrev pub announce : Bytes
announce = codes "announce"

abbrev pub announce_list : Bytes
announce_list = codes "announce-list"

abbrev pub is_one_of : Bytes → List Bytes → Bool
is_one_of url urls = any (λ u. bytes_eq url u) urls

module _ (lib : Dictionary) where
  -- The entries with the URLs behind them: `tier.emplace_back(lt::entry(url))` for each.
  unfoldable pub append_urls : (Entries lib.Fields) → List Bytes → (Entries lib.Fields)
  append_urls nil [] = nil
  append_urls nil (url ∷ urls) = item (string url) (append_urls nil urls)
  append_urls (item e es) urls = item e (append_urls es urls)

  -- A tier for each URL.
  unfoldable pub single_tiers : List Bytes → (Entries lib.Fields)
  single_tiers [] = nil
  single_tiers (url ∷ urls) = item (list (item (string url) nil)) (single_tiers urls)

  unfoldable pub rebuild_trackers : lib.Fields → List Bytes → lib.Fields
  unfolding single_tiers
  rebuild_trackers root [] = lib.erase announce_list (lib.erase announce root)
  rebuild_trackers root (url ∷ urls) =
      lib.put announce_list (list (single_tiers (url ∷ urls))) (lib.put announce (string url) root)

  -- `tiers.back().list()` and the URLs behind it; another kind of entry throws.
  unfoldable pub add_to_last : (Entries lib.Fields) → List Bytes → Result Bytes (Entries lib.Fields)
  unfolding append_urls
  add_to_last nil urls = ok (item (list (append_urls nil urls)) nil)
  add_to_last (item (list tier) nil) urls = ok (item (list (append_urls tier urls)) nil)
  add_to_last (item e nil) urls = err (codes "invalid type requested from entry")
  add_to_last (item e (item f es)) urls =
      add_to_last (item f es) urls >>= λ tiers. ok (item e tiers)

  -- The tier of a torrent without tiers: its announce URL, where it has one.
  unfoldable pub first_tier : Option (Entry lib.Fields) → (Entries lib.Fields)
  first_tier (some (string url)) = item (string url) nil
  first_tier _ = nil

  -- The announce URL, set to the first one where there is none.
  unfoldable pub ensure_announce : Option (Entry lib.Fields) → Bytes → lib.Fields → lib.Fields
  ensure_announce (some (string old)) url root = root
  ensure_announce _ url root = lib.put announce (string url) root

  -- The tiers behind the addition.
  unfoldable pub extended_tiers :
      Option (Entry lib.Fields)
      → Option (Entry lib.Fields)
      → List Bytes
      → Result Bytes (Entries lib.Fields)
  unfolding add_to_last first_tier append_urls
  extended_tiers (some (list tiers)) ann urls = add_to_last tiers urls
  extended_tiers _ ann urls = ok (item (list (append_urls (first_tier ann) urls)) nil)

  unfoldable pub add_trackers : lib.Fields → List Bytes → Result Bytes lib.Fields
  unfolding extended_tiers ensure_announce
  add_trackers root [] = ok root
  add_trackers root (url ∷ urls) = do
    tiers ←
        extended_tiers (lib.find_key announce_list root) (lib.find_key announce root) (url ∷ urls)
    ok (ensure_announce (lib.find_key announce root) url (lib.put announce_list (list tiers) root))

  -- The inner loop: the entries of a tier that stay, and the URLs among them.
  unfoldable pub remove_from_tier :
      List Bytes → (Entries lib.Fields) → (Entries lib.Fields) × List Bytes
  remove_from_tier urls nil = (nil, [])
  remove_from_tier urls (item (string url) es) =
      let (kept, remaining) = remove_from_tier urls es in
      if is_one_of url urls then (kept, remaining) else (item (string url) kept, url ∷ remaining)
  remove_from_tier urls (item e es) =
      let (kept, remaining) = remove_from_tier urls es in (item e kept, remaining)

  -- A tier is put before the others, unless it has become empty.
  unfoldable pub keep_tier : (Entries lib.Fields) → (Entries lib.Fields) → (Entries lib.Fields)
  keep_tier nil tiers = tiers
  keep_tier (item e es) tiers = item (list (item e es)) tiers

  -- The tiers that stay, and the URLs that remain in them.
  unfoldable pub remove_url_from_tiers :
      List Bytes → (Entries lib.Fields) → (Entries lib.Fields) × List Bytes
  unfolding remove_from_tier keep_tier
  remove_url_from_tiers urls nil = (nil, [])
  remove_url_from_tiers urls (item (list tier) tiers) =
      let (kept, remaining) = remove_from_tier urls tier in
      let (kept_tiers, further) = remove_url_from_tiers urls tiers in
      (keep_tier kept kept_tiers, remaining ++ further)
  remove_url_from_tiers urls (item e tiers) =
      let (kept_tiers, further) = remove_url_from_tiers urls tiers in (item e kept_tiers, further)

  unfoldable pub update_announce_from_remaining : lib.Fields → List Bytes → lib.Fields
  update_announce_from_remaining root [] = lib.erase announce root
  update_announce_from_remaining root (url ∷ urls) = lib.put announce (string url) root

  -- The list of tiers, removed where it has become empty. The tiers are changed in place.
  unfoldable pub store_tiers : (Entries lib.Fields) → lib.Fields → lib.Fields
  store_tiers nil root = lib.erase announce_list root
  store_tiers (item e es) root = lib.put announce_list (list (item e es)) root

  -- The announce URL of a torrent without tiers, where it is not one of the URLs.
  unfoldable pub remaining_announce : Option (Entry lib.Fields) → List Bytes → List Bytes
  remaining_announce (some (string url)) urls = if is_one_of url urls then [] else url ∷ []
  remaining_announce _ urls = []

  -- Behind the look-up of the tiers.
  unfoldable pub remove_by_tiers : Option (Entry lib.Fields) → lib.Fields → List Bytes → lib.Fields
  unfolding remove_url_from_tiers update_announce_from_remaining store_tiers remaining_announce
  remove_by_tiers (some (list tiers)) root urls =
      let (kept, remaining) = remove_url_from_tiers urls tiers in
      update_announce_from_remaining (store_tiers kept root) remaining
  remove_by_tiers _ root urls =
      update_announce_from_remaining root (remaining_announce (lib.find_key announce root) urls)

  unfoldable pub remove_trackers : lib.Fields → List Bytes → lib.Fields
  unfolding remove_by_tiers
  remove_trackers root [] = root
  remove_trackers root (url ∷ urls) =
      remove_by_tiers (lib.find_key announce_list root) root (url ∷ urls)
