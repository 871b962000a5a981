-- ===== src/Modifier/Laws.antt =====
-- `apply_modifications` of src/torrent_modifier.cpp: the trackers behind it, and what it leaves alone.
use torrent_builder.Common.{
  ◌≡◌, refl, ap, ap₂, ◌∙◌, Bytes, List, [], ◌∷◌, ◌++◌, false, Option, none, some, Result, ok, ◌>>=◌,
  guard, bytes_eq, codes, has_value, Always, Always->>=, Always-any, Always-map, Always-ok,
}
use torrent_builder.Modifier.{ModifyConfig}
use torrent_builder.Modifier.Bencode.{Dictionary, string, dict}
use torrent_builder.Modifier.Trackers.{
  announce, announce_list, rebuild_trackers, add_trackers, remove_trackers,
}
use torrent_builder.Modifier.Apply.{
  info_key, change_trackers, put_text, change_fields, apply_modifications,
}
use torrent_builder.Modifier.Urls.{
  urls_by, announced, announced-rebuild_trackers, announced-add_trackers,
}
use torrent_builder.Modifier.Removal.{without, announced-remove_trackers}
use torrent_builder.Modifier.Frame.{change_fields-keeps}

-- The URLs behind the operations on the trackers.
unfoldable pub trackers_after : ModifyConfig → List Bytes → List Bytes
trackers_after config old = elim config.trackers [
  | some urls ↦ urls
  | none ↦ without config.remove_trackers old ++ config.add_trackers
]

module _ (lib : Dictionary) where
  announced-change_trackers :
      (config : ModifyConfig) (root : lib.Fields)
      → Always
          (λ r. announced lib r ≡ trackers_after config (announced lib root))
          (change_trackers lib config root)
  unfolding trackers_after change_trackers
  announced-change_trackers config root = at config.trackers
    where
      at :
          (t : Option (List Bytes))
          → Always
              (λ r. announced lib r ≡ (elim t [
                | some urls ↦ urls
                | none ↦ without config.remove_trackers (announced lib root) ++ config.add_trackers
              ]))
              (elim t [
                | some urls ↦ ok (rebuild_trackers lib root urls)
                | none ↦
                    add_trackers lib
                      (remove_trackers lib root config.remove_trackers)
                      config.add_trackers
              ])
      at (some urls) = announced-rebuild_trackers lib root urls
      at none =
          Always-map
            (λ r h.
              h
              ∙ ap (λ u. u ++ config.add_trackers)
                  (announced-remove_trackers lib root config.remove_trackers))
            (add_trackers lib (remove_trackers lib root config.remove_trackers) config.add_trackers)
            (announced-add_trackers lib (remove_trackers lib root config.remove_trackers)
              config.add_trackers)

  pub find_key-put_text :
      (k key s : Bytes) (root : lib.Fields)
      → bytes_eq key k ≡ false
      → lib.find_key k (put_text lib key s root) ≡ lib.find_key k root
  unfolding put_text
  find_key-put_text k key [] root d = lib.find_key-erase_other k key root d
  find_key-put_text k key (c ∷ s) root d = lib.find_key-put_other k key (string (c ∷ s)) root d

  pub find_key-change_fields :
      (k : Bytes)
      → bytes_eq info_key k ≡ false
      → bytes_eq (codes "comment") k ≡ false
      → (config : ModifyConfig) (entropy : Result Bytes Bytes) (root : lib.Fields)
      → Always (λ r. lib.find_key k r ≡ lib.find_key k root) (change_fields lib config entropy root)
  find_key-change_fields k di dc config entropy root =
      change_fields-keeps lib (λ r. lib.find_key k r)
        (λ r info key value h e.
          lib.find_key-put_other k info_key (dict (lib.put key value info)) r di)
        (λ r info e.
          lib.find_key-put_other k info_key (dict (lib.erase (codes "source") info)) r di)
        (λ r comment. find_key-put_text k (codes "comment") comment r dc) config entropy root

  announced-same :
      (r s : lib.Fields)
      → lib.find_key announce_list s ≡ lib.find_key announce_list r
      → lib.find_key announce s ≡ lib.find_key announce r
      → announced lib s ≡ announced lib r
  unfolding announced
  announced-same r s h k = ap₂ (λ t a. urls_by lib t a) h k

  announced-put_info :
      (info r : lib.Fields) → announced lib (lib.put info_key (dict info) r) ≡ announced lib r
  announced-put_info info r =
      announced-same r (lib.put info_key (dict info) r)
        (lib.find_key-put_other announce_list info_key (dict info) r refl)
        (lib.find_key-put_other announce info_key (dict info) r refl)

  announced-change_fields :
      (config : ModifyConfig) (entropy : Result Bytes Bytes) (root : lib.Fields)
      → Always (λ r. announced lib r ≡ announced lib root) (change_fields lib config entropy root)
  announced-change_fields config entropy root =
      change_fields-keeps lib (λ r. announced lib r)
        (λ r info key value h e. announced-put_info (lib.put key value info) r)
        (λ r info e. announced-put_info (lib.erase (codes "source") info) r)
        (λ r comment.
          announced-same r (put_text lib (codes "comment") comment r)
            (find_key-put_text announce_list (codes "comment") comment r refl)
            (find_key-put_text announce (codes "comment") comment r refl))
        config entropy root

  -- An observation that the two parts keep, or change in the first part only.
  pub observe_lem {ℓ} :
      {B : Type ℓ} (look : lib.Fields → B) (b : B) (config : ModifyConfig)
      (entropy : Result Bytes Bytes) (root : lib.Fields)
      → Always (λ r. look r ≡ b) (change_trackers lib config root)
      → ((r : lib.Fields) → Always (λ s. look s ≡ look r) (change_fields lib config entropy r))
      → Always (λ r. look r ≡ b) (apply_modifications lib config entropy root)
  unfolding apply_modifications
  observe_lem look b config entropy root h k =
      Always-any (λ r. look r ≡ b)
        (guard (has_value (lib.find_key info_key root))
          (codes "Invalid torrent: missing 'info' dictionary"))
        (λ _. change_trackers lib config root >>= change_fields lib config entropy)
        (λ _.
          Always->>= (λ r. look r ≡ b) (λ r. look r ≡ b) (change_trackers lib config root)
            (change_fields lib config entropy) h
            (λ r e. Always-map (λ s d. d ∙ e) (change_fields lib config entropy r) (k r)))

  -- After a modification that succeeds, the torrent announces to the new trackers where these are
  -- given, else to the URLs of before without the removed ones, with the added ones behind them, in
  -- this order.
  pub apply_modifications-announced :
      (config : ModifyConfig) (entropy : Result Bytes Bytes) (root : lib.Fields) {r : lib.Fields}
      → apply_modifications lib config entropy root ≡ ok r
      → announced lib r ≡ trackers_after config (announced lib root)
  apply_modifications-announced config entropy root h =
      Always-ok (λ r. announced lib r ≡ trackers_after config (announced lib root))
        (apply_modifications lib config entropy root)
        (observe_lem (λ r. announced lib r) (trackers_after config (announced lib root)) config
          entropy root (announced-change_trackers config root)
          (announced-change_fields config entropy))
        h
