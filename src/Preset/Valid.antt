-- ===== src/Preset/Valid.antt =====
-- The URLs of loaded presets are valid.
use torrent_builder.Common.{
  ◌≡◌, sym, ap, ◌∙◌, ok_injective, Always, Always->>=, Always-any, Always-ok, Bytes, List, [], ◌∷◌,
  Bool-cases, Option-cases, inl, inr, Option, none, some, ok, ◌>>=◌, All, bytes_eq, value_or, codes,
  subst,
}
use mathlib.Core.Option.{some-injective}
use torrent_builder.Yaml.{Yaml, FileSystem, optional_field}
use torrent_builder.Preset.{
  ConfigValues, overlaid, merge_config_values, PresetLoader, put_preset, find_preset, resolve,
  parse_yaml_config, load_presets, load, load_root, added_presets, check_version,
}
use torrent_builder.Preset.Parse.{IsValidList, HasValidUrls, parse_yaml_config-HasValidUrls}
use torrent_builder.Preset.Load.{load-ok, resolved, resolve_lem}

-- The default section and every preset hold valid URLs only.
abbrev pub LoaderHasValidUrls : PresetLoader → Type 0
LoaderHasValidUrls loader =
    HasValidUrls loader.defaults × All (λ p. HasValidUrls p.1) loader.presets

put_preset-All :
    (name : Bytes) (config : ConfigValues) (presets : List (Bytes × ConfigValues))
    → HasValidUrls config
    → All (λ p. HasValidUrls p.1) presets
    → All (λ p. HasValidUrls p.1) (put_preset name config presets)
unfolding put_preset
put_preset-All name config [] h all = (h, tt)
put_preset-All name config ((k, c) ∷ presets) h (first, rest) =
    elim (Bool-cases (bytes_eq k name)) [
      | inl e ↦ rw e (h, rest)
      | inr e ↦ rw e (first, put_preset-All name config presets h rest)
    ]

find_preset-All :
    (name : Bytes) (presets : List (Bytes × ConfigValues)) (config : ConfigValues)
    → All (λ p. HasValidUrls p.1) presets
    → find_preset name presets ≡ some config
    → HasValidUrls config
unfolding find_preset
find_preset-All name [] config all h = absurd (cc h)
find_preset-All name ((k, c) ∷ presets) config (first, rest) h =
    elim (Bool-cases (bytes_eq k name)) [
      | inl e ↦ subst HasValidUrls (some-injective c config (rw e at h)) first
      | inr e ↦ find_preset-All name presets config rest (rw e at h)
    ]

overlaid-IsValidList :
    (base overlay : Option (List Bytes))
    → IsValidList base
    → IsValidList overlay
    → IsValidList (overlaid base overlay)
unfolding overlaid
overlaid-IsValidList base none hb ho = hb
overlaid-IsValidList base (some us) hb ho = ho

merge-HasValidUrls :
    (base overlay : ConfigValues)
    → HasValidUrls base
    → HasValidUrls overlay
    → HasValidUrls (merge_config_values base overlay)
unfolding merge_config_values
merge-HasValidUrls base overlay (hb, kb) (ho, ko) =
    (overlaid-IsValidList _ _ hb ho, overlaid-IsValidList _ _ kb ko)

module _ (yaml : Yaml) where
  load_presets-All :
      (entries : List (yaml.Node × yaml.Node)) (presets : List (Bytes × ConfigValues))
      → All (λ p. HasValidUrls p.1) presets
      → Always (All (λ p. HasValidUrls p.1)) (load_presets yaml entries presets)
  unfolding load_presets
  load_presets-All [] presets all = all
  load_presets-All ((key, value) ∷ entries) presets all =
      Always-any _ (yaml.as_string key) _ (λ name.
        Always->>= HasValidUrls _ (parse_yaml_config yaml value) _
          (parse_yaml_config-HasValidUrls yaml value)
          (λ config h.
            load_presets-All entries (put_preset name config presets)
              (put_preset-All name config presets h all)))

  added_presets-All :
      (found : Option yaml.Node) (presets : List (Bytes × ConfigValues))
      → All (λ p. HasValidUrls p.1) presets
      → Always (All (λ p. HasValidUrls p.1)) (added_presets yaml found presets)
  unfolding added_presets
  added_presets-All none presets all = all
  added_presets-All (some node) presets all = load_presets-All (yaml.entries node) presets all

  default-HasValidUrls :
      (root : yaml.Node) (loader : PresetLoader)
      → HasValidUrls loader.defaults
      → Always
          (λ found. HasValidUrls (value_or found loader.defaults))
          (optional_field yaml (parse_yaml_config yaml) root (codes "default"))
  unfolding optional_field
  default-HasValidUrls root loader h = Always-any _ (yaml.get root (codes "default")) _ of_found
    where
      of_found :
          (found : Option yaml.Node)
          → Always
              (λ c. HasValidUrls (value_or c loader.defaults))
              (elim found [
                | none ↦ ok none
                | some value ↦ parse_yaml_config yaml value >>= λ a. ok (some a)
              ])
      of_found none = h
      of_found (some value) =
          Always->>= HasValidUrls _ (parse_yaml_config yaml value) _
            (parse_yaml_config-HasValidUrls yaml value) (λ config valid. valid)

  load_root-LoaderHasValidUrls :
      (root : yaml.Node) (loader : PresetLoader)
      → LoaderHasValidUrls loader
      → Always LoaderHasValidUrls (load_root yaml root loader)
  unfolding load_root
  load_root-LoaderHasValidUrls root loader (h, all) =
      Always-any _ (check_version yaml _ root) _ (λ _.
        Always->>= (λ found. HasValidUrls (value_or found loader.defaults)) _
          (optional_field yaml (parse_yaml_config yaml) root (codes "default")) _
          (default-HasValidUrls root loader h)
          (λ found valid. Always-any _ (yaml.get root (codes "presets")) _ (λ node.
            Always->>= (All (λ p. HasValidUrls p.1)) _ (added_presets yaml node loader.presets) _
              (added_presets-All node loader.presets all) (λ presets every. (valid, every)))))

  -- Loading a file into a loader whose URLs are all valid leaves it so, and what such a loader resolves
  -- has valid tracker and web seed URLs only.
  pub load-LoaderHasValidUrls :
      (files : FileSystem) (path name : Bytes) (before loader : PresetLoader)
      (config : ConfigValues)
      → LoaderHasValidUrls before
      → load yaml files path before ≡ ok loader
      → resolve loader name ≡ ok config
      → LoaderHasValidUrls loader × HasValidUrls config
  load-LoaderHasValidUrls files path name before loader config valid h r =
      let (root, _, loaded) = load-ok yaml files path before loader h in
      let after : LoaderHasValidUrls loader =
        Always-ok LoaderHasValidUrls (load_root yaml root before)
          (load_root-LoaderHasValidUrls root before valid) loaded in
      (
        after,
        elim (Option-cases (find_preset name loader.presets)) [
          | inl e ↦ absurd (cc (sym (resolve_lem loader name ∙ ap (resolved loader name) e) ∙ r))
          | inr (c, e) ↦
              subst HasValidUrls
                (ok_injective (sym (resolve_lem loader name ∙ ap (resolved loader name) e) ∙ r))
                (merge-HasValidUrls loader.defaults c after.0
                  (find_preset-All name loader.presets c after.1 e))
        ],
      )
