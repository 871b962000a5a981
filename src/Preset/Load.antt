-- ===== src/Preset/Load.antt =====
-- What a loaded preset file gives for a name.
use torrent_builder.Common.{
  ◌≡◌, refl, sym, ap, ◌∙◌, >>=-ok, ok_injective, Bytes, List, [], ◌∷◌, true, false, Bool-cases,
  Option-cases, inl, inr, Option, none, some, Result, ok, err, guard, if◌then◌else◌, bytes_eq,
  bytes_eq_sound, codes, subst, not, ltb, ◌*◌, ◌++◌,
}
use torrent_builder.Yaml.{Yaml, FileSystem, optional_field}
use torrent_builder.Preset.{
  ConfigValues, merge_config_values, PresetLoader, put_preset, find_preset, resolve,
  unknown_preset_message, parse_yaml_config, load_presets, load, load_root, added_presets,
  new_loader, check_version,
}

absent :
    (k key name : Bytes)
    → bytes_eq key name ≡ true
    → bytes_eq k key ≡ false
    → bytes_eq k name ≡ false
absent k key name found other = sym (ap (λ t. bytes_eq k t) (bytes_eq_sound key name found)) ∙ other

find_preset-put_preset :
    (name key : Bytes) (config : ConfigValues) (presets : List (Bytes × ConfigValues))
    → find_preset name (put_preset key config presets)
      ≡ (if bytes_eq key name then some config else find_preset name presets)
unfolding find_preset put_preset
find_preset-put_preset name key config [] = refl
find_preset-put_preset name key config ((k, c) ∷ presets) = elim (Bool-cases (bytes_eq k key)) [
  | inl same ↦
      let e : k ≡ key = bytes_eq_sound k key same in
      rw (same, find_preset)
        (rw e
          (elim (Bool-cases (bytes_eq key name)) [ inl found ↦ rw found | inr missed ↦ rw missed ]))
  | inr other ↦
      rw (other, find_preset, find_preset-put_preset name key config presets)
        (elim (Bool-cases (bytes_eq key name)) [
          | inl found ↦ rw (found, absent k key name found other) refl
          | inr missed ↦ rw missed
        ])
]

-- The value of the last pair with the key, and `before` where there is none.
abbrev pub last_config :
    Bytes → List (Bytes × ConfigValues) → Option ConfigValues → Option ConfigValues
last_config name [] before = before
last_config name ((k, c) ∷ pairs) before =
    last_config name pairs (if bytes_eq k name then some c else before)

-- The result for the preset that was found.
abbrev pub resolved : PresetLoader → Bytes → Option ConfigValues → Result Bytes ConfigValues
resolved loader name none = err (unknown_preset_message loader name)
resolved loader name (some config) = ok (merge_config_values loader.defaults config)

pub resolve_lem :
    (loader : PresetLoader) (name : Bytes)
    → resolve loader name ≡ resolved loader name (find_preset name loader.presets)
unfolding resolve
resolve_lem loader name = elim (Option-cases (find_preset name loader.presets)) [
  | inl e ↦ rw (e, resolve) refl
  | inr (config, e) ↦ rw (e, resolve) refl
]

module _ (yaml : Yaml) where
  -- The pairs that the nodes of a map stand for.
  abbrev pub IsParsed : List (yaml.Node × yaml.Node) → List (Bytes × ConfigValues) → Type 0
  IsParsed [] pairs = pairs ≡ []
  IsParsed ((key, value) ∷ entries) pairs =
      (name : Bytes) × (config : ConfigValues) × (rest : List (Bytes × ConfigValues)) × (pairs
        ≡ (name, config) ∷ rest)
      × (yaml.as_string key ≡ ok name)
      × (parse_yaml_config yaml value ≡ ok config)
      × IsParsed entries rest

  -- A name stands for the last entry of the file that has it, and for what it stood for before where
  -- the file has none.
  load_presets_lem :
      (entries : List (yaml.Node × yaml.Node)) (presets after : List (Bytes × ConfigValues))
      → load_presets yaml entries presets ≡ ok after
      → (pairs : List (Bytes × ConfigValues)) × IsParsed entries pairs
        × ((name : Bytes)
            → find_preset name after ≡ last_config name pairs (find_preset name presets))
  unfolding load_presets
  load_presets_lem [] presets after h =
      ([], refl, λ name. ap (find_preset name) (sym (ok_injective h)))
  load_presets_lem ((key, value) ∷ entries) presets after h =
      let (k, is_key, h1) = >>=-ok (yaml.as_string key) _ h in
      let (config, is_config, h2) = >>=-ok (parse_yaml_config yaml value) _ h1 in
      let (pairs, parsed, found) =
        load_presets_lem entries (put_preset k config presets) after h2 in
      (
        (k, config) ∷ pairs,
        (k, config, pairs, refl, is_key, is_config, parsed),
        λ name.
            found name ∙ ap (last_config name pairs) (find_preset-put_preset name k config presets),
      )

  pub load-ok :
      (files : FileSystem) (path : Bytes) (loader after : PresetLoader)
      → load yaml files path loader ≡ ok after
      → (root : yaml.Node) × (yaml.load_file path ≡ ok root)
        × (load_root yaml root loader ≡ ok after)
  unfolding load
  load-ok files path loader after h =
      let (size, _, h1) = >>=-ok (files.file_size path) _ h in
      let (_, _, h2) =
        >>=-ok
          (guard (not (ltb (1024 * 1024) size))
            (codes "Preset file too large (max 1 MB): " ++ path))
          _ h1 in
      >>=-ok (yaml.load_file path) (λ root. load_root yaml root loader) h2

  load_root-presets :
      (root node : yaml.Node) (loader after : PresetLoader)
      → load_root yaml root loader ≡ ok after
      → yaml.get root (codes "presets") ≡ ok (some node)
      → load_presets yaml (yaml.entries node) loader.presets ≡ ok after.presets
  unfolding load_root added_presets
  load_root-presets root node loader after h is_node =
      let (_, _, h1) =
        >>=-ok (check_version yaml (codes "Unsupported preset file version (expected: 1)") root) _
          h in
      let (default, _, h2) =
        >>=-ok (optional_field yaml (parse_yaml_config yaml) root (codes "default")) _ h1 in
      let (presets, e, h3) =
        >>=-ok (load_presets yaml (yaml.entries node) loader.presets) _
          (rw (is_node, added_presets) at h2) in
      e ∙ ap (λ l. ok l.presets) (ok_injective h3)

  -- What `resolve` gives for a name, where a new loader has loaded a file with a `presets` section: the
  -- last entry of the section with that name, laid over the defaults of the loader, and the error that
  -- lists the names where no entry has it.
  pub load_lem :
      (files : FileSystem) (path : Bytes) (root node : yaml.Node) (loader : PresetLoader)
      → load yaml files path new_loader ≡ ok loader
      → yaml.load_file path ≡ ok root
      → yaml.get root (codes "presets") ≡ ok (some node)
      → (pairs : List (Bytes × ConfigValues)) × IsParsed (yaml.entries node) pairs
        × ((name : Bytes)
            → resolve loader name ≡ resolved loader name (last_config name pairs none))
  unfolding find_preset
  load_lem files path root node loader h is_root is_node =
      let (root', is_root', h1) = load-ok files path new_loader loader h in
      let same : root' ≡ root = ok_injective (sym is_root' ∙ is_root) in
      let (pairs, parsed, found) = load_presets_lem (yaml.entries node) [] loader.presets (
        load_root-presets root node new_loader loader
          (subst (λ r. load_root yaml r new_loader ≡ ok loader) same h1) is_node) in
      (pairs, parsed, λ name. resolve_lem loader name ∙ ap (resolved loader name) (found name))
