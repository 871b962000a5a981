-- ===== src/Preset/Search.antt =====
-- Where `find_preset_file` looks for a preset file.
use torrent_builder.Common.{
  ℕ, ◌≡◌, refl, subst, ok_injective, Bytes, ◌∷◌, Bool, true, false, not, ◌&&◌, Bool-cases, and_both,
  inl, inr, Option, none, some, ok, err, is_empty, codes,
}
use torrent_builder.Yaml.{FileSystem, join_path}
use torrent_builder.Preset.{config_file, find_preset_file}

and_false : (b : Bool) → (b && false) ≡ false
and_false true = refl
and_false false = refl

-- The file below `XDG_CONFIG_HOME`.
abbrev pub xdg_file : Bytes → Bytes
xdg_file xdg_config =
    join_path (join_path xdg_config (codes "torrent-builder")) (codes "presets.yaml")

xdg_config_file :
    (files : FileSystem) (c : ℕ) (s : Bytes)
    → files.getenv (codes "XDG_CONFIG_HOME") ≡ some (c ∷ s)
    → config_file files ≡ xdg_file (c ∷ s)
unfolding config_file
xdg_config_file files c s h = rw h refl

-- While `XDG_CONFIG_HOME` is set and not empty, the files below `HOME` are not searched: without a file in the
-- current directory and one below `XDG_CONFIG_HOME` the search fails, whatever else there is.
pub find_preset_file-xdg_file :
    (files : FileSystem) (c : ℕ) (s : Bytes)
    → files.getenv (codes "XDG_CONFIG_HOME") ≡ some (c ∷ s)
    → files.exists (join_path files.current_path (codes "presets.yaml")) ≡ false
    → files.exists (xdg_file (c ∷ s)) ≡ false
    → (message : Bytes) × (find_preset_file files none ≡ err message)
unfolding find_preset_file
find_preset_file-xdg_file files c s is_set no_cwd no_xdg =
    rw (no_cwd, xdg_config_file files c s is_set, no_xdg, and_false) (_, refl)

-- Whatever file the search returns, it exists.
pub find_preset_file_exists :
    (files : FileSystem) (explicit_path : Option Bytes) (path : Bytes)
    → find_preset_file files explicit_path ≡ ok path
    → files.exists path ≡ true
unfolding find_preset_file
find_preset_file_exists files (some p) path h = elim (Bool-cases (files.exists p)) [
  | inl e ↦ subst (λ q. files.exists q ≡ true) (ok_injective (rw (e, find_preset_file) at h)) e
  | inr e ↦ absurd (cc (rw (e, find_preset_file) at h))
]
find_preset_file_exists files none path h =
    let cwd : Bytes = join_path files.current_path (codes "presets.yaml") in
    elim (Bool-cases (files.exists cwd)) [
      | inl e ↦ subst (λ q. files.exists q ≡ true) (ok_injective (rw (e, find_preset_file) at h)) e
      | inr e ↦
          elim (Bool-cases
            (not (is_empty (config_file files)) && files.exists (config_file files))) [
              | inl f ↦
                  subst (λ q. files.exists q ≡ true)
                    (ok_injective (rw (e, f, find_preset_file) at h)) (and_both _ _ f).1
              | inr f ↦ absurd (cc (rw (e, f, find_preset_file) at h))
            ]
    ]
