-- ===== src/Rules/Loading/Laws.antt =====
-- The search for the rules file and the order of the loaded overrides: src/tracker_rules.cpp.
use torrent_builder.Common.{
  ◌*◌, ◌≡◌, refl, Bytes, List, [], ◌∷◌, ◌++◌, not, ltb, if◌then◌else◌, Option, none, some, Result,
  ok, err, guard, value_or, codes, All, Always, Always->>=, Always-any, Always-ok, Bool-cases, inl,
  inr,
}
use torrent_builder.Yaml.{Yaml, FileSystem, join_path, optional_field}
use torrent_builder.Preset.{check_version}
use torrent_builder.Rules.{TrackerRule}
use torrent_builder.Rules.Matching.{TrackerRulesDatabase}
use torrent_builder.Rules.Overrides.{IsDescending, sort_overrides-IsDescending}
use torrent_builder.Rules.Loading.{
  xdg_rules, home_rules, existing, find_rules_file, as_natural, parse_rule, parse_overrides,
  parse_trackers, parse_default, added_trackers, load_document, load_rules,
}

-- The rules file of `XDG_CONFIG_HOME`, where that is set and not empty.
abbrev pub xdg_place : Option Bytes → List Bytes
xdg_place none = []
xdg_place (some []) = []
xdg_place (some (c ∷ directory)) =
    join_path (join_path (c ∷ directory) (codes "torrent-builder")) (codes "rules.yaml") ∷ []

-- The rules file of `HOME`, where that is set.
abbrev pub home_place : Option Bytes → List Bytes
home_place none = []
home_place (some home) =
    join_path (join_path (join_path home (codes ".config")) (codes "torrent-builder"))
      (codes "rules.yaml")
    ∷ []

-- The places of a rules file that is not given, in order.
abbrev pub places : FileSystem → List Bytes
places files =
    join_path files.current_path (codes "rules.yaml")
    ∷ (xdg_place (files.getenv (codes "XDG_CONFIG_HOME"))
        ++ (home_place (files.getenv (codes "HOME")) ++ []))

abbrev pub IsSortedRule : TrackerRule → Type 0
IsSortedRule rule = IsDescending rule.piece_length_overrides

abbrev pub IsSortedDefault : Option TrackerRule → Type 0
IsSortedDefault none = Unit
IsSortedDefault (some rule) = IsSortedRule rule

abbrev pub IsSortedDatabase : TrackerRulesDatabase → Type 0
IsSortedDatabase db = IsSortedDefault db.default_rules × All IsSortedRule db.trackers

All-append {ℓ κ} :
    {A : Type ℓ} (P : A → Type κ) (xs ys : List A) → All P xs → All P ys → All P (xs ++ ys)
All-append P [] ys h k = k
All-append P (x ∷ xs) ys h k = (h.0, All-append P xs ys h.1 k)

module _ (yaml : Yaml) where
  parse_rule-IsSortedRule :
      (node : yaml.Node) (name : Bytes) → Always IsSortedRule (parse_rule yaml node name)
  unfolding parse_rule
  parse_rule-IsSortedRule node name =
      Always-any IsSortedRule (optional_field yaml yaml.as_string node (codes "domain")) _
        (λ domain.
          Always-any IsSortedRule (optional_field yaml yaml.as_string node (codes "source")) _
            (λ source.
              Always-any IsSortedRule
                (optional_field yaml (as_natural yaml) node (codes "max_piece_length")) _
                (λ p.
                  Always-any IsSortedRule
                    (optional_field yaml (as_natural yaml) node (codes "max_torrent_size")) _
                    (λ t.
                      Always-any IsSortedRule
                        (optional_field yaml (λ entries. parse_overrides yaml (yaml.items entries))
                          node (codes "piece_length_overrides"))
                        _ (λ overrides. sort_overrides-IsDescending (value_or overrides []))))))

  parse_trackers-IsSortedRule :
      (entries : List (yaml.Node × yaml.Node))
      → Always (All IsSortedRule) (parse_trackers yaml entries)
  unfolding parse_trackers
  parse_trackers-IsSortedRule [] = tt
  parse_trackers-IsSortedRule ((key, value) ∷ entries) =
      Always-any (All IsSortedRule) (yaml.as_string key) _ (λ name.
        Always->>= IsSortedRule (All IsSortedRule) (parse_rule yaml value name) _
          (parse_rule-IsSortedRule value name)
          (λ rule h.
            Always->>= (All IsSortedRule) (All IsSortedRule) (parse_trackers yaml entries) _
              (parse_trackers-IsSortedRule entries) (λ rules hs. (h, hs))))

  parse_default-IsSortedDefault :
      (found : Option yaml.Node) (old : Option TrackerRule)
      → IsSortedDefault old
      → Always IsSortedDefault (parse_default yaml found old)
  unfolding parse_default
  parse_default-IsSortedDefault none old h = h
  parse_default-IsSortedDefault (some node) old h =
      Always->>= IsSortedRule IsSortedDefault (parse_rule yaml node (codes "default")) _
        (parse_rule-IsSortedRule node (codes "default")) (λ rule k. k)

  added_trackers-IsSortedRule :
      (found : Option yaml.Node) (old : List TrackerRule)
      → All IsSortedRule old
      → Always (All IsSortedRule) (added_trackers yaml found old)
  unfolding added_trackers
  added_trackers-IsSortedRule none old h = h
  added_trackers-IsSortedRule (some node) old h =
      Always->>= (All IsSortedRule) (All IsSortedRule) (parse_trackers yaml (yaml.entries node)) _
        (parse_trackers-IsSortedRule (yaml.entries node))
        (λ rules k. All-append IsSortedRule old rules h k)

  -- After a document that loads, the overrides of every rule in the database, the default one
  -- included, stand in descending order of their bounds, where this held before.
  pub load_rules-IsSortedDatabase :
      (files : FileSystem) (path : Bytes) (db : TrackerRulesDatabase) {after : TrackerRulesDatabase}
      → IsSortedDatabase db
      → load_rules yaml files path db ≡ ok after
      → IsSortedDatabase after
  unfolding load_rules load_document
  load_rules-IsSortedDatabase files path db h e =
      Always-ok IsSortedDatabase (load_rules yaml files path db)
        (Always-any IsSortedDatabase (files.file_size path) _ (λ size.
          Always-any IsSortedDatabase
            (guard (not (ltb (1 * 1024 * 1024) size))
              (codes "Rules file too large (max 1 MB): " ++ path))
            _
            (λ _. Always-any IsSortedDatabase (yaml.load_file path) _ (λ root.
              Always-any IsSortedDatabase
                (check_version yaml (codes "Unsupported rules file version (expected: 1)") root) _
                (λ _. Always-any IsSortedDatabase (yaml.get root (codes "default")) _ (λ found.
                  Always->>= IsSortedDefault IsSortedDatabase
                    (parse_default yaml found db.default_rules) _
                    (parse_default-IsSortedDefault found db.default_rules h.0)
                    (λ d hd.
                      Always-any IsSortedDatabase (yaml.get root (codes "trackers")) _ (λ found.
                        Always->>= (All IsSortedRule) IsSortedDatabase
                          (added_trackers yaml found db.trackers) _
                          (added_trackers-IsSortedRule found db.trackers h.1)
                          (λ ts ht. (hd, ht))))))))))
        e

unfoldable pub returned : Result Bytes Bytes → Option Bytes
returned (ok path) = some path
returned (err message) = none

unfoldable pub first_existing : FileSystem → List Bytes → Option Bytes
first_existing files [] = none
first_existing files (path ∷ paths) =
    let rest = first_existing files paths in if files.exists path then some path else rest

returned-existing :
    (files : FileSystem) (path : Bytes) (rest : Result Bytes Bytes) (paths : List Bytes)
    → returned rest ≡ first_existing files paths
    → returned (existing files (some path) rest) ≡ first_existing files (path ∷ paths)
unfolding returned first_existing
returned-existing files path rest paths h = elim (Bool-cases (files.exists path)) [
  | inl e ↦ rw (e) refl
  | inr e ↦ rw (e) h
]

returned-xdg :
    (files : FileSystem) (rest : Result Bytes Bytes) (paths : List Bytes)
    → returned rest ≡ first_existing files paths
    → returned (existing files (xdg_rules files) rest)
      ≡ first_existing files (xdg_place (files.getenv (codes "XDG_CONFIG_HOME")) ++ paths)
unfolding xdg_rules
returned-xdg files rest paths h = by_value (files.getenv (codes "XDG_CONFIG_HOME")) refl
  where
    by_value :
        (v : Option Bytes)
        → files.getenv (codes "XDG_CONFIG_HOME") ≡ v
        → returned (existing files (xdg_rules files) rest)
          ≡ first_existing files (xdg_place v ++ paths)
    by_value none e = rw (e, xdg_rules) h
    by_value (some []) e = rw (e, xdg_rules) h
    by_value (some (c ∷ directory)) e = rw (e, xdg_rules) (returned-existing files _ rest paths h)

returned-home :
    (files : FileSystem) (rest : Result Bytes Bytes) (paths : List Bytes)
    → returned rest ≡ first_existing files paths
    → returned (existing files (home_rules files) rest)
      ≡ first_existing files (home_place (files.getenv (codes "HOME")) ++ paths)
unfolding home_rules
returned-home files rest paths h = by_value (files.getenv (codes "HOME")) refl
  where
    by_value :
        (v : Option Bytes)
        → files.getenv (codes "HOME") ≡ v
        → returned (existing files (home_rules files) rest)
          ≡ first_existing files (home_place v ++ paths)
    by_value none e = rw (e, home_rules) h
    by_value (some home) e = rw (e, home_rules) (returned-existing files _ rest paths h)

-- Where no rules file is given, the search returns the first of the places at which a file exists:
-- the working directory, the directory that XDG_CONFIG_HOME names, where it is set and not empty,
-- and `.config` in HOME, where that is set; if there is none it is an error.
pub find_rules_file_lem :
    (files : FileSystem)
    → returned (find_rules_file files none) ≡ first_existing files (places files)
unfolding find_rules_file first_existing returned
find_rules_file_lem files =
    returned-existing files (join_path files.current_path (codes "rules.yaml")) _ _
      (returned-xdg files _ _ (returned-home files _ [] refl))
