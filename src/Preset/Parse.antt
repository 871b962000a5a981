-- ===== src/Preset/Parse.antt =====
-- What a parsed configuration promises.
use torrent_builder.Common.{
  ◌≡◌, arith, Bytes, List, [], ◌∷◌, true, Bool-cases, inl, inr, Option, none, some, ok, ◌>>=◌, All,
  Always, Always->>=, Always-any,
}
use torrent_builder.Url.{is_valid_url}
use torrent_builder.Yaml.{Yaml, optional_field}
use torrent_builder.Preset.{ConfigValues, urls, url_field, parse_yaml_config}

abbrev pub IsValidList : Option (List Bytes) → Type 0
IsValidList none = Unit
IsValidList (some us) = All (λ u. is_valid_url u ≡ true) us

-- Every tracker and every web seed is a valid URL.
abbrev pub HasValidUrls : ConfigValues → Type 0
HasValidUrls config = IsValidList config.trackers × IsValidList config.web_seeds

module _ (yaml : Yaml) where
  urls-All :
      (message : Bytes) (nodes : List yaml.Node)
      → Always (All (λ u. is_valid_url u ≡ true)) (urls yaml message nodes)
  unfolding urls
  urls-All message [] = tt
  urls-All message (node ∷ nodes) = Always-any _ (yaml.as_string node) _ (λ url.
      elim (Bool-cases (is_valid_url url)) [
        | inl valid ↦ rw valid (
            Always->>= (All (λ u. is_valid_url u ≡ true)) _ (urls yaml message nodes) _
              (urls-All message nodes) (λ rest all. (valid, all)))
        | inr invalid ↦ rw invalid tt
      ])

  url_field-All :
      (message : Bytes) (node : yaml.Node) (key : Bytes)
      → Always IsValidList (url_field yaml message node key)
  unfolding url_field optional_field
  url_field-All message node key = Always-any _ (yaml.get node key) _ (λ found. of_found found)
    where
      of_found :
          (found : Option yaml.Node)
          → Always IsValidList (elim found [
            | none ↦ ok none
            | some value ↦ urls yaml message (yaml.items value) >>= λ a. ok (some a)
          ])
      of_found none = tt
      of_found (some value) =
          Always->>= (All (λ u. is_valid_url u ≡ true)) IsValidList
            (urls yaml message (yaml.items value)) _ (urls-All message (yaml.items value))
            (λ us all. all)

  pub parse_yaml_config-HasValidUrls :
      (node : yaml.Node) → Always HasValidUrls (parse_yaml_config yaml node)
  unfolding parse_yaml_config
  parse_yaml_config-HasValidUrls node =
      Always->>= IsValidList _ (url_field yaml _ node _) _ (url_field-All _ node _) (λ ts hts.
        Always->>= IsValidList _ (url_field yaml _ node _) _ (url_field-All _ node _)
          (λ ws hws. ground arith))
