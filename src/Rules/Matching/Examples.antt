-- ===== src/Rules/Matching/Examples.antt =====
-- Runs of the rule search, and its theorems at concrete domains and URLs.
use torrent_builder.Common.{◌≡◌, ◌⊎◌, refl, Bytes, List, [], ◌∷◌, ◌++◌, All, none, some, codes}
use torrent_builder.Text.{find_byte, rfind_byte, find_text, to_lower}
use torrent_builder.Domain.{authority_from, host_port_of, host_of, extract_domain}
use torrent_builder.Rules.{TrackerRule}
use torrent_builder.Rules.Matching.{
  TrackerRulesDatabase, domain_matches, rule_matches, first_rule, rule_for_url, find_matching_rule,
}
use torrent_builder.Rules.Matching.Laws.{SelectsNone, Selects, find_matching_rule_lem}

abbrev rule_of : Bytes → TrackerRule
rule_of rule_domain = record {
  name = rule_domain;
  domain = some rule_domain;
  source = none;
  max_piece_length = none;
  max_torrent_size = none;
  piece_length_overrides = [];
}

abbrev database : TrackerRulesDatabase
database = record {
  default_rules = none;
  trackers = rule_of (codes "a.org") ∷ rule_of (codes "B.net") ∷ [];
}

abbrev announce_urls : List Bytes
announce_urls = codes "udp://nota.org:80" ∷ codes "https://x.b.net/announce" ∷ []

second_url : find_matching_rule database announce_urls ≡ some (rule_of (codes "B.net"))
unfolding find_byte rfind_byte find_text to_lower authority_from host_port_of host_of extract_domain
    domain_matches rule_matches first_rule rule_for_url find_matching_rule
second_url = refl

find_matching_rule_lem_example :
    ((find_matching_rule database announce_urls ≡ database.default_rules)
      × All (SelectsNone database.trackers) announce_urls)
    ⊎ ((before : List Bytes) × (url : Bytes) × (after : List Bytes) × (rule : TrackerRule)
        × (announce_urls ≡ before ++ url ∷ after)
        × All (SelectsNone database.trackers) before
        × Selects database.trackers url rule
        × (find_matching_rule database announce_urls ≡ some rule))
find_matching_rule_lem_example = find_matching_rule_lem database announce_urls
