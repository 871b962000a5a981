-- ===== src/Rules/Matching.antt =====
-- `TrackerRulesDatabase::find_matching_rule` of src/tracker_rules.cpp.
pub mod Laws
mod Examples
use torrent_builder.Common.{
  ℕ, ◌+◌, ◌-◌, Bytes, List, [], ◌∷◌, Bool, true, false, ◌&&◌, ◌||◌, ltb, ◌==◌, if◌then◌else◌,
  Option, none, some, is_empty, length, drop, get_or, bytes_eq,
}
use torrent_builder.Text.{to_lower}
use torrent_builder.Domain.{extract_domain}
use torrent_builder.Rules.{TrackerRule}

pub record TrackerRulesDatabase : Type 0 where
  pub default_rules : Option TrackerRule
  pub trackers : List TrackerRule

-- The tracker's domain is the rule's, or ends in a dot and the rule's.
unfoldable pub domain_matches : Bytes → Bytes → Bool
domain_matches tracker_domain rule_domain =
    let cut = length tracker_domain - length rule_domain in
    bytes_eq tracker_domain rule_domain
    || (ltb (length rule_domain + 1) (length tracker_domain)
        && (bytes_eq (drop cut tracker_domain) rule_domain
            && (get_or tracker_domain (cut - 1) 0 == b'.')))

unfoldable pub rule_matches : Bytes → TrackerRule → Bool
rule_matches tracker_domain rule = elim rule.domain [
  | none ↦ false
  | some rule_domain ↦ domain_matches tracker_domain (to_lower rule_domain)
]

-- The inner loop: the first rule that matches a domain.
unfoldable pub first_rule : Bytes → List TrackerRule → Option TrackerRule
first_rule tracker_domain [] = none
first_rule tracker_domain (rule ∷ rules) =
    let rest = first_rule tracker_domain rules in
    if rule_matches tracker_domain rule then some rule else rest

-- One round of the outer loop. A URL without a domain matches no rule.
unfoldable pub rule_for_url : List TrackerRule → Bytes → Option TrackerRule
rule_for_url trackers url =
    let domain = extract_domain url in
    if is_empty domain then none else first_rule (to_lower domain) trackers

unfoldable pub find_matching_rule : TrackerRulesDatabase → List Bytes → Option TrackerRule
find_matching_rule db [] = db.default_rules
find_matching_rule db (url ∷ urls) = elim (rule_for_url db.trackers url) [
  | none ↦ find_matching_rule db urls
  | some rule ↦ some rule
]
