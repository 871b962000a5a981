-- ===== src/Rules/Matching/Laws.antt =====
-- Which rule a list of tracker URLs selects.
use torrent_builder.Common.{
  ℕ, zero, suc, ◌+◌, ◌-◌, ◌<◌, ◌≡◌, ◌≢◌, ◌↔◌, ◌⊎◌, inl, inr, refl, sym, ap, ap₂, ◌∙◌, Bytes, List,
  [], ◌∷◌, ◌++◌, append_assoc, Bool, true, false, ◌||◌, ltb, ◌==◌, none, some, length, take, drop,
  get_or, bytes_eq, bytes_eq_sound, bytes_eq_refl, All, arith, length-append, length-take,
  drop-length-append, Bool-cases, and_both, ltb→lt, lt→ltb, ==_iff,
}
use torrent_builder.Text.{to_lower}
use torrent_builder.Domain.{extract_domain}
use torrent_builder.Rules.{TrackerRule}
use torrent_builder.Rules.Matching.{
  TrackerRulesDatabase, domain_matches, rule_matches, first_rule, rule_for_url, find_matching_rule,
}

-- The domain is the rule's domain, or a subdomain of it.
abbrev pub IsUnder : Bytes → Bytes → Type 0
IsUnder domain rule_domain =
    (domain ≡ rule_domain) ⊎ ((sub : Bytes) × (sub ≢ []) × (domain ≡ sub ++ b'.' ∷ rule_domain))

-- A list cut at `n + 1` ends in its element `n`.
drop-get_or :
    (n : ℕ) (s : Bytes) (d : ℕ) → n < length s → s ≡ take n s ++ get_or s n d ∷ drop (suc n) s
drop-get_or n [] d h = absurd (omega arith)
drop-get_or zero (c ∷ s) d h = refl
drop-get_or (suc n) (c ∷ s) d h = ap (λ t. c ∷ t) (drop-get_or n s d (omega arith))

get_or-append : (s t : Bytes) (c d : ℕ) → get_or (s ++ c ∷ t) (length s) d ≡ c
get_or-append [] t c d = refl
get_or-append (b ∷ s) t c d = get_or-append s t c d

subdomain_sound :
    (t r : Bytes)
    → ltb (length r + 1) (length t) ≡ true
    → bytes_eq (drop (length t - length r) t) r ≡ true
    → (get_or t (length t - length r - 1) 0 == b'.') ≡ true
    → IsUnder t r
subdomain_sound t r long same dot =
    inr (take cut t, nonempty, front ∙ ap (λ w. take cut t ++ w) tail)
  where
    cut : ℕ
    cut = length t - length r - 1

    more : length r + 1 < length t
    more = ltb→lt _ _ long

    nonempty : take cut t ≢ []
    nonempty e = omega (arith, more, length-take (length t - length r - 1) t, ap length e)

    front : t ≡ take cut t ++ get_or t cut 0 ∷ drop (suc cut) t
    front = drop-get_or cut t 0 (omega (arith, more))

    at_cut : suc cut ≡ length t - length r
    at_cut = omega (arith, more)

    tail : get_or t cut 0 ∷ drop (suc cut) t ≡ b'.' ∷ r
    tail =
        ap₂ ◌∷◌ ((==_iff (get_or t cut 0) b'.').0 dot)
          (ap (λ k. drop k t) at_cut ∙ bytes_eq_sound _ _ same)

domain_matches_sound : (t r : Bytes) → domain_matches t r ≡ true → IsUnder t r
unfolding domain_matches
domain_matches_sound t r h = elim (Bool-cases (bytes_eq t r)) [
  | inl e ↦ inl (bytes_eq_sound t r e)
  | inr e ↦
      let (long, more) = and_both _ _ (rw e at h) in
      let (same, dot) = and_both _ _ more in subdomain_sound t r long same dot
]

domain_matches_self : (r : Bytes) → domain_matches r r ≡ true
unfolding domain_matches
domain_matches_self r = rw (bytes_eq_refl r)

or_true : (a b : Bool) → b ≡ true → (a || b) ≡ true
or_true a b h = ground arith

cut_lem : (s r : Bytes) → length (s ++ b'.' ∷ r) - length r ≡ length s + 1
cut_lem s r = omega (arith, length-append s (b'.' ∷ r))

drop-cut : (s r : Bytes) → drop (length (s ++ b'.' ∷ r) - length r) (s ++ b'.' ∷ r) ≡ r
drop-cut s r =
    let e : length s + 1 ≡ length (s ++ b'.' ∷ []) = omega (arith, length-append s (b'.' ∷ [])) in
    ap₂ drop (cut_lem s r ∙ e) (sym (append_assoc s (b'.' ∷ []) r))
    ∙ drop-length-append (s ++ b'.' ∷ []) r

get_or-cut : (s r : Bytes) → get_or (s ++ b'.' ∷ r) (length (s ++ b'.' ∷ r) - length r - 1) 0 ≡ b'.'
get_or-cut s r =
    let e : length (s ++ b'.' ∷ r) - length r - 1 ≡ length s = omega (arith, cut_lem s r) in
    ap (λ k. get_or (s ++ b'.' ∷ r) k 0) e ∙ get_or-append s r b'.' 0

domain_matches_sub : (s r : Bytes) → 0 < length s → domain_matches (s ++ b'.' ∷ r) r ≡ true
unfolding domain_matches
domain_matches_sub s r h = or_true (bytes_eq (s ++ b'.' ∷ r) r) _ (
    rw (
      lt→ltb (length r + 1) (length (s ++ b'.' ∷ r)) (omega (arith, length-append s (b'.' ∷ r))),
      drop-cut s r,
      get_or-cut s r,
      bytes_eq_refl r,
    ))

-- The match holds exactly when the tracker's domain is the rule's domain or a subdomain of it.
pub domain_matches_iff :
    (domain rule_domain : Bytes)
    → (domain_matches domain rule_domain ≡ true) ↔ IsUnder domain rule_domain
domain_matches_iff domain rule_domain = (domain_matches_sound domain rule_domain, complete)
  where
    pos : (sub : Bytes) → sub ≢ [] → 0 < length sub
    pos [] h = absurd (h refl)
    pos (c ∷ s) h = omega arith

    complete : IsUnder domain rule_domain → domain_matches domain rule_domain ≡ true
    complete (inl e) = rw e (domain_matches_self rule_domain)
    complete (inr (sub, some_sub, e)) = rw e (domain_matches_sub sub rule_domain (pos sub some_sub))

-- No rule of the list matches.
abbrev pub MatchesNone : Bytes → List TrackerRule → Type 0
MatchesNone tracker_domain = All (λ rule. rule_matches tracker_domain rule ≡ false)

-- `rule` is the first of the rules that matches.
abbrev pub IsFirst : Bytes → List TrackerRule → TrackerRule → Type 0
IsFirst tracker_domain rules rule =
    (before : List TrackerRule) × (after : List TrackerRule) × (rules ≡ before ++ rule ∷ after)
    × MatchesNone tracker_domain before
    × (rule_matches tracker_domain rule ≡ true)

first_rule_lem :
    (tracker_domain : Bytes) (rules : List TrackerRule)
    → ((first_rule tracker_domain rules ≡ none) × MatchesNone tracker_domain rules)
      ⊎ ((rule : TrackerRule) × (first_rule tracker_domain rules ≡ some rule)
          × IsFirst tracker_domain rules rule)
unfolding first_rule
first_rule_lem tracker_domain [] = inl (refl, tt)
first_rule_lem tracker_domain (r ∷ rules) = elim (Bool-cases (rule_matches tracker_domain r)) [
  | inl m ↦ rw m (inr (r, refl, ([], rules, refl, tt, m)))
  | inr m ↦ rw m (elim (first_rule_lem tracker_domain rules) [
    | inl (e, passed) ↦ inl (e, (refl, passed))
    | inr (rule, e, (before, after, split, passed, found)) ↦
        inr (rule, e, (r ∷ before, after, ap (λ t. r ∷ t) split, (m, passed), found))
  ])
]

-- The URL has no domain, or its domain in lower case matches no rule.
abbrev pub SelectsNone : List TrackerRule → Bytes → Type 0
SelectsNone rules url =
    (extract_domain url ≡ []) ⊎ MatchesNone (to_lower (extract_domain url)) rules

-- The URL has a domain, and `rule` is the first that matches it in lower case.
abbrev pub Selects : List TrackerRule → Bytes → TrackerRule → Type 0
Selects rules url rule =
    (extract_domain url ≢ []) × IsFirst (to_lower (extract_domain url)) rules rule

rule_for_url_lem :
    (rules : List TrackerRule) (url : Bytes)
    → ((rule_for_url rules url ≡ none) × SelectsNone rules url)
      ⊎ ((rule : TrackerRule) × (rule_for_url rules url ≡ some rule) × Selects rules url rule)
unfolding rule_for_url
rule_for_url_lem rules url = go (extract_domain url) refl
  where
    go :
        (d : Bytes)
        → extract_domain url ≡ d
        → ((rule_for_url rules url ≡ none) × SelectsNone rules url)
          ⊎ ((rule : TrackerRule) × (rule_for_url rules url ≡ some rule) × Selects rules url rule)
    go [] e = inl (rw (e, rule_for_url), inl e)
    go (c ∷ s) e =
        let shape : rule_for_url rules url ≡ first_rule (to_lower (extract_domain url)) rules =
          rw e in
        elim (first_rule_lem (to_lower (extract_domain url)) rules) [
          | inl (f, passed) ↦ inl (shape ∙ f, inr passed)
          | inr (rule, f, first) ↦ inr (rule, shape ∙ f, (λ z. cc, first))
        ]

-- The rules are searched for the URLs in turn: the result is the first rule that the first URL with a
-- matching rule selects, and the default rules where no URL selects a rule.
pub find_matching_rule_lem :
    (db : TrackerRulesDatabase) (urls : List Bytes)
    → ((find_matching_rule db urls ≡ db.default_rules) × All (SelectsNone db.trackers) urls)
      ⊎ ((before : List Bytes) × (url : Bytes) × (after : List Bytes) × (rule : TrackerRule) × (urls
            ≡ before ++ url ∷ after)
          × All (SelectsNone db.trackers) before
          × Selects db.trackers url rule
          × (find_matching_rule db urls ≡ some rule))
unfolding find_matching_rule
find_matching_rule_lem db [] = inl (refl, tt)
find_matching_rule_lem db (u ∷ urls) = elim (rule_for_url_lem db.trackers u) [
  | inl (e, passed) ↦
      let step : find_matching_rule db (u ∷ urls) ≡ find_matching_rule db urls =
        rw (e, find_matching_rule) in
      elim (find_matching_rule_lem db urls) [
        | inl (f, rest) ↦ inl (step ∙ f, (passed, rest))
        | inr (before, url, after, rule, split, rest, chosen, f) ↦
            inr (
              u ∷ before,
              url,
              after,
              rule,
              ap (λ t. u ∷ t) split,
              (passed, rest),
              chosen,
              step ∙ f,
            )
      ]
  | inr (rule, e, chosen) ↦ inr ([], u, urls, rule, refl, tt, chosen, rw (e, find_matching_rule))
]
