-- ===== src/Filter/Glob.antt =====
-- What a pattern for a name at any depth matches.
use torrent_builder.Common.{
  ℕ, ◌≡◌, ◌↔◌, ◌⊎◌, refl, sym, ap, ap₂, ◌∙◌, inl, inr, Bytes, [], ◌∷◌, ◌++◌, map, Bool, true, false,
  ◌&&◌, ◌||◌, and_both, ◌==◌, ==_iff, All, codes,
}
use torrent_builder.Text.{tolower, to_lower}
use torrent_builder.Filter.{
  literal, directories, item, glob_to_regex, first, star, not_break, regex_match,
}

or_cases : (a b : Bool) → (a || b) ≡ true → (a ≡ true) ⊎ (b ≡ true)
or_cases true b h = inl refl
or_cases false b h = inr h

or_right : (a b : Bool) → b ≡ true → (a || b) ≡ true
or_right true b h = refl
or_right false b h = h

-- The text is `u` with bytes that `p` holds of, and `v` that `k` matches.
abbrev Splits : (ℕ → Bool) → (Bytes → Bool) → Bytes → Type 0
Splits p k s = (u v : Bytes) × (s ≡ u ++ v) × All (λ c. p c ≡ true) u × (k v ≡ true)

star_sound : (p : ℕ → Bool) (k : Bytes → Bool) (s : Bytes) → star p k s ≡ true → Splits p k s
star_sound p k [] h = ([], [], refl, tt, h)
star_sound p k (c ∷ s) h = elim (or_cases (k (c ∷ s)) (p c && star p k s) h) [
  | inl now ↦ ([], c ∷ s, refl, tt, now)
  | inr later ↦
      let (here, more) = and_both (p c) (star p k s) later in
      let (u, v, e, all, m) = star_sound p k s more in (c ∷ u, v, ap (λ t. c ∷ t) e, (here, all), m)
]

star_complete :
    (p : ℕ → Bool) (k : Bytes → Bool) (u v : Bytes)
    → All (λ c. p c ≡ true) u
    → k v ≡ true
    → star p k (u ++ v) ≡ true
star_complete p k [] [] all h = h
star_complete p k [] (c ∷ v) all h = rw h refl
star_complete p k (c ∷ u) v (here, all) h =
    or_right (k (c ∷ (u ++ v))) (p c && star p k (u ++ v)) (rw here (star_complete p k u v all h))

-- The text is the name, without regard to case.
literals_sound :
    (name s : Bytes) → regex_match (map literal name) s ≡ true → to_lower s ≡ to_lower name
unfolding regex_match to_lower
literals_sound [] [] h = refl
literals_sound [] (d ∷ s) h = absurd (cc h)
literals_sound (c ∷ name) [] h = absurd (cc h)
literals_sound (c ∷ name) (d ∷ s) h =
    let (here, more) = and_both (tolower d == tolower c) _ h in
    ap₂ ◌∷◌ ((==_iff (tolower d) (tolower c)).0 here) (literals_sound name s more)

same_head : {a b : ℕ} {s t : Bytes} → ◌≡◌ {A = Bytes} (a ∷ s) (b ∷ t) → a ≡ b
same_head h = cc

same_tail : {a b : ℕ} {s t : Bytes} → ◌≡◌ {A = Bytes} (a ∷ s) (b ∷ t) → s ≡ t
same_tail h = cc

literals_complete :
    (name s : Bytes) → to_lower s ≡ to_lower name → regex_match (map literal name) s ≡ true
unfolding regex_match to_lower
literals_complete [] [] h = refl
literals_complete [] (d ∷ s) h = absurd (cc h)
literals_complete (c ∷ name) [] h = absurd (cc h)
literals_complete (c ∷ name) (d ∷ s) h =
    ap₂ ◌&&◌ ((==_iff (tolower d) (tolower c)).1 (same_head h))
      (literals_complete name s (same_tail h))

-- A byte that is copied.
abbrev pub IsPlain : ℕ → Type 0
IsPlain c = ((c == b'*') ≡ false) × ((c == b'?') ≡ false)

item_plain : (a : ℕ) → IsPlain a → item a ≡ literal a
unfolding item
item_plain a (star, query) = rw (star, query) refl

glob_plain : (name : Bytes) → All IsPlain name → glob_to_regex name ≡ map literal name
unfolding glob_to_regex
glob_plain [] h = refl
glob_plain (a ∷ []) (h, _) = ap (λ x. x ∷ []) (item_plain a h)
glob_plain (a ∷ b ∷ []) (h, (k, _)) =
    rw (h.0, glob_to_regex) (ap₂ (λ x y. x ∷ y ∷ []) (item_plain a h) (item_plain b k))
glob_plain (a ∷ b ∷ c ∷ s) (h, hs) =
    rw (h.0, glob_to_regex) (ap₂ ◌∷◌ (item_plain a h) (glob_plain (b ∷ c ∷ s) hs))

-- The name below some directory.
abbrev below_directory : Bytes → Bytes → Bool
below_directory name = star not_break (first (λ c. c == b'/') (regex_match (map literal name)))

regex_match-directories :
    (name path : Bytes)
    → regex_match (directories ∷ map literal name) path
      ≡ (regex_match (map literal name) path || below_directory name path)
unfolding regex_match
regex_match-directories name path = refl

-- A slash, and then the name.
name_below_sound :
    (name v : Bytes)
    → first (λ c. c == b'/') (regex_match (map literal name)) v ≡ true
    → (last : Bytes) × (v ≡ b'/' ∷ last) × (to_lower last ≡ to_lower name)
name_below_sound name [] h = absurd (cc h)
name_below_sound name (c ∷ last) h =
    let (slash, same) = and_both _ _ h in
    (last, ap (λ d. d ∷ last) ((==_iff c b'/').0 slash), literals_sound name last same)

-- A pattern `**/name` without `*` and `?` in the name matches exactly the paths that are the name, or
-- that are a path without line breaks, a slash and the name, in both cases without regard to case.
pub glob_to_regex-name :
    (name path : Bytes)
    → All IsPlain name
    → (regex_match (glob_to_regex (codes "**/" ++ name)) path ≡ true) ↔ (
        (to_lower path ≡ to_lower name)
        ⊎ ((parent last : Bytes) × (path ≡ parent ++ b'/' ∷ last)
            × All (λ c. not_break c ≡ true) parent
            × (to_lower last ≡ to_lower name)))
glob_to_regex-name name path h = rw (pattern) (sound, complete)
  where
    pattern : glob_to_regex (codes "**/" ++ name) ≡ directories ∷ map literal name
    pattern = unfold glob_to_regex in ap (λ items. directories ∷ items) (glob_plain name h)

    sound :
        regex_match (directories ∷ map literal name) path ≡ true
        → (to_lower path ≡ to_lower name)
          ⊎ ((parent last : Bytes) × (path ≡ parent ++ b'/' ∷ last)
              × All (λ c. not_break c ≡ true) parent
              × (to_lower last ≡ to_lower name))
    sound m =
        elim (or_cases (regex_match (map literal name) path) (below_directory name path)
          (sym (regex_match-directories name path) ∙ m)) [
            | inl whole ↦ inl (literals_sound name path whole)
            | inr below ↦
                let (u, v, e, all, k) =
                  star_sound not_break (first (λ c. c == b'/') (regex_match (map literal name)))
                    path below in
                let (last, e', same) = name_below_sound name v k in
                inr (u, last, e ∙ ap (λ t. u ++ t) e', all, same)
          ]

    complete :
        ((to_lower path ≡ to_lower name)
          ⊎ ((parent last : Bytes) × (path ≡ parent ++ b'/' ∷ last)
              × All (λ c. not_break c ≡ true) parent
              × (to_lower last ≡ to_lower name)))
        → regex_match (directories ∷ map literal name) path ≡ true
    complete (inl same) =
        regex_match-directories name path
        ∙ ap (λ b. b || below_directory name path) (literals_complete name path same)
    complete (inr (parent, last, e, all, same)) =
        regex_match-directories name path
        ∙ or_right (regex_match (map literal name) path) (below_directory name path) (
            ap (below_directory name) e
            ∙ star_complete not_break (first (λ c. c == b'/') (regex_match (map literal name)))
                parent (b'/' ∷ last) all (literals_complete name last same))
