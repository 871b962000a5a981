-- ===== src/Url/Laws.antt =====
-- What a valid URL is.
use torrent_builder.Common.{
  ℕ, zero, suc, ◌≡◌, ◌≢◌, ◌↔◌, ◌⊎◌, inl, inr, refl, sym, ap, ◌∙◌, arith, Bytes, [], ◌∷◌, ◌++◌, true,
  not, Bool-cases, and_both, is_empty, length, take, drop, codes, take-append-drop,
  take-length-append, drop-length-append,
}
use torrent_builder.Text.{starts_with, to_lower, tolower}
use torrent_builder.Text.Laws.{starts_with_iff}
use torrent_builder.Url.{is_dot, matches_scheme, is_valid_url}

-- A scheme in any case, then at least one byte, and no line break behind the scheme.
abbrev pub IsUrl : Bytes → Bytes → Type 0
IsUrl scheme url =
    (s rest : Bytes) × (url ≡ s ++ rest)
    × (to_lower s ≡ scheme)
    × (rest ≢ [])
    × (is_dot rest ≡ true)

to_lower-append : (s t : Bytes) → to_lower (s ++ t) ≡ to_lower s ++ to_lower t
unfolding to_lower
to_lower-append [] t = refl
to_lower-append (c ∷ s) t = ap (λ u. tolower c ∷ u) (to_lower-append s t)

length-to_lower : (s : Bytes) → length (to_lower s) ≡ length s
unfolding to_lower
length-to_lower [] = refl
length-to_lower (c ∷ s) = ap suc (length-to_lower s)

take-to_lower : (n : ℕ) (s : Bytes) → take n (to_lower s) ≡ to_lower (take n s)
unfolding to_lower
take-to_lower zero s = refl
take-to_lower (suc n) [] = refl
take-to_lower (suc n) (c ∷ s) = ap (λ u. tolower c ∷ u) (take-to_lower n s)

not_empty : (s : Bytes) → not (is_empty s) ≡ true → s ≢ []
not_empty [] h = absurd (cc h)
not_empty (c ∷ s) h = λ e. cc e

empty_not : (s : Bytes) → s ≢ [] → not (is_empty s) ≡ true
empty_not [] h = absurd (h refl)
empty_not (c ∷ s) h = refl

matches_scheme_iff : (url scheme : Bytes) → (matches_scheme url scheme ≡ true) ↔ IsUrl scheme url
unfolding matches_scheme
matches_scheme_iff url scheme =
    (sound, λ (s, rest, e, low, some_byte, dots). complete s rest e low some_byte dots)
  where
    n : ℕ
    n = length scheme

    sound : matches_scheme url scheme ≡ true → IsUrl scheme url
    sound h =
        let (begins, more) = and_both _ _ h in
        let (some_byte, dots) = and_both _ _ more in
        let (rest, e) = (starts_with_iff (to_lower url) scheme).0 begins in
        (
          take n url,
          drop n url,
          sym (take-append-drop n url),
          sym (take-to_lower n url) ∙ (ap (take n) e ∙ take-length-append scheme rest),
          not_empty _ some_byte,
          dots,
        )

    complete :
        (s rest : Bytes)
        → url ≡ s ++ rest
        → to_lower s ≡ scheme
        → rest ≢ []
        → is_dot rest ≡ true
        → matches_scheme url scheme ≡ true
    complete s rest e low some_byte dots =
        let begins : starts_with (to_lower url) scheme ≡ true =
          (starts_with_iff (to_lower url) scheme).1 (
            to_lower rest,
            ap to_lower e ∙ (to_lower-append s rest ∙ ap (λ t. t ++ to_lower rest) low),
          ) in
        let len : length scheme ≡ length s = sym (ap length low) ∙ length-to_lower s in
        let behind : drop (length scheme) url ≡ rest =
          ap (λ k. drop k url) len ∙ (ap (drop (length s)) e ∙ drop-length-append s rest) in
        rw (begins, behind, empty_not rest some_byte, dots) refl

-- A URL is valid exactly when it is one of the three schemes in any case, followed by at least one byte
-- and no line break.
pub is_valid_url_iff :
    (url : Bytes)
    → (is_valid_url url ≡ true)
      ↔ (IsUrl (codes "http://") url ⊎ IsUrl (codes "https://") url ⊎ IsUrl (codes "udp://") url)
unfolding is_valid_url
is_valid_url_iff url = (sound, complete)
  where
    sound :
        is_valid_url url ≡ true
        → IsUrl (codes "http://") url ⊎ IsUrl (codes "https://") url ⊎ IsUrl (codes "udp://") url
    sound h = elim (Bool-cases (matches_scheme url (codes "http://"))) [
      | inl m ↦ inl ((matches_scheme_iff url (codes "http://")).0 m)
      | inr m ↦ elim (Bool-cases (matches_scheme url (codes "https://"))) [
        | inl k ↦ inr (inl ((matches_scheme_iff url (codes "https://")).0 k))
        | inr k ↦ elim (Bool-cases (matches_scheme url (codes "udp://"))) [
          | inl l ↦ inr (inr ((matches_scheme_iff url (codes "udp://")).0 l))
          | inr l ↦ absurd (cc (rw (m, k, l, is_valid_url) at h))
        ]
      ]
    ]

    complete :
        (IsUrl (codes "http://") url ⊎ IsUrl (codes "https://") url ⊎ IsUrl (codes "udp://") url)
        → is_valid_url url ≡ true
    complete (inl u) = rw ((matches_scheme_iff url (codes "http://")).1 u) refl
    complete (inr (inl u)) = ground (arith, (matches_scheme_iff url (codes "https://")).1 u)
    complete (inr (inr u)) = ground (arith, (matches_scheme_iff url (codes "udp://")).1 u)
