-- ===== src/Updater/Urls.antt =====
-- The URLs that `is_safe_url` of src/updater.cpp accepts.
use torrent_builder.Common.{
  ℕ, zero, suc, ◌/◌, ◌%◌, ◌≤◌, ◌<◌, ◌≡◌, refl, ◌∙◌, arith, Bytes, [], ◌∷◌, ◌++◌, Bool, true, false,
  not, ◌&&◌, ◌||◌, ◌==◌, Bool-cases, inl, inr, All, all, any, and_both, le→ltb, codes, length,
  length-append,
}
use torrent_builder.Escape.{hex_digit, is_unreserved, encode_byte, url_encode}
use torrent_builder.Updater.Shell.{safe_chars, isxdigit, percent_ok, is_safe_url}

abbrev is_safe : ℕ → Bool
is_safe c = any (λ d. d == c) safe_chars

-- What holds of every number below `n`.
abbrev below : (ℕ → Bool) → ℕ → Bool
below p zero = true
below p (suc n) = p n && below p n

below_lem : (p : ℕ → Bool) (n i : ℕ) → below p n ≡ true → i < n → p i ≡ true
below_lem p zero i h lt = absurd (omega (arith, lt))
below_lem p (suc n) i h lt = elim (Bool-cases (i == n)) [
  | inl same ↦ rw (the_last i n same) (ground arith)
  | inr other ↦ below_lem p n i (ground arith) (ground arith)
]
  where
    the_last : (i n : ℕ) → i == n ≡ true → i ≡ n
    the_last i n e = ground arith

abbrev unreserved_fits : ℕ → Bool
unreserved_fits c = not (is_unreserved c) || (is_safe c && not (c == b'%'))

unreserved_table : below unreserved_fits 256 ≡ true
unreserved_table = refl

unreserved_safe : (c : ℕ) → c < 256 → is_unreserved c ≡ true → (is_safe c && not (c == b'%')) ≡ true
unreserved_safe c lt h =
    or_true (is_unreserved c) (is_safe c && not (c == b'%')) h
      (below_lem unreserved_fits 256 c unreserved_table lt)
  where
    or_true : (a b : Bool) → a ≡ true → (not a || b) ≡ true → b ≡ true
    or_true a b h k = ground arith

abbrev digit_fits : ℕ → Bool
digit_fits n = is_safe (hex_digit n) && isxdigit (hex_digit n)

digit_table : below digit_fits 16 ≡ true
unfolding hex_digit
digit_table = refl

percent_ok_plain : (c : ℕ) (s : Bytes) → c == b'%' ≡ false → percent_ok (c ∷ s) ≡ percent_ok s
unfolding percent_ok
percent_ok_plain c [] plain = rw plain
percent_ok_plain c (a ∷ []) plain = rw plain
percent_ok_plain c (a ∷ b ∷ s) plain = rw (plain, percent_ok) refl

percent_ok_escape :
    (a b : ℕ) (s : Bytes)
    → isxdigit a ≡ true
    → isxdigit b ≡ true
    → percent_ok (b'%' ∷ a ∷ b ∷ s) ≡ percent_ok s
unfolding percent_ok
percent_ok_escape a b s ha hb = rw (ha, hb) refl

-- A text of safe bytes whose percent signs begin escapes.
abbrev IsFine : Bytes → Type 0
IsFine s = (all is_safe s ≡ true) × (percent_ok s ≡ true)

digit_fine : (n : ℕ) → n < 16 → (is_safe (hex_digit n) ≡ true) × (isxdigit (hex_digit n) ≡ true)
digit_fine n lt = and_both _ _ (below_lem digit_fits 16 n digit_table lt)

escape-IsFine :
    (a b : ℕ) (s : Bytes)
    → a < 16
    → b < 16
    → IsFine s
    → IsFine (b'%' ∷ hex_digit a ∷ hex_digit b ∷ s)
escape-IsFine a b s la lb (safe, fine) =
    let (safe_a, hex_a) = digit_fine a la in
    let (safe_b, hex_b) = digit_fine b lb in
    (rw (safe_a, safe_b) safe, percent_ok_escape (hex_digit a) (hex_digit b) s hex_a hex_b ∙ fine)

plain-IsFine :
    (c : ℕ) (s : Bytes) → (is_safe c && not (c == b'%')) ≡ true → IsFine s → IsFine (c ∷ s)
plain-IsFine c s h (safe, fine) =
    let (ok_c, plain) = and_both (is_safe c) (not (c == b'%')) h in
    (rw ok_c safe, percent_ok_plain c s (not_true (c == b'%') plain) ∙ fine)
  where
    not_true : (b : Bool) → not b ≡ true → b ≡ false
    not_true b h = ground arith

encode_byte-IsFine : (c : ℕ) (s : Bytes) → c < 256 → IsFine s → IsFine (encode_byte c ++ s)
unfolding encode_byte
encode_byte-IsFine c s lt fine = elim (Bool-cases (is_unreserved c)) [
  | inl plain ↦ rw (plain, encode_byte) (plain-IsFine c s (unreserved_safe c lt plain) fine)
  | inr reserved ↦ elim (Bool-cases (c == b' ')) [
    | inl space ↦
        rw (reserved, encode_byte, space) (fine.0, percent_ok_escape b'2' b'0' s refl refl ∙ fine.1)
    | inr other ↦
        rw (reserved, encode_byte, other)
          (escape-IsFine (c / 16) (c % 16) s (omega (arith, lt)) (omega arith) fine)
  ]
]

url_encode-IsFine : (s : Bytes) → All (λ c. c < 256) s → IsFine (url_encode s)
unfolding url_encode
url_encode-IsFine [] h = (refl, unfold percent_ok in refl)
url_encode-IsFine (c ∷ s) (byte, h) =
    encode_byte-IsFine c (url_encode s) byte (url_encode-IsFine s h)

prefix-IsFine :
    (p s : Bytes) → All (λ c. (is_safe c && not (c == b'%')) ≡ true) p → IsFine s → IsFine (p ++ s)
prefix-IsFine [] s h fine = fine
prefix-IsFine (c ∷ p) s (plain, h) fine = plain-IsFine c (p ++ s) plain (prefix-IsFine p s h fine)

encode_byte_long : (c : ℕ) → 1 ≤ length (encode_byte c)
unfolding encode_byte
encode_byte_long c = ground arith

url_encode_long : (c : ℕ) (s : Bytes) → 1 ≤ length (url_encode (c ∷ s))
unfolding url_encode
url_encode_long c s =
    omega (arith, encode_byte_long c, length-append (encode_byte c) (url_encode s))

accepted :
    (u : Bytes)
    → 1 ≤ length u
    → all is_safe (codes "https://" ++ u) ≡ true
    → percent_ok (codes "https://" ++ u) ≡ true
    → is_safe_url (codes "https://" ++ u) ≡ true
unfolding is_safe_url
accepted u long safe fine =
    rw (le→ltb (length (codes "https://" ++ u)) 9 (omega (arith, long)), safe, fine, is_safe_url)
      refl

-- An `https` URL whose rest is the result of `url_encode` for some bytes, at least one, is accepted.
pub is_safe_url-url_encode :
    (c : ℕ) (s : Bytes)
    → All (λ d. d < 256) (c ∷ s)
    → is_safe_url (codes "https://" ++ url_encode (c ∷ s)) ≡ true
unfolding is_safe_url
is_safe_url-url_encode c s h =
    let encoded : Bytes = url_encode (c ∷ s) in
    let (safe, fine) =
      prefix-IsFine (codes "https://") encoded
        (refl, (refl, (refl, (refl, (refl, (refl, (refl, (refl, tt))))))))
        (url_encode-IsFine (c ∷ s) h) in
    accepted encoded (url_encode_long c s) safe fine
