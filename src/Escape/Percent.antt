-- ===== src/Escape/Percent.antt =====
-- What a URL reader makes of the result of `url_encode`.
use torrent_builder.Common.{
  ℕ, ◌+◌, ◌-◌, ◌*◌, ◌/◌, ◌%◌, ◌<◌, ◌≤◌, ◌≡◌, refl, sym, ap, ◌∙◌, arith, Bytes, [], ◌∷◌, ◌++◌, true,
  false, ltb, ◌==◌, if◌then◌else◌, Bool-cases, inl, inr, All, All-append, isdigit, isdigit_digit,
  ◌⊎◌, ==_iff, ltb→lt,
}
use torrent_builder.Escape.{hex_digit, is_unreserved, encode_byte, url_encode}
use torrent_builder.Escape.Json.{hex_value, hex_value-hex_digit}

-- A reader takes a byte literally, or expects the first or the second digit behind a percent sign.
pub data Decoding : Type 0 where
  literal : Decoding
  first : Decoding
  second : ℕ → Decoding

abbrev pub percent_decode : Decoding → Bytes → Bytes
percent_decode r [] = []
percent_decode literal (c ∷ s) =
    let plain = percent_decode literal s in
    let escape = percent_decode first s in if c == b'%' then escape else c ∷ plain
percent_decode first (d ∷ s) = percent_decode (second (hex_value d)) s
percent_decode (second n) (d ∷ s) = (n * 16 + hex_value d) ∷ percent_decode literal s

unreserved_plain : (c : ℕ) → is_unreserved c ≡ true → (c == b'%') ≡ false
unreserved_plain c h = ground arith

decode_byte :
    (c : ℕ) (t : Bytes)
    → c < 256
    → percent_decode literal (encode_byte c ++ t) ≡ c ∷ percent_decode literal t
unfolding encode_byte
decode_byte c t h = elim (Bool-cases (is_unreserved c)) [
  | inl plain ↦ rw (plain, encode_byte) (rw (unreserved_plain c plain) refl)
  | inr reserved ↦ elim (Bool-cases (c == b' ')) [
    | inl space ↦
        rw (reserved, encode_byte, space)
          (ap (λ n. n ∷ percent_decode literal t) (sym ((==_iff c b' ').0 space)))
    | inr other ↦
        rw (reserved, encode_byte, other)
          (ap (λ n. n ∷ percent_decode literal t)
            (rw
              (
                hex_value-hex_digit (c / 16) (omega (arith, h)),
                hex_value-hex_digit (c % 16) (omega arith),
              )
              (omega arith)))
  ]
]

digit_unreserved : (c : ℕ) → isdigit c ≡ true → is_unreserved c ≡ true
digit_unreserved c h = rw h refl

capital_unreserved : (c : ℕ) → b'A' ≤ c → c ≤ b'Z' → is_unreserved c ≡ true
capital_unreserved c lo hi = ground arith

hex_digit_unreserved : (n : ℕ) → n < 16 → is_unreserved (hex_digit n) ≡ true
unfolding hex_digit
hex_digit_unreserved n h = elim (Bool-cases (ltb n 10)) [
  | inl small ↦ rw small (digit_unreserved (b'0' + n) (isdigit_digit n (ltb→lt _ _ small)))
  | inr big ↦ rw big (capital_unreserved (b'A' + (n - 10)) (omega arith) (omega (arith, h)))
]

-- An unreserved byte, or a percent sign.
abbrev pub IsUrlByte : ℕ → Type 0
IsUrlByte c = (is_unreserved c ≡ true) ⊎ (c ≡ b'%')

encode_byte-All : (c : ℕ) → c < 256 → All IsUrlByte (encode_byte c)
unfolding encode_byte
encode_byte-All c h = elim (Bool-cases (is_unreserved c)) [
  | inl plain ↦ rw (plain, encode_byte) (inl plain, tt)
  | inr reserved ↦ elim (Bool-cases (c == b' ')) [
    | inl space ↦ rw (reserved, encode_byte, space) (inr refl, (inl refl, (inl refl, tt)))
    | inr other ↦
        rw (reserved, encode_byte, other)
          (
            inr refl,
            (
              inl (hex_digit_unreserved (c / 16) (omega (arith, h))),
              (inl (hex_digit_unreserved (c % 16) (omega arith)), tt),
            ),
          )
  ]
]

-- The result for a text of bytes holds unreserved bytes and percent signs only, and decoding it gives
-- the text back.
pub url_encode-percent_decode :
    (s : Bytes)
    → All (λ c. c < 256) s
    → All IsUrlByte (url_encode s) × (percent_decode literal (url_encode s) ≡ s)
unfolding url_encode
url_encode-percent_decode [] h = (tt, refl)
url_encode-percent_decode (c ∷ s) (byte, h) =
    let (all, e) = url_encode-percent_decode s h in
    (
      All-append _ (encode_byte c) (url_encode s) (encode_byte-All c byte) all,
      decode_byte c (url_encode s) byte ∙ ap (λ t. c ∷ t) e,
    )
