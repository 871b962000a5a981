-- ===== src/Version/Roundtrip.antt =====
-- `parse_version` reads back the versions that are written with three numbers.
use torrent_builder.Common.{
  ℕ, ◌+◌, ◌≤◌, ◌≡◌, refl, sym, ap, ap₂, ◌∙◌, arith, Bytes, [], ◌∷◌, ◌++◌, append-nil, append_assoc,
  Bool-cases, inl, inr, Bool, true, false, ◌||◌, if◌then◌else◌, Option, none, some, Option-cases,
  length, take, drop, value_or, Lacks, isdigit, to_string, decimal-to_string, to_string-All,
  to_string_nonempty, codes, take-length-append, drop-length-append, length-append,
}
use torrent_builder.Text.{starts_with, find_byte}
use torrent_builder.Text.Laws.{starts_with_iff, find_byte-append, find_byte-Lacks}
use torrent_builder.Version.{Version, version_of_numbers, parse_version}
use torrent_builder.Version.Parse.{
  IsNumber, numbers_text, digit_differs, version_of_numbers-numbers_text, numbers-Lacks,
}

cut_prefix : Bytes → Bytes
cut_prefix s = if starts_with s (codes "v") || starts_with s (codes "V") then drop 1 s else s

-- The version of a text without its prefix, for the position of the dash.
parse_at : Bytes → Option ℕ → Version
parse_at cleaned none = version_of_numbers cleaned []
parse_at cleaned (some dash_pos) =
    version_of_numbers (take dash_pos cleaned) (drop (dash_pos + 1) cleaned)

parse_version_lem :
    (s : Bytes) → parse_version s ≡ parse_at (cut_prefix s) (find_byte b'-' (cut_prefix s))
unfolding parse_version parse_at cut_prefix
parse_version_lem s = elim (Option-cases (find_byte b'-' (cut_prefix s))) [
  | inl e ↦ rw (e, parse_version) refl
  | inr (i, e) ↦ rw (e, parse_version) refl
]

not_begins :
    (c d : ℕ) (s : Bytes)
    → isdigit d ≡ false
    → isdigit c ≡ true
    → starts_with (c ∷ s) (d ∷ []) ≡ false
not_begins c d s h e = elim (Bool-cases (starts_with (c ∷ s) (d ∷ []))) [
  | inr f ↦ f
  | inl f ↦
      let (rest, q) = (starts_with_iff (c ∷ s) (d ∷ [])).0 f in absurd (digit_differs c d h e cc)
]

cut_prefix-number : (p rest : Bytes) → IsNumber p → cut_prefix (p ++ rest) ≡ p ++ rest
unfolding cut_prefix
cut_prefix-number [] rest (all, some_digit, fits) = absurd (some_digit refl)
cut_prefix-number (c ∷ p) rest ((d, all), _, _) =
    rw (not_begins c b'v' (p ++ rest) refl d, not_begins c b'V' (p ++ rest) refl d) refl

cut_prefix-v : (s : Bytes) → cut_prefix (b'v' ∷ s) ≡ s
unfolding cut_prefix
cut_prefix-v s = rw ((starts_with_iff (b'v' ∷ s) (codes "v")).1 (s, refl)) refl

-- The text behind the numbers.
abbrev dashed : Option Bytes → Bytes
dashed none = []
dashed (some prerelease) = b'-' ∷ prerelease

drop-suc : (s t : Bytes) (c : ℕ) → drop (length s + 1) (s ++ c ∷ t) ≡ t
drop-suc s t c =
    ap₂ drop {y = length (s ++ c ∷ [])} (omega (arith, length-append s (c ∷ [])))
      (sym (append_assoc s (c ∷ []) t))
    ∙ drop-length-append (s ++ c ∷ []) t

parse_at-dashed :
    (body : Bytes) (prerelease : Option Bytes)
    → Lacks b'-' body
    → parse_at (body ++ dashed prerelease) (find_byte b'-' (body ++ dashed prerelease))
      ≡ version_of_numbers body (value_or prerelease [])
unfolding parse_at
parse_at-dashed body none h =
    ap₂ parse_at (append-nil body)
      (ap (find_byte b'-') (append-nil body) ∙ find_byte-Lacks b'-' body h)
parse_at-dashed body (some s) h =
    ap (parse_at (body ++ b'-' ∷ s)) (find_byte-append b'-' body s h)
    ∙ ap₂ version_of_numbers (take-length-append body (b'-' ∷ s)) (drop-suc body s b'-')

to_string-IsNumber : (n : ℕ) → n ≤ 2147483647 → IsNumber (to_string n)
to_string-IsNumber n h = (to_string-All n, to_string_nonempty n, rw (decimal-to_string n) h)

-- A version as it is written: perhaps with a `v`, three numbers, perhaps a dash and a prerelease.
abbrev pub version_text : Bool → ℕ → ℕ → ℕ → Option Bytes → Bytes
version_text prefixed major minor patch prerelease =
    let body = numbers_text (to_string major) (to_string minor) (to_string patch) in
    (if prefixed then codes "v" else []) ++ (body ++ dashed prerelease)

cut_prefix-text :
    (prefixed : Bool) (p rest : Bytes)
    → IsNumber p
    → cut_prefix ((if prefixed then codes "v" else []) ++ (p ++ rest)) ≡ p ++ rest
cut_prefix-text true p rest h = cut_prefix-v (p ++ rest)
cut_prefix-text false p rest h = cut_prefix-number p rest h

-- A version text of three numbers below 2^31, with or without a `v` in front and a dash and a
-- prerelease behind, is parsed to these numbers and that prerelease.
pub parse_version-version_text :
    (prefixed : Bool) (major minor patch : ℕ) (prerelease : Option Bytes)
    → major ≤ 2147483647
    → minor ≤ 2147483647
    → patch ≤ 2147483647
    → parse_version (version_text prefixed major minor patch prerelease)
      ≡ record { major = major; minor = minor; patch = patch; prerelease = value_or prerelease [] }
parse_version-version_text prefixed major minor patch prerelease h1 h2 h3 =
    let p = to_string major in
    let q = to_string minor in
    let r = to_string patch in
    let np : IsNumber p = to_string-IsNumber major h1 in
    let nq : IsNumber q = to_string-IsNumber minor h2 in
    let nr : IsNumber r = to_string-IsNumber patch h3 in
    let cut : cut_prefix (version_text prefixed major minor patch prerelease)
        ≡ numbers_text p q r ++ dashed prerelease =
      ap (λ t. cut_prefix ((if prefixed then codes "v" else []) ++ t))
        (append_assoc p _ (dashed prerelease))
      ∙ (cut_prefix-text prefixed p _ np ∙ sym (append_assoc p _ (dashed prerelease))) in
    parse_version_lem _
    ∙ (ap (λ t. parse_at t (find_byte b'-' t)) cut
        ∙ (parse_at-dashed (numbers_text p q r) prerelease (numbers-Lacks p q r np nq nr)
            ∙ (version_of_numbers-numbers_text p q r (value_or prerelease []) np nq nr
                ∙ (rw (decimal-to_string major, decimal-to_string minor, decimal-to_string patch)
                    refl))))
