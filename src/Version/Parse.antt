-- ===== src/Version/Parse.antt =====
-- The numbers of a version, read from their digits.
use torrent_builder.Common.{
  ℕ, ◌+◌, ◌-◌, ◌*◌, ◌≤◌, ◌≡◌, ◌≢◌, refl, sym, ap, ap₂, ◌∙◌, arith, Bytes, List, [], ◌∷◌, ◌++◌, Bool,
  true, false, not, ◌&&◌, ◌||◌, ltb, ◌==◌, if◌then◌else◌, Option, none, some, is_empty, get_elem?,
  All, All-append, Lacks, isdigit, isspace, decimal, codes, bytes_eq,
}
use torrent_builder.Text.{split}
use torrent_builder.Text.Laws.{split-join, join_three, IsToken}
use torrent_builder.Version.{
  digits_value, skip_spaces, skip_plus, leading_int, stoi, part_value, version_of_numbers,
}

abbrev pub AllDigits : Bytes → Type 0
AllDigits = All (λ c. isdigit c ≡ true)

digits_value-decimal : (s : Bytes) (acc : ℕ) → AllDigits s → digits_value s acc ≡ decimal s acc
unfolding digits_value
digits_value-decimal [] acc h = refl
digits_value-decimal (c ∷ s) acc (d, h) = rw d (digits_value-decimal s (acc * 10 + (c - b'0')) h)

digit_not : (c : ℕ) → isdigit c ≡ true → (isspace c ≡ false) × ((c == b'+') ≡ false)
digit_not c h = ground arith

-- The result for a first byte that is a digit, and the number of the leading digits.
in_range : Bool → ℕ → Option ℕ
in_range digit n = if not digit then none else if ltb 2147483647 n then none else some n

leading_int-in_range :
    (c : ℕ) (s : Bytes) → leading_int (c ∷ s) ≡ in_range (isdigit c) (digits_value (c ∷ s) 0)
unfolding leading_int in_range
leading_int-in_range c s = refl

in_range-some : (n : ℕ) → n ≤ 2147483647 → in_range true n ≡ some n
unfolding in_range
in_range-some n h = ground arith

stoi_digits :
    (s : Bytes) → AllDigits s → s ≢ [] → decimal s 0 ≤ 2147483647 → stoi s ≡ some (decimal s 0)
unfolding stoi skip_spaces skip_plus
stoi_digits [] h some_digit fits = absurd (some_digit refl)
stoi_digits (c ∷ s) (d, h) some_digit fits =
    let (space, plus) = digit_not c d in
    let value : digits_value (c ∷ s) 0 ≡ decimal (c ∷ s) 0 =
      digits_value-decimal (c ∷ s) 0 (d, h) in
    rw (space, skip_plus, plus)
      (leading_int-in_range c s ∙ (ap₂ in_range d value ∙ in_range-some _ fits))

pub digit_differs : (c d : ℕ) → isdigit d ≡ false → isdigit c ≡ true → c ≢ d
digit_differs c d h e q = cc

digits-Lacks : (d : ℕ) (s : Bytes) → isdigit d ≡ false → AllDigits s → Lacks d s
digits-Lacks d [] h all = tt
digits-Lacks d (c ∷ s) h (e, all) = (digit_differs c d h e, digits-Lacks d s h all)

abbrev pub numbers_text : Bytes → Bytes → Bytes → Bytes
numbers_text p q r = p ++ b'.' ∷ (q ++ b'.' ∷ r)

-- A text of digits that is a number of `int`.
abbrev pub IsNumber : Bytes → Type 0
IsNumber p = AllDigits p × (p ≢ []) × (decimal p 0 ≤ 2147483647)

number-IsToken : (p : Bytes) → IsNumber p → IsToken b'.' p
number-IsToken p (all, some_digit, _) = (some_digit, digits-Lacks b'.' p refl all)

split-numbers_text :
    (p q r : Bytes)
    → IsNumber p
    → IsNumber q
    → IsNumber r
    → split (numbers_text p q r) b'.' ≡ p ∷ q ∷ r ∷ []
split-numbers_text p q r hp hq hr =
    ap (λ t. split t b'.') (sym (join_three b'.' p q r))
    ∙ split-join (p ∷ q ∷ r ∷ []) b'.'
        (number-IsToken p hp, (number-IsToken q hq, (number-IsToken r hr, tt)))

part_value-number :
    (parts : List Bytes) (i : ℕ) (p : Bytes)
    → get_elem? parts i ≡ some p
    → IsNumber p
    → part_value parts i ≡ decimal p 0
unfolding part_value
part_value-number parts i p e (all, some_digit, fits) =
    rw (e, part_value, stoi_digits p all some_digit fits) refl

-- The text is neither empty nor "dev".
numbered :
    (p rest : Bytes)
    → IsNumber p
    → (is_empty (p ++ rest) || bytes_eq (p ++ rest) (codes "dev")) ≡ false
numbered [] rest (all, some_digit, _) = absurd (some_digit refl)
numbered (c ∷ p) rest ((d, all), _, _) = not_dev c (bytes_eq (p ++ rest) (codes "ev")) d
  where
    not_dev : (c : ℕ) (b : Bool) → isdigit c ≡ true → ((c == b'd') && b) ≡ false
    not_dev c b d = ground arith

pub version_of_numbers-numbers_text :
    (p q r prerelease : Bytes)
    → IsNumber p
    → IsNumber q
    → IsNumber r
    → version_of_numbers (numbers_text p q r) prerelease ≡ record {
      major = decimal p 0;
      minor = decimal q 0;
      patch = decimal r 0;
      prerelease = prerelease;
    }
version_of_numbers-numbers_text p q r prerelease hp hq hr =
    rw
      (
        numbered p (b'.' ∷ (q ++ b'.' ∷ r)) hp,
        split-numbers_text p q r hp hq hr,
        part_value-number (p ∷ q ∷ r ∷ []) 0 p refl hp,
        part_value-number (p ∷ q ∷ r ∷ []) 1 q refl hq,
        part_value-number (p ∷ q ∷ r ∷ []) 2 r refl hr,
      )
      refl

pub numbers-Lacks :
    (p q r : Bytes) → IsNumber p → IsNumber q → IsNumber r → Lacks b'-' (numbers_text p q r)
numbers-Lacks p q r (hp, _, _) (hq, _, _) (hr, _, _) =
    All-append _ p _ (digits-Lacks b'-' p refl hp) (
      omega arith,
      All-append _ q _ (digits-Lacks b'-' q refl hq) (omega arith, digits-Lacks b'-' r refl hr),
    )
