-- ===== src/Version.antt =====
-- Versions: `parse_version` and `compare_versions` of src/utils.cpp.
pub mod Order
pub mod Parse
pub mod Roundtrip
pub mod Laws
mod Examples
use torrent_builder.Common.{
  ℕ, zero, suc, ◌+◌, ◌-◌, ◌*◌, Bytes, List, [], ◌∷◌, ◌++◌, Bool, true, false, not, ◌&&◌, ◌||◌, ltb,
  leb, ◌==◌, if◌then◌else◌, Option, none, some, value_or, is_empty, get_elem?, take, drop, all,
  codes, isdigit, isspace, bytes_eq,
}
use Prim.Native.Nat.{min}
use torrent_builder.Text.{find_byte, starts_with, split}

pub record Version : Type 0 where
  pub major : ℕ
  pub minor : ℕ
  pub patch : ℕ
  pub prerelease : Bytes

-- The number of the leading digits, behind the digits that gave `acc`.
unfoldable pub digits_value : Bytes → ℕ → ℕ
digits_value [] acc = acc
digits_value (c ∷ s) acc =
    let rest = digits_value s (acc * 10 + (c - b'0')) in if isdigit c then rest else acc

unfoldable pub skip_spaces : Bytes → Bytes
skip_spaces [] = []
skip_spaces (c ∷ s) = let rest = skip_spaces s in if isspace c then rest else c ∷ s

unfoldable pub skip_plus : Bytes → Bytes
skip_plus [] = []
skip_plus (c ∷ s) = if c == b'+' then s else c ∷ s

-- The number at the start of a text; none where `std::stoi` throws.
unfoldable pub leading_int : Bytes → Option ℕ
unfolding digits_value
leading_int [] = none
leading_int (c ∷ s) =
    let n = digits_value (c ∷ s) 0 in
    if not (isdigit c) then none else if ltb 2147483647 n then none else some n

-- `std::stoi` of a text without a minus sign: `parse_version` cuts its text at the first dash.
unfoldable pub stoi : Bytes → Option ℕ
unfolding skip_spaces skip_plus leading_int
stoi s = leading_int (skip_plus (skip_spaces s))

-- `if (parts.size() > i) try { … = std::stoi(parts[i]); } catch (...) {}`
unfoldable pub part_value : List Bytes → ℕ → ℕ
part_value parts i = elim (get_elem? parts i) [ none ↦ 0 | some p ↦ value_or (stoi p) 0 ]

abbrev pub version_of_numbers : Bytes → Bytes → Version
version_of_numbers cleaned prerelease =
    let parts = split cleaned b'.' in
    if is_empty cleaned || bytes_eq cleaned (codes "dev")
    then record { major = 0; minor = 0; patch = 0; prerelease = prerelease }
    else record {
      major = part_value parts 0;
      minor = part_value parts 1;
      patch = part_value parts 2;
      prerelease = prerelease;
    }

unfoldable pub parse_version : Bytes → Version
parse_version version_str =
    let cleaned =
      if starts_with version_str (codes "v") || starts_with version_str (codes "V")
      then drop 1 version_str
      else version_str in
    elim (find_byte b'-' cleaned) [
      | none ↦ version_of_numbers cleaned []
      | some dash_pos ↦ version_of_numbers (take dash_pos cleaned) (drop (dash_pos + 1) cleaned)
    ]

-- The results -1, 0 and 1 of a comparison.
pub data Sign : Type 0 where
  negative : Sign
  same : Sign
  positive : Sign

-- `if (a != b) return a < b ? -1 : 1;`, before what follows.
unfoldable pub number_sign : ℕ → ℕ → Sign → Sign
number_sign a b rest = if a == b then rest else if ltb a b then negative else positive

-- `a < b` of `std::string`: the bytes decide in turn, and a prefix is less.
unfoldable pub bytes_lt : Bytes → Bytes → Bool
bytes_lt [] [] = false
bytes_lt [] (d ∷ t) = true
bytes_lt (c ∷ s) [] = false
bytes_lt (c ∷ s) (d ∷ t) = let rest = bytes_lt s t in if c == d then rest else ltb c d

unfoldable pub text_sign : Bytes → Bytes → Sign → Sign
text_sign a b rest = if bytes_eq a b then rest else if bytes_lt a b then negative else positive

-- `split_dots`, with the bytes since the last dot.
unfoldable pub split_dots : Bytes → Bytes → List Bytes
split_dots [] token = token ∷ []
split_dots (c ∷ s) token =
    let more = split_dots s (token ++ c ∷ []) in
    let next = split_dots s [] in if c == b'.' then token ∷ next else more

abbrev pub long_max : ℕ
long_max = 9223372036854775807

unfoldable pub is_numeric : Bytes → Bool
is_numeric p = not (is_empty p) && all isdigit p

-- `std::stol`, clamped where it overflows.
unfoldable pub clamped_value : Bytes → ℕ
clamped_value p = min (digits_value p 0) long_max

-- One round of the loop over the identifiers, before the rest of them.
unfoldable pub identifier_sign : Bytes → Bytes → Sign → Sign
identifier_sign a b rest =
    if is_numeric a && is_numeric b
    then number_sign (clamped_value a) (clamped_value b) rest
    else if is_numeric a
    then negative
    else if is_numeric b
    then positive
    else text_sign a b rest

-- The loop, and the comparison of the two sizes behind it.
unfoldable pub identifiers_sign : List Bytes → List Bytes → Sign
identifiers_sign [] [] = same
identifiers_sign [] (b ∷ pb) = negative
identifiers_sign (a ∷ pa) [] = positive
identifiers_sign (a ∷ pa) (b ∷ pb) = identifier_sign a b (identifiers_sign pa pb)

unfoldable pub compare_prerelease_identifiers : Bytes → Bytes → Sign
compare_prerelease_identifiers a b =
    if is_empty a && is_empty b
    then same
    else if is_empty a
    then positive
    else if is_empty b
    then negative
    else identifiers_sign (split_dots a []) (split_dots b [])

unfoldable pub version_sign : Version → Version → Sign
version_sign a b = number_sign a.major b.major (
    number_sign a.minor b.minor
      (number_sign a.patch b.patch (compare_prerelease_identifiers a.prerelease b.prerelease)))

unfoldable pub compare_versions : Bytes → Bytes → Sign
compare_versions v1 v2 = version_sign (parse_version v1) (parse_version v2)
