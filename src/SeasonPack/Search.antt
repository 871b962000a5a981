-- ===== src/SeasonPack/Search.antt =====
-- The regular expressions that src/season_pack.cpp uses of `std::regex`, all without regard to case:
-- matching with backtracking, where the first way that succeeds gives the groups.
use Prim.Native.Char.{code}
use Prim.Native.String.{String}
use torrent_builder.Common.{
  ℕ, zero, suc, Bytes, List, [], ◌∷◌, ◌++◌, Bool, true, false, ◌==◌, Option, none, some, isdigit,
}
use torrent_builder.Text.{tolower}

pub data Regex : Type 0 where
  empty : Regex
  literal : ℕ → Regex
  class : (ℕ → Bool) → Regex
  many : (ℕ → Bool) → Regex  -- `[…]*`
  number : ℕ → Regex  -- the group `(\d{1,n})`
  line_start : Regex  -- `^`
  line_end : Regex  -- `$`
  sequence : Regex → Regex → Regex
  either : Regex → Regex → Regex

infixr 5 ◌⨟◌
abbrev pub ◌⨟◌ : Regex → Regex → Regex
◌⨟◌ = sequence

abbrev pub text : String → Regex
text String.[] = empty
text (String.◌∷◌ c s) = sequence (literal (code c)) (text s)

-- `[…]+`
abbrev pub some_of : (ℕ → Bool) → Regex
some_of p = sequence (class p) (many p)

-- `r?`
abbrev pub optional : Regex → Regex
optional r = either r empty

abbrev pub Groups : Type 0
Groups = Option (List Bytes)

-- What follows in the pattern: it is told whether the text begins here, and the rest of the text.
abbrev pub Rest : Type 0
Rest = Bool → Bytes → Groups

abbrev pub or_else : Groups → Groups → Groups
or_else none later = later
or_else (some groups) later = some groups

abbrev pub add_group : Bytes → Groups → Groups
add_group group none = none
add_group group (some groups) = some (group ∷ groups)

abbrev pub at_byte : (ℕ → Bool) → Rest → Rest
at_byte p k first [] = none
at_byte p k first (c ∷ s) = elim (p c) [ true ↦ k false s | false ↦ none ]

-- As many bytes as possible.
unfoldable pub at_many : (ℕ → Bool) → Rest → Rest
at_many p k first [] = k first []
at_many p k first (c ∷ s) = elim (p c) [
  | true ↦ or_else (at_many p k false s) (k first (c ∷ s))
  | false ↦ k first (c ∷ s)
]

-- At most `n` digits, as many as possible, behind the digits `taken` of the group.
unfoldable pub at_digits : ℕ → Bytes → Rest → Rest
at_digits zero taken k first s = add_group taken (k false s)
at_digits (suc n) taken k first [] = add_group taken (k false [])
at_digits (suc n) taken k first (c ∷ s) = elim (isdigit c) [
  | true ↦ or_else (at_digits n (taken ++ c ∷ []) k false s) (add_group taken (k false (c ∷ s)))
  | false ↦ add_group taken (k false (c ∷ s))
]

-- At least one digit.
unfoldable pub at_number : ℕ → Rest → Rest
unfolding at_digits
at_number n k first [] = none
at_number n k first (c ∷ s) = elim (isdigit c) [
  | true ↦ elim n [ zero ↦ none | suc m ↦ at_digits m (c ∷ []) k false s ]
  | false ↦ none
]

unfoldable pub match : Regex → Rest → Rest
unfolding at_many at_number
match empty k first s = k first s
match (literal a) k first s = at_byte (λ c. tolower c == tolower a) k first s
match (class p) k first s = at_byte p k first s
match (many p) k first s = at_many p k first s
match (number n) k first s = at_number n k first s
match line_start k first s = elim first [ true ↦ k true s | false ↦ none ]
match line_end k first s = elim s [ [] ↦ k first [] | c ∷ t ↦ none ]
match (sequence r q) k first s = match r (match q k) first s
match (either r q) k first s = or_else (match r k first s) (match q k first s)

abbrev pub accept : Rest
accept first s = some []

-- The search from each position on.
unfoldable pub search_from : Regex → Bool → Bytes → Groups
unfolding match
search_from r first [] = match r accept first []
search_from r first (c ∷ s) = elim (match r accept first (c ∷ s)) [
  | some groups ↦ some groups
  | none ↦ search_from r false s
]

-- `std::regex_search`: the groups of the first match.
unfoldable pub regex_search : Regex → Bytes → Groups
unfolding search_from
regex_search r s = search_from r true s
