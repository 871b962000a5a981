-- ===== src/Filter.antt =====
-- The filters of files: `glob_to_regex`, `should_include_file` and the built-in exclusions of
-- src/utils.cpp.
pub mod Laws
pub mod Glob
mod Examples
use torrent_builder.Common.{
  ℕ, Bytes, List, [], ◌∷◌, ◌++◌, map, Bool, true, false, not, ◌&&◌, ◌||◌, ◌==◌, if◌then◌else◌,
  is_empty, any, codes,
}
use torrent_builder.Text.{tolower}

-- The parts of the regular expressions that `glob_to_regex` writes: a byte (escaped where it is a
-- metacharacter), `[^/]`, `[^/]*`, `.*` and `(?:.*/)?`.
pub data Item : Type 0 where
  literal : ℕ → Item
  one : Item
  segment : Item
  anything : Item
  directories : Item

-- A byte that does not begin `**`.
unfoldable pub item : ℕ → Item
item c = if c == b'*' then segment else if c == b'?' then one else literal c

-- The loop of `glob_to_regex`.
unfoldable pub glob_to_regex : Bytes → List Item
unfolding item
glob_to_regex [] = []
glob_to_regex (a ∷ []) = item a ∷ []
glob_to_regex (a ∷ b ∷ []) = elim ((a == b'*') && (b == b'*')) [
  | true ↦ anything ∷ []
  | false ↦ item a ∷ glob_to_regex (b ∷ [])
]
glob_to_regex (a ∷ b ∷ c ∷ s) = elim ((a == b'*') && (b == b'*')) [
  | true ↦ elim (c == b'/') [
    | true ↦ directories ∷ glob_to_regex s
    | false ↦ anything ∷ glob_to_regex (c ∷ s)
  ]
  | false ↦ item a ∷ glob_to_regex (b ∷ c ∷ s)
]

-- A byte that `p` holds of, and then what `k` matches.
abbrev pub first : (ℕ → Bool) → (Bytes → Bool) → Bytes → Bool
first p k [] = false
first p k (c ∷ s) = p c && k s

-- Any number of bytes that `p` holds of, and then what `k` matches.
abbrev pub star : (ℕ → Bool) → (Bytes → Bool) → Bytes → Bool
star p k [] = k []
star p k (c ∷ s) = let more = star p k s in k (c ∷ s) || (p c && more)

-- `[^/]`, and `.`, which is no line break.
abbrev pub not_slash : ℕ → Bool
not_slash c = not (c == b'/')

abbrev pub not_break : ℕ → Bool
not_break c = not ((c == b'\n') || (c == b'\r'))

-- `std::regex_match` of the whole text, without regard to case.
unfoldable pub regex_match : List Item → Bytes → Bool
regex_match [] s = is_empty s
regex_match (literal a ∷ items) s = first (λ c. tolower c == tolower a) (regex_match items) s
regex_match (one ∷ items) s = first not_slash (regex_match items) s
regex_match (segment ∷ items) s = star not_slash (regex_match items) s
regex_match (anything ∷ items) s = star not_break (regex_match items) s
regex_match (directories ∷ items) s =
    regex_match items s || star not_break (first (λ c. c == b'/') (regex_match items)) s

-- The loop over a list of patterns.
unfoldable pub some_match : Bytes → List (List Item) → Bool
some_match path [] = false
some_match path (re ∷ res) =
    let rest = some_match path res in if regex_match re path then true else rest

unfoldable pub should_include_file : Bytes → List (List Item) → List (List Item) → Bool
should_include_file relative_path exclude_regex include_regex =
    if not (is_empty include_regex)
    then (if some_match relative_path include_regex
        then true
        else if not (is_empty exclude_regex)
        then (if some_match relative_path exclude_regex then false else false)
        else false)
    else if some_match relative_path exclude_regex
    then false
    else true

abbrev pub builtin_exclude_patterns : List Bytes
builtin_exclude_patterns =
    codes "**/.DS_Store"
    ∷ codes "**/Thumbs.db"
    ∷ codes "**/desktop.ini"
    ∷ codes "**/Zone.Identifier"
    ∷ codes "**/Zone.Identifier:*"
    ∷ codes "**/@eaDir"
    ∷ codes "**/@eaDir/**"
    ∷ codes "**/*.torrent"
    ∷ []

unfoldable pub apply_builtin_excludes : List (List Item) → Bool → List (List Item)
apply_builtin_excludes user_excludes enabled =
    if not enabled
    then user_excludes
    else map glob_to_regex builtin_exclude_patterns ++ user_excludes
