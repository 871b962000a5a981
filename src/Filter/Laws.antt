-- ===== src/Filter/Laws.antt =====
-- Which files the filters leave.
use torrent_builder.Common.{
  ◌≡◌, refl, ap, ap₂, ◌∙◌, arith, inl, inr, Bytes, List, [], ◌∷◌, ◌++◌, map, Bool, true, false, not,
  ◌||◌, Bool-cases, if◌then◌else◌, is_empty, any,
}
use torrent_builder.Filter.{
  Item, regex_match, some_match, should_include_file, glob_to_regex, builtin_exclude_patterns,
  apply_builtin_excludes,
}

some_match-any :
    (path : Bytes) (res : List (List Item))
    → some_match path res ≡ any (λ re. regex_match re path) res
unfolding some_match
some_match-any path [] = refl
some_match-any path (re ∷ res) = elim (Bool-cases (regex_match re path)) [
  | inl e ↦ rw (e, some_match) refl
  | inr e ↦ rw (e, some_match) (some_match-any path res)
]

or_assoc : (a b c : Bool) → (a || (b || c)) ≡ ((a || b) || c)
or_assoc true b c = refl
or_assoc false b c = refl

any-append :
    {A : Type 0} (p : A → Bool) (xs ys : List A) → any p (xs ++ ys) ≡ (any p xs || any p ys)
any-append p [] ys = refl
any-append p (x ∷ xs) ys =
    ap (λ b. p x || b) (any-append p xs ys) ∙ or_assoc (p x) (any p xs) (any p ys)

any-map :
    {A B : Type 0} (p : B → Bool) (f : A → B) (xs : List A)
    → any p (map f xs) ≡ any (λ x. p (f x)) xs
any-map p f [] = refl
any-map p f (x ∷ xs) = ap (λ b. p (f x) || b) (any-map p f xs)

-- The exclusions that are applied.
excluded : Bytes → List (List Item) → Bool → Bool
excluded path excludes enabled =
    (if enabled
      then any (λ pattern. regex_match (glob_to_regex pattern) path) builtin_exclude_patterns
      else false)
    || any (λ re. regex_match re path) excludes

some_match-excluded :
    (path : Bytes) (excludes : List (List Item)) (enabled : Bool)
    → some_match path (apply_builtin_excludes excludes enabled) ≡ excluded path excludes enabled
unfolding apply_builtin_excludes excluded
some_match-excluded path excludes false = some_match-any path excludes
some_match-excluded path excludes true =
    some_match-any path (map glob_to_regex builtin_exclude_patterns ++ excludes)
    ∙ (any-append (λ re. regex_match re path) (map glob_to_regex builtin_exclude_patterns) excludes
        ∙ ap (λ b. b || any (λ re. regex_match re path) excludes)
            (any-map (λ re. regex_match re path) glob_to_regex builtin_exclude_patterns))

should_include-some_match :
    (path : Bytes) (excludes includes : List (List Item))
    → should_include_file path excludes includes
      ≡ (if is_empty includes then not (some_match path excludes) else some_match path includes)
unfolding should_include_file
should_include-some_match path excludes includes = ground arith

-- With patterns to include, a file is left exactly if one of them matches it, whatever is excluded.
-- Without any, it is left exactly if neither a built-in pattern, where these are enabled, nor one of
-- the user's exclusions matches it.
pub should_include_file_lem :
    (path : Bytes) (excludes includes : List (List Item)) (enabled : Bool)
    → should_include_file path (apply_builtin_excludes excludes enabled) includes ≡ (
        if is_empty includes
        then not (
            (if enabled
              then any
                  (λ pattern. regex_match (glob_to_regex pattern) path)
                  builtin_exclude_patterns
              else false)
            || any (λ re. regex_match re path) excludes)
        else any (λ re. regex_match re path) includes)
unfolding excluded
should_include_file_lem path excludes includes enabled =
    should_include-some_match path (apply_builtin_excludes excludes enabled) includes
    ∙ ap₂ (λ e m. if is_empty includes then not e else m)
        (some_match-excluded path excludes enabled) (some_match-any path includes)
