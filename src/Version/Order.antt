-- ===== src/Version/Order.antt =====
-- The comparisons of parts of a version are orders.
use torrent_builder.Common.{
  ℕ, ◌≡◌, refl, ap, ◌∙◌, arith, Bytes, List, [], ◌∷◌, Bool, true, false, not, ◌&&◌, if◌then◌else◌,
  Bool-cases, inl, inr, bytes_eq,
}
use torrent_builder.Version.{
  Sign, negative, same, positive, number_sign, bytes_lt, text_sign, split_dots, is_numeric,
  clamped_value, identifier_sign, identifiers_sign, compare_prerelease_identifiers,
}

abbrev pub opposite : Sign → Sign
opposite negative = positive
opposite same = same
opposite positive = negative

pub number_sign-opposite :
    (a b : ℕ) (r : Sign) → number_sign b a (opposite r) ≡ opposite (number_sign a b r)
unfolding number_sign
number_sign-opposite a b r = ground arith

bytes_eq_sym : (a b : Bytes) → bytes_eq a b ≡ bytes_eq b a
bytes_eq_sym [] [] = refl
bytes_eq_sym [] (d ∷ t) = refl
bytes_eq_sym (c ∷ s) [] = refl
bytes_eq_sym (c ∷ s) (d ∷ t) = ground (arith, bytes_eq_sym s t)

-- Of two different texts exactly one is less.
bytes_lt-opposite : (a b : Bytes) → bytes_eq a b ≡ false → bytes_lt b a ≡ not (bytes_lt a b)
unfolding bytes_lt
bytes_lt-opposite [] [] h = cc h
bytes_lt-opposite [] (d ∷ t) h = refl
bytes_lt-opposite (c ∷ s) [] h = refl
bytes_lt-opposite (c ∷ s) (d ∷ t) h = ground (arith, bytes_lt-opposite s t)

text_sign-opposite :
    (a b : Bytes) (r : Sign) → text_sign b a (opposite r) ≡ opposite (text_sign a b r)
unfolding text_sign
text_sign-opposite a b r = elim (Bool-cases (bytes_eq a b)) [
  | inl e ↦ rw (bytes_eq_sym b a, e) refl
  | inr e ↦ rw (bytes_eq_sym b a, e, bytes_lt-opposite a b e) (ground arith)
]

identifier_sign-opposite :
    (a b : Bytes) (r : Sign) → identifier_sign b a (opposite r) ≡ opposite (identifier_sign a b r)
unfolding identifier_sign
identifier_sign-opposite a b r =
    ground
      (arith, number_sign-opposite (clamped_value a) (clamped_value b) r, text_sign-opposite a b r)

identifiers_sign-opposite :
    (pa pb : List Bytes) → identifiers_sign pb pa ≡ opposite (identifiers_sign pa pb)
unfolding identifiers_sign
identifiers_sign-opposite [] [] = refl
identifiers_sign-opposite [] (b ∷ pb) = refl
identifiers_sign-opposite (a ∷ pa) [] = refl
identifiers_sign-opposite (a ∷ pa) (b ∷ pb) =
    ap (identifier_sign b a) (identifiers_sign-opposite pa pb)
    ∙ identifier_sign-opposite a b (identifiers_sign pa pb)

pub compare_prerelease_identifiers-opposite :
    (a b : Bytes)
    → compare_prerelease_identifiers b a ≡ opposite (compare_prerelease_identifiers a b)
unfolding compare_prerelease_identifiers
compare_prerelease_identifiers-opposite [] [] = refl
compare_prerelease_identifiers-opposite [] (d ∷ t) = refl
compare_prerelease_identifiers-opposite (c ∷ s) [] = refl
compare_prerelease_identifiers-opposite (c ∷ s) (d ∷ t) =
    identifiers_sign-opposite (split_dots (c ∷ s) []) (split_dots (d ∷ t) [])

-- Two results in a row that are not positive, and the result across both.
abbrev pub Chain : Sign → Sign → Sign → Type 0
Chain negative negative u = u ≡ negative
Chain negative same u = u ≡ negative
Chain same t u = u ≡ t
Chain negative positive u = Unit
Chain positive t u = Unit

pub number_sign-Chain :
    (a b c : ℕ) (r s t : Sign)
    → Chain r s t
    → Chain (number_sign a b r) (number_sign b c s) (number_sign a c t)
unfolding number_sign
number_sign-Chain a b c r s t h = ground arith

Chain-negative : (s : Sign) → Chain negative s negative
Chain-negative negative = refl
Chain-negative same = refl
Chain-negative positive = tt

Chain-last : (r : Sign) → Chain r negative negative
Chain-last negative = refl
Chain-last same = refl
Chain-last positive = tt

Chain-positive : (r : Sign) → Chain r positive positive
Chain-positive negative = tt
Chain-positive same = refl
Chain-positive positive = tt

text_sign-cons :
    (c d : ℕ) (s t : Bytes) (r : Sign)
    → text_sign (c ∷ s) (d ∷ t) r ≡ number_sign c d (text_sign s t r)
unfolding text_sign number_sign bytes_lt
text_sign-cons c d s t r = ground arith

text_sign-Chain :
    (x y z : Bytes) (r s t : Sign)
    → Chain r s t
    → Chain (text_sign x y r) (text_sign y z s) (text_sign x z t)
text_sign-Chain [] [] [] r s t h = unfold text_sign in h
text_sign-Chain [] [] (e ∷ z) r s t h = unfold text_sign bytes_lt in Chain-last r
text_sign-Chain [] (d ∷ y) [] r s t h = unfold text_sign bytes_lt in tt
text_sign-Chain [] (d ∷ y) (e ∷ z) r s t h = unfold text_sign bytes_lt in Chain-negative _
text_sign-Chain (c ∷ x) [] z r s t h = unfold text_sign bytes_lt in tt
text_sign-Chain (c ∷ x) (d ∷ y) [] r s t h = unfold text_sign bytes_lt in Chain-positive _
text_sign-Chain (c ∷ x) (d ∷ y) (e ∷ z) r s t h =
    rw (text_sign-cons c d x y r, text_sign-cons d e y z s, text_sign-cons c e x z t)
      (number_sign-Chain c d e _ _ _ (text_sign-Chain x y z r s t h))

-- The tests of `identifier_sign`, for any outcomes of the two comparisons.
mixed : Bool → Bool → Sign → Sign → Sign
mixed na nb numbers texts =
    if na && nb then numbers else if na then negative else if nb then positive else texts

mixed-Chain :
    (na nb nc : Bool) (n n' n'' t t' t'' : Sign)
    → Chain n n' n''
    → Chain t t' t''
    → Chain (mixed na nb n t) (mixed nb nc n' t') (mixed na nc n'' t'')
unfolding mixed
mixed-Chain true true true n n' n'' t t' t'' hn ht = hn
mixed-Chain true true false n n' n'' t t' t'' hn ht = Chain-last n
mixed-Chain true false true n n' n'' t t' t'' hn ht = tt
mixed-Chain true false false n n' n'' t t' t'' hn ht = Chain-negative t'
mixed-Chain false true nc n n' n'' t t' t'' hn ht = tt
mixed-Chain false false true n n' n'' t t' t'' hn ht = Chain-positive t
mixed-Chain false false false n n' n'' t t' t'' hn ht = ht

identifier_sign-Chain :
    (a b c : Bytes) (r s t : Sign)
    → Chain r s t
    → Chain (identifier_sign a b r) (identifier_sign b c s) (identifier_sign a c t)
unfolding identifier_sign mixed
identifier_sign-Chain a b c r s t h =
    mixed-Chain (is_numeric a) (is_numeric b) (is_numeric c) _ _ _ _ _ _
      (number_sign-Chain (clamped_value a) (clamped_value b) (clamped_value c) r s t h)
      (text_sign-Chain a b c r s t h)

identifiers_sign-Chain :
    (x y z : List Bytes)
    → Chain (identifiers_sign x y) (identifiers_sign y z) (identifiers_sign x z)
unfolding identifiers_sign
identifiers_sign-Chain [] [] z = refl
identifiers_sign-Chain [] (b ∷ y) [] = tt
identifiers_sign-Chain [] (b ∷ y) (c ∷ z) = Chain-negative _
identifiers_sign-Chain (a ∷ x) [] z = tt
identifiers_sign-Chain (a ∷ x) (b ∷ y) [] = Chain-positive _
identifiers_sign-Chain (a ∷ x) (b ∷ y) (c ∷ z) =
    identifier_sign-Chain a b c _ _ _ (identifiers_sign-Chain x y z)

pub compare_prerelease_identifiers-Chain :
    (x y z : Bytes)
    → Chain
        (compare_prerelease_identifiers x y)
        (compare_prerelease_identifiers y z)
        (compare_prerelease_identifiers x z)
unfolding compare_prerelease_identifiers
compare_prerelease_identifiers-Chain [] [] z = refl
compare_prerelease_identifiers-Chain [] (d ∷ y) z = tt
compare_prerelease_identifiers-Chain (c ∷ x) [] [] = refl
compare_prerelease_identifiers-Chain (c ∷ x) [] (e ∷ z) = tt
compare_prerelease_identifiers-Chain (c ∷ x) (d ∷ y) [] = Chain-last _
compare_prerelease_identifiers-Chain (c ∷ x) (d ∷ y) (e ∷ z) =
    identifiers_sign-Chain (split_dots (c ∷ x) []) (split_dots (d ∷ y) []) (split_dots (e ∷ z) [])
