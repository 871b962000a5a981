-- ===== src/Filename/Sanitize.antt =====
-- What `sanitize_filename_part` leaves.
use torrent_builder.Common.{
  ℕ, ◌≡◌, refl, sym, ap, subst, ◌∙◌, ◌⊎◌, inl, inr, Bytes, [], ◌∷◌, ◌++◌, append_assoc, append-nil,
  Bool, true, false, if◌then◌else◌, Bool-cases,
}
use torrent_builder.Filename.{is_replaced, sanitize_loop, sanitize_filename_part}

-- What the loop appends to its result.
squeeze : Bytes → Bool → Bytes
squeeze [] prev = []
squeeze (c ∷ s) prev = elim (is_replaced c) [
  | true ↦ (if prev then [] else b'_' ∷ []) ++ squeeze s true
  | false ↦ c ∷ squeeze s false
]

squeeze_replaced :
    (c : ℕ) (s : Bytes) (prev : Bool)
    → is_replaced c ≡ true
    → squeeze (c ∷ s) prev ≡ (if prev then [] else b'_' ∷ []) ++ squeeze s true
unfolding squeeze
squeeze_replaced c s prev e = rw (e, squeeze)

squeeze_kept :
    (c : ℕ) (s : Bytes) (prev : Bool)
    → is_replaced c ≡ false
    → squeeze (c ∷ s) prev ≡ c ∷ squeeze s false
unfolding squeeze
squeeze_kept c s prev e = rw (e, squeeze)

append_underscore :
    (result : Bytes) (prev : Bool)
    → (if prev then result else result ++ b'_' ∷ []) ≡ result ++ (if prev then [] else b'_' ∷ [])
append_underscore result true = sym (append-nil result)
append_underscore result false = refl

sanitize_loop-squeeze :
    (s result : Bytes) (prev : Bool) → sanitize_loop s result prev ≡ result ++ squeeze s prev
unfolding sanitize_loop
sanitize_loop-squeeze [] result prev = unfold squeeze in sym (append-nil result)
sanitize_loop-squeeze (c ∷ s) result prev = elim (Bool-cases (is_replaced c)) [
  | inr e ↦
      rw (e, sanitize_loop, squeeze_kept c s prev e)
        (sanitize_loop-squeeze s (result ++ c ∷ []) false
          ∙ append_assoc result (c ∷ []) (squeeze s false))
  | inl e ↦
      rw (e, sanitize_loop, squeeze_replaced c s prev e, append_underscore result prev)
        (sanitize_loop-squeeze s (result ++ (if prev then [] else b'_' ∷ [])) true
          ∙ append_assoc result (if prev then [] else b'_' ∷ []) (squeeze s true))
]

-- No byte of the text is a forbidden one, and no two underscores stand side by side; `prev` says that
-- an underscore stands in front.
abbrev pub IsClean : Bool → Bytes → Type 0
IsClean prev [] = Unit
IsClean prev (c ∷ s) =
    ((is_replaced c ≡ false) × IsClean false s) ⊎ ((c ≡ b'_') × (prev ≡ false) × IsClean true s)

underscore-IsClean :
    (s : Bytes) (prev : Bool)
    → IsClean true s
    → IsClean prev ((if prev then [] else b'_' ∷ []) ++ s)
underscore-IsClean s true h = h
underscore-IsClean s false h = inr (refl, refl, h)

squeeze-IsClean : (s : Bytes) (prev : Bool) → IsClean prev (squeeze s prev)
squeeze-IsClean [] prev = unfold squeeze in tt
squeeze-IsClean (c ∷ s) prev = elim (Bool-cases (is_replaced c)) [
  | inr e ↦ subst (IsClean prev) (sym (squeeze_kept c s prev e)) (inl (e, squeeze-IsClean s false))
  | inl e ↦
      subst (IsClean prev) (sym (squeeze_replaced c s prev e))
        (underscore-IsClean _ prev (squeeze-IsClean s true))
]

underscore_replaced : (c : ℕ) → c ≡ b'_' → is_replaced c ≡ true
underscore_replaced c e = rw e (unfold is_replaced in refl)

squeeze_clean : (s : Bytes) (prev : Bool) → IsClean prev s → squeeze s prev ≡ s
squeeze_clean [] prev h = unfold squeeze in refl
squeeze_clean (c ∷ s) prev (inl (e, h)) =
    squeeze_kept c s prev e ∙ ap (λ t. c ∷ t) (squeeze_clean s false h)
squeeze_clean (c ∷ s) prev (inr (e, none_before, h)) =
    squeeze_replaced c s prev (underscore_replaced c e)
    ∙ rw (none_before, e) (ap (λ t. b'_' ∷ t) (squeeze_clean s true h))

-- The result holds no byte that a file name may not hold, and no two underscores side by side.
pub sanitize_filename_part-IsClean : (part : Bytes) → IsClean false (sanitize_filename_part part)
unfolding sanitize_filename_part
sanitize_filename_part-IsClean part =
    rw (sanitize_loop-squeeze part [] false) (squeeze-IsClean part false)

-- A text without bytes that a file name may not hold and without two underscores side by side is left
-- as it is.
pub sanitize_filename_part_clean :
    (part : Bytes) → IsClean false part → sanitize_filename_part part ≡ part
unfolding sanitize_filename_part
sanitize_filename_part_clean part h =
    sanitize_loop-squeeze part [] false ∙ squeeze_clean part false h
