-- ===== src/Filename/Truncate/Walk.antt =====
-- How `truncate_filename` walks back over the bytes of a character.
use torrent_builder.Common.{
  ℕ, zero, suc, ◌+◌, ◌≤◌, ◌<◌, ◌≡◌, refl, ap, ◌∙◌, inl, inr, Bytes, [], ◌∷◌, ◌++◌, true, false,
  Bool-cases, arith, All, length, get_or,
}
use torrent_builder.Filename.{is_continuation, walk_back, settle, cut_length}

-- Stepping over the first byte.
pub walk_back-cons :
    (c : ℕ) (s : Bytes) (n : ℕ)
    → 0 < walk_back s n
    → walk_back (c ∷ s) (suc n) ≡ suc (walk_back s n)
unfolding walk_back
walk_back-cons c s zero h = absurd (omega arith)
walk_back-cons c s (suc n) h = elim (Bool-cases (is_continuation (get_or s n 0))) [
  | inl e ↦ rw (e, walk_back) (walk_back-cons c s n (rw (e, walk_back) at h))
  | inr e ↦ rw (e, walk_back)
]

pub walk_back_through :
    (c : ℕ) (s : Bytes) (n : ℕ)
    → is_continuation c ≡ false
    → walk_back s n ≡ 0
    → walk_back (c ∷ s) (suc n) ≡ 1
unfolding walk_back
walk_back_through c s zero h e = rw h
walk_back_through c s (suc n) h e = elim (Bool-cases (is_continuation (get_or s n 0))) [
  | inl q ↦ rw (q, walk_back) (walk_back_through c s n h (rw (q, walk_back) at e))
  | inr q ↦ absurd (omega (arith, rw (q, walk_back) at e))
]

settle-cons :
    (c : ℕ) (s : Bytes) (m n : ℕ) → 0 < n → settle (c ∷ s) (suc m) (suc n) ≡ suc (settle s m n)
unfolding settle
settle-cons c s m zero h = absurd (omega arith)
settle-cons c s m (suc n) h = ground arith

cut_length-cons :
    (c : ℕ) (s : Bytes) (n : ℕ)
    → 0 < walk_back s n
    → cut_length (c ∷ s) (suc n) ≡ suc (cut_length s n)
unfolding cut_length
cut_length-cons c s n h = rw (walk_back-cons c s n h) (settle-cons c s n (walk_back s n) h)

-- A text that does not begin with a continuation byte is never walked back to its start.
pub walk_back-pos :
    (c : ℕ) (s : Bytes) (n : ℕ) → is_continuation c ≡ false → 0 < walk_back (c ∷ s) (suc n)
unfolding walk_back
walk_back-pos c s zero h = rw h (omega arith)
walk_back-pos c s (suc n) h = elim (Bool-cases (is_continuation (get_or s n 0))) [
  | inl q ↦ rw (q, walk_back) (walk_back-pos c s n h)
  | inr q ↦ rw (q, walk_back) (omega arith)
]

-- A position inside the first text, or at its end.
All-get_or :
    (t r : Bytes) (n : ℕ)
    → All (λ d. is_continuation d ≡ true) t
    → n < length t
    → is_continuation (get_or (t ++ r) n 0) ≡ true
All-get_or [] r n all h = absurd (omega arith)
All-get_or (c ∷ t) r zero (p, all) h = p
All-get_or (c ∷ t) r (suc n) (p, all) h = All-get_or t r n all (omega (arith, h))

-- Walking back over continuation bytes only.
pub walk_back-tail :
    (t r : Bytes) (n : ℕ)
    → All (λ d. is_continuation d ≡ true) t
    → n ≤ length t
    → walk_back (t ++ r) n ≡ 0
unfolding walk_back
walk_back-tail t r zero all h = refl
walk_back-tail t r (suc n) all h =
    rw (All-get_or t r n all h) (walk_back-tail t r n all (omega (arith, h)))

pub walk_back-past :
    (t r : Bytes) (n : ℕ)
    → 0 < walk_back r n
    → walk_back (t ++ r) (length t + n) ≡ length t + walk_back r n
walk_back-past [] r n h = ap (walk_back r) {y = n} (omega arith) ∙ omega arith
walk_back-past (c ∷ t) r n h =
    let e : walk_back (t ++ r) (length t + n) ≡ length t + walk_back r n = walk_back-past t r n h in
    ap (walk_back ((c ∷ t) ++ r)) {y = suc (length t + n)} (omega arith)
    ∙ (walk_back-cons c (t ++ r) (length t + n) (rw e (omega (arith, h)))
        ∙ (ap suc e ∙ omega arith))

pub cut_length-past :
    (t r : Bytes) (n : ℕ)
    → 0 < walk_back r n
    → cut_length (t ++ r) (length t + n) ≡ length t + cut_length r n
cut_length-past [] r n h = ap (cut_length r) {y = n} (omega arith) ∙ omega arith
cut_length-past (c ∷ t) r n h =
    let e : walk_back (t ++ r) (length t + n) ≡ length t + walk_back r n = walk_back-past t r n h in
    ap (cut_length ((c ∷ t) ++ r)) {y = suc (length t + n)} (omega arith)
    ∙ (cut_length-cons c (t ++ r) (length t + n) (rw e (omega (arith, h)))
        ∙ (ap suc (cut_length-past t r n h) ∙ omega arith))
