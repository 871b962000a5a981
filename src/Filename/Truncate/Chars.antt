-- ===== src/Filename/Truncate/Chars.antt =====
-- The characters of UTF-8, and how the code of src/utils.cpp tells their bytes.
use torrent_builder.Common.{
  ℕ, ◌≤◌, ◌<◌, ◌≡◌, refl, sym, ◌∙◌, ◌⊎◌, inl, inr, Bytes, List, [], ◌∷◌, true, arith, All, length,
}
use torrent_builder.Filename.{is_continuation, is_lead, expected_continuations}

-- `n` continuation bytes.
abbrev pub IsTail : ℕ → Bytes → Type 0
IsTail n t = (length t ≡ n) × All (λ d. (128 ≤ d) × (d < 192)) t

-- One character of UTF-8, by the ranges of its bytes: an ASCII byte, or a byte that announces one, two or three more and as many
-- of these.
abbrev pub IsChar : Bytes → Type 0
IsChar [] = ⊥
IsChar (c ∷ t) =
    ((c < 128) × IsTail 0 t)
    ⊎ ((192 ≤ c) × (c < 224) × IsTail 1 t)
    ⊎ ((224 ≤ c) × (c < 240) × IsTail 2 t)
    ⊎ ((240 ≤ c) × (c < 248) × IsTail 3 t)

-- A character as the code tells it.
abbrev pub IsRead : Bytes → Type 0
IsRead [] = ⊥
IsRead (c ∷ t) =
    ((c < 128) × (t ≡ []))
    ⊎ ((is_lead c ≡ true)
        × (length t ≡ expected_continuations c)
        × All (λ d. is_continuation d ≡ true) t)

tail-continues :
    (t : Bytes) → All (λ d. (128 ≤ d) × (d < 192)) t → All (λ d. is_continuation d ≡ true) t
unfolding is_continuation
tail-continues [] h = tt
tail-continues (d ∷ t) (p, h) = (ground arith, tail-continues t h)

-- The lead bytes announce what UTF-8 says.
leads : (c : ℕ) → 192 ≤ c → c < 256 → is_lead c ≡ true
unfolding is_lead
leads c lo hi = ground arith

announces_one : (c : ℕ) → 192 ≤ c → c < 224 → expected_continuations c ≡ 1
unfolding expected_continuations
announces_one c lo hi = ground arith

announces_two : (c : ℕ) → 224 ≤ c → c < 240 → expected_continuations c ≡ 2
unfolding expected_continuations
announces_two c lo hi = ground arith

announces_three : (c : ℕ) → 240 ≤ c → c < 248 → expected_continuations c ≡ 3
unfolding expected_continuations
announces_three c lo hi = ground arith

no_tail : (t : Bytes) → length t ≡ 0 → t ≡ []
no_tail [] h = refl
no_tail (d ∷ t) h = absurd (omega (arith, h))

char-IsRead : (ch : Bytes) → IsChar ch → IsRead ch
char-IsRead [] h = h
char-IsRead (c ∷ t) (inl (ascii, (len, all))) = inl (ascii, no_tail t len)
char-IsRead (c ∷ t) (inr (inl (lo, hi, (len, all)))) =
    inr (leads c lo (omega (arith, hi)), len ∙ sym (announces_one c lo hi), tail-continues t all)
char-IsRead (c ∷ t) (inr (inr (inl (lo, hi, (len, all))))) = inr (
  leads c (omega (arith, lo)) (omega (arith, hi)),
  len ∙ sym (announces_two c lo hi),
  tail-continues t all,
)
char-IsRead (c ∷ t) (inr (inr (inr (lo, hi, (len, all))))) = inr (
  leads c (omega (arith, lo)) (omega (arith, hi)),
  len ∙ sym (announces_three c lo hi),
  tail-continues t all,
)

pub All-IsRead : (chars : List Bytes) → All IsChar chars → All IsRead chars
All-IsRead [] h = tt
All-IsRead (ch ∷ chars) (h, hs) = (char-IsRead ch h, All-IsRead chars hs)
