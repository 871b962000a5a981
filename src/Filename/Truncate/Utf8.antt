-- ===== src/Filename/Truncate/Utf8.antt =====
-- `truncate_filename` cuts a UTF-8 name between characters.
use torrent_builder.Common.{
  ℕ, zero, suc, ◌+◌, ◌-◌, ◌≤◌, ◌<◌, ◌≡◌, refl, sym, ap, ◌∙◌, subst, inl, inr, Bytes, List, [], ◌∷◌,
  ◌++◌, append_assoc, append-nil, true, false, if◌then◌else◌, Bool-cases, ltb, leb, ◌==◌, arith,
  All, length, is_empty, take, length-append, ltb→lt, leb→le, leb→lt, lt→leb, take-length-append,
}
use torrent_builder.Filename.Truncate.{cut_length-le}
use torrent_builder.Filename.Truncate.Walk.{
  walk_back_through, walk_back-pos, walk_back-tail, cut_length-past,
}
use torrent_builder.Filename.{
  extension, is_continuation, is_lead, walk_back, settle, cut_length, truncate_filename,
}
use torrent_builder.Filename.Truncate.Chars.{IsChar, IsRead, All-IsRead}

abbrev pub flatten : List Bytes → Bytes
flatten [] = []
flatten (ch ∷ chs) = ch ++ flatten chs

first_byte : (c : ℕ) (t : Bytes) → IsRead (c ∷ t) → is_continuation c ≡ false
unfolding is_continuation is_lead
first_byte c t (inl (ascii, e)) = ground arith
first_byte c t (inr (lead, e, all)) = ground arith

ascii_lead : (c : ℕ) → c < 128 → is_lead c ≡ false
unfolding is_lead
ascii_lead c h = ground arith

char_tail : (c : ℕ) (t : Bytes) → IsRead (c ∷ t) → All (λ d. is_continuation d ≡ true) t
char_tail c t (inl (ascii, e)) = subst (All (λ d. is_continuation d ≡ true)) (sym e) tt
char_tail c t (inr (lead, e, all)) = all

walk_back-first :
    (c : ℕ) (t r : Bytes) (n : ℕ)
    → IsRead (c ∷ t)
    → n ≤ length t
    → walk_back ((c ∷ t) ++ r) (suc n) ≡ 1
walk_back-first c t r n ch h =
    walk_back_through c (t ++ r) n (first_byte c t ch) (walk_back-tail t r n (char_tail c t ch) h)

-- A cut inside the first character, or right after it.
cut_length-first :
    (c : ℕ) (t r : Bytes) (n : ℕ)
    → IsRead (c ∷ t)
    → n ≤ length t
    → cut_length ((c ∷ t) ++ r) (suc n) ≡ (if ltb n (length t) then 0 else suc (length t))
unfolding cut_length settle
cut_length-first c t r n (inl (ascii, e)) h =
    let len : length t ≡ 0 = ap length e in
    rw (walk_back-first c t r n (inl (ascii, e)) h, settle, ascii_lead c ascii) ground (arith, len)
cut_length-first c t r n (inr (lead, e, all)) h =
    rw (walk_back-first c t r n (inr (lead, e, all)) h, settle, lead, sym e) ground arith

walk_back-flatten :
    (chars : List Bytes) (n : ℕ)
    → All IsRead chars
    → 0 < n
    → n ≤ length (flatten chars)
    → 0 < walk_back (flatten chars) n
walk_back-flatten [] n all some_byte h = absurd (omega (arith, h, some_byte))
walk_back-flatten ([] ∷ chars) n (bad, all) some_byte h = absurd bad
walk_back-flatten ((c ∷ t) ∷ chars) zero all some_byte h = absurd (omega (arith, some_byte))
walk_back-flatten ((c ∷ t) ∷ chars) (suc n) (ch, all) some_byte h =
    walk_back-pos c (t ++ flatten chars) n (first_byte c t ch)

-- The next character does not fit into `n` bytes after the first `k`.
abbrev pub NextTooLong : List Bytes → ℕ → ℕ → Type 0
NextTooLong [] k n = Unit
NextTooLong (ch ∷ chars) k n = n < k + length ch

flatten-append : (xs ys : List Bytes) → flatten (xs ++ ys) ≡ flatten xs ++ flatten ys
flatten-append [] ys = refl
flatten-append (x ∷ xs) ys =
    ap (λ s. x ++ s) (flatten-append xs ys) ∙ sym (append_assoc x (flatten xs) (flatten ys))

take-flatten :
    (kept rest : List Bytes) → take (length (flatten kept)) (flatten (kept ++ rest)) ≡ flatten kept
take-flatten kept rest =
    rw (flatten-append kept rest) (take-length-append (flatten kept) (flatten rest))

pick_suc : (n : ℕ) → (if suc n == 0 then 1 else suc n) ≡ suc n
pick_suc n = ground arith

if_is_empty :
    (s u : Bytes)
    → take (if length s == 0 then 1 else length s) u
      ≡ (if is_empty s then take 1 u else take (length s) u)
if_is_empty [] u = refl
if_is_empty (c ∷ s) u = ap (λ n. take n u) (pick_suc (length s))

abbrev CutAt : List Bytes → ℕ → Type 0
CutAt chars n =
    (kept rest : List Bytes) × (chars ≡ kept ++ rest)
    × (cut_length (flatten chars) n ≡ length (flatten kept))
    × NextTooLong rest (length (flatten kept)) n

next_shift :
    (rest : List Bytes) (j k k' n : ℕ)
    → k' ≡ j + k
    → NextTooLong rest k n
    → NextTooLong rest k' (j + n)
next_shift [] j k k' n e h = tt
next_shift (ch ∷ rest) j k k' n e h = omega (arith, e, h)

next_full : (rest : List Bytes) (k n : ℕ) → All IsRead rest → n ≤ k → NextTooLong rest k n
next_full [] k n all h = tt
next_full ([] ∷ rest) k n (bad, all) h = absurd bad
next_full ((c ∷ t) ∷ rest) k n all h = omega (arith, h)

cut_later :
    (c : ℕ) (t : Bytes) (chars : List Bytes) (n : ℕ)
    → 0 < walk_back (flatten chars) n
    → CutAt chars n
    → CutAt ((c ∷ t) ∷ chars) (length (c ∷ t) + n)
cut_later c t chars n h (kept, rest, e, cut, next) = (
  (c ∷ t) ∷ kept,
  rest,
  ap (λ l. (c ∷ t) ∷ l) e,
  cut_length-past (c ∷ t) (flatten chars) n h
      ∙ (ap (λ k. length (c ∷ t) + k) cut ∙ sym (length-append (c ∷ t) (flatten kept))),
  next_shift rest (length (c ∷ t)) (length (flatten kept)) _ n
      (length-append (c ∷ t) (flatten kept)) next,
)

cut_first :
    (c : ℕ) (t : Bytes) (chars : List Bytes) (n : ℕ)
    → All IsRead ((c ∷ t) ∷ chars)
    → n ≤ length t
    → CutAt ((c ∷ t) ∷ chars) (suc n)
cut_first c t chars n (ch, all) h = elim (Bool-cases (ltb n (length t))) [
  | inl before ↦ ([], (c ∷ t) ∷ chars, refl, e ∙ rw before refl, omega (arith, ltb→lt _ _ before))
  | inr at_end ↦ (
    (c ∷ t) ∷ [],
    chars,
    refl,
    e ∙ rw (at_end, append-nil t) refl,
    next_full chars _ _ all (rw (append-nil t) (omega (arith, h))),
  )
]
  where
    e :
        cut_length (flatten ((c ∷ t) ∷ chars)) (suc n)
        ≡ (if ltb n (length t) then 0 else suc (length t))
    e = cut_length-first c t (flatten chars) n ch h

cut_length-flatten :
    (chars : List Bytes) (n : ℕ) → All IsRead chars → n ≤ length (flatten chars) → CutAt chars n
unfolding cut_length walk_back settle
cut_length-flatten chars zero all h = ([], chars, refl, refl, next_full chars 0 0 all (omega arith))
cut_length-flatten [] (suc n) all h = absurd (omega (arith, h))
cut_length-flatten ([] ∷ chars) (suc n) (bad, all) h = absurd bad
cut_length-flatten ((c ∷ t) ∷ chars) (suc n) (ch, all) h = elim (Bool-cases (leb n (length t))) [
  | inl inside ↦ cut_first c t chars n (ch, all) (leb→le _ _ inside)
  | inr beyond ↦
      let far : length t < n = leb→lt _ _ beyond in
      let b : ℕ = n - length t in
      let split_at : length (c ∷ t) + b ≡ suc n = omega (arith, far) in
      let inside : b ≤ length (flatten chars) = omega (arith, h, length-append t (flatten chars)) in
      subst (CutAt ((c ∷ t) ∷ chars)) split_at (
        cut_later c t chars b (walk_back-flatten chars b all (omega (arith, far)) inside)
          (cut_length-flatten chars b all inside))
]

-- A name of whole UTF-8 characters that is too long, with an extension that leaves room, becomes as
-- many of its whole characters as fit in front of the extension, followed by the extension. Only if
-- not even the first character fits, its first byte is kept.
pub truncate_filename-flatten :
    (chars : List Bytes) (max_bytes : ℕ)
    → All IsChar chars
    → max_bytes < length (flatten chars)
    → length (extension (flatten chars)) < max_bytes
    → (kept rest : List Bytes) × (chars ≡ kept ++ rest)
      × (length (flatten kept) + length (extension (flatten chars)) ≤ max_bytes)
      × NextTooLong rest (length (flatten kept)) (max_bytes - length (extension (flatten chars)))
      × (truncate_filename (flatten chars) max_bytes
          ≡ (if is_empty (flatten kept) then take 1 (flatten chars) else flatten kept)
            ++ extension (flatten chars))
unfolding truncate_filename
truncate_filename-flatten chars max_bytes all long room =
    let available : ℕ = max_bytes - length (extension (flatten chars)) in
    let (kept, rest, e, cut, next) =
      cut_length-flatten chars available (All-IsRead chars all) (omega (arith, long, room)) in
    let prefix : take (length (flatten kept)) (flatten chars) ≡ flatten kept =
      ap (λ l. take (length (flatten kept)) (flatten l)) e ∙ take-flatten kept rest in
    (
      kept,
      rest,
      e,
      omega (arith, room, cut, cut_length-le (flatten chars) available),
      next,
      rw (lt→leb _ _ long, lt→leb _ _ room, cut)
          (ap (λ s. s ++ extension (flatten chars))
            (if_is_empty (flatten kept) (flatten chars) ∙ rw prefix refl)),
    )
