-- ===== src/Text/Laws.antt =====
-- What the searches find, and what the prefix and suffix tests decide.
use torrent_builder.Common.{
  ℕ, zero, suc, ◌-◌, ◌≤◌, ◌≡◌, ◌≢◌, ◌↔◌, refl, sym, ap, ◌∙◌, Bytes, List, [], ◌∷◌, ◌++◌,
  append_assoc, append-nil, Bool, true, false, ltb, if◌then◌else◌, none, some, length, take, drop,
  bytes_eq, bytes_eq_sound, bytes_eq_refl, Lacks, All, arith, length-append, take-append-drop,
  length-drop, take-length-append, drop-length-append, take_all, le→ltb, codes,
}
use torrent_builder.Text.{
  find_byte, rfind_byte, find_text, substr, starts_with, ends_with, join_loop, join, push_token,
  split_loop, split,
}

pub find_byte-append :
    (c : ℕ) (p s : Bytes) → Lacks c p → find_byte c (p ++ c ∷ s) ≡ some (length p)
unfolding find_byte
find_byte-append c [] s h = ground arith
find_byte-append c (d ∷ p) s h = ground (arith, find_byte-append c p s h.1)

pub find_byte-Lacks : (c : ℕ) (s : Bytes) → Lacks c s → find_byte c s ≡ none
unfolding find_byte
find_byte-Lacks c [] h = refl
find_byte-Lacks c (d ∷ s) h = ground (arith, find_byte-Lacks c s h.1)

pub rfind_byte-Lacks : (c : ℕ) (s : Bytes) → Lacks c s → rfind_byte c s ≡ none
unfolding rfind_byte
rfind_byte-Lacks c [] h = refl
rfind_byte-Lacks c (d ∷ s) h = ground (arith, rfind_byte-Lacks c s h.1)

pub rfind_byte-append :
    (c : ℕ) (p s : Bytes) → Lacks c s → rfind_byte c (p ++ c ∷ s) ≡ some (length p)
unfolding rfind_byte
rfind_byte-append c [] s h = ground (arith, rfind_byte-Lacks c s h)
rfind_byte-append c (d ∷ p) s h = rw (rfind_byte-append c p s h)

-- The first `://` stands behind a scheme that has no colon.
pub find_text-append :
    (p s : Bytes)
    → Lacks b':' p
    → find_text (codes "://") (p ++ (codes "://" ++ s)) ≡ some (length p)
unfolding find_text
find_text-append [] s h = refl
find_text-append (d ∷ p) s h = ground (arith, find_text-append p s h.1)

-- A test by length and comparison fails where the length test does.
guarded_eq : (short : Bool) (s t : Bytes) → (if short then false else bytes_eq s t) ≡ true → s ≡ t
guarded_eq true s t h = cc
guarded_eq false s t h = bytes_eq_sound s t h

-- `starts_with` holds exactly when the text is the prefix and something more.
pub starts_with_iff :
    (str prefix : Bytes)
    → (starts_with str prefix ≡ true) ↔ ((rest : Bytes) × (str ≡ prefix ++ rest))
unfolding starts_with
starts_with_iff str prefix = (sound, λ (rest, e). rw e (complete rest))
  where
    sound : starts_with str prefix ≡ true → (rest : Bytes) × (str ≡ prefix ++ rest)
    sound h = (
      drop (length prefix) str,
      sym (take-append-drop (length prefix) str)
          ∙ ap (λ t. t ++ drop (length prefix) str)
              (guarded_eq (ltb (length str) (length prefix)) (take (length prefix) str) prefix h),
    )

    complete : (rest : Bytes) → starts_with (prefix ++ rest) prefix ≡ true
    complete rest =
        rw
          (
            le→ltb (length (prefix ++ rest)) (length prefix)
                (omega (arith, length-append prefix rest)),
            take-length-append prefix rest,
          )
          (bytes_eq_refl prefix)

take_enough {ℓ} : {A : Type ℓ} (n : ℕ) (xs : List A) → length xs ≤ n → take n xs ≡ xs
take_enough zero [] h = refl
take_enough zero (x ∷ xs) h = absurd (omega arith)
take_enough (suc n) [] h = refl
take_enough (suc n) (x ∷ xs) h = rw (take_enough n xs (omega arith))

-- The last bytes of `str`, as many as `suffix` has.
last_bytes :
    (front suffix : Bytes)
    → substr (front ++ suffix) (length (front ++ suffix) - length suffix) (length suffix) ≡ suffix
last_bytes front suffix =
    let e : length (front ++ suffix) - length suffix ≡ length front =
      omega (arith, length-append front suffix) in
    rw (e, drop-length-append front suffix) (take_all suffix)

-- `ends_with` holds exactly when the text is something and then the suffix.
pub ends_with_iff :
    (str suffix : Bytes)
    → (ends_with str suffix ≡ true) ↔ ((front : Bytes) × (str ≡ front ++ suffix))
unfolding ends_with
ends_with_iff str suffix = (sound, λ (front, e). rw e (complete front))
  where
    k : ℕ
    k = length str - length suffix

    sound : ends_with str suffix ≡ true → (front : Bytes) × (str ≡ front ++ suffix)
    sound h = (
      take k str,
      sym (take-append-drop k str)
          ∙ ap (λ t. take k str ++ t)
              (sym (
                  take_enough (length suffix) (drop k str)
                    (omega (arith, length-drop (length str - length suffix) str)))
                ∙ guarded_eq (ltb (length str) (length suffix)) (take (length suffix) (drop k str))
                    suffix h),
    )

    complete : (front : Bytes) → ends_with (front ++ suffix) suffix ≡ true
    complete front =
        rw
          (
            le→ltb (length (front ++ suffix)) (length suffix)
                (omega (arith, length-append front suffix)),
            last_bytes front suffix,
          )
          (bytes_eq_refl suffix)

-- What `split` appends for the tokens of `join`.
abbrev pub IsToken : ℕ → Bytes → Type 0
IsToken delimiter token = (token ≢ []) × Lacks delimiter token

split_loop-append :
    (delimiter : ℕ) (p rest : Bytes) (tokens : List Bytes) (token : Bytes)
    → Lacks delimiter p
    → split_loop delimiter (p ++ rest) tokens token ≡ split_loop delimiter rest tokens (token ++ p)
unfolding split_loop
split_loop-append delimiter [] rest tokens token h = rw append-nil
split_loop-append delimiter (c ∷ p) rest tokens token h = ground (
  arith,
  split_loop-append delimiter p rest tokens (token ++ c ∷ []) h.1,
  append_assoc token (c ∷ []) p,
)

split_loop_at :
    (delimiter : ℕ) (s : Bytes) (tokens : List Bytes) (token : Bytes)
    → split_loop delimiter (delimiter ∷ s) tokens token
      ≡ split_loop delimiter s (push_token tokens token) []
unfolding split_loop
split_loop_at delimiter s tokens token = ground arith

push_token_lem :
    (tokens : List Bytes) (token : Bytes)
    → token ≢ []
    → push_token tokens token ≡ tokens ++ token ∷ []
unfolding push_token
push_token_lem tokens [] h = absurd (h refl)
push_token_lem tokens (c ∷ s) h = refl

join_loop-append :
    (delimiter : Bytes) (ps : List Bytes) (front out : Bytes)
    → join_loop delimiter ps (front ++ out) ≡ front ++ join_loop delimiter ps out
unfolding join_loop
join_loop-append delimiter [] front out = refl
join_loop-append delimiter (p ∷ ps) front out =
    rw append_assoc (join_loop-append delimiter ps front (out ++ (delimiter ++ p)))

join_loop_step :
    (delimiter : ℕ) (q : Bytes) (ps : List Bytes) (p : Bytes)
    → join_loop (delimiter ∷ []) (q ∷ ps) p ≡ p ++ delimiter ∷ join_loop (delimiter ∷ []) ps q
join_loop_step delimiter q ps p =
    unfold join_loop in
    (join_loop-append (delimiter ∷ []) ps p (delimiter ∷ q)
      ∙ ap (λ t. p ++ t) (join_loop-append (delimiter ∷ []) ps (delimiter ∷ []) q))

split_loop-nil :
    (delimiter : ℕ) (tokens : List Bytes) (token : Bytes)
    → split_loop delimiter [] tokens token ≡ push_token tokens token
unfolding split_loop
split_loop-nil delimiter tokens token = refl

split_loop_end :
    (delimiter : ℕ) (p : Bytes) (tokens : List Bytes)
    → Lacks delimiter p
    → split_loop delimiter p tokens [] ≡ push_token tokens p
split_loop_end delimiter p tokens h =
    let whole : split_loop delimiter (p ++ []) tokens [] ≡ push_token tokens p =
      split_loop-append delimiter p [] tokens [] h ∙ split_loop-nil delimiter tokens p in
    rw append-nil at whole

split_loop-join_loop :
    (delimiter : ℕ) (ps : List Bytes) (p : Bytes) (tokens : List Bytes)
    → IsToken delimiter p
    → All (IsToken delimiter) ps
    → split_loop delimiter (join_loop (delimiter ∷ []) ps p) tokens [] ≡ tokens ++ p ∷ ps
split_loop-join_loop delimiter [] p tokens h hs =
    unfold join_loop in (split_loop_end delimiter p tokens h.1 ∙ push_token_lem tokens p h.0)
split_loop-join_loop delimiter (q ∷ ps) p tokens h hs =
    rw
      (
        join_loop_step,
        split_loop-append delimiter p _ tokens [] h.1,
        split_loop_at,
        push_token_lem tokens p h.0,
        split_loop-join_loop delimiter ps q (tokens ++ p ∷ []) hs.0 hs.1,
      )
      (append_assoc tokens (p ∷ []) (q ∷ ps))

-- Splitting a join gives the tokens back, if each of them is non-empty and holds no delimiter.
pub split-join :
    (tokens : List Bytes) (delimiter : ℕ)
    → All (IsToken delimiter) tokens
    → split (join tokens (delimiter ∷ [])) delimiter ≡ tokens
unfolding split join
split-join [] delimiter h = unfold split_loop push_token in refl
split-join (p ∷ ps) delimiter h = split_loop-join_loop delimiter ps p [] h.0 h.1

pub join_three :
    (delimiter : ℕ) (p q r : Bytes)
    → join (p ∷ q ∷ r ∷ []) (delimiter ∷ []) ≡ p ++ delimiter ∷ (q ++ delimiter ∷ r)
unfolding join
join_three delimiter p q r =
    join_loop_step delimiter q (r ∷ []) p
    ∙ ap (λ t. p ++ delimiter ∷ t)
        (join_loop_step delimiter r [] q ∙ ap (λ t. q ++ delimiter ∷ t) (unfold join_loop in refl))
