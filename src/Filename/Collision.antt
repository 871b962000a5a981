-- ===== src/Filename/Collision.antt =====
-- What `resolve_collision` promises.
use torrent_builder.Common.{
  ℕ, zero, suc, ◌+◌, ◌-◌, ◌≤◌, ◌<◌, ◌≡◌, refl, sym, ◌∙◌, subst, ◌⊎◌, inl, inr, Bytes, ◌++◌, Bool,
  true, false, ◌&&◌, Bool-cases, none, some, Option-cases, ltb, ◌==◌, Result, ok, err, arith,
  length, take, length-append, length-take,
}
use mathlib.Core.Option.{some-injective}
use torrent_builder.Filename.{
  extension, strip_continuations, strip_lead, candidate_with, candidate, collision_loop,
  resolve_collision, collision_message,
}

strip_continuations-le : (s : Bytes) (n : ℕ) → strip_continuations s n ≤ n
unfolding strip_continuations
strip_continuations-le s zero = omega arith
strip_continuations-le s (suc n) = ground (arith, strip_continuations-le s n)

strip_lead-le : (s : Bytes) (n : ℕ) → strip_lead s n ≤ n
unfolding strip_lead
strip_lead-le s zero = omega arith
strip_lead-le s (suc n) = ground arith

length-candidate :
    (stem suffix ext : Bytes)
    → length (stem ++ (suffix ++ ext)) ≡ length stem + (length suffix + length ext)
length-candidate stem suffix ext =
    omega (arith, length-append stem (suffix ++ ext), length-append suffix ext)

strip-le : (s : Bytes) (n : ℕ) → length (take (strip_lead s (strip_continuations s n)) s) ≤ n
strip-le s n = omega (
  arith,
  length-take (strip_lead s (strip_continuations s n)) s,
  strip_lead-le s (strip_continuations s n),
  strip_continuations-le s n,
)

-- A candidate stays within the limit, if there is one.
candidate_with-le :
    (stem suffix ext name : Bytes) (max_bytes : ℕ)
    → 0 < max_bytes
    → candidate_with stem suffix ext max_bytes ≡ some name
    → length name ≤ max_bytes
unfolding candidate_with
candidate_with-le stem suffix ext name max_bytes p h =
    let max_stem = max_bytes - (length suffix + length ext) in
    let kept : Bytes = take (strip_lead stem (strip_continuations stem max_stem)) stem in
    elim (Bool-cases
      (ltb 0 max_bytes && ltb max_bytes (length stem + length suffix + length ext))) [
        | inl long ↦ elim (Bool-cases (max_stem == 0)) [
          | inl z ↦ absurd (cc (rw (long, z) at h))
          | inr z ↦
              let e : kept ++ (suffix ++ ext) ≡ name = some-injective _ _ (rw (long, z) at h) in
              subst (λ t. length t ≤ max_bytes) e
                (room kept max_stem (strip-le stem max_stem) z refl)
        ]
        | inr short ↦
            let e : stem ++ (suffix ++ ext) ≡ name = some-injective _ _ (rw short at h) in
            subst (λ t. length t ≤ max_bytes) e (fits short)
      ]
  where
    room :
        (k : Bytes) (n : ℕ)
        → length k ≤ n
        → (n == 0) ≡ false
        → n ≡ max_bytes - (length suffix + length ext)
        → length (k ++ (suffix ++ ext)) ≤ max_bytes
    room k n le z e = ground (arith, length-candidate k suffix ext)

    fits :
        (ltb 0 max_bytes && ltb max_bytes (length stem + length suffix + length ext)) ≡ false
        → length (stem ++ (suffix ++ ext)) ≤ max_bytes
    fits q = ground (arith, length-candidate stem suffix ext)

abbrev pub stem_of : Bytes → Bytes
stem_of base = take (length base - length (extension base)) base

module _ (exists : Bytes → Bool) (stem ext : Bytes) (max_bytes : ℕ) where
  -- The candidate with the number `i` cannot be used: there is no room for it, or a file has its name.
  abbrev pub IsTaken : ℕ → Type 0
  IsTaken i =
      (candidate stem ext max_bytes i ≡ none)
      ⊎ ((name : Bytes) × (candidate stem ext max_bytes i ≡ some name) × (exists name ≡ true))

  -- The first free candidate from the number `i` on, within so many rounds.
  abbrev pub IsFirstFree : ℕ → ℕ → Bytes → Type 0
  IsFirstFree rounds i name =
      (k : ℕ) × (k < rounds)
      × (candidate stem ext max_bytes (i + k) ≡ some name)
      × (exists name ≡ false)
      × ((j : ℕ) → j < k → IsTaken (i + j))

  abbrev AllTaken : ℕ → ℕ → Type 0
  AllTaken rounds i = (k : ℕ) → k < rounds → IsTaken (i + k)

  abbrev Ends : ℕ → ℕ → Type 0
  Ends rounds i =
      ((collision_loop exists stem ext max_bytes rounds i ≡ none) × AllTaken rounds i)
      ⊎ ((name : Bytes) × (collision_loop exists stem ext max_bytes rounds i ≡ some name)
          × IsFirstFree rounds i name)

  IsTaken-later :
      (i k : ℕ)
      → IsTaken i
      → ((j : ℕ) → j < k → IsTaken (i + 1 + j))
      → (j : ℕ) → j < suc k
      → IsTaken (i + j)
  IsTaken-later i k now later zero lt = let e : i ≡ i + 0 = omega arith in subst IsTaken e now
  IsTaken-later i k now later (suc j) lt =
      let e : i + 1 + j ≡ i + suc j = omega arith in subst IsTaken e (later j (omega arith))

  loop_further :
      (rounds i : ℕ)
      → collision_loop exists stem ext max_bytes (suc rounds) i
        ≡ collision_loop exists stem ext max_bytes rounds (i + 1)
      → IsTaken i
      → Ends rounds (i + 1)
      → Ends (suc rounds) i
  loop_further rounds i step now (inl (e, taken)) = inl (step ∙ e, IsTaken-later i rounds now taken)
  loop_further rounds i step now (inr (name, e, (k, lt, is_name, free, taken))) =
      let at : i + 1 + k ≡ i + suc k = omega arith in
      inr (
        name,
        step ∙ e,
        (
          suc k,
          omega arith,
          subst (λ j. candidate stem ext max_bytes j ≡ some name) at is_name,
          free,
          IsTaken-later i k now taken,
        ),
      )

  collision_loop-Ends : (rounds i : ℕ) → Ends rounds i
  unfolding collision_loop
  collision_loop-Ends zero i = inl (refl, λ k lt. absurd (omega arith))
  collision_loop-Ends (suc rounds) i = elim (Option-cases (candidate stem ext max_bytes i)) [
    | inl e ↦
        loop_further rounds i (rw (e, collision_loop)) (inl e) (collision_loop-Ends rounds (i + 1))
    | inr (name, e) ↦ elim (Bool-cases (exists name)) [
      | inl t ↦
          loop_further rounds i (rw (e, collision_loop, t)) (inr (name, e, t))
            (collision_loop-Ends rounds (i + 1))
      | inr free ↦
          let at : i ≡ i + 0 = omega arith in
          inr (
            name,
            rw (e, collision_loop, free),
            (
              0,
              omega arith,
              subst (λ j. candidate stem ext max_bytes j ≡ some name) at e,
              free,
              λ j lt. absurd (omega arith),
            ),
          )
    ]
  ]

module _ (exists : Bytes → Bool) (directory base : Bytes) (max_bytes : ℕ) where
  -- The branches of `resolve_collision`: the name itself is free; or it is taken, and the result is
  -- the first free candidate of the numbers 1 to 1000; or all of these are taken, and it fails.
  pub resolve_collision_lem :
      ((exists base ≡ false) × (resolve_collision exists directory base max_bytes ≡ ok base))
      ⊎ ((exists base ≡ true)
          × (name : Bytes) × (resolve_collision exists directory base max_bytes ≡ ok name)
          × IsFirstFree exists (stem_of base) (extension base) max_bytes 1000 1 name)
      ⊎ ((exists base ≡ true)
          × (resolve_collision exists directory base max_bytes
              ≡ err (collision_message directory base))
          × ((k : ℕ) → k < 1000 → IsTaken exists (stem_of base) (extension base) max_bytes (1 + k)))
  unfolding resolve_collision
  resolve_collision_lem = elim (Bool-cases (exists base)) [
    | inr free ↦ inl (free, rw free)
    | inl t ↦ elim (collision_loop-Ends exists (stem_of base) (extension base) max_bytes 1000 1) [
      | inl (e, taken) ↦ inr (inr (t, rw (t, e), taken))
      | inr (name, e, first) ↦ inr (inl (t, name, rw (t, e), first))
    ]
  ]

candidate-le :
    (stem ext name : Bytes) (max_bytes i : ℕ)
    → 0 < max_bytes
    → candidate stem ext max_bytes i ≡ some name
    → length name ≤ max_bytes
unfolding candidate
candidate-le stem ext name max_bytes i p h = candidate_with-le stem _ ext name max_bytes p h

ok_injective : (a b : Bytes) → ◌≡◌ {A = Result Bytes Bytes} (ok a) (ok b) → a ≡ b
ok_injective a b h = cc

-- A resolved name is free in the directory, and within the limit where there is one that the original
-- name keeps.
pub resolve_collision_free :
    (exists : Bytes → Bool) (directory base : Bytes) (max_bytes : ℕ) (name : Bytes)
    → resolve_collision exists directory base max_bytes ≡ ok name
    → (exists name ≡ false) × (0 < max_bytes → length base ≤ max_bytes → length name ≤ max_bytes)
resolve_collision_free exists directory base max_bytes name h =
    elim (resolve_collision_lem exists directory base max_bytes) [
      | inl (free, e) ↦
          let same : base ≡ name = ok_injective base name (sym e ∙ h) in
          (
            subst (λ n. exists n ≡ false) same free,
            λ p fits. subst (λ n. length n ≤ max_bytes) same fits,
          )
      | inr (inl (t, found, e, (k, lt, is_name, free, taken))) ↦
          let same : found ≡ name = ok_injective found name (sym e ∙ h) in
          (
            subst (λ n. exists n ≡ false) same free,
            λ p fits.
                subst (λ n. length n ≤ max_bytes) same
                  (candidate-le (stem_of base) (extension base) found max_bytes (1 + k) p is_name),
          )
      | inr (inr (t, e, taken)) ↦ absurd (cc (sym e ∙ h))
    ]
