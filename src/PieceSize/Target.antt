-- ===== src/PieceSize/Target.antt =====
-- `piece_size_for_target_count` returns the allowed size whose piece count is nearest to the target.
use torrent_builder.Common.{
  ℕ, ◌+◌, ◌*◌, ◌^◌, ◌≤◌, ◌<◌, ◌≡◌, refl, sym, subst, ◌⊎◌, inl, inr, true, false, List, [], ◌∷◌, All,
  arith, ok, ltb, Bool-cases, ltb→lt, ltb→le, lt→ltb, ap, IsAscending,
}
use torrent_builder.PieceSize.{
  allowed_piece_sizes, contains, count_gap, int64_max, Best, improve, search_sizes,
  piece_size_for_target_count,
}

module _ (total target : ℕ) where
  -- The loop keeps its start or moves to one of the sizes, with that size's gap.
  abbrev Chosen : Best → List ℕ → Best → Type 0
  Chosen start [] b = b ≡ start
  Chosen start (kb ∷ kbs) b =
      (b ≡ record { piece_bytes = kb * 1024; diff = count_gap total target kb })
      ⊎ Chosen start kbs b

  -- No size is nearer, and a size that is as near is not larger.
  abbrev Beats : Best → ℕ → Type 0
  Beats b kb =
      (b.diff ≤ count_gap total target kb)
      × (count_gap total target kb ≡ b.diff → kb * 1024 ≤ b.piece_bytes)

  Chosen-floor :
      (start : Best) (kbs : List ℕ) (b : Best) (x : ℕ)
      → Chosen start kbs b
      → All (λ kb. x ≤ kb) kbs
      → (b ≡ start) ⊎ (x * 1024 ≤ b.piece_bytes)
  Chosen-floor start [] b x c h = inl c
  Chosen-floor start (kb ∷ kbs) b x (inl e) h = inr (ground arith)
  Chosen-floor start (kb ∷ kbs) b x (inr c) h = Chosen-floor start kbs b x c h.1

  improve-Chosen :
      (start : Best) (kb : ℕ) (kbs : List ℕ) (b : Best)
      → Chosen start kbs b
      → Chosen start (kb ∷ kbs) (improve total target kb b)
  unfolding improve
  improve-Chosen start kb kbs b c = elim (Bool-cases (ltb (count_gap total target kb) b.diff)) [
    | inl e ↦ rw e (inl refl)
    | inr e ↦ rw e (inr c)
  ]

  search_sizes-Chosen :
      (start : Best) (kbs : List ℕ) → Chosen start kbs (search_sizes total target kbs start)
  unfolding search_sizes
  search_sizes-Chosen start [] = refl
  search_sizes-Chosen start (kb ∷ kbs) =
      improve-Chosen start kb kbs (search_sizes total target kbs start)
        (search_sizes-Chosen start kbs)

  -- Every listed size is nearer to the target than the initial difference.
  abbrev IsBelow : Best → List ℕ → Type 0
  IsBelow start = All (λ kb. count_gap total target kb < start.diff)

  Beats-lower :
      (b c : Best) (kbs : List ℕ) → c.diff < b.diff → All (Beats b) kbs → All (Beats c) kbs
  Beats-lower b c [] h p = tt
  Beats-lower b c (kb ∷ kbs) h (p, ps) =
      ((omega arith, λ e. absurd (omega arith)), Beats-lower b c kbs h ps)

  abbrev moved : ℕ → Best
  moved kb = record { piece_bytes = kb * 1024; diff = count_gap total target kb }

  improve_nearer :
      (kb : ℕ) (b : Best)
      → ltb (count_gap total target kb) b.diff ≡ true
      → improve total target kb b ≡ moved kb
  unfolding improve
  improve_nearer kb b e = rw e

  improve_not_nearer :
      (kb : ℕ) (b : Best)
      → ltb (count_gap total target kb) b.diff ≡ false
      → improve total target kb b ≡ b
  unfolding improve
  improve_not_nearer kb b e = rw e

  improve-Beats :
      (start : Best) (kb : ℕ) (kbs : List ℕ) (b : Best)
      → count_gap total target kb < start.diff
      → (b ≡ start) ⊎ (kb * 1024 ≤ b.piece_bytes)
      → All (Beats b) kbs
      → All (Beats (improve total target kb b)) (kb ∷ kbs)
  improve-Beats start kb kbs b small floor beats =
      elim (Bool-cases (ltb (count_gap total target kb) b.diff)) [
        | inl e ↦
            subst (λ c. All (Beats c) (kb ∷ kbs)) (sym (improve_nearer kb b e))
              ((omega arith, λ _. omega arith), Beats-lower b (moved kb) kbs (ltb→lt _ _ e) beats)
        | inr e ↦
            subst (λ c. All (Beats c) (kb ∷ kbs)) (sym (improve_not_nearer kb b e))
              ((ltb→le _ _ e, λ h. ground (arith, ltb→le _ _ e)), beats)
      ]

module _ (total target : ℕ) where
  search_sizes-Beats :
      (start : Best) (kbs : List ℕ)
      → IsAscending kbs
      → IsBelow total target start kbs
      → All (Beats total target (search_sizes total target kbs start)) kbs
  unfolding search_sizes
  search_sizes-Beats start [] asc low = tt
  search_sizes-Beats start (kb ∷ kbs) asc low =
      improve-Beats total target start kb kbs (search_sizes total target kbs start) low.0
        (Chosen-floor total target start kbs _ kb (search_sizes-Chosen total target start kbs)
          asc.0)
        (search_sizes-Beats start kbs asc.1 low.1)

  Chosen-cases :
      (start : Best) (kbs : List ℕ) (b : Best)
      → Chosen total target start kbs b
      → (b ≡ start)
        ⊎ ((kb : ℕ) × (contains kbs kb ≡ true)
            × (b ≡ record { piece_bytes = kb * 1024; diff = count_gap total target kb }))
  Chosen-cases start [] b c = inl c
  Chosen-cases start (kb ∷ kbs) b (inl e) = inr (kb, ground arith, e)
  Chosen-cases start (kb ∷ kbs) b (inr c) = elim (Chosen-cases start kbs b c) [
    | inl e ↦ inl e
    | inr (k, m, e) ↦ inr (k, ground arith, e)
  ]

-- `kb` is an allowed size, none is nearer to the target, and none that is as near is larger.
abbrev pub IsNearest : ℕ → ℕ → ℕ → Type 0
IsNearest total target kb =
    (contains allowed_piece_sizes kb ≡ true)
    × All
        (λ k.
          (count_gap total target kb ≤ count_gap total target k)
          × (count_gap total target k ≡ count_gap total target kb → k ≤ kb))
        allowed_piece_sizes

Beats→IsNearest :
    (total target kb : ℕ) (kbs : List ℕ)
    → All
        (Beats total target (record { piece_bytes = kb * 1024; diff = count_gap total target kb }))
        kbs
    → All
        (λ k.
          (count_gap total target kb ≤ count_gap total target k)
          × (count_gap total target k ≡ count_gap total target kb → k ≤ kb))
        kbs
Beats→IsNearest total target kb [] h = tt
Beats→IsNearest total target kb (k ∷ kbs) (h, hs) =
    ((h.0, λ e. omega (arith, h.1 e)), Beats→IsNearest total target kb kbs hs)

abbrev start : Best
start = record { piece_bytes = 16 * 1024; diff = int64_max }

-- With a positive size for which the ceiling division stays within `int64_t`, and a positive `int`
-- target, the call returns an allowed size in bytes whose
-- piece count is nearest to the target, the largest of those that are as near.
pub piece_size_for_target_count-IsNearest :
    (total target : ℕ)
    → 0 < total
    → total + 2 ^ 25 ≤ 2 ^ 63
    → 0 < target
    → target < 2 ^ 31
    → (kb : ℕ) × (piece_size_for_target_count total target ≡ ok (kb * 1024))
      × IsNearest total target kb
unfolding piece_size_for_target_count
piece_size_for_target_count-IsNearest total target p fits q small =
    elim (Chosen-cases total target start allowed_piece_sizes found
      (search_sizes-Chosen total target start allowed_piece_sizes)) [
        | inl e ↦ absurd (omega (arith, ap (λ (b : Best). b.diff) e, beats.0.0, low.0))
        | inr (kb, m, e) ↦ (
          kb,
          rw (lt→ltb 0 total p, lt→ltb 0 target q, e),
          (
            m,
            Beats→IsNearest total target kb allowed_piece_sizes
                (subst (λ b. All (Beats total target b) allowed_piece_sizes) e beats),
          ),
        )
      ]
  where
    found : Best
    found = search_sizes total target allowed_piece_sizes start

    low : IsBelow total target start allowed_piece_sizes
    low = omega arith

    beats : All (Beats total target found) allowed_piece_sizes
    beats = search_sizes-Beats total target start allowed_piece_sizes (omega arith) low
