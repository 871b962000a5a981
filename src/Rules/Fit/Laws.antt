-- ===== src/Rules/Fit/Laws.antt =====
-- What the search for a fitting piece size finds, and when it gives up.
use torrent_builder.Common.{
  ℕ, ◌*◌, ◌≤◌, ◌<◌, ◌≡◌, refl, ◌⊎◌, inl, inr, List, [], ◌∷◌, All, true, false, drop, Option, none,
  some, leb, arith, Bool-cases, IsAscending, zero, suc,
}
use torrent_builder.PieceSize.{allowed_piece_sizes, contains}
use torrent_builder.Rules.{TrackerRule}
use torrent_builder.Rules.Fit.{Fitting, estimated_size, exceeds, fit_loop, fit_start, fitted}

module _ (total max_size : ℕ) (max_piece : Option ℕ) where
  -- The size is within both limits.
  abbrev pub Fits : ℕ → Type 0
  Fits kb = (exceeds max_piece (kb * 1024) ≡ false) × (estimated_size total kb ≤ max_size)

  -- The search keeps its start, or stops at a listed size that fits.
  pub fit_loop_sound :
      (kbs : List ℕ) (f : Fitting)
      → (fit_loop total max_size max_piece kbs f ≡ f)
        ⊎ ((kb : ℕ) × (contains kbs kb ≡ true)
            × Fits kb
            × (fit_loop total max_size max_piece kbs f
                ≡ record { kb = kb; torrent_size = estimated_size total kb }))
  unfolding fit_loop
  fit_loop_sound [] f = inl refl
  fit_loop_sound (kb ∷ kbs) f = elim (Bool-cases (exceeds max_piece (kb * 1024))) [
    | inl e ↦ rw e (inl refl)
    | inr e ↦ elim (Bool-cases (leb (estimated_size total kb) max_size)) [
      | inl l ↦ rw (e, l) (inr (kb, ground arith, (e, ground arith), refl))
      | inr l ↦
          rw (e, l)
            (elim (fit_loop_sound kbs f) [
              | inl h ↦ inl h
              | inr (k, m, fits, h) ↦ inr (k, ground arith, fits, h)
            ])
    ]
  ]

  abbrev pub FitsNot : ℕ → Type 0
  FitsNot kb = (exceeds max_piece (kb * 1024) ≡ true) ⊎ (max_size < estimated_size total kb)

  exceeds_mono :
      (o : Option ℕ) (a b : ℕ) → a ≤ b → exceeds o (a * 1024) ≡ true → exceeds o (b * 1024) ≡ true
  unfolding exceeds
  exceeds_mono none a b h e = e
  exceeds_mono (some m) a b h e = ground arith

  exceeds-All :
      (kb : ℕ) (kbs : List ℕ)
      → exceeds max_piece (kb * 1024) ≡ true
      → All (λ k. kb ≤ k) kbs
      → All FitsNot kbs
  exceeds-All kb [] e h = tt
  exceeds-All kb (k ∷ kbs) e (h, hs) =
      (inl (exceeds_mono max_piece kb k h e), exceeds-All kb kbs e hs)

  -- If the search ends above the limit, no size of the list fits.
  pub fit_loop_complete :
      (kbs : List ℕ) (f : Fitting)
      → IsAscending kbs
      → max_size < (fit_loop total max_size max_piece kbs f).torrent_size
      → All FitsNot kbs
  unfolding fit_loop
  fit_loop_complete [] f asc h = tt
  fit_loop_complete (kb ∷ kbs) f asc h = elim (Bool-cases (exceeds max_piece (kb * 1024))) [
    | inl e ↦ (inl e, exceeds-All kb kbs e asc.0)
    | inr e ↦ elim (Bool-cases (leb (estimated_size total kb) max_size)) [
      | inl l ↦ absurd (ground (arith))
      | inr l ↦ (inr (ground arith), fit_loop_complete kbs f asc.1 (rw (e, l) at h))
    ]
  ]

contains-drop : (n : ℕ) (xs : List ℕ) (x : ℕ) → contains (drop n xs) x ≡ true → contains xs x ≡ true
contains-drop zero xs x h = h
contains-drop (suc n) [] x h = h
contains-drop (suc n) (y ∷ xs) x h = ground (arith, contains-drop n xs x h)

-- What the search ends at, from an allowed size `kb`.
pub record IsFitted (rule : TrackerRule) (total kb : ℕ) (f : Fitting) : Type 0 where
  pub allowed : contains allowed_piece_sizes f.kb ≡ true
  pub estimated : f.torrent_size ≡ estimated_size total f.kb
  pub capped :
      exceeds rule.max_piece_length (kb * 1024) ≡ false
      → exceeds rule.max_piece_length (f.kb * 1024) ≡ false

pub fitted-IsFitted :
    (rule : TrackerRule) (total max_size kb : ℕ)
    → contains allowed_piece_sizes kb ≡ true
    → IsFitted rule total kb (fitted rule total max_size kb)
unfolding fitted
fitted-IsFitted rule total max_size kb m =
    elim (fit_loop_sound total max_size rule.max_piece_length
      (drop (fit_start kb) allowed_piece_sizes)
      (record { kb = kb; torrent_size = estimated_size total kb })) [
        | inl e ↦ rw e (record { allowed = m; estimated = refl; capped = λ h. h })
        | inr (k, mem, fits, e) ↦ rw e (record {
          allowed = contains-drop (fit_start kb) allowed_piece_sizes k mem;
          estimated = refl;
          capped = λ _. fits.0;
        })
      ]
