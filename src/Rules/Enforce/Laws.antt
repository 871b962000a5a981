-- ===== src/Rules/Enforce/Laws.antt =====
-- Every stage of `enforce` keeps its bookkeeping, and the result is within the rule's limits.
use torrent_builder.Common.{
  Bytes, Option-cases, ℕ, zero, suc, ◌/◌, ◌<◌, ◌≡◌, refl, inl, inr, List, [], ◌∷◌, true, false,
  ◌&&◌, Option, none, ltb, ◌==◌, arith, Bool-cases, has_value, ltb→lt, length, get_or,
}
use torrent_builder.PieceSize.{allowed_piece_sizes, contains}
use torrent_builder.Rules.{
  PieceLengthOverride, TrackerRule, Enforcing, snap_to_allowed, note_adjustment, apply_overrides,
  capped_kb, cap_piece_length, lower_bound, allowed_end, note_violation,
}
use torrent_builder.Rules.Cap.{capped_kb-largest}
use torrent_builder.Rules.Fit.{estimated_size, fitted, note_fitted, limit_torrent_size}
use torrent_builder.Rules.Fit.Laws.{fitted-IsFitted}
use torrent_builder.Rules.Enforce.{cap_stage, limit_stage}

-- The bookkeeping of `enforce`, from a start at the size `start`.
pub record IsSound (start : ℕ) (e : Enforcing) : Type 0 where
  pub allowed : contains allowed_piece_sizes e.effective_kb ≡ true
  pub unpublished : e.result.adjusted_piece_length ≡ none
  pub original : has_value e.result.original_piece_length ≡ e.result.adjusted
  pub unchanged : e.result.adjusted ≡ false → e.effective_kb ≡ start

contains-get_or : (xs : List ℕ) (i d : ℕ) → i < length xs → contains xs (get_or xs i d) ≡ true
contains-get_or [] i d h = absurd (omega arith)
contains-get_or (x ∷ xs) zero d h = ground arith
contains-get_or (x ∷ xs) (suc i) d h = ground (arith, contains-get_or xs i d)

pub snap_to_allowed-contains : (kb : ℕ) → contains allowed_piece_sizes (snap_to_allowed kb) ≡ true
unfolding snap_to_allowed
snap_to_allowed-contains kb = elim (Bool-cases (contains allowed_piece_sizes kb)) [
  | inl m ↦ rw m m
  | inr m ↦ elim (Bool-cases (ltb (lower_bound allowed_piece_sizes kb) allowed_end)) [
    | inl l ↦
        rw (m, l)
          (contains-get_or allowed_piece_sizes (lower_bound allowed_piece_sizes kb) 0
            (ltb→lt _ _ l))
    | inr l ↦ rw (m, l) refl
  ]
]

module _ (start : ℕ) (current : Option ℕ) (rule : TrackerRule) where
  note_adjustment-IsSound :
      (e : Enforcing) (kb : ℕ)
      → contains allowed_piece_sizes kb ≡ true
      → IsSound start e
      → IsSound start (note_adjustment current e kb)
  unfolding note_adjustment
  note_adjustment-IsSound e kb m s = record {
    allowed = m;
    unpublished = s.unpublished;
    original = refl;
    unchanged = λ h. cc;
  }

  pub apply_overrides-IsSound :
      (total : ℕ) (ovs : List PieceLengthOverride) (e : Enforcing)
      → IsSound start e
      → IsSound start (apply_overrides current total ovs e)
  unfolding apply_overrides
  apply_overrides-IsSound total [] e s = s
  apply_overrides-IsSound total (ov ∷ ovs) e s = elim (Bool-cases (ltb total ov.size_below)) [
    | inl h ↦ elim (Bool-cases (contains allowed_piece_sizes ov.piece_length_kb)) [
      | inl m ↦ elim (Bool-cases (e.effective_kb == ov.piece_length_kb)) [
        | inl q ↦ rw (h, m, q) s
        | inr q ↦ rw (h, m, q) (note_adjustment-IsSound e ov.piece_length_kb m s)
      ]
      | inr m ↦ rw (h, m) s
    ]
    | inr h ↦ rw h (apply_overrides-IsSound total ovs e s)
  ]

  note_violation-IsSound :
      (message : Bytes) (e : Enforcing) → IsSound start e → IsSound start (note_violation message e)
  unfolding note_violation
  note_violation-IsSound message e s = record {
    allowed = s.allowed;
    unpublished = s.unpublished;
    original = s.original;
    unchanged = s.unchanged;
  }

  cap_piece_length-IsSound :
      (m : ℕ) (e : Enforcing) → IsSound start e → IsSound start (cap_piece_length current rule m e)
  unfolding cap_piece_length
  cap_piece_length-IsSound m e s =
      let capped : IsSound start (note_adjustment current e (capped_kb (m / 1024))) =
        note_adjustment-IsSound e (capped_kb (m / 1024)) ((capped_kb-largest (m / 1024)).0) s in
      elim (Bool-cases (ltb (m / 1024) e.effective_kb)) [
        | inl h ↦ elim (Bool-cases (ltb (m / 1024) (capped_kb (m / 1024)))) [
          | inl v ↦ rw (h, v) (note_violation-IsSound _ _ capped)
          | inr v ↦ rw (h, v) capped
        ]
        | inr h ↦ rw h s
      ]

  pub cap_stage-IsSound :
      (e : Enforcing) → IsSound start e → IsSound start (cap_stage current rule e)
  unfolding cap_stage
  cap_stage-IsSound e s = elim (Option-cases rule.max_piece_length) [
    | inl h ↦ rw (h, cap_stage) s
    | inr (m, h) ↦ rw (h, cap_stage) (cap_piece_length-IsSound m e s)
  ]

  note_fitted-IsSound :
      (kb : ℕ) (e : Enforcing)
      → contains allowed_piece_sizes kb ≡ true
      → IsSound start e
      → IsSound start (note_fitted current kb e)
  unfolding note_fitted
  note_fitted-IsSound kb e m s = elim (Bool-cases (kb == e.effective_kb)) [
    | inl q ↦ rw q (record {
      allowed = m;
      unpublished = s.unpublished;
      original = s.original;
      unchanged = λ h. ground (arith, s.unchanged h);
    })
    | inr q ↦ rw q (record {
      allowed = m;
      unpublished = s.unpublished;
      original = ground arith;
      unchanged = λ h. cc;
    })
  ]

  limit_torrent_size-IsSound :
      (total max_size : ℕ) (e : Enforcing)
      → IsSound start e
      → IsSound start (limit_torrent_size current rule total max_size e)
  unfolding limit_torrent_size
  limit_torrent_size-IsSound total max_size e s =
      let f : ℕ = (fitted rule total max_size e.effective_kb).kb in
      let noted : IsSound start (note_fitted current f e) =
        note_fitted-IsSound f e
          ((fitted-IsFitted rule total max_size e.effective_kb s.allowed).allowed) s in
      elim (Bool-cases
        (ltb max_size (estimated_size total e.effective_kb) && ltb 0 e.effective_kb)) [
          | inl h ↦
              elim (Bool-cases
                (ltb max_size (fitted rule total max_size e.effective_kb).torrent_size)) [
                  | inl v ↦ rw (h, v) (note_violation-IsSound _ _ noted)
                  | inr v ↦ rw (h, v) noted
                ]
          | inr h ↦ rw h s
        ]

  pub limit_stage-IsSound :
      (total : ℕ) (e : Enforcing)
      → IsSound start e
      → IsSound start (limit_stage current rule total e)
  unfolding limit_stage
  limit_stage-IsSound total e s = elim (Option-cases rule.max_torrent_size) [
    | inl h ↦ rw (h, limit_stage) s
    | inr (m, h) ↦ elim (Bool-cases (ltb 0 total)) [
      | inl p ↦ rw (h, limit_stage, p) (limit_torrent_size-IsSound total m e s)
      | inr p ↦ rw (h, limit_stage, p) s
    ]
  ]
