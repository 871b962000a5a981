-- ===== src/Rules/Enforce/Stages.antt =====
-- What the last two stages of `enforce` leave within the limits.
use torrent_builder.Common.{
  ℕ, ◌*◌, ◌≤◌, ◌<◌, ◌≡◌, sym, ◌∙◌, subst, inl, inr, true, false, ◌&&◌, Option, none, some, ltb,
  arith, Bool-cases, Option-cases, ltb→le, le→ltb,
}
use mathlib.Core.Option.{some-injective}
use torrent_builder.PieceSize.{allowed_piece_sizes, contains}
use torrent_builder.Rules.{TrackerRule, Enforcing, cap_piece_length, note_violation}
use torrent_builder.Rules.Fit.{estimated_size, exceeds, fitted, note_fitted, limit_torrent_size}
use torrent_builder.Rules.Fit.Laws.{IsFitted, fitted-IsFitted}
use torrent_builder.Rules.Enforce.{cap_stage, limit_stage}

contains-pos : (kb : ℕ) → contains allowed_piece_sizes kb ≡ true → 16 ≤ kb
contains-pos kb m = ground arith

le_of_guard :
    (estimate max_size kb : ℕ)
    → 16 ≤ kb
    → (ltb max_size estimate && ltb 0 kb) ≡ false
    → estimate ≤ max_size
le_of_guard estimate max_size kb p h = ground arith

module _ (current : Option ℕ) (rule : TrackerRule) where
  cap_piece_length-le :
      (m : ℕ) (e : Enforcing)
      → (cap_piece_length current rule m e).result.constraint_violation ≡ false
      → (cap_piece_length current rule m e).effective_kb * 1024 ≤ m
  unfolding cap_piece_length
  cap_piece_length-le m e h = ground arith

  pub cap_stage-exceeds :
      (e : Enforcing)
      → (cap_stage current rule e).result.constraint_violation ≡ false
      → exceeds rule.max_piece_length ((cap_stage current rule e).effective_kb * 1024) ≡ false
  unfolding cap_stage exceeds
  cap_stage-exceeds e v = elim (Option-cases rule.max_piece_length) [
    | inl h ↦ rw (h, exceeds)
    | inr (m, h) ↦
        rw (h, cap_stage, exceeds) (le→ltb _ _ (cap_piece_length-le m e (rw (h, cap_stage) at v)))
  ]

  pub note_fitted_lem :
      (kb : ℕ) (e : Enforcing)
      → ((note_fitted current kb e).effective_kb ≡ kb)
        × ((note_fitted current kb e).result.constraint_violation ≡ e.result.constraint_violation)
  unfolding note_fitted
  note_fitted_lem kb e = ground arith

  -- The limit stage reports a violation, or keeps the cap and brings the estimate within the limit.
  abbrev pub IsLimited : ℕ → ℕ → Enforcing → Enforcing → Type 0
  IsLimited total max_size e e' =
      e'.result.constraint_violation ≡ false
      → (e.result.constraint_violation ≡ false)
        × (exceeds rule.max_piece_length (e.effective_kb * 1024) ≡ false
            → exceeds rule.max_piece_length (e'.effective_kb * 1024) ≡ false)
        × (estimated_size total e'.effective_kb ≤ max_size)

  pub limit_torrent_size-IsLimited :
      (total max_size : ℕ) (e : Enforcing)
      → contains allowed_piece_sizes e.effective_kb ≡ true
      → IsLimited total max_size e (limit_torrent_size current rule total max_size e)
  unfolding limit_torrent_size note_violation
  limit_torrent_size-IsLimited total max_size e m =
      let f : IsFitted rule total e.effective_kb (fitted rule total max_size e.effective_kb) =
        fitted-IsFitted rule total max_size e.effective_kb m in
      let (same_kb, same) = note_fitted_lem (fitted rule total max_size e.effective_kb).kb e in
      elim (Bool-cases
        (ltb max_size (estimated_size total e.effective_kb) && ltb 0 e.effective_kb)) [
          | inl h ↦
              elim (Bool-cases
                (ltb max_size (fitted rule total max_size e.effective_kb).torrent_size)) [
                  | inl v ↦ rw (h, v) (λ no. cc)
                  | inr v ↦
                      rw (h, v)
                        (λ no. (
                          sym same ∙ no,
                          rw same_kb f.capped,
                          rw same_kb (subst (λ t. t ≤ max_size) f.estimated (ltb→le _ _ v)),
                        ))
                ]
          | inr h ↦ rw h (λ no.
              (no, λ c. c, le_of_guard _ max_size e.effective_kb (contains-pos e.effective_kb m) h))
        ]

pub limit_stage-le :
    (current : Option ℕ) (rule : TrackerRule) (total : ℕ) (e : Enforcing)
    → contains allowed_piece_sizes e.effective_kb ≡ true
    → (limit_stage current rule total e).result.constraint_violation ≡ false
    → (e.result.constraint_violation ≡ false)
      × (exceeds rule.max_piece_length (e.effective_kb * 1024) ≡ false
          → exceeds rule.max_piece_length ((limit_stage current rule total e).effective_kb * 1024)
            ≡ false)
      × ((s : ℕ)
          → rule.max_torrent_size ≡ some s
          → 0 < total
          → estimated_size total (limit_stage current rule total e).effective_kb ≤ s)
unfolding limit_stage
limit_stage-le current rule total e m = elim (Option-cases rule.max_torrent_size) [
  | inl h ↦ rw (h, limit_stage) (λ no. (no, λ c. c, λ s q. cc))
  | inr (s, h) ↦ elim (Bool-cases (ltb 0 total)) [
    | inl p ↦
        rw (h, limit_stage, p)
          (λ no.
            let (a, b, c) = limit_torrent_size-IsLimited current rule total s e m no in
            (
              a,
              b,
              λ t q _.
                  subst
                    (λ k.
                      estimated_size total (limit_torrent_size current rule total s e).effective_kb
                      ≤ k)
                    (some-injective s t q) c,
            ))
    | inr p ↦
        rw (h, limit_stage, p)
          (λ no. (no, λ c. c, λ t q pos. absurd (omega (arith, ltb→le 0 total p))))
  ]
]

pub exceeds_sound : (o : Option ℕ) (bytes m : ℕ) → exceeds o bytes ≡ false → o ≡ some m → bytes ≤ m
unfolding exceeds
exceeds_sound none bytes m h e = cc
exceeds_sound (some n) bytes m h e = ground arith
