-- ===== src/Rules/Enforce/Limits.antt =====
-- A result of `enforce` without a violation is within the rule's limits, and its fields agree.
use torrent_builder.Common.{
  ℕ, ◌*◌, ◌≤◌, ◌<◌, ◌≡◌, refl, sym, ◌∙◌, subst, inl, inr, true, false, Option, none, some, ltb,
  arith, Bool-cases, value_or, has_value,
}
use torrent_builder.PieceSize.{allowed_piece_sizes, contains}
use torrent_builder.Rules.{TrackerRule, Enforcing, initial_result, requested_kb, snap_to_allowed}
use torrent_builder.Rules.Fit.{estimated_size}
use torrent_builder.Rules.Enforce.{
  override_stage, cap_stage, limit_stage, has_constraint, enforced, publish, enforce,
}
use torrent_builder.Rules.Enforce.Laws.{
  IsSound, apply_overrides-IsSound, cap_stage-IsSound, limit_stage-IsSound,
  snap_to_allowed-contains,
}
use torrent_builder.Rules.Enforce.Stages.{cap_stage-exceeds, limit_stage-le, exceeds_sound}

-- The size that the stages start from.
abbrev pub start_kb : ℕ → Option ℕ → ℕ
start_kb total current = snap_to_allowed (requested_kb total current)

-- The state behind the overrides.
overridden : TrackerRule → ℕ → Option ℕ → Enforcing
overridden rule total current = override_stage current rule total (record {
  effective_kb = snap_to_allowed (requested_kb total current);
  result = initial_result rule;
})

overridden-IsSound :
    (rule : TrackerRule) (total : ℕ) (current : Option ℕ)
    → IsSound (start_kb total current) (overridden rule total current)
unfolding overridden override_stage
overridden-IsSound rule total current = elim (Bool-cases (ltb 0 total)) [
  | inl p ↦ rw p (apply_overrides-IsSound _ current rule total rule.piece_length_overrides _ begin)
  | inr p ↦ rw p begin
]
  where
    begin :
        IsSound
          (start_kb total current)
          (record { effective_kb = start_kb total current; result = initial_result rule })
    begin =
        unfold initial_result in
        record {
          allowed = snap_to_allowed-contains (requested_kb total current);
          unpublished = refl;
          original = refl;
          unchanged = λ _. refl;
        }

pub enforced-IsSound :
    (rule : TrackerRule) (total : ℕ) (current : Option ℕ)
    → IsSound (start_kb total current) (enforced rule total current)
unfolding enforced overridden
enforced-IsSound rule total current =
    limit_stage-IsSound _ current rule total _
      (cap_stage-IsSound _ current rule _ (overridden-IsSound rule total current))

-- The limits of a rule, for a piece size in KB and a total size.
abbrev pub IsWithin : TrackerRule → ℕ → ℕ → Type 0
IsWithin rule total kb =
    (contains allowed_piece_sizes kb ≡ true)
    × ((m : ℕ) → rule.max_piece_length ≡ some m → kb * 1024 ≤ m)
    × ((s : ℕ) → rule.max_torrent_size ≡ some s → 0 < total → estimated_size total kb ≤ s)

-- The piece size that a result stands for: the adjusted one, and where nothing was adjusted the
-- requested one, made an allowed one.
abbrev pub final_kb : TrackerRule → ℕ → Option ℕ → ℕ
final_kb rule total current =
    value_or (enforce rule total current).adjusted_piece_length (start_kb total current)

pub publish_lem :
    (start : ℕ) (e : Enforcing)
    → IsSound start e
    → (value_or (publish e).adjusted_piece_length start ≡ e.effective_kb)
      × ((publish e).constraint_violation ≡ e.result.constraint_violation)
      × ((publish e).adjusted ≡ has_value (publish e).adjusted_piece_length)
      × ((publish e).adjusted ≡ has_value (publish e).original_piece_length)
unfolding publish
publish_lem start e s = ground (arith, s.unchanged)

-- A rule with no constraint sets no limit.
no_constraint :
    (rule : TrackerRule)
    → has_constraint rule ≡ false
    → (rule.max_piece_length ≡ none) × (rule.max_torrent_size ≡ none)
unfolding has_constraint
no_constraint rule h = ground arith

stages_lem :
    (rule : TrackerRule) (total : ℕ) (current : Option ℕ) (e : Enforcing) (start : ℕ)
    → IsSound start e
    → (limit_stage current rule total (cap_stage current rule e)).result.constraint_violation
      ≡ false
    → IsWithin rule total (limit_stage current rule total (cap_stage current rule e)).effective_kb
stages_lem rule total current e start sound v =
    let capped : IsSound start (cap_stage current rule e) =
      cap_stage-IsSound start current rule e sound in
    let limited = limit_stage-le current rule total (cap_stage current rule e) capped.allowed v in
    (
      (limit_stage-IsSound start current rule total (cap_stage current rule e) capped).allowed,
      λ m q.
          exceeds_sound rule.max_piece_length _ m
            (limited.1 (cap_stage-exceeds current rule e limited.0)) q,
      limited.2,
    )

enforced-IsWithin :
    (rule : TrackerRule) (total : ℕ) (current : Option ℕ)
    → (enforced rule total current).result.constraint_violation ≡ false
    → IsWithin rule total (enforced rule total current).effective_kb
unfolding enforced overridden
enforced-IsWithin rule total current v =
    stages_lem rule total current (overridden rule total current) (start_kb total current)
      (overridden-IsSound rule total current) v

-- A result without a violation stands for an allowed piece size that is within the rule's
-- `max_piece_length` and, for a positive total size, keeps the estimate within `max_torrent_size`.
pub enforce-IsWithin :
    (rule : TrackerRule) (total : ℕ) (current : Option ℕ)
    → (enforce rule total current).constraint_violation ≡ false
    → IsWithin rule total (final_kb rule total current)
unfolding enforce
enforce-IsWithin rule total current v = elim (Bool-cases (has_constraint rule)) [
  | inl c ↦
      let (same, keeps, _, _) = publish_lem _ _ (enforced-IsSound rule total current) in
      let e : final_kb rule total current ≡ (enforced rule total current).effective_kb =
        rw c same in
      subst (IsWithin rule total) (sym e)
        (enforced-IsWithin rule total current (sym keeps ∙ (rw (c, enforce) at v)))
  | inr c ↦
      let (no_cap, no_limit) = no_constraint rule c in
      let e : final_kb rule total current ≡ start_kb total current =
        rw c (unfold initial_result in refl) in
      subst (IsWithin rule total) (sym e)
        (snap_to_allowed-contains (requested_kb total current), λ m q. cc, λ s q. cc)
]

-- An adjustment is reported by all three fields together: `adjusted` is set exactly when there is an
-- adjusted piece length, and exactly when there is an original one.
pub enforce-adjusted :
    (rule : TrackerRule) (total : ℕ) (current : Option ℕ)
    → ((enforce rule total current).adjusted
        ≡ has_value (enforce rule total current).adjusted_piece_length)
      × ((enforce rule total current).adjusted
          ≡ has_value (enforce rule total current).original_piece_length)
unfolding enforce
enforce-adjusted rule total current = elim (Bool-cases (has_constraint rule)) [
  | inl c ↦
      rw c (let (_, _, a, b) = publish_lem _ _ (enforced-IsSound rule total current) in (a, b))
  | inr c ↦ rw c (unfold initial_result in (refl, refl))
]
