-- ===== src/Rules/Enforce/Upward.antt =====
-- The search for a fitting piece size goes upward only.
use torrent_builder.Common.{
  ℕ, ◌*◌, ◌≤◌, ◌<◌, ◌≡◌, refl, ◌∙◌, inl, inr, List, [], ◌∷◌, All, Bool, true, false, ◌&&◌, Option,
  none, some, length, drop, ltb, ◌==◌, arith, Bool-cases, if◌then◌else◌, IsAscending, ltb→le,
  lt→ltb,
}
use torrent_builder.PieceSize.{allowed_piece_sizes, contains}
use torrent_builder.Rules.{
  TrackerRule, Enforcing, lower_bound, requested_kb, apply_overrides, note_violation,
  initial_result,
}
use torrent_builder.Rules.Fit.{estimated_size, fit_start, fitted, limit_torrent_size}
use torrent_builder.Rules.Fit.Laws.{fit_loop_sound}
use torrent_builder.Rules.Enforce.{
  override_stage, cap_stage, limit_stage, has_constraint, enforced, enforce,
}
use torrent_builder.Rules.Enforce.Laws.{snap_to_allowed-contains}
use torrent_builder.Rules.Enforce.Stages.{limit_torrent_size-IsLimited, note_fitted_lem}
use torrent_builder.Rules.Enforce.Limits.{start_kb, enforced-IsSound, publish_lem}

contains-ge : (xs : List ℕ) (x y : ℕ) → All (λ z. x ≤ z) xs → contains xs y ≡ true → x ≤ y
contains-ge [] x y h m = cc
contains-ge (z ∷ xs) x y h m = ground (arith, contains-ge xs x y h.1)

contains-ge_head :
    (z : ℕ) (xs : List ℕ) (x y : ℕ)
    → x ≤ z
    → All (λ w. z ≤ w) xs
    → contains (z ∷ xs) y ≡ true
    → x ≤ y
contains-ge_head z xs x y h hs m = ground (arith, contains-ge xs z y hs)

-- What stands from the lower bound of `x` on is not below `x`.
lower_bound-ge :
    (xs : List ℕ) (x y : ℕ)
    → IsAscending xs
    → contains (drop (lower_bound xs x) xs) y ≡ true
    → x ≤ y
lower_bound-ge [] x y asc m = cc
lower_bound-ge (z ∷ xs) x y asc m = elim (Bool-cases (ltb z x)) [
  | inl e ↦ lower_bound-ge xs x y asc.1 (rw e at m)
  | inr e ↦ contains-ge_head z xs x y (ltb→le _ _ e) asc.0 (rw e at m)
]

lower_bound-lt : (xs : List ℕ) (x : ℕ) → contains xs x ≡ true → lower_bound xs x < length xs
lower_bound-lt [] x m = cc
lower_bound-lt (z ∷ xs) x m = ground (arith, lower_bound-lt xs x)

allowed-IsAscending : IsAscending allowed_piece_sizes
allowed-IsAscending = omega arith

fit_start_lem :
    (kb : ℕ)
    → contains allowed_piece_sizes kb ≡ true
    → fit_start kb ≡ lower_bound allowed_piece_sizes kb
unfolding fit_start
fit_start_lem kb m = rw (ne_test _ _ (lower_bound-lt allowed_piece_sizes kb m))
  where
    ne_test : (a b : ℕ) → a < b → (a == b) ≡ false
    ne_test a b h = ground arith

fitted-ge :
    (rule : TrackerRule) (total max_size kb : ℕ)
    → contains allowed_piece_sizes kb ≡ true
    → kb ≤ (fitted rule total max_size kb).kb
unfolding fitted
fitted-ge rule total max_size kb m =
    elim (fit_loop_sound total max_size rule.max_piece_length
      (drop (fit_start kb) allowed_piece_sizes)
      (record { kb = kb; torrent_size = estimated_size total kb })) [
        | inl e ↦ rw e (omega arith)
        | inr (k, mem, fits, e) ↦ rw e (
            lower_bound-ge allowed_piece_sizes kb k allowed-IsAscending
              (rw (fit_start_lem kb m) at mem))
      ]

limit_torrent_size-ge :
    (current : Option ℕ) (rule : TrackerRule) (total max_size : ℕ) (e : Enforcing)
    → contains allowed_piece_sizes e.effective_kb ≡ true
    → e.effective_kb ≤ (limit_torrent_size current rule total max_size e).effective_kb
unfolding limit_torrent_size note_violation
limit_torrent_size-ge current rule total max_size e m =
    let (same_kb, _) =
      note_fitted_lem current rule (fitted rule total max_size e.effective_kb).kb e in
    let up = fitted-ge rule total max_size e.effective_kb m in
    elim (Bool-cases (ltb max_size (estimated_size total e.effective_kb) && ltb 0 e.effective_kb)) [
      | inl h ↦
          elim (Bool-cases
            (ltb max_size (fitted rule total max_size e.effective_kb).torrent_size)) [
              | inl v ↦ rw (h, v) (rw same_kb up)
              | inr v ↦ rw (h, v) (rw same_kb up)
            ]
      | inr h ↦ rw h (omega arith)
    ]

estimated_size-ge : (total kb : ℕ) → kb * 1024 ≤ estimated_size total kb
unfolding estimated_size
estimated_size-ge total kb = omega arith

limit_below_piece :
    (current : Option ℕ) (rule : TrackerRule) (total max_size : ℕ) (e : Enforcing)
    → contains allowed_piece_sizes e.effective_kb ≡ true
    → max_size < e.effective_kb * 1024
    → (limit_torrent_size current rule total max_size e).result.constraint_violation ≡ true
limit_below_piece current rule total max_size e m h =
    elim (Bool-cases
      (limit_torrent_size current rule total max_size e).result.constraint_violation) [
        | inl v ↦ v
        | inr v ↦ absurd (
            omega (
              arith,
              limit_torrent_size-ge current rule total max_size e m,
              estimated_size-ge total
                  (limit_torrent_size current rule total max_size e).effective_kb,
              (limit_torrent_size-IsLimited current rule total max_size e m v).2,
            ))
      ]

override_stage_none :
    (current : Option ℕ) (rule : TrackerRule) (total : ℕ) (e : Enforcing)
    → rule.piece_length_overrides ≡ []
    → override_stage current rule total e ≡ e
unfolding override_stage apply_overrides
override_stage_none current rule total e h = rw (h, apply_overrides) (ite_same (ltb 0 total))
  where
    ite_same : (b : Bool) → (if b then e else e) ≡ e
    ite_same true = refl
    ite_same false = refl

cap_stage-none :
    (current : Option ℕ) (rule : TrackerRule) (e : Enforcing)
    → rule.max_piece_length ≡ none
    → cap_stage current rule e ≡ e
unfolding cap_stage
cap_stage-none current rule e h = rw (h, cap_stage)

limit_stage-some :
    (current : Option ℕ) (rule : TrackerRule) (total max_size : ℕ) (e : Enforcing)
    → rule.max_torrent_size ≡ some max_size
    → 0 < total
    → limit_stage current rule total e ≡ limit_torrent_size current rule total max_size e
unfolding limit_stage
limit_stage-some current rule total max_size e h p = rw (h, limit_stage, lt→ltb 0 total p)

has_constraint-some :
    (rule : TrackerRule) (max_size : ℕ)
    → rule.max_torrent_size ≡ some max_size
    → has_constraint rule ≡ true
unfolding has_constraint
has_constraint-some rule max_size h = ground arith

-- For a positive total size, a rule with only a `max_torrent_size` that is below the starting piece size
-- in bytes is always reported as violated: the search does not try a smaller piece.
pub enforce-limit_below_piece :
    (rule : TrackerRule) (total : ℕ) (current : Option ℕ) (max_size : ℕ)
    → rule.max_piece_length ≡ none
    → rule.piece_length_overrides ≡ []
    → rule.max_torrent_size ≡ some max_size
    → 0 < total
    → max_size < start_kb total current * 1024
    → (enforce rule total current).constraint_violation ≡ true
unfolding enforce
enforce-limit_below_piece rule total current max_size no_cap no_overrides limit p h =
    let begin : Enforcing = record {
      effective_kb = start_kb total current;
      result = initial_result rule;
    } in
    let e : enforced rule total current ≡ limit_torrent_size current rule total max_size begin =
      unfold enforced in
      rw
        (
          override_stage_none current rule total begin no_overrides,
          cap_stage-none current rule begin no_cap,
        )
        (limit_stage-some current rule total max_size begin limit p) in
    rw (has_constraint-some rule max_size limit) (
      (publish_lem _ _ (enforced-IsSound rule total current)).1
      ∙ (rw e (
          limit_below_piece current rule total max_size begin
            (snap_to_allowed-contains (requested_kb total current)) h)))
