-- ===== src/Rules/Enforce.antt =====
-- `TrackerRulesDatabase::enforce` of src/tracker_rules.cpp, from its stages.
pub mod Laws
pub mod Stages
pub mod Limits
pub mod Upward
use torrent_builder.Common.{
  ℕ, ◌+◌, ◌-◌, ◌*◌, ◌/◌, Bytes, List, [], ◌∷◌, ◌++◌, Bool, true, false, not, ◌&&◌, ◌||◌, ltb, leb,
  ◌==◌, if◌then◌else◌, Option, none, some, value_or, has_value, is_empty, length, get_or, drop,
  codes, to_string,
}
use torrent_builder.Rules.{
  TrackerRule, RulesEnforcementResult, Enforcing, initial_result, requested_kb, snap_to_allowed,
  apply_overrides, cap_piece_length,
}
use torrent_builder.Rules.Fit.{limit_torrent_size}

-- The stages of `enforce`, in the code's order, each with its guard.
unfoldable pub override_stage : Option ℕ → TrackerRule → ℕ → Enforcing → Enforcing
unfolding apply_overrides
override_stage current rule total_size e =
    if ltb 0 total_size then apply_overrides current total_size rule.piece_length_overrides e else e

unfoldable pub cap_stage : Option ℕ → TrackerRule → Enforcing → Enforcing
unfolding cap_piece_length
cap_stage current rule e = elim rule.max_piece_length [
  | none ↦ e
  | some max_bytes ↦ cap_piece_length current rule max_bytes e
]

unfoldable pub limit_stage : Option ℕ → TrackerRule → ℕ → Enforcing → Enforcing
unfolding limit_torrent_size
limit_stage current rule total_size e = elim rule.max_torrent_size [
  | none ↦ e
  | some max_size ↦
      if ltb 0 total_size then limit_torrent_size current rule total_size max_size e else e
]

unfoldable pub has_constraint : TrackerRule → Bool
has_constraint rule =
    has_value rule.max_piece_length
    || (has_value rule.max_torrent_size || not (is_empty rule.piece_length_overrides))

-- The state behind the last stage.
unfoldable pub enforced : TrackerRule → ℕ → Option ℕ → Enforcing
unfolding initial_result requested_kb snap_to_allowed override_stage cap_stage limit_stage
enforced rule total_size current = limit_stage current rule total_size (
    cap_stage current rule (
      override_stage current rule total_size (record {
        effective_kb = snap_to_allowed (requested_kb total_size current);
        result = initial_result rule;
      })))

-- `if (result.adjusted)`.
unfoldable pub publish : Enforcing → RulesEnforcementResult
publish e =
    if e.result.adjusted
    then record (e.result) { adjusted_piece_length = some e.effective_kb }
    else e.result

unfoldable pub enforce : TrackerRule → ℕ → Option ℕ → RulesEnforcementResult
unfolding has_constraint enforced publish
enforce rule total_size current =
    if has_constraint rule then publish (enforced rule total_size current) else initial_result rule
