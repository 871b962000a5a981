-- ===== src/Rules.antt =====
-- Tracker rules: src/tracker_rules.cpp and include/tracker_rules.hpp.
-- The `int` and `int64_t` fields are natural numbers; logging is left out.
pub mod Fit
pub mod Enforce
pub mod Cap
pub mod Matching
pub mod Overrides
pub mod Loading
mod Examples
use torrent_builder.Common.{
  ℕ, suc, ◌+◌, ◌-◌, ◌*◌, ◌/◌, Bytes, List, [], ◌∷◌, ◌++◌, Bool, true, false, not, ◌&&◌, ◌||◌, ltb,
  leb, ◌==◌, if◌then◌else◌, Option, none, some, value_or, has_value, is_empty, length, get_or, drop,
  codes, to_string,
}
use torrent_builder.PieceSize.{allowed_piece_sizes, contains, auto_piece_size, piece_count}

pub record PieceLengthOverride : Type 0 where
  pub size_below : ℕ
  pub piece_length_kb : ℕ

pub record TrackerRule : Type 0 where
  pub name : Bytes
  pub domain : Option Bytes
  pub source : Option Bytes
  pub max_piece_length : Option ℕ
  pub max_torrent_size : Option ℕ
  pub piece_length_overrides : List PieceLengthOverride

pub record RulesEnforcementResult : Type 0 where
  pub adjusted : Bool
  pub original_piece_length : Option ℕ
  pub adjusted_piece_length : Option ℕ
  pub source_applied : Bool
  pub source_value : Bytes
  pub constraint_violation : Bool
  pub violation_message : Bytes

unfoldable pub format_bytes : ℕ → Bytes
format_bytes bytes =
    if leb (1024 * 1024 * 1024) bytes
    then to_string (bytes / (1024 * 1024 * 1024)) ++ codes " GiB"
    else if leb (1024 * 1024) bytes
    then to_string (bytes / (1024 * 1024)) ++ codes " MiB"
    else if leb 1024 bytes
    then to_string (bytes / 1024) ++ codes " KiB"
    else to_string bytes ++ codes " B"

-- `std::sort` by `a.size_below > b.size_below`, as `parse_rule` calls it. Entries with equal bounds
-- stand in one of the orders that it may give.
insert_override : PieceLengthOverride → List PieceLengthOverride → List PieceLengthOverride
insert_override ov [] = ov ∷ []
insert_override ov (o ∷ os) =
    if ltb o.size_below ov.size_below then ov ∷ (o ∷ os) else o ∷ insert_override ov os

unfoldable pub sort_overrides : List PieceLengthOverride → List PieceLengthOverride
unfolding insert_override
sort_overrides [] = []
sort_overrides (ov ∷ ovs) = insert_override ov (sort_overrides ovs)

-- `std::lower_bound` on an ascending list: the index of the first element that is not below `x`,
-- the length if there is none.
abbrev pub lower_bound : List ℕ → ℕ → ℕ
lower_bound [] x = 0
lower_bound (y ∷ ys) x = if ltb y x then suc (lower_bound ys x) else 0

-- `allowed[i]`; every use below stands under a bound on the index.
abbrev pub allowed_at : ℕ → ℕ
allowed_at i = get_or allowed_piece_sizes i 0

abbrev pub allowed_end : ℕ
allowed_end = length allowed_piece_sizes

-- The local variables of `enforce`: the piece size so far and the result so far.
pub record Enforcing : Type 0 where
  pub effective_kb : ℕ
  pub result : RulesEnforcementResult

unfoldable pub initial_result : TrackerRule → RulesEnforcementResult
initial_result rule = record {
  adjusted = false;
  original_piece_length = none;
  adjusted_piece_length = none;
  source_applied = has_value rule.source;
  source_value = value_or rule.source [];
  constraint_violation = false;
  violation_message = [];
}

-- The piece size that the rule is applied to: the caller's if it gives a positive one, the
-- automatic one if not.
unfoldable pub requested_kb : ℕ → Option ℕ → ℕ
requested_kb total_size none = auto_piece_size total_size / 1024
requested_kb total_size (some kb) = if ltb 0 kb then kb else auto_piece_size total_size / 1024

-- A size that is not allowed is rounded up to an allowed one, or down to the largest.
unfoldable pub snap_to_allowed : ℕ → ℕ
snap_to_allowed kb =
    if contains allowed_piece_sizes kb
    then kb
    else if ltb (lower_bound allowed_piece_sizes kb) allowed_end
    then allowed_at (lower_bound allowed_piece_sizes kb)
    else allowed_at (allowed_end - 1)

module _ (current : Option ℕ) where
  -- `effective_kb` becomes `kb`, and the result notes the adjustment.
  unfoldable pub note_adjustment : Enforcing → ℕ → Enforcing
  note_adjustment e kb = record {
    effective_kb = kb;
    result = record (e.result) {
      adjusted = true;
      original_piece_length = some (value_or current e.effective_kb);
    };
  }

  -- The loop over `piece_length_overrides`: the first entry whose bound exceeds the size decides.
  unfoldable pub apply_overrides : ℕ → List PieceLengthOverride → Enforcing → Enforcing
  unfolding note_adjustment
  apply_overrides total_size [] e = e
  apply_overrides total_size (ov ∷ ovs) e =
      let rest = apply_overrides total_size ovs e in
      if ltb total_size ov.size_below
      then (if contains allowed_piece_sizes ov.piece_length_kb
            && not (e.effective_kb == ov.piece_length_kb)
          then note_adjustment e ov.piece_length_kb
          else e)
      else rest

-- The allowed size that `max_kb` caps: the largest one that is not above it, the smallest of all if
-- there is none.
unfoldable pub capped_kb : ℕ → ℕ
capped_kb max_kb =
    let it = lower_bound allowed_piece_sizes max_kb in
    if ltb it allowed_end && leb (allowed_at it) max_kb
    then allowed_at it
    else if not (it == 0)
    then allowed_at (it - 1)
    else allowed_at 0

unfoldable pub note_violation : Bytes → Enforcing → Enforcing
note_violation message e = record e {
  result = record (e.result) { constraint_violation = true; violation_message = message };
}

piece_length_message : Bytes → ℕ → ℕ → Bytes
unfolding format_bytes
piece_length_message name max_bytes kb =
    codes "Tracker '"
    ++ (name
        ++ (codes "' requires max_piece_length <= "
            ++ (format_bytes max_bytes
                ++ (codes ". Smallest allowed piece size ("
                    ++ (to_string kb
                        ++ (codes " KB = "
                            ++ (format_bytes (kb * 1024) ++ codes ") exceeds the cap.")))))))

unfoldable pub cap_piece_length : Option ℕ → TrackerRule → ℕ → Enforcing → Enforcing
unfolding capped_kb note_adjustment note_violation piece_length_message
cap_piece_length current rule max_bytes e =
    let max_kb = max_bytes / 1024 in
    let kb = capped_kb max_kb in
    let capped = note_adjustment current e kb in
    if ltb max_kb e.effective_kb
    then (if ltb max_kb kb
        then note_violation (piece_length_message rule.name max_bytes kb) capped
        else capped)
    else e
