-- ===== src/Rules/Fit.antt =====
-- The `max_torrent_size` part of `TrackerRulesDatabase::enforce`, src/tracker_rules.cpp.
pub mod Laws
use torrent_builder.Common.{
  ℕ, ◌+◌, ◌-◌, ◌*◌, ◌/◌, Bytes, List, [], ◌∷◌, ◌++◌, Bool, true, false, not, ◌&&◌, ◌||◌, ltb, leb,
  ◌==◌, if◌then◌else◌, Option, none, some, value_or, has_value, is_empty, length, get_or, drop,
  codes, to_string,
}
use torrent_builder.PieceSize.{allowed_piece_sizes, contains, piece_count}
use torrent_builder.Rules.{
  TrackerRule, RulesEnforcementResult, Enforcing, lower_bound, allowed_end, format_bytes,
  note_violation,
}

-- The estimated size of the .torrent file: 20 bytes for each piece's hash, and one piece.
unfoldable pub estimated_size : ℕ → ℕ → ℕ
estimated_size total_size kb = piece_count total_size (kb * 1024) * 20 + kb * 1024

-- The local variables of the search for a piece size that keeps the .torrent file small.
pub record Fitting : Type 0 where
  pub kb : ℕ
  pub torrent_size : ℕ

unfoldable pub exceeds : Option ℕ → ℕ → Bool
exceeds none bytes = false
exceeds (some max_bytes) bytes = ltb max_bytes bytes

-- `while (it != allowed.end())`, over the allowed sizes from `it` on.
unfoldable pub fit_loop : ℕ → ℕ → Option ℕ → List ℕ → Fitting → Fitting
unfolding estimated_size exceeds
fit_loop total_size max_size max_piece [] f = f
fit_loop total_size max_size max_piece (try_kb ∷ kbs) f =
    let rest = fit_loop total_size max_size max_piece kbs f in
    if exceeds max_piece (try_kb * 1024)
    then f
    else if leb (estimated_size total_size try_kb) max_size
    then record { kb = try_kb; torrent_size = estimated_size total_size try_kb }
    else rest

-- The iterator that the search starts at.
unfoldable pub fit_start : ℕ → ℕ
fit_start kb =
    let it = lower_bound allowed_piece_sizes kb in if it == allowed_end then allowed_end - 1 else it

torrent_size_message : Bytes → ℕ → ℕ → Bytes
unfolding format_bytes
torrent_size_message name max_size torrent_size =
    codes "Tracker '"
    ++ (name
        ++ (codes "' requires torrent size <= "
            ++ (format_bytes max_size
                ++ (codes ". Estimated: "
                    ++ (format_bytes torrent_size
                        ++ codes
                            ". Even at maximum allowed piece size, the torrent may exceed the limit.")))))

-- `if (effective_kb != original_kb)`: the first recorded original is kept.
unfoldable pub note_fitted : Option ℕ → ℕ → Enforcing → Enforcing
note_fitted current kb e = record {
  effective_kb = kb;
  result = if kb == e.effective_kb then e.result else record (e.result) {
    adjusted = true;
    original_piece_length =
        (if has_value e.result.original_piece_length
          then e.result.original_piece_length
          else some (value_or current e.effective_kb));
  };
}

-- The allowed size that the search ends at, with its estimate.
unfoldable pub fitted : TrackerRule → ℕ → ℕ → ℕ → Fitting
unfolding fit_loop fit_start
fitted rule total_size max_size kb =
    fit_loop total_size max_size rule.max_piece_length (drop (fit_start kb) allowed_piece_sizes)
      (record { kb = kb; torrent_size = estimated_size total_size kb })

unfoldable pub limit_torrent_size : Option ℕ → TrackerRule → ℕ → ℕ → Enforcing → Enforcing
unfolding fitted torrent_size_message note_violation note_fitted
limit_torrent_size current rule total_size max_size e =
    let f = fitted rule total_size max_size e.effective_kb in
    if ltb max_size (estimated_size total_size e.effective_kb) && ltb 0 e.effective_kb
    then (if ltb max_size f.torrent_size
        then note_violation (torrent_size_message rule.name max_size f.torrent_size)
            (note_fitted current f.kb e)
        else note_fitted current f.kb e)
    else e
