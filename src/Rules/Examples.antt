-- ===== src/Rules/Examples.antt =====
-- Runs of `enforce`, and the theorems about tracker rules at concrete inputs.
use torrent_builder.Common.{
  ◌*◌, ◌<◌, ◌≡◌, refl, [], ◌∷◌, true, false, none, some, arith, codes, to_string, has_value,
}
use torrent_builder.PieceSize.{auto_piece_size}
use torrent_builder.Rules.{
  PieceLengthOverride, TrackerRule, sort_overrides, snap_to_allowed, requested_kb,
}
use torrent_builder.Rules.Enforce.{enforce}
use torrent_builder.Rules.Enforce.Limits.{IsWithin, final_kb, enforce-IsWithin, enforce-adjusted}
use torrent_builder.Rules.Enforce.Upward.{enforce-limit_below_piece}
use torrent_builder.Rules.Overrides.{enforce-largest_override}

abbrev plain : TrackerRule
plain = record {
  name = codes "ptp";
  domain = none;
  source = some (codes "PTP");
  max_piece_length = none;
  max_torrent_size = none;
  piece_length_overrides = [];
}

abbrev capped : TrackerRule
capped = record plain { max_piece_length = some 16777216 }

abbrev limited : TrackerRule
limited = record plain { max_torrent_size = some 1048576 }

abbrev below_1_gib : PieceLengthOverride
below_1_gib = record { size_below = 1073741824; piece_length_kb = 512 }

abbrev below_512_mib : PieceLengthOverride
below_512_mib = record { size_below = 536870912; piece_length_kb = 256 }

capped_run :
    ((enforce capped 1000 (some 32768)).adjusted_piece_length ≡ some 16384)
    × ((enforce capped 1000 (some 32768)).original_piece_length ≡ some 32768)
unfolding enforce
capped_run = (refl, refl)

too_small_message :
    (enforce (record plain { max_piece_length = some 8192 }) 1000 none).violation_message
    ≡ codes
        "Tracker 'ptp' requires max_piece_length <= 8 KiB. Smallest allowed piece size (16 KB = 16 KiB) exceeds the cap."
unfolding enforce auto_piece_size to_string
too_small_message = refl

sorted_run : sort_overrides (below_512_mib ∷ below_1_gib ∷ []) ≡ below_1_gib ∷ below_512_mib ∷ []
unfolding sort_overrides
sorted_run = refl

-- 300 MiB is below both bounds, and the larger bound decides.
both_bounds_run :
    (enforce
      (record plain { piece_length_overrides = sort_overrides (below_512_mib ∷ below_1_gib ∷ []) })
      314572800
      (some 1024)).adjusted_piece_length
    ≡ some 512
unfolding enforce sort_overrides
both_bounds_run = refl

-- With pieces of 16 KB the same content stays within the limit.
smaller_piece_run : (enforce limited 1048576 (some 16)).constraint_violation ≡ false
unfolding enforce
smaller_piece_run = refl

enforce-IsWithin_example : IsWithin limited 1048576 (final_kb limited 1048576 (some 16))
enforce-IsWithin_example = enforce-IsWithin limited 1048576 (some 16) smaller_piece_run

enforce-adjusted_example :
    ((enforce capped 1000 (some 32768)).adjusted
      ≡ has_value (enforce capped 1000 (some 32768)).adjusted_piece_length)
    × ((enforce capped 1000 (some 32768)).adjusted
        ≡ has_value (enforce capped 1000 (some 32768)).original_piece_length)
enforce-adjusted_example = enforce-adjusted capped 1000 (some 32768)

enforce-largest_override_example :
    enforce
      (record plain { piece_length_overrides = below_1_gib ∷ below_512_mib ∷ [] })
      314572800
      none
    ≡ enforce (record plain { piece_length_overrides = below_1_gib ∷ [] }) 314572800 none
enforce-largest_override_example =
    enforce-largest_override plain below_1_gib (below_512_mib ∷ []) 314572800 none (omega arith)

enforce-limit_below_piece_example :
    (enforce limited 1048576 (some 2048)).constraint_violation ≡ true
unfolding snap_to_allowed requested_kb
enforce-limit_below_piece_example =
    enforce-limit_below_piece limited 1048576 (some 2048) 1048576 refl refl refl (omega arith) fits
  where
    fits : 1048576 < 2048 * 1024
    fits = omega arith
