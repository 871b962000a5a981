-- ===== src/Batch/Execute.antt =====
-- `execute_job`, `run` and the counts of `print_summary` of src/batch.cpp.
use torrent_builder.Common.{
  ℕ, ◌+◌, ◌/◌, Bytes, List, [], ◌∷◌, ◌++◌, Bool, true, false, not, ◌&&◌, ◌||◌, ltb, if◌then◌else◌,
  Option, none, some, Result, ok, err, ◌>>=◌, ◌>>◌, guard, is_empty, has_value, value_or, codes,
  to_string,
}
use torrent_builder.Yaml.{ℤ, pos, negsuc}
use torrent_builder.PieceSize.{piece_size_for_target_count}
use torrent_builder.Rules.{TrackerRule, RulesEnforcementResult}
use torrent_builder.Rules.Matching.{TrackerRulesDatabase, find_matching_rule}
use torrent_builder.Rules.Enforce.{enforce}
use torrent_builder.Preset.{ConfigValues, empty_config, merge_config_values, PresetLoader, resolve}
use torrent_builder.ContentSize.{compute_content_size}
use torrent_builder.SeasonPack.Warning.{evaluate_season_warning}
use torrent_builder.Batch.{BatchJob, BatchResult, TorrentConfig}
use torrent_builder.Batch.Config.{Host, path_value, build_torrent_config}

-- `Job <number>: <text>`
unfoldable pub job_error : ℕ → Bytes → Bytes
job_error job_index text = codes "Job " ++ (to_string (job_index + 1) ++ (codes ": " ++ text))

-- The defaults and the preset, where the job names one.
unfoldable pub preset_values : PresetLoader → Option Bytes → Result Bytes ConfigValues
preset_values presets none = ok empty_config
preset_values presets (some preset) = resolve presets preset

-- `if (!resolved.x) resolved.x = …;`
unfoldable pub or_value : {A : Type 0} → Option A → Option A → Option A
or_value none fallback = fallback
or_value (some a) fallback = some a

-- The values of the job, over those of the preset.
unfoldable pub job_values : PresetLoader → BatchJob → Result Bytes ConfigValues
unfolding preset_values or_value
job_values presets job = do
  base ← preset_values presets job.preset
  let resolved = merge_config_values base job.values
  ok (record resolved {
    path = or_value resolved.path (some job.path);
    output = or_value resolved.output job.output;
  })

unfoldable pub needs_content_size : ConfigValues → Bool
needs_content_size cv =
    (has_value cv.target_piece_count && not (has_value cv.piece_size))
    || not (is_empty (value_or cv.trackers []))

-- The piece size in KB for a target, where the content has a size; the target is dropped where it
-- has none.
unfoldable pub target_values : ℕ → ℕ → ℕ → ConfigValues → Result Bytes ConfigValues
target_values job_index content_size target cv =
    if ltb 0 content_size
    then piece_size_for_target_count content_size target
      >>= (λ bytes. ok (record cv { piece_size = some (pos (bytes / 1024)) }))
    else ok (record cv { target_piece_count = none })

-- `target_piece_count` becomes `piece_size`.
unfoldable pub resolve_target : ℕ → ℕ → ConfigValues → Result Bytes ConfigValues
unfolding job_error target_values
resolve_target job_index content_size cv = elim cv.piece_size [
  | some kb ↦ ok cv
  | none ↦ elim cv.target_piece_count [
    | none ↦ ok cv
    | some (negsuc n) ↦ err (job_error job_index (codes "target_piece_count must be positive"))
    | some (pos target) ↦
        if ltb 0 target
        then target_values job_index content_size target cv
        else err (job_error job_index (codes "target_piece_count must be positive"))
  ]
]

-- `current_kb`
unfoldable pub current_kb : Option ℤ → Option ℕ
current_kb none = none
current_kb (some (pos kb)) = if ltb 0 kb then some kb else none
current_kb (some (negsuc n)) = none

-- The piece size behind the rule: that of the rule only where the job has none.
unfoldable pub enforced_size : Option ℤ → RulesEnforcementResult → Option ℤ
enforced_size piece_size enforcement = elim (current_kb piece_size) [
  | some kb ↦ piece_size
  | none ↦ elim enforcement.adjusted_piece_length [
    | none ↦ piece_size
    | some kb ↦ if enforcement.adjusted then some (pos kb) else piece_size
  ]
]

-- The rule is asked only where it sets a limit on the pieces or on the torrent.
unfoldable pub has_limit : TrackerRule → Bool
has_limit rule =
    has_value rule.max_piece_length
    || (has_value rule.max_torrent_size || not (is_empty rule.piece_length_overrides))

unfoldable pub apply_rule : TrackerRule → ℕ → ConfigValues → ConfigValues
unfolding or_value has_limit enforced_size current_kb
apply_rule rule content_size cv =
    let sourced = record cv { source = or_value cv.source rule.source } in
    if has_limit rule
    then record sourced {
      piece_size =
          enforced_size cv.piece_size (enforce rule content_size (current_kb cv.piece_size));
    }
    else sourced

unfoldable pub apply_rules : TrackerRulesDatabase → ℕ → ConfigValues → ConfigValues
unfolding apply_rule
apply_rules rules content_size cv =
    let trackers = value_or cv.trackers [] in
    if is_empty trackers then cv else (elim (find_matching_rule rules trackers) [
      | none ↦ cv
      | some rule ↦ apply_rule rule content_size cv
    ])

-- The values that the torrent is built from.
unfoldable pub final_values :
    Host → PresetLoader → TrackerRulesDatabase → ℕ → BatchJob → Result Bytes ConfigValues
unfolding job_values needs_content_size resolve_target apply_rules
final_values host presets rules job_index job = do
  cv ← job_values presets job
  guard (not (has_value cv.piece_size && has_value cv.target_piece_count))
      (job_error job_index (codes "piece_size and target_piece_count are mutually exclusive"))
  path ← path_value cv.path
  let content_size = if needs_content_size cv then compute_content_size host.sizes path else 0
  resolved ← resolve_target job_index content_size cv
  ok (apply_rules rules content_size resolved)

-- The configuration that the torrent is created from, with the check of the season pack.
unfoldable pub job_config :
    Host
    → PresetLoader
    → TrackerRulesDatabase
    → Option Bytes
    → ℕ
    → BatchJob
    → Result Bytes TorrentConfig
unfolding final_values
job_config host presets rules output_dir job_index job = do
  cv ← final_values host presets rules job_index job
  tc ← build_torrent_config host cv (value_or output_dir [])
  elim (evaluate_season_warning host.directory tc.path job.fail_on_season_warning) [
    | some season_error ↦ err season_error
    | none ↦ ok (record tc { silent = true })
  ]

-- The result, with the text of the exception where one was thrown.
unfoldable pub job_result : ℕ → BatchJob → Result Bytes (Unit {0}) → BatchResult
job_result job_index job (ok done) = record {
  job_index = job_index;
  job_name = value_or job.output job.path;
  success = true;
  error_message = [];
}
job_result job_index job (err message) = record {
  job_index = job_index;
  job_name = value_or job.output job.path;
  success = false;
  error_message = message;
}

-- `create_torrent` stands for `TorrentCreator::create_torrent`.
module _ (create_torrent : TorrentConfig → Result Bytes (Unit {0})) where
  unfoldable pub execute_job :
      Host → PresetLoader → TrackerRulesDatabase → Option Bytes → ℕ → BatchJob → BatchResult
  unfolding job_config job_result
  execute_job host presets rules output_dir job_index job =
      job_result job_index job
        (job_config host presets rules output_dir job_index job >>= create_torrent)

-- The counts of `print_summary`: succeeded and failed.
unfoldable pub counts : List BatchResult → ℕ × ℕ
counts [] = (0, 0)
counts (r ∷ rs) =
    let (succeeded, failed) = counts rs in
    if r.success then (succeeded + 1, failed) else (succeeded, failed + 1)
