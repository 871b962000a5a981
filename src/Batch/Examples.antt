-- ===== src/Batch/Examples.antt =====
-- A batch file with one job, and the theorems about batches at it.
use torrent_builder.Common.{
  ℕ, ◌*◌, ◌≡◌, refl, arith, Bytes, [], ◌∷◌, true, false, Option, none, some, Result, ok, err, codes,
  bytes_eq, if◌then◌else◌, ◌==◌, ◌&&◌,
}
use torrent_builder.Text.{rfind_byte, starts_with, to_lower, tolower}
use torrent_builder.Yaml.{pos, Yaml, FileSystem, optional_field, strings}
use torrent_builder.Preset.{
  empty_config, new_loader, overlaid, merge_config_values, urls, url_field, parse_yaml_config,
  check_version, patterns_field,
}
use torrent_builder.Rules.Matching.{TrackerRulesDatabase}
use torrent_builder.Filename.Output.{parent_path, strip_slashes}
use torrent_builder.Batch.{
  BatchJob, BatchConfig, BatchResult, TorrentConfig, hybrid, validate_piece_size,
}
use torrent_builder.SeasonPack.Warning.{evaluate_season_warning}
use torrent_builder.Batch.Parse.{parse, with_extension}
use torrent_builder.Batch.Valid.{IsValidBatch, parse-IsValidBatch}
use torrent_builder.Batch.Config.{Host, build_torrent_config}
use torrent_builder.Batch.Execute.{job_config, execute_job}
use torrent_builder.Filter.{apply_builtin_excludes}
use torrent_builder.Batch.Laws.{
  job_config-piece_size, job_config-output, execute_job-success, IsCreated,
}
use torrent_builder.Batch.Run.{execute_at, execute_all, run_lem}
use torrent_builder.Batch.Pool.{
  Pool, Run, here, later, fetch, leave, store, init, actual_workers, IsDone, table_from,
}

-- The nodes: 0 the document, 1 its version, 2 the jobs, 3 the job, 4 its path, 5 its output, 6 its
-- piece size.
abbrev get_node : ℕ → Bytes → Result Bytes (Option ℕ)
get_node n key =
    if (n == 0) && bytes_eq key (codes "version")
    then ok (some 1)
    else if (n == 0) && bytes_eq key (codes "jobs")
    then ok (some 2)
    else if (n == 3) && bytes_eq key (codes "path")
    then ok (some 4)
    else if (n == 3) && bytes_eq key (codes "output")
    then ok (some 5)
    else if (n == 3) && bytes_eq key (codes "piece_size")
    then ok (some 16)
    else ok none

abbrev document : Yaml
document = record {
  Node = ℕ;
  get = get_node;
  items = λ n. if n == 2 then 3 ∷ [] else [];
  entries = λ n. [];
  as_string = λ n.
      if n == 4
      then ok (codes "/d/a")
      else if n == 5
      then ok (codes "/o/x")
      else err (codes "bad conversion");
  as_bool = λ n. ok true;
  as_int = λ n. ok (pos n);
  as_int64 = λ n. ok (pos n);
  load_file = λ path. ok 0;
}

abbrev files : FileSystem
files = record {
  exists = λ path. true;
  file_size = λ path. ok 300;
  current_path = codes "/work";
  getenv = λ name. none;
}

abbrev host : Host
host = record {
  files = files;
  paths = record {
    canonical = λ path. some path;
    absolute = λ path. path;
    current_path = codes "/work";
    is_regular_file = λ path. true;
  };
  sizes = record {
    is_directory = λ path. ok false;
    walk = λ path. [];
    file_size = λ path. ok 5000;
  };
  directory = record { exists = λ path. true; is_directory = λ path. false; walk = λ path. [] };
  holds = λ dir name. false;
  create_directories = λ dir. if bytes_eq dir (codes "/o") then none else some (codes "denied");
}

abbrev job : BatchJob
job = record {
  path = codes "/d/a";
  output = some (codes "/o/x.torrent");
  preset = none;
  fail_on_season_warning = false;
  values = record empty_config {
    path = some (codes "/d/a");
    output = some (codes "/o/x");
    piece_size = some (pos 16);
  };
}

abbrev config : BatchConfig
config = record {
  workers = pos 1;
  preset_file = none;
  rules_file = none;
  output_dir = none;
  jobs = job ∷ [];
}

parse_run : parse document files (λ n. n == 2) (codes "b.yaml") ≡ ok config
unfolding parse check_version parse_yaml_config url_field urls patterns_field optional_field strings
    with_extension to_lower tolower
parse_run = refl

parse-IsValidBatch_example : IsValidBatch config
parse-IsValidBatch_example =
    parse-IsValidBatch document files (λ n. n == 2) (codes "b.yaml") parse_run

abbrev rules : TrackerRulesDatabase
rules = record { default_rules = none; trackers = [] }

-- The output has no extension, although the job's own output has one.
abbrev created : TorrentConfig
created = record {
  path = codes "/d/a";
  output = codes "/o/x";
  trackers = [];
  version = hybrid;
  comment = none;
  is_private = false;
  web_seeds = [];
  piece_size = some (16 * 1024);
  target_piece_count = none;
  creator = some (codes "Torrent Builder");
  name = none;
  include_creation_date = true;
  source = none;
  entropy = false;
  exclude_regex = apply_builtin_excludes [] true;
  include_regex = [];
  silent = true;
}

job_run : job_config host new_loader rules none 0 job ≡ ok created
unfolding job_config build_torrent_config merge_config_values overlaid parent_path strip_slashes
    rfind_byte starts_with validate_piece_size evaluate_season_warning
job_run = refl

job_config-piece_size_example : some (16 * 1024) ≡ some (16 * 1024)
job_config-piece_size_example =
    job_config-piece_size host new_loader rules none 0 job 16 (omega arith) refl job_run

job_config-output_example : created.output ≡ codes "/o/x"
unfolding starts_with
job_config-output_example =
    job_config-output host new_loader rules none 0 job (codes "/o/x") refl refl job_run

abbrev failing : TorrentConfig → Result Bytes (Unit {0})
failing tc = err (codes "disk full")

abbrev creating : TorrentConfig → Result Bytes (Unit {0})
creating tc = ok tt

success_run : (execute_job creating host new_loader rules none 0 job).success ≡ true
unfolding execute_job
success_run = rw job_run refl

execute_job-success_example :
    (tc : TorrentConfig) × IsCreated host new_loader rules none 0 job creating tc
execute_job-success_example =
    execute_job-success host new_loader rules none 0 job creating success_run

abbrev nothing : BatchResult
nothing = record { job_index = 0; job_name = []; success = false; error_message = [] }

abbrev result : BatchResult
result = execute_job failing host new_loader rules none 0 job

abbrev ended :
    (s : Pool BatchResult) × Run
      (λ idx o. o ≡ execute_at failing host new_loader rules none job (job ∷ []) idx)
      1
      1
      (init nothing)
      4
      s
ended = (
  _,
  later
      (later
        (later (later here (fetch 0 (omega arith) refl))
          (store 0 0 result (omega arith) refl (omega arith) refl))
        (fetch 0 (omega arith) refl))
      (leave 0 1 (omega arith) refl (omega arith)),
)

ended-IsDone : IsDone 1 ended.0
ended-IsDone ℕ.zero lt = refl
ended-IsDone (ℕ.suc i) lt = absurd (omega (arith, lt))

run_lem_example :
    table_from ended.0.results 0 1 ≡ execute_all failing host new_loader rules none 0 (job ∷ [])
unfolding actual_workers
run_lem_example =
    run_lem failing host new_loader rules none job (job ∷ []) 2 3 (omega arith) ended.1 ended-IsDone
