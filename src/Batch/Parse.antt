-- ===== src/Batch/Parse.antt =====
-- `BatchProcessor::parse` of src/batch.cpp.
use torrent_builder.Common.{
  ◌-◌, ◌*◌, Bytes, List, [], ◌∷◌, ◌++◌, Bool, false, not, ◌||◌, ltb, leb, if◌then◌else◌, Option,
  none, some, Result, ok, err, ◌>>=◌, ◌>>◌, guard, value_or, codes, length, drop, bytes_eq,
}
use torrent_builder.Text.{to_lower}
use torrent_builder.Yaml.{ℤ, pos, negsuc, Yaml, FileSystem, optional_field}
use torrent_builder.Preset.{ConfigValues, parse_yaml_config, check_version}
use torrent_builder.Batch.{BatchJob, BatchConfig}

-- `.torrent` is added to a name that does not end in it.
unfoldable pub with_extension : Bytes → Bytes
with_extension out =
    if ltb (length out) 8
      || not (bytes_eq (to_lower (drop (length out - 8) out)) (codes ".torrent"))
    then out ++ codes ".torrent"
    else out

-- `workers < 1` throws.
unfoldable pub positive : ℤ → Bool
positive (pos n) = leb 1 n
positive (negsuc n) = false

-- A name that the value gives, where there is one.
unfoldable pub output_name : Option Bytes → Option Bytes
unfolding with_extension
output_name none = none
output_name (some out) = some (with_extension out)

-- `cv.path.value()`, behind the test.
unfoldable pub job_path : Option Bytes → Result Bytes Bytes
job_path none = err (codes "Each batch job must have a 'path' field")
job_path (some path) = ok path

module _ (yaml : Yaml) where
  unfoldable pub parse_job_node : yaml.Node → Result Bytes ConfigValues
  parse_job_node node = do
    cv ← parse_yaml_config yaml node
    path ← optional_field yaml yaml.as_string node (codes "path")
    output ← optional_field yaml yaml.as_string node (codes "output")
    ok (record cv { path = path; output = output })

  -- One round of the loop over the jobs.
  unfoldable pub parse_job : yaml.Node → Result Bytes BatchJob
  unfolding parse_job_node job_path output_name
  parse_job node = do
    values ← parse_job_node node
    path ← job_path values.path
    output ← optional_field yaml yaml.as_string node (codes "output")
    preset ← optional_field yaml yaml.as_string node (codes "preset")
    fail ← optional_field yaml yaml.as_bool node (codes "fail_on_season_warning")
    ok (record {
      path = path;
      output = output_name output;
      preset = preset;
      fail_on_season_warning = value_or fail false;
      values = values;
    })

  unfoldable pub parse_jobs : List yaml.Node → Result Bytes (List BatchJob)
  unfolding parse_job
  parse_jobs [] = ok []
  parse_jobs (node ∷ nodes) = do job ← parse_job node; jobs ← parse_jobs nodes; ok (job ∷ jobs)

  -- `IsSequence` says whether a node is a list.
  unfoldable pub job_nodes : (yaml.Node → Bool) → Option yaml.Node → Result Bytes (List yaml.Node)
  job_nodes is_sequence none = err (codes "Batch file must contain a 'jobs' list")
  job_nodes is_sequence (some node) =
      guard (is_sequence node) (codes "Batch file must contain a 'jobs' list") >>= λ _.
      ok (yaml.items node)

  unfoldable pub parse_root : (yaml.Node → Bool) → yaml.Node → Result Bytes BatchConfig
  unfolding parse_jobs positive job_nodes
  parse_root is_sequence root = do
    check_version yaml (codes "Unsupported batch file version (expected: 1)") root
    found_workers ← optional_field yaml yaml.as_int root (codes "workers")
    guard (positive (value_or found_workers (pos 1))) (codes "Workers must be >= 1")
    preset_file ← optional_field yaml yaml.as_string root (codes "preset_file")
    rules_file ← optional_field yaml yaml.as_string root (codes "rules_file")
    output_dir ← optional_field yaml yaml.as_string root (codes "output_dir")
    found_jobs ← yaml.get root (codes "jobs")
    nodes ← job_nodes is_sequence found_jobs
    jobs ← parse_jobs nodes
    ok (record {
      workers = value_or found_workers (pos 1);
      preset_file = preset_file;
      rules_file = rules_file;
      output_dir = output_dir;
      jobs = jobs;
    })

  unfoldable pub parse : FileSystem → (yaml.Node → Bool) → Bytes → Result Bytes BatchConfig
  unfolding parse_root
  parse files is_sequence yaml_path = do
    guard (files.exists yaml_path) (codes "Batch file not found: " ++ yaml_path)
    size ← files.file_size yaml_path
    guard (not (ltb (1024 * 1024) size)) (codes "Batch file too large (max 1 MB): " ++ yaml_path)
    root ← yaml.load_file yaml_path
    parse_root is_sequence root
