-- ===== src/Batch/Valid.antt =====
-- What a parsed batch file of src/batch.cpp promises.
use torrent_builder.Common.{
  ℕ, ◌+◌, ◌-◌, ◌*◌, ◌≤◌, ◌≡◌, refl, arith, Bytes, List, [], ◌∷◌, ◌++◌, Bool, true, false, not, ◌||◌,
  ltb, Bool-cases, inl, inr, Option, none, some, ok, guard, All, Always, Always->>=, Always-any,
  Always-ok, codes, length, drop, length-append, drop-length-append, bytes_eq, value_or,
}
use torrent_builder.Text.{to_lower, tolower}
use torrent_builder.Yaml.{pos, Yaml, FileSystem, optional_field}
use torrent_builder.Preset.{parse_yaml_config, check_version}
use torrent_builder.Preset.Parse.{HasValidUrls, parse_yaml_config-HasValidUrls}
use torrent_builder.Batch.{BatchJob, BatchConfig}
use torrent_builder.Batch.Parse.{
  with_extension, positive, output_name, job_path, parse_job_node, parse_job, parse_jobs, job_nodes,
  parse_root, parse,
}

-- The name ends in `.torrent`, in any case.
abbrev pub IsTorrentName : Bytes → Type 0
IsTorrentName out =
    (8 ≤ length out) × (bytes_eq (to_lower (drop (length out - 8) out)) (codes ".torrent") ≡ true)

appended : (out : Bytes) → IsTorrentName (out ++ codes ".torrent")
unfolding to_lower tolower
appended out = (
  omega (arith, length-append out (codes ".torrent")),
  rw
      (
        length-append out (codes ".torrent"),
        same (length out),
        drop-length-append out (codes ".torrent"),
      )
      refl,
)
  where
    same : (n : ℕ) → n + 8 - 8 ≡ n
    same n = omega arith

kept :
    (out : Bytes)
    → (ltb (length out) 8
        || not (bytes_eq (to_lower (drop (length out - 8) out)) (codes ".torrent")))
      ≡ false
    → IsTorrentName out
kept out h = ground arith

with_extension-IsTorrentName : (out : Bytes) → IsTorrentName (with_extension out)
unfolding with_extension
with_extension-IsTorrentName out =
    elim (Bool-cases (
      ltb (length out) 8
      || not (bytes_eq (to_lower (drop (length out - 8) out)) (codes ".torrent")))) [
        | inl without ↦ rw without (appended out)
        | inr with_it ↦ rw with_it (kept out with_it)
      ]

abbrev pub IsNamed : Option Bytes → Type 0
IsNamed none = Unit
IsNamed (some out) = IsTorrentName out

output_name-IsNamed : (output : Option Bytes) → IsNamed (output_name output)
unfolding output_name
output_name-IsNamed none = tt
output_name-IsNamed (some out) = with_extension-IsTorrentName out

pub record IsValidJob (job : BatchJob) : Type 0 where
  pub has_path : job.values.path ≡ some job.path
  pub named : IsNamed job.output
  pub valid_urls : HasValidUrls job.values

-- At least one worker, and valid jobs.
abbrev pub IsValidBatch : BatchConfig → Type 0
IsValidBatch config = (positive config.workers ≡ true) × All IsValidJob config.jobs

module _ (yaml : Yaml) where
  parse_job_node-HasValidUrls : (node : yaml.Node) → Always HasValidUrls (parse_job_node yaml node)
  unfolding parse_job_node
  parse_job_node-HasValidUrls node =
      Always->>= HasValidUrls HasValidUrls (parse_yaml_config yaml node) _
        (parse_yaml_config-HasValidUrls yaml node)
        (λ cv valid.
          Always-any _ (optional_field yaml yaml.as_string node (codes "path")) _ (λ path.
            Always-any _ (optional_field yaml yaml.as_string node (codes "output")) _
              (λ output. valid)))

  job_path-some : (path : Option Bytes) → Always (λ p. path ≡ some p) (job_path path)
  unfolding job_path
  job_path-some none = tt
  job_path-some (some path) = refl

  parse_job-IsValidJob : (node : yaml.Node) → Always IsValidJob (parse_job yaml node)
  unfolding parse_job
  parse_job-IsValidJob node =
      Always->>= HasValidUrls IsValidJob (parse_job_node yaml node) _
        (parse_job_node-HasValidUrls node)
        (λ values valid.
          Always->>= (λ p. values.path ≡ some p) IsValidJob (job_path values.path) _
            (job_path-some values.path)
            (λ path found.
              Always-any _ (optional_field yaml yaml.as_string node (codes "output")) _ (λ output.
                Always-any _ (optional_field yaml yaml.as_string node (codes "preset")) _ (λ preset.
                  Always-any _
                    (optional_field yaml yaml.as_bool node (codes "fail_on_season_warning")) _
                    (λ fail. record {
                      has_path = found;
                      named = output_name-IsNamed output;
                      valid_urls = valid;
                    })))))

  parse_jobs-All : (nodes : List yaml.Node) → Always (All IsValidJob) (parse_jobs yaml nodes)
  unfolding parse_jobs
  parse_jobs-All [] = tt
  parse_jobs-All (node ∷ nodes) =
      Always->>= IsValidJob _ (parse_job yaml node) _ (parse_job-IsValidJob node) (λ job valid.
        Always->>= (All IsValidJob) _ (parse_jobs yaml nodes) _ (parse_jobs-All nodes)
          (λ jobs all. (valid, all)))

  guard-true : (b : Bool) (e : Bytes) → Always (λ _. b ≡ true) (guard b e)
  guard-true true e = refl
  guard-true false e = tt

  parse_root-IsValidBatch :
      (is_sequence : yaml.Node → Bool) (root : yaml.Node)
      → Always IsValidBatch (parse_root yaml is_sequence root)
  unfolding parse_root
  parse_root-IsValidBatch is_sequence root = Always-any _ (check_version yaml _ root) _ (λ _.
      Always-any _ (optional_field yaml yaml.as_int root (codes "workers")) _ (λ workers.
        Always->>= (λ _. positive (value_or workers (pos 1)) ≡ true) _
          (guard (positive (value_or workers (pos 1))) _) _ (guard-true _ _)
          (λ _ some_worker.
            Always-any _ (optional_field yaml yaml.as_string root (codes "preset_file")) _
              (λ preset_file.
                Always-any _ (optional_field yaml yaml.as_string root (codes "rules_file")) _
                  (λ rules_file.
                    Always-any _ (optional_field yaml yaml.as_string root (codes "output_dir")) _
                      (λ output_dir. Always-any _ (yaml.get root (codes "jobs")) _ (λ found.
                        Always-any _ (job_nodes yaml is_sequence found) _ (λ nodes.
                          Always->>= (All IsValidJob) _ (parse_jobs yaml nodes) _
                            (parse_jobs-All nodes) (λ jobs all. (some_worker, all))))))))))

  parse-Always :
      (files : FileSystem) (is_sequence : yaml.Node → Bool) (yaml_path : Bytes)
      → Always IsValidBatch (parse yaml files is_sequence yaml_path)
  unfolding parse
  parse-Always files is_sequence yaml_path = Always-any _ (guard (files.exists yaml_path) _) _ (λ _.
      Always-any _ (files.file_size yaml_path) _ (λ size.
        Always-any _ (guard (not (ltb (1024 * 1024) size)) _) _ (λ _.
          Always-any _ (yaml.load_file yaml_path) _
            (λ root. parse_root-IsValidBatch is_sequence root))))

  -- A batch file that is accepted asks for at least one worker, and each of its jobs has a path, which
  -- its values hold too, valid URLs for trackers and web seeds, and, where it has an output, one that
  -- ends in `.torrent`.
  pub parse-IsValidBatch :
      (files : FileSystem) (is_sequence : yaml.Node → Bool) (yaml_path : Bytes)
      {config : BatchConfig}
      → parse yaml files is_sequence yaml_path ≡ ok config
      → IsValidBatch config
  parse-IsValidBatch files is_sequence yaml_path =
      Always-ok IsValidBatch (parse yaml files is_sequence yaml_path)
        (parse-Always files is_sequence yaml_path)
