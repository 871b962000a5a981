-- ===== src/Batch/Laws.antt =====
-- What a job of src/batch.cpp does.
use torrent_builder.Common.{
  ℕ, ◌*◌, ◌^◌, List, ◌∷◌, All, ◌==◌, ==_iff, Bool-cases, inl, inr, arith, ◌<◌, ◌≡◌, ◌≤◌, refl, ◌∙◌,
  subst, Bytes, [], true, Option, none, some, Result, ok, err, ◌>>=◌, Always, Always->>=, Always-ok,
  value_or, codes,
}
use torrent_builder.PieceSize.{allowed_piece_sizes, contains}
use torrent_builder.SeasonPack.Analyze.{analyze}
use torrent_builder.SeasonPack.Gaps.{is_in}
use torrent_builder.SeasonPack.Laws.{evaluate_season_warning_complete}
use torrent_builder.Text.{starts_with}
use torrent_builder.Yaml.{pos}
use torrent_builder.Rules.Matching.{TrackerRulesDatabase}
use torrent_builder.Preset.{ConfigValues, PresetLoader}
use torrent_builder.SeasonPack.Warning.{evaluate_season_warning}
use torrent_builder.Batch.{BatchJob, TorrentConfig}
use torrent_builder.Batch.Config.{Host, build_torrent_config, output_path, piece_size_bytes}
use torrent_builder.Batch.Kept.{
  IsFinal, final_values-IsKept, job_values-output, job_values-piece_size,
}
use torrent_builder.Batch.Execute.{job_values, final_values, job_config, job_result, execute_job}
use torrent_builder.Batch.Built.{
  IsAllowedSize, piece_size_bytes-IsAllowedSize, itself, piece_size_bytes_lem, output_path_lem,
  IsBuilt, build_torrent_config-IsBuilt,
}

-- An automatic size, or a power of two from 2^14 to 2^25.
abbrev pub IsPowerSize : Option ℕ → Type 0
IsPowerSize none = Unit
IsPowerSize (some bytes) = (k : ℕ) × (14 ≤ k) × (k ≤ 25) × (bytes ≡ 2 ^ k)

abbrev IsPowerOf : ℕ → Type 0
IsPowerOf kb = (k : ℕ) × (14 ≤ k) × (k ≤ 25) × (kb * 1024 ≡ 2 ^ k)

contains-IsPowerOf :
    (kbs : List ℕ) (kb : ℕ) → All IsPowerOf kbs → contains kbs kb ≡ true → IsPowerOf kb
contains-IsPowerOf [] kb h m = cc
contains-IsPowerOf (k ∷ kbs) kb (h, hs) m = elim (Bool-cases (k == kb)) [
  | inl same ↦ subst IsPowerOf ((==_iff k kb).0 same) h
  | inr different ↦ contains-IsPowerOf kbs kb hs (rw different at m)
]

power : (kb k : ℕ) → 14 ≤ k → k ≤ 25 → kb * 1024 ≡ 2 ^ k → IsPowerOf kb
power kb k lo hi e = (k, lo, hi, e)

allowed-IsPowerOf : All IsPowerOf allowed_piece_sizes
allowed-IsPowerOf = (
  power 16 14 (omega arith) (omega arith) refl,
  (
    power 32 15 (omega arith) (omega arith) refl,
    (
      power 64 16 (omega arith) (omega arith) refl,
      (
        power 128 17 (omega arith) (omega arith) refl,
        (
          power 256 18 (omega arith) (omega arith) refl,
          (
            power 512 19 (omega arith) (omega arith) refl,
            (
              power 1024 20 (omega arith) (omega arith) refl,
              (
                power 2048 21 (omega arith) (omega arith) refl,
                (
                  power 4096 22 (omega arith) (omega arith) refl,
                  (
                    power 8192 23 (omega arith) (omega arith) refl,
                    (
                      power 16384 24 (omega arith) (omega arith) refl,
                      (power 32768 25 (omega arith) (omega arith) refl, tt),
                    ),
                  ),
                ),
              ),
            ),
          ),
        ),
      ),
    ),
  ),
)

allowed-IsPowerSize : (size : Option ℕ) → IsAllowedSize size → IsPowerSize size
allowed-IsPowerSize none h = tt
allowed-IsPowerSize (some bytes) (kb, allowed, same) =
    let (k, lo, hi, e) = contains-IsPowerOf allowed_piece_sizes kb allowed-IsPowerOf allowed in
    (k, lo, hi, same ∙ e)

-- The values that the configuration comes from, and the check that it passed.
record IsConfigured (host : Host) (presets : PresetLoader) (rules : TrackerRulesDatabase)
    (output_dir : Option Bytes) (job_index : ℕ) (job : BatchJob) (tc : TorrentConfig) : Type 0 where
  cv : ConfigValues
  resolved : final_values host presets rules job_index job ≡ ok cv
  built : IsBuilt host cv (value_or output_dir []) tc
  passed : evaluate_season_warning host.directory tc.path job.fail_on_season_warning ≡ none

module _ (host : Host) (presets : PresetLoader) (rules : TrackerRulesDatabase)
    (output_dir : Option Bytes) (job_index : ℕ) (job : BatchJob) where
  checked :
      (cv : ConfigValues)
      → final_values host presets rules job_index job ≡ ok cv
      → (tc : TorrentConfig) → IsBuilt host cv (value_or output_dir []) tc
      → (warning : Option Bytes)
      → evaluate_season_warning host.directory tc.path job.fail_on_season_warning ≡ warning
      → Always
          (IsConfigured host presets rules output_dir job_index job)
          (elim warning [ some e ↦ err e | none ↦ ok (record tc { silent = true }) ])
  checked cv resolved tc built none passed = record {
    cv = cv;
    resolved = resolved;
    built = record {
      has_path = built.has_path;
      found = built.found;
      placed = built.placed;
      sized = built.sized;
    };
    passed = passed;
  }
  checked cv resolved tc built (some e) passed = tt

  job_config-IsConfigured :
      Always
        (IsConfigured host presets rules output_dir job_index job)
        (job_config host presets rules output_dir job_index job)
  unfolding job_config
  job_config-IsConfigured =
      Always->>= (λ cv. final_values host presets rules job_index job ≡ ok cv) _
        (final_values host presets rules job_index job) _
        (itself (final_values host presets rules job_index job))
        (λ cv resolved.
          Always->>= (IsBuilt host cv (value_or output_dir [])) _
            (build_torrent_config host cv (value_or output_dir [])) _
            (build_torrent_config-IsBuilt host cv (value_or output_dir []))
            (λ tc built.
              checked cv resolved tc built
                (evaluate_season_warning host.directory tc.path job.fail_on_season_warning) refl))

  configured :
      {tc : TorrentConfig}
      → job_config host presets rules output_dir job_index job ≡ ok tc
      → IsConfigured host presets rules output_dir job_index job tc
  configured accepted =
      Always-ok (IsConfigured host presets rules output_dir job_index job)
        (job_config host presets rules output_dir job_index job) job_config-IsConfigured accepted

  -- A torrent is created with an automatic piece size or with an allowed one.
  pub job_config-IsAllowedSize :
      {tc : TorrentConfig}
      → job_config host presets rules output_dir job_index job ≡ ok tc
      → IsAllowedSize tc.piece_size
  job_config-IsAllowedSize {tc} accepted =
      let c : IsConfigured host presets rules output_dir job_index job tc = configured accepted in
      Always-ok IsAllowedSize (piece_size_bytes c.cv.piece_size)
        (piece_size_bytes-IsAllowedSize c.cv.piece_size) c.built.sized

  come_from :
      (tc : TorrentConfig)
      → (c : IsConfigured host presets rules output_dir job_index job tc) → IsFinal presets job c.cv
  come_from tc c =
      Always-ok (IsFinal presets job) (final_values host presets rules job_index job)
        (final_values-IsKept host presets rules job_index job) c.resolved

  kept_size :
      (kb : ℕ) (tc : TorrentConfig)
      → 0 < kb
      → job.values.piece_size ≡ some (pos kb)
      → IsConfigured host presets rules output_dir job_index job tc
      → tc.piece_size ≡ some (kb * 1024)
  kept_size kb tc positive given c =
      Always-ok (λ p. p ≡ some (kb * 1024)) (piece_size_bytes c.cv.piece_size)
        (rw same (piece_size_bytes_lem kb positive)) c.built.sized
    where
      final : IsFinal presets job c.cv
      final = come_from tc c

      same : c.cv.piece_size ≡ some (pos kb)
      same = final.kept.same_size kb positive (
          Always-ok (λ cv. cv.piece_size ≡ some (pos kb)) (job_values presets job)
            (job_values-piece_size presets job (pos kb) given) final.found)

  kept_output :
      (named : Bytes) (tc : TorrentConfig)
      → job.values.output ≡ some named
      → starts_with named (codes "/") ≡ true
      → IsConfigured host presets rules output_dir job_index job tc
      → tc.output ≡ named
  kept_output named tc given absolute c =
      Always-ok (λ o. o ≡ named) (output_path host c.cv tc.path (value_or output_dir []))
        (output_path_lem host c.cv tc.path (value_or output_dir []) named same absolute)
        c.built.placed
    where
      final : IsFinal presets job c.cv
      final = come_from tc c

      same : c.cv.output ≡ some named
      same =
          final.kept.same_output
          ∙ Always-ok (λ cv. cv.output ≡ some named) (job_values presets job)
              (job_values-output presets job named given) final.found

  -- A positive piece size that the job gives is the one that the torrent is created with, whatever
  -- the rule of its tracker says.
  pub job_config-piece_size :
      (kb : ℕ) {tc : TorrentConfig}
      → 0 < kb
      → job.values.piece_size ≡ some (pos kb)
      → job_config host presets rules output_dir job_index job ≡ ok tc
      → tc.piece_size ≡ some (kb * 1024)
  job_config-piece_size kb {tc} positive given accepted =
      kept_size kb tc positive given (configured accepted)

  -- An absolute path that the job's values give as output is where the torrent is written as it is,
  -- with or without the extension, whatever output with the extension the job itself holds.
  pub job_config-output :
      (named : Bytes) {tc : TorrentConfig}
      → job.values.output ≡ some named
      → starts_with named (codes "/") ≡ true
      → job_config host presets rules output_dir job_index job ≡ ok tc
      → tc.output ≡ named
  job_config-output named {tc} given absolute accepted =
      kept_output named tc given absolute (configured accepted)

  -- The torrent is created of a path that exists, with an allowed piece size, and the season pack is
  -- complete where the job asks for this.
  abbrev pub IsCreated : (TorrentConfig → Result Bytes (Unit {0})) → TorrentConfig → Type 0
  IsCreated create_torrent tc =
      (create_torrent tc ≡ ok tt)
      × (host.files.exists tc.path ≡ true)
      × IsPowerSize tc.piece_size
      × (job.fail_on_season_warning ≡ true
          → host.directory.is_directory tc.path ≡ true
          → (analyze host.directory tc.path).is_season_pack ≡ true
          → (x : ℕ) → 1 ≤ x
          → x ≤ (analyze host.directory tc.path).max_episode
          → is_in x (analyze host.directory tc.path).episodes ≡ true)

  by_outcome :
      (create_torrent : TorrentConfig → Result Bytes (Unit {0})) (tc : TorrentConfig)
      → job_config host presets rules output_dir job_index job ≡ ok tc
      → (m : Result Bytes (Unit {0})) → create_torrent tc ≡ m
      → (job_result job_index job m).success ≡ true
      → IsCreated create_torrent tc
  unfolding job_result
  by_outcome create_torrent tc accepted (err message) made success = cc
  by_outcome create_torrent tc accepted (ok done) made success =
      let c : IsConfigured host presets rules output_dir job_index job tc = configured accepted in
      (
        made,
        c.built.found,
        allowed-IsPowerSize tc.piece_size (job_config-IsAllowedSize accepted),
        λ fail is_dir pack.
            (evaluate_season_warning_complete host.directory tc.path is_dir pack).0
              (subst (λ b. evaluate_season_warning host.directory tc.path b ≡ none) fail c.passed),
      )

  by_config :
      (create_torrent : TorrentConfig → Result Bytes (Unit {0}))
      → (m : Result Bytes TorrentConfig)
      → job_config host presets rules output_dir job_index job ≡ m
      → (job_result job_index job (m >>= create_torrent)).success ≡ true
      → (tc : TorrentConfig) × IsCreated create_torrent tc
  unfolding job_result
  by_config create_torrent (err e) refused success = cc
  by_config create_torrent (ok tc) accepted success =
      (tc, by_outcome create_torrent tc accepted (create_torrent tc) refl success)

  -- A job that succeeds has created a torrent of a path that exists, with an automatic piece size or one
  -- that is a power of two from 2^14 to 2^25 bytes. If the job fails on a season warning, and the path is
  -- a directory that is a season pack, then every episode up to the highest one was found.
  pub execute_job-success :
      (create_torrent : TorrentConfig → Result Bytes (Unit {0}))
      → (execute_job create_torrent host presets rules output_dir job_index job).success ≡ true
      → (tc : TorrentConfig) × IsCreated create_torrent tc
  unfolding execute_job
  execute_job-success create_torrent success =
      by_config create_torrent (job_config host presets rules output_dir job_index job) refl success
