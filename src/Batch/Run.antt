-- ===== src/Batch/Run.antt =====
-- `run` and `print_summary` of src/batch.cpp: the worker threads over the jobs.
use torrent_builder.Common.{
  ℕ, suc, ◌+◌, ◌≤◌, ◌<◌, ◌≡◌, refl, ap₂, ◌∙◌, arith, Bytes, List, [], ◌∷◌, Option, Result, length,
  get_or,
}
use torrent_builder.Preset.{PresetLoader}
use torrent_builder.Rules.Matching.{TrackerRulesDatabase}
use torrent_builder.Batch.{BatchJob, BatchResult, TorrentConfig}
use torrent_builder.Batch.Config.{Host}
use torrent_builder.Batch.Execute.{execute_job, counts}
use torrent_builder.Batch.Pool.{Pool, Run, init, actual_workers, IsDone, table_from}
use torrent_builder.Batch.Pool.Results.{run_refines_sequential}

module _ (create_torrent : TorrentConfig → Result Bytes (Unit {0})) (host : Host)
    (presets : PresetLoader) (rules : TrackerRulesDatabase) (output_dir : Option Bytes) where
  -- `execute_job(idx, presets, rules)`, where `dummy` stands for the element past the end.
  abbrev pub execute_at : BatchJob → List BatchJob → ℕ → BatchResult
  execute_at dummy jobs idx =
      execute_job create_torrent host presets rules output_dir idx (get_or jobs idx dummy)

  -- The jobs one after the other.
  abbrev pub execute_all : ℕ → List BatchJob → List BatchResult
  execute_all from [] = []
  execute_all from (job ∷ jobs) =
      execute_job create_torrent host presets rules output_dir from job
      ∷ execute_all (suc from) jobs

  execute_all_table :
      (g : ℕ → BatchResult) (dummy : BatchJob) (from : ℕ) (jobs : List BatchJob)
      → ((i : ℕ)
          → i < length jobs
          → g (from + i)
            ≡ execute_job create_torrent host presets rules output_dir
                (from + i)
                (get_or jobs i dummy))
      → table_from g from (length jobs) ≡ execute_all from jobs
  execute_all_table g dummy from [] h = refl
  execute_all_table g dummy from (job ∷ jobs) h =
      ap₂ ◌∷◌ (first (from + 0) (omega arith) (h 0 (omega arith))) (
        execute_all_table g dummy (suc from) jobs
          (λ i lt. next (from + suc i) i (omega arith) (h (suc i) (omega (arith, lt)))))
    where
      first :
          (n : ℕ)
          → n ≡ from
          → g n ≡ execute_job create_torrent host presets rules output_dir n job
          → g from ≡ execute_job create_torrent host presets rules output_dir from job
      first n e p = rw (← e) p

      next :
          (n i : ℕ)
          → n ≡ suc from + i
          → g n ≡ execute_job create_torrent host presets rules output_dir n (get_or jobs i dummy)
          → g (suc from + i)
            ≡ execute_job create_torrent host presets rules output_dir
                (suc from + i)
                (get_or jobs i dummy)
      next n i e p = rw (← e) p

  -- With at least one worker and whatever number of cores, when all threads that `run` starts have
  -- left the loop its results are those of executing the jobs one after the other, whatever the
  -- interleaving, if a job's result depends on nothing but its index and the job.
  pub run_lem :
      (dummy : BatchJob) (jobs : List BatchJob) (hardware_concurrency workers : ℕ) {n : ℕ}
      {r : BatchResult} {t : Pool BatchResult}
      → 1 ≤ workers
      → Run
          (λ idx o. o ≡ execute_at dummy jobs idx)
          (length jobs)
          (actual_workers hardware_concurrency workers (length jobs))
          (init r)
          n
          t
      → IsDone (actual_workers hardware_concurrency workers (length jobs)) t
      → table_from t.results 0 (length jobs) ≡ execute_all 0 jobs
  run_lem dummy jobs hardware_concurrency workers positive run done =
      run_refines_sequential (execute_at dummy jobs) hardware_concurrency workers (length jobs)
        positive run done
      ∙ execute_all_table (execute_at dummy jobs) dummy 0 jobs (λ i lt. at (0 + i) i (omega arith))
    where
      at :
          (n i : ℕ)
          → n ≡ i
          → execute_at dummy jobs n
            ≡ execute_job create_torrent host presets rules output_dir n (get_or jobs i dummy)
      at n i e = rw e refl

-- Each result is counted once, as succeeded or as failed.
pub counts_total : (rs : List BatchResult) → (counts rs).0 + (counts rs).1 ≡ length rs
unfolding counts
counts_total [] = refl
counts_total (r ∷ rs) = ground (arith, counts_total rs)
