-- ===== src/Batch/Pool/Results.antt =====
-- What `BatchProcessor::run` of src/batch.cpp returns when all threads are joined.
use torrent_builder.Common.{
  ℕ, zero, suc, ◌+◌, ◌*◌, ◌≤◌, ◌<◌, ◌≡◌, ◌≢◌, inl, inr, refl, ap₂, arith, List, ◌∷◌,
}
use torrent_builder.Batch.Pool.{
  Worker, fetched, stopped, Pool, Run, init, actual_workers, IsDone, table_from,
}
use torrent_builder.Batch.Pool.Invariant.{init-Inv, Run-Inv}

-- At least one thread is started when there is a job, and never more threads than jobs.
pub actual_workers_bounds :
    (hardware_concurrency workers jobs : ℕ)
    → 1 ≤ workers
    → (actual_workers hardware_concurrency workers jobs ≤ jobs)
      × (actual_workers hardware_concurrency workers jobs ≤ workers)
      × (1 ≤ jobs → 1 ≤ actual_workers hardware_concurrency workers jobs)
      × (1 ≤ hardware_concurrency
          → actual_workers hardware_concurrency workers jobs ≤ hardware_concurrency * 2)
unfolding actual_workers
actual_workers_bounds hardware_concurrency workers jobs positive = ground arith

table_from_cong :
    {R : Type 0} (f g : ℕ → R) (from n : ℕ)
    → ((i : ℕ) → i < from + n → f i ≡ g i)
    → table_from f from n ≡ table_from g from n
table_from_cong f g from zero h = refl
table_from_cong f g from (suc n) h =
    ap₂ ◌∷◌ (h from (omega arith))
      (table_from_cong f g (suc from) n (λ i lt. h i (omega (arith, lt))))

module _ {R : Type 0} (Outcome : ℕ → R → Type 0) (jobs threads : ℕ) where
  not_held : {w : Worker} {x : ℕ} → w ≡ stopped → w ≢ fetched x
  not_held e f = cc

  -- When all threads have left the loop, and there is one at least, each job's result is a result
  -- that executing this job has, whatever the interleaving.
  pub done-Outcome :
      {n : ℕ} {r : R} {t : Pool R}
      → Run Outcome jobs threads (init r) n t
      → IsDone threads t
      → 1 ≤ threads
      → (idx : ℕ) → idx < jobs
      → Outcome idx (t.results idx)
  done-Outcome {r} {t} run done some idx small = elim (accounted idx reached small) [
    | inl (i, lt, held) ↦ absurd (not_held (done i lt) held)
    | inr out ↦ out
  ]
    where
      open (Run-Inv Outcome jobs threads run (init-Inv Outcome jobs threads r)) use {
        past, accounted,
      }

      reached : idx < t.next_job
      reached = omega (arith, small, past 0 (done 0 (omega (arith, some))))

-- The results of the loop that executes one job after the other.
abbrev pub sequential : {R : Type 0} → (ℕ → R) → ℕ → List R
sequential execute jobs = table_from execute 0 jobs

-- With the number of threads that `run` starts, when all of them have left the loop the vector of
-- results is the one that executing the jobs one after the other gives, whatever the interleaving.
pub run_refines_sequential :
    {R : Type 0} (execute : ℕ → R) (hardware_concurrency workers jobs : ℕ) {n : ℕ} {r : R}
    {t : Pool R}
    → 1 ≤ workers
    → Run
        (λ idx o. o ≡ execute idx)
        jobs
        (actual_workers hardware_concurrency workers jobs)
        (init r)
        n
        t
    → IsDone (actual_workers hardware_concurrency workers jobs) t
    → table_from t.results 0 jobs ≡ sequential execute jobs
run_refines_sequential execute hardware_concurrency workers jobs {t} positive run done =
    table_from_cong t.results execute 0 jobs (λ i lt.
      done-Outcome (λ idx o. o ≡ execute idx) jobs
        (actual_workers hardware_concurrency workers jobs) run done (bounds.2 (omega (arith, lt))) i
        (omega (arith, lt)))
  where
    bounds :
        (actual_workers hardware_concurrency workers jobs ≤ jobs)
        × (actual_workers hardware_concurrency workers jobs ≤ workers)
        × (1 ≤ jobs → 1 ≤ actual_workers hardware_concurrency workers jobs)
        × (1 ≤ hardware_concurrency
            → actual_workers hardware_concurrency workers jobs ≤ hardware_concurrency * 2)
    bounds = actual_workers_bounds hardware_concurrency workers jobs positive
