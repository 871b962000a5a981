-- ===== src/Batch/Pool.antt =====
-- The worker threads of `BatchProcessor::run` in src/batch.cpp, interleaved in any order.
pub mod Family
pub mod Invariant
pub mod Progress
pub mod Results
mod Examples
use torrent_builder.Common.{
  ℕ, suc, ◌+◌, ◌*◌, ◌≤◌, ◌<◌, ◌≡◌, List, [], ◌∷◌, Bool, ◌&&◌, ltb, if◌then◌else◌,
}
use torrent_builder.Batch.Pool.Family.{update}

-- `std::min`
abbrev smaller : ℕ → ℕ → ℕ
smaller a b = if ltb b a then b else a

-- `actual_workers`, for the number that `std::thread::hardware_concurrency` returns.
unfoldable pub actual_workers : ℕ → ℕ → ℕ → ℕ
actual_workers hardware_concurrency workers jobs =
    let max_workers = hardware_concurrency * 2 in
    let wanted = smaller workers jobs in
    if ltb max_workers wanted && ltb 0 max_workers then max_workers else wanted

-- Where a thread stands in the loop of `worker`.
pub data Worker : Type 0 where
  ready : Worker  -- at the head of the loop
  fetched : (idx : ℕ) → Worker  -- behind `fetch_add`, with the index that it returned
  stopped : Worker  -- behind the loop

-- What the threads share, and where each of them stands.
pub record Pool (R : Type 0) : Type 0 where
  pub next_job : ℕ
  pub workers : ℕ → Worker
  pub results : ℕ → R

module _ {R : Type 0} (Outcome : ℕ → R → Type 0) (jobs threads : ℕ) where
  -- One step of one thread: `fetch_add` is one access to shared memory, and so is the assignment to
  -- `results[idx]` of a result that `execute_job(idx, …)` may have.
  pub data Step (s : Pool R) : Pool R → Type 0 where
    fetch :
        (i : ℕ)
        → i < threads
        → s.workers i ≡ ready
        → Step s (record {
          next_job = s.next_job + 1;
          workers = update s.workers i (fetched s.next_job);
          results = s.results;
        })
    leave :
        (i idx : ℕ)
        → i < threads
        → s.workers i ≡ fetched idx
        → jobs ≤ idx
        → Step s (record {
          next_job = s.next_job;
          workers = update s.workers i stopped;
          results = s.results;
        })
    store :
        (i idx : ℕ) (r : R)
        → i < threads
        → s.workers i ≡ fetched idx
        → idx < jobs
        → Outcome idx r
        → Step s (record {
          next_job = s.next_job;
          workers = update s.workers i ready;
          results = update s.results idx r;
        })

  -- So many steps lead from one state to the other.
  pub data Run (s : Pool R) : ℕ → Pool R → Type 0 where
    here : Run s 0 s
    later : {n : ℕ} {t u : Pool R} → Run s n t → Step t u → Run s (suc n) u

-- The state in which the threads start, with the results that the vector is filled with.
abbrev pub init : {R : Type 0} → R → Pool R
init r = record { next_job = 0; workers = λ _. ready; results = λ _. r }

-- Every thread can be joined.
abbrev pub IsDone : {R : Type 0} → ℕ → Pool R → Type 0
IsDone threads s = (i : ℕ) → i < threads → s.workers i ≡ stopped

-- The elements `f 0` to `f (n - 1)`.
abbrev pub table_from : {R : Type 0} → (ℕ → R) → ℕ → ℕ → List R
table_from f from ℕ.zero = []
table_from f from (suc n) = f from ∷ table_from f (suc from) n
