-- ===== src/Batch/Pool/Invariant.antt =====
-- What every reachable state of the worker threads of src/batch.cpp satisfies.
use torrent_builder.Common.{
  ℕ, ◌+◌, ◌≤◌, ◌<◌, ◌≡◌, ◌⊎◌, inl, inr, arith, leb, ◌==◌, if◌then◌else◌, Bool-cases, subst, true,
}
use torrent_builder.Batch.Pool.Family.{update, total, total-update, total_bound}
use torrent_builder.Batch.Pool.{
  Worker, ready, fetched, stopped, Pool, Step, fetch, leave, store, Run, here, later, init,
}

-- A thread that has been told to leave the loop has taken an index past the last job.
abbrev pub overrun : ℕ → Worker → ℕ
overrun jobs ready = 0
overrun jobs (fetched idx) = if leb jobs idx then 1 else 0
overrun jobs stopped = 1

same_number : (x idx : ℕ) → x == idx ≡ true → idx ≡ x
same_number x idx e = ground arith

overrun_le : (jobs : ℕ) (w : Worker) → overrun jobs w ≤ 1
overrun_le jobs w = ground arith

module _ {R : Type 0} (Outcome : ℕ → R → Type 0) (jobs threads : ℕ) where
  -- The job is with a thread that has not stored its result, or its result is there.
  abbrev pub IsAccounted : Pool R → ℕ → Type 0
  IsAccounted s idx =
      ((i : ℕ) × (i < threads) × (s.workers i ≡ fetched idx)) ⊎ Outcome idx (s.results idx)

  pub record Inv (s : Pool R) : Type 0 where
    pub known : (i x : ℕ) → s.workers i ≡ fetched x → x < s.next_job
    pub past : (i : ℕ) → s.workers i ≡ stopped → jobs < s.next_job
    pub unique : (i j x : ℕ) → s.workers i ≡ fetched x → s.workers j ≡ fetched x → i ≡ j
    pub accounted : (x : ℕ) → x < s.next_job → x < jobs → IsAccounted s x
    pub bounded : s.next_job ≤ jobs + total (overrun jobs) threads s.workers

  pub init-Inv : (r : R) → Inv (init r)
  init-Inv r = record {
    known = λ i x e. cc;
    past = λ i e. cc;
    unique = λ i j x e f. cc;
    accounted = λ x lt _. absurd (omega (arith, lt));
    bounded = omega arith;
  }

  module _ {s : Pool R} (inv : Inv s) (i : ℕ) (lt : i < threads) where
    open inv use {known, past, unique, accounted, bounded}

    fetch-IsAccounted :
        s.workers i ≡ ready
        → (x : ℕ) → x < s.next_job + 1
        → x < jobs
        → IsAccounted
            (record {
              next_job = s.next_job + 1;
              workers = update s.workers i (fetched s.next_job);
              results = s.results;
            })
            x
    fetch-IsAccounted e x le small = elim (Bool-cases (x == s.next_job)) [
      | inl new ↦ inl (i, lt, ground arith)
      | inr old ↦ elim (accounted x (ground arith) small) [
        | inl (j, below, held) ↦ inl (j, below, ground arith)
        | inr out ↦ inr out
      ]
    ]

    leave-IsAccounted :
        {idx : ℕ}
        → s.workers i ≡ fetched idx
        → jobs ≤ idx
        → (x : ℕ) → x < s.next_job
        → x < jobs
        → IsAccounted
            (record {
              next_job = s.next_job;
              workers = update s.workers i stopped;
              results = s.results;
            })
            x
    leave-IsAccounted e big x le small = elim (accounted x le small) [
      | inl (j, below, held) ↦ inl (j, below, ground arith)
      | inr out ↦ inr out
    ]

    store-IsAccounted :
        {idx : ℕ} {r : R}
        → s.workers i ≡ fetched idx
        → Outcome idx r
        → (x : ℕ) → x < s.next_job
        → x < jobs
        → IsAccounted
            (record {
              next_job = s.next_job;
              workers = update s.workers i ready;
              results = update s.results idx r;
            })
            x
    store-IsAccounted {idx} {r} e o x le small = elim (Bool-cases (x == idx)) [
      | inl same ↦ inr (rw same (subst (λ y. Outcome y r) (same_number x idx same) o))
      | inr other ↦ elim (accounted x le small) [
        | inl (j, below, held) ↦ inl (j, below, ground arith)
        | inr out ↦ inr (rw other out)
      ]
    ]

  Step-Inv : {s t : Pool R} → Step Outcome jobs threads s t → Inv s → Inv t
  Step-Inv {s} (fetch i lt e) inv = record {
    known = λ j x f. ground (arith, inv.known j x);
    past = λ j f. ground (arith, inv.past j);
    unique = λ a b x p q.
        ground (arith, inv.unique a b x, inv.known a s.next_job, inv.known b s.next_job);
    accounted = fetch-IsAccounted inv i lt e;
    bounded = ground (
      arith,
      inv.bounded,
      total-update (overrun jobs) threads s.workers i (fetched s.next_job) lt,
    );
  }
  Step-Inv {s} (leave i idx lt e big) inv = record {
    known = λ j x f. ground (arith, inv.known j x);
    past = λ j f. ground (arith, inv.past j, inv.known i idx);
    unique = λ a b x p q. ground (arith, inv.unique a b x);
    accounted = leave-IsAccounted inv i lt e big;
    bounded =
        ground (arith, inv.bounded, total-update (overrun jobs) threads s.workers i stopped lt);
  }
  Step-Inv {s} (store i idx r lt e small o) inv = record {
    known = λ j x f. ground (arith, inv.known j x);
    past = λ j f. ground (arith, inv.past j);
    unique = λ a b x p q. ground (arith, inv.unique a b x);
    accounted = store-IsAccounted inv i lt e o;
    bounded = ground (arith, inv.bounded, total-update (overrun jobs) threads s.workers i ready lt);
  }

  pub Run-Inv : {s : Pool R} {n : ℕ} {t : Pool R} → Run Outcome jobs threads s n t → Inv s → Inv t
  Run-Inv here inv = inv
  Run-Inv (later run step) inv = Step-Inv step (Run-Inv run inv)

  -- In every reachable state, two threads never hold the same index, and so never store into the
  -- same result.
  pub Run-unique :
      {n : ℕ} {r : R} {t : Pool R}
      → Run Outcome jobs threads (init r) n t
      → (i j x : ℕ) → t.workers i ≡ fetched x
      → t.workers j ≡ fetched x
      → i ≡ j
  Run-unique {r} run = (Run-Inv run (init-Inv r)).unique

  -- In every reachable state, `next_job` is at most the number of jobs and of threads together.
  pub next_job_le :
      {n : ℕ} {r : R} {t : Pool R}
      → Run Outcome jobs threads (init r) n t
      → t.next_job ≤ jobs + threads
  next_job_le {r} {t} run = omega (
    arith,
    (Run-Inv run (init-Inv r)).bounded,
    total_bound (overrun jobs) 1 threads t.workers (overrun_le jobs),
  )
