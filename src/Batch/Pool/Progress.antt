-- ===== src/Batch/Pool/Progress.antt =====
-- The worker threads of src/batch.cpp come to their end.
use torrent_builder.Common.{
  ℕ, zero, suc, ◌+◌, ◌-◌, ◌*◌, ◌≤◌, ◌<◌, ◌≡◌, ◌⊎◌, inl, inr, refl, arith, ltb, if◌then◌else◌,
  Bool-cases, false,
}
use torrent_builder.Batch.Pool.Family.{total, total-update, total_even}
use torrent_builder.Batch.Pool.{
  Worker, ready, fetched, stopped, Pool, Step, fetch, leave, store, Run, here, later, init, IsDone,
}

-- The steps that a thread still takes if it fetches no further job.
abbrev pub weight : ℕ → Worker → ℕ
weight jobs ready = 2
weight jobs (fetched idx) = if ltb idx jobs then 3 else 1
weight jobs stopped = 0

-- The steps that are still to be taken.
abbrev pub steps_left : {R : Type 0} → ℕ → ℕ → Pool R → ℕ
steps_left jobs threads s = 2 * (jobs - s.next_job) + total (weight jobs) threads s.workers

module _ {R : Type 0} (Outcome : ℕ → R → Type 0) (jobs threads : ℕ) where
  Step-steps_left :
      {s t : Pool R}
      → Step Outcome jobs threads s t
      → steps_left jobs threads t + 1 ≡ steps_left jobs threads s
  Step-steps_left {s} (fetch i lt e) =
      ground (arith, total-update (weight jobs) threads s.workers i (fetched s.next_job) lt)
  Step-steps_left {s} (leave i idx lt e big) =
      ground (arith, total-update (weight jobs) threads s.workers i stopped lt)
  Step-steps_left {s} (store i idx r lt e small o) =
      ground (arith, total-update (weight jobs) threads s.workers i ready lt)

  pub Run-steps_left :
      {s : Pool R} {n : ℕ} {t : Pool R}
      → Run Outcome jobs threads s n t
      → steps_left jobs threads t + n ≡ steps_left jobs threads s
  Run-steps_left here = omega arith
  Run-steps_left (later run step) = omega (arith, Run-steps_left run, Step-steps_left step)

  init-steps_left : (r : R) → steps_left jobs threads (init r) ≡ 2 * jobs + 2 * threads
  init-steps_left r = omega (arith, total_even (weight jobs) 2 threads (init r).workers (λ i. refl))

  module _ (execute : (idx : ℕ) → idx < jobs → (r : R) × Outcome idx r) where
    -- A thread that has not left the loop can take a step, whatever the others do.
    thread_steps :
        (s : Pool R) (i : ℕ)
        → i < threads
        → (s.workers i ≡ stopped) ⊎ ((t : Pool R) × Step Outcome jobs threads s t)
    thread_steps s i lt = go (s.workers i) refl
      where
        go :
            (w : Worker)
            → s.workers i ≡ w
            → (s.workers i ≡ stopped) ⊎ ((t : Pool R) × Step Outcome jobs threads s t)
        go ready e = inr (_, fetch i lt e)
        go (fetched idx) e = elim (Bool-cases (ltb idx jobs)) [
          | inl small ↦
              let (r, o) = execute idx (ground arith) in
              inr (_, store i idx r lt e (ground arith) o)
          | inr big ↦ inr (_, leave i idx lt e (ground arith))
        ]
        go stopped e = inl e

    some-Step :
        (s : Pool R) (n : ℕ)
        → n ≤ threads
        → ((i : ℕ) → i < n → s.workers i ≡ stopped) ⊎ ((t : Pool R) × Step Outcome jobs threads s t)
    some-Step s zero h = inl (λ i lt. absurd (omega (arith, lt)))
    some-Step s (suc n) h = elim (some-Step s n (omega (arith, h))) [
      | inr step ↦ inr step
      | inl before ↦ elim (thread_steps s n (omega (arith, h))) [
        | inr step ↦ inr step
        | inl last ↦ inl (λ i lt. elim (Bool-cases (ltb i n)) [
          | inl below ↦ before i (ground arith)
          | inr top ↦ rw (the_last i n lt top) last
        ])
      ]
    ]
      where
        the_last : (i n : ℕ) → i < suc n → ltb i n ≡ false → i ≡ n
        the_last i n lt top = ground arith

    -- If every job has a result to store, then after any steps from the start either all threads have
    -- left the loop or one can take a step, and together with the steps still to be taken the steps
    -- taken are two for each job and two for each thread: every interleaving ends.
    pub run_terminates :
        {n : ℕ} {r : R} {t : Pool R}
        → Run Outcome jobs threads (init r) n t
        → (n + steps_left jobs threads t ≡ 2 * jobs + 2 * threads)
          × (IsDone threads t ⊎ ((u : Pool R) × Step Outcome jobs threads t u))
    run_terminates {r} {t} run =
        (omega (arith, Run-steps_left run, init-steps_left r), some-Step t threads (omega arith))
