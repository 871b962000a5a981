-- ===== src/Batch/Pool/Examples.antt =====
-- Two threads over two jobs, and the theorems about the worker threads at them.
use torrent_builder.Common.{ℕ, zero, suc, ◌+◌, ◌*◌, ◌≡◌, ◌⊎◌, refl, arith}
use torrent_builder.Batch.Pool.{Pool, Step, Run, here, later, fetch, leave, store, init, IsDone}
use torrent_builder.Batch.Pool.Invariant.{Run-unique}
use torrent_builder.Batch.Pool.Progress.{steps_left, run_terminates}

abbrev tenfold : ℕ → ℕ
tenfold idx = idx * 10

abbrev IsTenfold : ℕ → ℕ → Type 0
IsTenfold idx o = o ≡ tenfold idx

-- Thread 1 takes the first job and thread 0 the second one, which it has executed first.
abbrev begun : (s : Pool ℕ) × Run IsTenfold 2 2 (init 7) 2 s
begun = (_, later (later here (fetch 1 (omega arith) refl)) (fetch 0 (omega arith) refl))

abbrev ended : (s : Pool ℕ) × Run IsTenfold 2 2 (init 7) 8 s
ended = (
  _,
  later
      (later
        (later
          (later
            (later (later begun.1 (store 0 1 10 (omega arith) refl (omega arith) refl))
              (store 1 0 0 (omega arith) refl (omega arith) refl))
            (fetch 0 (omega arith) refl))
          (fetch 1 (omega arith) refl))
        (leave 1 3 (omega arith) refl (omega arith)))
      (leave 0 2 (omega arith) refl (omega arith)),
)

ended-IsDone : IsDone 2 ended.0
ended-IsDone zero lt = refl
ended-IsDone (suc zero) lt = refl
ended-IsDone (suc (suc i)) lt = absurd (omega (arith, lt))

Run-unique_example : ◌≡◌ {A = ℕ} 1 1
Run-unique_example = Run-unique IsTenfold 2 2 begun.1 1 1 0 refl refl

run_terminates_example :
    (2 + steps_left 2 2 begun.0 ≡ 2 * 2 + 2 * 2)
    × (IsDone 2 begun.0 ⊎ ((u : Pool ℕ) × Step IsTenfold 2 2 begun.0 u))
run_terminates_example = run_terminates IsTenfold 2 2 (λ idx lt. (tenfold idx, refl)) begun.1
