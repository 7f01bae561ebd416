-- ===== src/Runtime/Suite/Tests.antt =====
-- internal/runtime/runner.go: two scenarios that run one at a time, the second of which fails.
use tales.Base.{ℕ, zero, suc, ◌≤◌, [], ◌∷◌, Option, none, some, ◌≡◌, refl, ◌⊎◌}
use tales.Runtime.Suite.{
  effective_parallel, waiting, started, ended, first_error, Run, launch_run, stored_results,
  acquire, store, note, release, RunReaches, begin, go, holding, total, AllEnded,
}
use tales.Runtime.Suite.Bound.{RunReaches-Bound}
use tales.Runtime.Suite.Live.{Progress, RunReaches-Live}
use tales.Runtime.Suite.Reported.{Answers, Comes, RunReaches-Answers}

-- The scenario 0 returns no error, another one its number.
abbrev problem : ℕ → Option ℕ
problem zero = none
problem (suc n) = some (suc n)

abbrev Returns : ℕ → ℕ → Option ℕ → Type 0
Returns s r e = (r ≡ s) × (e ≡ problem s)

abbrev finished : Run ℕ ℕ ℕ
finished = record {
  workers = ended 0 0 none ∷ ended 7 7 (some 7) ∷ [];
  free = 1;
  first_err = some 7;
}

-- The second goroutine gets the semaphore first.
both : RunReaches Returns (launch_run (0 ∷ 7 ∷ []) 0) finished
unfolding launch_run effective_parallel first_error
both =
    go _ _
      (go _ _
        (go _ _
          (go _ _
            (go _ _
              (go _ _
                (go _ _ (go _ _ begin (acquire (waiting 0 ∷ []) [] 7 0 none))
                  (store (waiting 0 ∷ []) [] 7 7 (some 7) 0 none (refl, refl)))
                (note (waiting 0 ∷ []) [] 7 7 (some 7) 0 none))
              (release (waiting 0 ∷ []) [] 7 7 (some 7) 0 (some 7)))
            (acquire [] (ended 7 7 (some 7) ∷ []) 0 0 (some 7)))
          (store [] (ended 7 7 (some 7) ∷ []) 0 0 none 0 (some 7) (refl, refl)))
        (note [] (ended 7 7 (some 7) ∷ []) 0 0 none 0 (some 7)))
      (release [] (ended 7 7 (some 7) ∷ []) 0 0 none 0 (some 7))

RunReaches-Answers_example :
    Answers Returns (some 7) (0 ∷ 7 ∷ []) (stored_results finished.workers)
    × ((e : ℕ) → ◌≡◌ {A = Option ℕ} (some 7) (some e) → Comes Returns e)
RunReaches-Answers_example =
    RunReaches-Answers Returns (0 ∷ 7 ∷ []) 0 finished both (refl, (refl, tt))

-- One scenario is inside runScenario.
abbrev running : Run ℕ ℕ ℕ
running = record { workers = waiting 0 ∷ started 7 ∷ []; free = 0; first_err = none }

one_runs : RunReaches Returns (launch_run (0 ∷ 7 ∷ []) 1) running
unfolding launch_run effective_parallel
one_runs = go _ _ begin (acquire (waiting 0 ∷ []) [] 7 0 none)

RunReaches-Bound_example : total holding running.workers ≤ effective_parallel 1
RunReaches-Bound_example = RunReaches-Bound Returns (0 ∷ 7 ∷ []) 1 running one_runs

returning : (s : ℕ) → (r : ℕ) × ((e : Option ℕ) × Returns s r e)
returning s = (s, (problem s, (refl, refl)))

RunReaches-Live_example : Progress Returns running ⊎ AllEnded running.workers
RunReaches-Live_example =
    RunReaches-Live Returns returning (0 ∷ 7 ∷ []) 1 (waiting 0 ∷ started 7 ∷ []) 0 none one_runs
