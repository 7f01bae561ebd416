-- ===== src/Runtime/Steps/Recorded.antt =====
-- internal/runtime/runner.go: what one round of the loop over the steps records, on every branch.
use tales.Base.{
  String, List, [], ◌∷◌, ◌++◌, none, Bool, true, false, ◌||◌, if◌then◌else◌, ◌≡◌, refl, arith,
  contains, insert, eq_iff, Option-cases, Bool-cases, ◌⊎◌, inl, inr, false≢true, sym, ap, ◌∙◌,
}
use tales.Report.{pass, fail, skip, StepResult, is_fail, is_skip}
use tales.Runtime.Tracker.{DepTracker, mark_failed, mark_skipped, dependency_blocker}
use tales.Runtime.Steps.{
  Calls, Lawful, Run, skip_step, or_failure, record_dep_cascade_skip, record_halted_skip,
  record_step_skip_result, record_executed, run_when, run_skip, run_one_step,
}

-- The run before and after the result `r` of the step called `name` is recorded.
pub record Recorded {W : Type 0} (name : String) (r : StepResult) (run next : Run W) : Type 0 where
  pub named : r.name ≡ name
  pub known : (r.status ≡ pass) ⊎ ((r.status ≡ fail) ⊎ (r.status ≡ skip))
  pub steps : next.result.steps ≡ run.result.steps ++ (r ∷ [])
  pub status : next.result.status ≡ (if is_fail r.status then fail else run.result.status)
  pub failure :
      next.result.failure
      ≡ (if is_fail r.status then or_failure run.result.failure r.failure else run.result.failure)
  pub failed :
      next.tracker.failed
      ≡ (if is_fail r.status then insert name run.tracker.failed else run.tracker.failed)
  pub skipped :
      next.tracker.skipped
      ≡ (if is_skip r.status then insert name run.tracker.skipped else run.tracker.skipped)
  pub teardown : next.result.teardown ≡ run.result.teardown
  pub teardown_failures : next.result.teardown_failures ≡ run.result.teardown_failures
  -- Once the scenario has failed, a step is skipped.
  pub halted : is_fail run.result.status ≡ true → r.status ≡ skip
  -- A step that is skipped touches nothing outside the report.
  pub quiet : r.status ≡ skip → next.world ≡ run.world

-- A dependency blocks a step if it failed or was skipped.
abbrev pub blocked : DepTracker → String → Bool
blocked t d = contains d t.failed || contains d t.skipped

dependency_blocker-none :
    (t : DepTracker) (deps : List String) (d : String)
    → dependency_blocker t deps ≡ none
    → contains d deps ≡ true
    → blocked t d ≡ false
unfolding dependency_blocker contains
dependency_blocker-none t [] d e h = cc
dependency_blocker-none t (dep ∷ deps) d e h =
    ground (arith, eq_iff dep d, dependency_blocker-none t deps d)

module _ {W S : Type 0} (calls : Calls W S) (laws : Lawful calls) where
  cascade_Recorded :
      (s : S) (run : Run W) (blocker : String) (failed : Bool)
      → (r : StepResult) × Recorded
          (calls.name s)
          r
          run
          (record_dep_cascade_skip (calls.name s) blocker failed run)
        × (r.status ≡ skip)
  unfolding record_dep_cascade_skip mark_skipped
  cascade_Recorded s run blocker failed = (
    _,
    record {
      named = refl;
      known = inr (inr refl);
      steps = refl;
      status = refl;
      failure = refl;
      failed = refl;
      skipped = refl;
      teardown = refl;
      teardown_failures = refl;
      halted = λ h. refl;
      quiet = λ h. refl;
    },
    refl,
  )

  halted_Recorded :
      (s : S) (run : Run W)
      → (r : StepResult) × Recorded (calls.name s) r run (record_halted_skip (calls.name s) run)
  unfolding record_halted_skip mark_skipped
  halted_Recorded s run = (
    _,
    record {
      named = refl;
      known = inr (inr refl);
      steps = refl;
      status = refl;
      failure = refl;
      failed = refl;
      skipped = refl;
      teardown = refl;
      teardown_failures = refl;
      halted = λ h. refl;
      quiet = λ h. refl;
    },
  )

  skip_result_Recorded :
      (name : String) (r : StepResult) (run : Run W)
      → r.name ≡ name
      → (r.status ≡ skip) ⊎ (r.status ≡ fail)
      → is_fail run.result.status ≡ false
      → Recorded name r run (record_step_skip_result r name run)
  unfolding record_step_skip_result mark_skipped mark_failed
  skip_result_Recorded name r run n k h = ground arith

  executed_Recorded :
      (name : String) (r : StepResult) (run : Run W) (w : W)
      → r.name ≡ name
      → (r.status ≡ pass) ⊎ (r.status ≡ fail)
      → is_fail run.result.status ≡ false
      → Recorded name r run (record_executed r name (record run { world = w }))
  unfolding record_executed mark_failed
  executed_Recorded name r run w n k h = ground arith

  -- The recorded result of one round; unless it is a skip, no dependency blocks the step.
  unfoldable pub Round : S → Run W → Run W → Type 0
  Round s run next =
      (r : StepResult) × Recorded (calls.name s) r run next
      × (is_skip r.status ≡ false
          → (d : String) → contains d (calls.dependencies (calls.name s)) ≡ true
          → blocked run.tracker d ≡ false)

  run_when-Recorded :
      (s : S) (run : Run W)
      → is_fail run.result.status ≡ false
      → (r : StepResult) × Recorded (calls.name s) r run (run_when calls s run)
  unfolding run_when
  run_when-Recorded s run h = elim (Option-cases (calls.when_reason run.world s)) [
    | inl runs ↦
        let (r, w) = calls.execute run.world s in
        (
          r,
          rw (runs, run_when)
              (executed_Recorded (calls.name s) r run w (laws.execute_name run.world s)
                (laws.execute_status run.world s) h),
        )
    | inr (reason, e) ↦ (
      skip_step (calls.name s) reason,
      rw (e, run_when)
          (skip_result_Recorded (calls.name s) (skip_step (calls.name s) reason) run refl (inl refl)
            h),
    )
  ]

  run_skip-Recorded :
      (s : S) (run : Run W)
      → is_fail run.result.status ≡ false
      → (r : StepResult) × Recorded (calls.name s) r run (run_skip calls s run)
  unfolding run_skip
  run_skip-Recorded s run h = elim (Option-cases (calls.skip_result run.world s)) [
    | inl none_skips ↦ rw (none_skips, run_skip) (run_when-Recorded s run h)
    | inr (r, e) ↦ (
      r,
      rw (e, run_skip)
          (skip_result_Recorded (calls.name s) r run (laws.skip_name run.world s r e)
            (laws.skip_status run.world s r e) h),
    )
  ]

  pub run_one_step_lem : (s : S) (run : Run W) → Round s run (run_one_step calls s run)
  unfolding run_one_step Round
  run_one_step_lem s run =
      elim (Option-cases (dependency_blocker run.tracker (calls.dependencies (calls.name s)))) [
        | inr ((blocker, failed), e) ↦
            let (r, recorded, skips) = cascade_Recorded s run blocker failed in
            (
              r,
              rw (e, run_one_step) recorded,
              λ ran. absurd (false≢true (sym ran ∙ ap is_skip skips)),
            )
        | inl free ↦ elim (Bool-cases (is_fail run.result.status)) [
          | inl halt ↦
              let (r, recorded) = halted_Recorded s run in
              (
                r,
                rw (free, run_one_step) (rw (halt, run_one_step) recorded),
                λ ran d held. dependency_blocker-none run.tracker _ d free held,
              )
          | inr go ↦
              let (r, recorded) = run_skip-Recorded s run go in
              (
                r,
                rw (free, run_one_step) (rw (go, run_one_step) recorded),
                λ ran d held. dependency_blocker-none run.tracker _ d free held,
              )
        ]
      ]
