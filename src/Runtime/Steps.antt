-- ===== src/Runtime/Steps.antt =====
-- internal/runtime/runner.go: the steps of one scenario, in the order of the file. `W` is the state
-- that the steps change: the results of the scenario and all that the providers reach. Evaluating
-- skip rules and `when` reads it.
pub mod Recorded
pub mod Invariant
pub mod Outcome
use tales.Base.{String, List, [], ◌∷◌, ◌++◌, Option, none, some, Bool, if◌then◌else◌, ◌≡◌, ◌⊎◌}
use tales.Report.{
  pass, fail, skip, ErrorDetail, SkipReason, depends_on_failed, depends_on_skipped, earlier_failed,
  StepResult, ScenarioResult, is_fail,
}
use tales.Runtime.Tracker.{DepTracker, mark_failed, mark_skipped, dependency_blocker}

-- What `runOneStep` calls, for steps of the type `S`, and the map depsByStep. `skip_result` is evaluateStepSkip, whose nil
-- is `none`; `when_reason` is evalWhen, whose (true, "") is `none`; `execute` is executeStep.
pub record Calls (W S : Type 0) : Type 0 where
  pub name : S → String
  pub dependencies : String → List String
  pub skip_result : W → S → Option StepResult
  pub when_reason : W → S → Option SkipReason
  pub execute : W → S → StepResult × W

-- The results of those calls carry the name of the step. A step that is executed passes or fails;
-- skip rules skip it or fail.
pub record Lawful {W S : Type 0} (calls : Calls W S) : Type 0 where
  pub execute_name : (w : W) (s : S) → (calls.execute w s).0.name ≡ calls.name s
  pub execute_status :
      (w : W) (s : S)
      → ((calls.execute w s).0.status ≡ pass) ⊎ ((calls.execute w s).0.status ≡ fail)
  pub skip_name :
      (w : W) (s : S) (r : StepResult) → calls.skip_result w s ≡ some r → r.name ≡ calls.name s
  pub skip_status :
      (w : W) (s : S) (r : StepResult)
      → calls.skip_result w s ≡ some r
      → (r.status ≡ skip) ⊎ (r.status ≡ fail)

-- The state of the loop over the steps.
pub record Run (W : Type 0) : Type 0 where
  pub result : ScenarioResult
  pub tracker : DepTracker
  pub world : W

abbrev pub skip_step : String → SkipReason → StepResult
skip_step name reason = record {
  name = name;
  phase = "step";
  status = skip;
  attempts = 0;
  failure = none;
  skip_reason = some reason;
}

abbrev pub append_step : StepResult → ScenarioResult → ScenarioResult
append_step r s = record s { steps = s.steps ++ (r ∷ []) }

-- if sResult.Failure == nil
abbrev pub or_failure : Option ErrorDetail → Option ErrorDetail → Option ErrorDetail
or_failure (some e) r = some e
or_failure none r = r

abbrev pub fail_scenario : StepResult → ScenarioResult → ScenarioResult
fail_scenario r s = record s { status = fail; failure = or_failure s.failure r.failure }

module _ {W : Type 0} where
  unfoldable pub record_dep_cascade_skip : String → String → Bool → Run W → Run W
  record_dep_cascade_skip name blocker blocker_failed run = record run {
    result =
        append_step
          (skip_step name
            (if blocker_failed then depends_on_failed blocker else depends_on_skipped blocker))
          run.result;
    tracker = mark_skipped name run.tracker;
  }

  unfoldable pub record_halted_skip : String → Run W → Run W
  record_halted_skip name run = record run {
    result = append_step (skip_step name earlier_failed) run.result;
    tracker = mark_skipped name run.tracker;
  }

  unfoldable pub record_step_skip_result : StepResult → String → Run W → Run W
  record_step_skip_result r name run =
      if is_fail r.status
      then record run {
        result = fail_scenario r (append_step r run.result);
        tracker = mark_failed name run.tracker;
      }
      else record run { result = append_step r run.result; tracker = mark_skipped name run.tracker }

  -- What follows the execution in runOneStep.
  unfoldable pub record_executed : StepResult → String → Run W → Run W
  record_executed r name run =
      if is_fail r.status
      then record run {
        result = fail_scenario r (append_step r run.result);
        tracker = mark_failed name run.tracker;
      }
      else record run { result = append_step r run.result }

module _ {W S : Type 0} (calls : Calls W S) where
  open calls use {name, dependencies, skip_result, when_reason, execute}

  execute_and_record : S → Run W → Run W
  execute_and_record s run =
      let (r, w) = execute run.world s in record_executed r (name s) (record run { world = w })

  unfoldable pub run_when : S → Run W → Run W
  unfolding execute_and_record
  run_when s run = elim (when_reason run.world s) [
    | some reason ↦ record_step_skip_result (skip_step (name s) reason) (name s) run
    | none ↦ execute_and_record s run
  ]

  unfoldable pub run_skip : S → Run W → Run W
  run_skip s run = elim (skip_result run.world s) [
    | some r ↦ record_step_skip_result r (name s) run
    | none ↦ run_when s run
  ]

  unfoldable pub run_one_step : S → Run W → Run W
  run_one_step s run = elim (dependency_blocker run.tracker (dependencies (name s))) [
    | some (blocker, failed) ↦ record_dep_cascade_skip (name s) blocker failed run
    | none ↦ if is_fail run.result.status then record_halted_skip (name s) run else run_skip s run
  ]

  unfoldable pub run_scenario_steps : List S → Run W → Run W
  run_scenario_steps [] run = run
  run_scenario_steps (s ∷ steps) run = run_scenario_steps steps (run_one_step s run)
