-- ===== src/Runtime/Scenario.antt =====
-- internal/runtime/runner.go: runScenario with its hooks and its teardown. A panic, the durations
-- and the contexts of the cleanup are left out.
pub mod Hooks
pub mod Teardown
pub mod Outcome
use tales.Base.{
  String, List, [], ◌∷◌, ◌++◌, Option, none, some, Bool, if◌then◌else◌, Result, ok, err,
}
use tales.Report.{
  fail, skip, ErrorDetail, SkipReason, Artifact, StepResult, ScenarioResult, is_pass, is_fail,
}
use tales.Runtime.Steps.{Calls, run_scenario_steps}
use tales.Runtime.Steps.Outcome.{start_run}

-- What runScenario calls, for hooks of the type `H`: the workspace, which may not be created;
-- applyScenarioSkip, whose result ends the scenario; the hooks, where `end` gets the error that the
-- scenario returns; StepDependencies, for its error; evalWhen and executeStepInPhase for a step of
-- the teardown.
pub record ScenarioCalls (W S H : Type 0) : Type 0 where
  pub steps : Calls W S
  pub workspace : W → Option String × W
  pub scenario_skip : W → ScenarioResult → Option ScenarioResult
  pub begin : H → W → Option String × W
  pub end : H → Option String → W → List Artifact × W
  pub dependency_error : S → Option String
  pub teardown_when : W → S → Option SkipReason
  pub teardown_execute : String → W → S → StepResult × W

abbrev pub hook_failure : String → ScenarioResult → ScenarioResult
hook_failure message result = record result {
  status = fail;
  failure = some (record { kind = "hook"; path = ""; message = message });
}

-- The body of the loop over the teardown, after the step.
unfoldable pub record_teardown : StepResult → ScenarioResult → ScenarioResult
record_teardown r result =
    let added = record result { teardown = result.teardown ++ (r ∷ []) } in
    if is_fail r.status
    then (let counted = record added {
      teardown_failures = result.teardown_failures ++ (r.failure ∷ []);
    } in
        if is_pass result.status
        then record counted { status = fail; failure = r.failure }
        else counted)
    else added

module _ {W S H : Type 0} (calls : ScenarioCalls W S H) where
  open calls use {
    workspace, scenario_skip, begin, end, dependency_error, teardown_when, teardown_execute,
  }

  -- The hooks that have begun, the last one first, and the error of the one that has not.
  unfoldable pub begin_hooks : List H → List H → W → List H × Option String × W
  begin_hooks [] began w = (began, none, w)
  begin_hooks (h ∷ hooks) began w =
      let (failure, w') = begin h w in
      elim failure [
        | some message ↦ (began, some message, w')
        | none ↦ begin_hooks hooks (h ∷ began) w'
      ]

  -- endHooks, over the hooks that have begun.
  unfoldable pub end_hooks : List H → Option String → W → List Artifact × W
  end_hooks [] run_err w = ([], w)
  end_hooks (h ∷ began) run_err w =
      let (artifacts, w') = end h run_err w in
      let (more, w'') = end_hooks began run_err w' in (artifacts ++ more, w'')

  -- The error of the first step whose dependencies cannot be read.
  unfoldable pub dependency_errors : List S → Option String
  dependency_errors [] = none
  dependency_errors (s ∷ steps) =
      let rest = dependency_errors steps in
      elim (dependency_error s) [ some e ↦ some e | none ↦ rest ]

  unfoldable pub execute_teardown_step_in_phase : String → W → S → StepResult × W
  execute_teardown_step_in_phase phase w s = elim (teardown_when w s) [
    | some reason ↦ (
      record {
        name = calls.steps.name s;
        phase = phase;
        status = skip;
        attempts = 0;
        failure = none;
        skip_reason = some reason;
      },
      w,
    )
    | none ↦ teardown_execute phase w s
  ]

  unfoldable pub teardown_loop : List S → ScenarioResult → W → ScenarioResult × W
  teardown_loop [] result w = (result, w)
  teardown_loop (s ∷ steps) result w =
      let (r, w') = execute_teardown_step_in_phase "teardown" w s in
      teardown_loop steps (record_teardown r result) w'

  abbrev pub add_artifacts : List Artifact → ScenarioResult → ScenarioResult
  add_artifacts artifacts result = record result { artifacts = result.artifacts ++ artifacts }

  -- From the dependencies on, the hooks having begun.
  unfoldable pub run_began :
      List H → List S → List S → ScenarioResult → W → Result String ScenarioResult × W
  run_began began steps teardown result w = elim (dependency_errors steps) [
    | some e ↦ let (artifacts, w') = end_hooks began (some e) w in (err e, w')
    | none ↦
        let run = run_scenario_steps calls.steps steps (start_run result w) in
        let (artifacts, w') = end_hooks began none run.world in
        let (final, w'') = teardown_loop teardown (add_artifacts artifacts run.result) w' in
        (ok final, w'')
  ]

  unfoldable pub run_hooked :
      List H → List S → List S → ScenarioResult → W → Result String ScenarioResult × W
  run_hooked hooks steps teardown result w =
      let (began, failure, w') = begin_hooks hooks [] w in
      elim failure [
        | some message ↦
            let (artifacts, w'') = end_hooks began none w' in
            (ok (add_artifacts artifacts (hook_failure message result)), w'')
        | none ↦ run_began began steps teardown result w'
      ]

  unfoldable pub run_scenario :
      List H → List S → List S → ScenarioResult → W → Result String ScenarioResult × W
  run_scenario hooks steps teardown result w =
      let (failure, w') = workspace w in
      elim failure [
        | some e ↦ (err e, w')
        | none ↦ elim (scenario_skip w' result) [
          | some r ↦ (ok r, w')
          | none ↦ run_hooked hooks steps teardown result w'
        ]
      ]
