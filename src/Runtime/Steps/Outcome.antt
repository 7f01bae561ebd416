-- ===== src/Runtime/Steps/Outcome.antt =====
-- internal/runtime/runner.go: what the loop over the steps of a scenario reports, from the state in
-- which runScenario starts it.
use tales.Base.{
  String, List, [], ◌∷◌, ◌++◌, map, none, if◌then◌else◌, ◌≡◌, refl, sym, ◌∙◌, append_assoc,
  append-nil, contains, map-append,
}
use tales.Report.{pass, fail, skip, StepResult, ScenarioResult}
use tales.Runtime.Tracker.{new_dep_tracker}
use tales.Runtime.Steps.{Calls, Lawful, Run, run_one_step, run_scenario_steps}
use tales.Runtime.Steps.Recorded.{Round, run_one_step_lem}
use tales.Runtime.Steps.Invariant.{Inv, Recorded-Inv, any_fail, first_failure, Cascades, Stops}

-- The result that runScenario starts with.
pub record Fresh (result : ScenarioResult) : Type 0 where
  pub status : result.status ≡ pass
  pub failure : result.failure ≡ none
  pub steps : result.steps ≡ []
  pub teardown : result.teardown ≡ []
  pub teardown_failures : result.teardown_failures ≡ []

abbrev pub start_run : {W : Type 0} → ScenarioResult → W → Run W
start_run result w = record { result = result; tracker = new_dep_tracker; world = w }

start_run-Inv :
    {W : Type 0}
    → (deps : String → List String) (result : ScenarioResult) (w : W) → Fresh result
    → Inv deps (start_run result w)
unfolding contains
start_run-Inv deps result w fresh = record {
  status = rw (fresh.steps, fresh.status) refl;
  failure = rw (fresh.steps, fresh.failure) refl;
  failed = λ n. rw fresh.steps refl;
  skipped = λ n. rw fresh.steps refl;
  cascades = rw fresh.steps tt;
  stops = rw fresh.steps tt;
}

abbrev pub names : List StepResult → List String
names = map (λ r. r.name)

module _ {W S : Type 0} (calls : Calls W S) (laws : Lawful calls) where
  run_one_step-Inv :
      (s : S) (run : Run W)
      → Inv calls.dependencies run
      → Inv calls.dependencies (run_one_step calls s run)
  unfolding Round
  run_one_step-Inv s run inv =
      let (r, rec, free) = run_one_step_lem calls laws s run in
      Recorded-Inv calls.dependencies run _ inv (calls.name s) r rec free

  run_scenario_steps-Inv :
      (steps : List S) (run : Run W)
      → Inv calls.dependencies run
      → Inv calls.dependencies (run_scenario_steps calls steps run)
  unfolding run_scenario_steps
  run_scenario_steps-Inv [] run inv = inv
  run_scenario_steps-Inv (s ∷ steps) run inv =
      run_scenario_steps-Inv steps (run_one_step calls s run) (run_one_step-Inv s run inv)

  run_one_step-names :
      (s : S) (run : Run W)
      → names (run_one_step calls s run).result.steps
        ≡ names run.result.steps ++ (calls.name s ∷ [])
  unfolding Round
  run_one_step-names s run =
      let (r, rec, _) = run_one_step_lem calls laws s run in
      rw (rec.steps, map-append, rec.named) refl

  run_scenario_steps-names_from :
      (steps : List S) (run : Run W)
      → names (run_scenario_steps calls steps run).result.steps
        ≡ names run.result.steps ++ map calls.name steps
  unfolding run_scenario_steps
  run_scenario_steps-names_from [] run = sym (append-nil _)
  run_scenario_steps-names_from (s ∷ steps) run =
      rw (run_scenario_steps-names_from steps (run_one_step calls s run), run_one_step-names s run)
        (append_assoc (names run.result.steps) (calls.name s ∷ []) (map calls.name steps))

  -- Once the scenario has failed, the rest of the loop leaves what the providers reach as it is.
  pub run_scenario_steps-halted :
      (steps : List S) (run : Run W)
      → run.result.status ≡ fail
      → (run_scenario_steps calls steps run).world ≡ run.world
        × (run_scenario_steps calls steps run).result.status ≡ fail
        × (run_scenario_steps calls steps run).result.failure ≡ run.result.failure
  unfolding run_scenario_steps Round
  run_scenario_steps-halted [] run h = (refl, h, refl)
  run_scenario_steps-halted (s ∷ steps) run h =
      let (r, rec, _) = run_one_step_lem calls laws s run in
      let skips : r.status ≡ skip = rec.halted (rw h refl) in
      let (w, st, f) =
        run_scenario_steps-halted steps (run_one_step calls s run) (rw (rec.status, skips) h) in
      (w ∙ rec.quiet skips, st, f ∙ rw (rec.failure, skips) refl)

  run_scenario_steps-teardown_from :
      (steps : List S) (run : Run W)
      → ((run_scenario_steps calls steps run).result.teardown ≡ run.result.teardown)
        × ((run_scenario_steps calls steps run).result.teardown_failures
            ≡ run.result.teardown_failures)
  unfolding run_scenario_steps Round
  run_scenario_steps-teardown_from [] run = (refl, refl)
  run_scenario_steps-teardown_from (s ∷ steps) run =
      let (r, rec, _) = run_one_step_lem calls laws s run in
      let (t, tf) = run_scenario_steps-teardown_from steps (run_one_step calls s run) in
      (t ∙ rec.teardown, tf ∙ rec.teardown_failures)

  module _ (steps : List S) (result : ScenarioResult) (w : W) (fresh : Fresh result) where
    -- From the start of a scenario, the loop reports one result for each step, in the order of the
    -- steps.
    pub run_scenario_steps-names :
        names (run_scenario_steps calls steps (start_run result w)).result.steps
        ≡ map calls.name steps
    run_scenario_steps-names =
        run_scenario_steps-names_from steps (start_run result w) ∙ rw fresh.steps refl

    -- From the start of a scenario, the loop fails the scenario where one of the results fails,
    -- leaves it passed otherwise, and the failure of the scenario is that of the first result that
    -- fails.
    pub run_scenario_steps-status :
        ((run_scenario_steps calls steps (start_run result w)).result.status ≡ (
          if any_fail (run_scenario_steps calls steps (start_run result w)).result.steps
          then fail
          else pass))
        × ((run_scenario_steps calls steps (start_run result w)).result.failure
            ≡ first_failure (run_scenario_steps calls steps (start_run result w)).result.steps)
    run_scenario_steps-status =
        let inv =
          run_scenario_steps-Inv steps _ (start_run-Inv calls.dependencies result w fresh) in
        (inv.status, inv.failure)

    -- From the start of a scenario, every result behind one that fails is a skip.
    pub run_scenario_steps-Stops :
        Stops (run_scenario_steps calls steps (start_run result w)).result.steps
    run_scenario_steps-Stops =
        (run_scenario_steps-Inv steps _ (start_run-Inv calls.dependencies result w fresh)).stops

    -- From the start of a scenario, a result that is not a skip stands behind results in which no
    -- dependency of its step failed or was skipped.
    pub run_scenario_steps-Cascades :
        Cascades calls.dependencies []
          (run_scenario_steps calls steps (start_run result w)).result.steps
    run_scenario_steps-Cascades =
        (run_scenario_steps-Inv steps _ (start_run-Inv calls.dependencies result w fresh)).cascades

    -- The loop over the steps leaves what the teardown reports.
    pub run_scenario_steps-teardown :
        ((run_scenario_steps calls steps (start_run result w)).result.teardown ≡ [])
        × ((run_scenario_steps calls steps (start_run result w)).result.teardown_failures ≡ [])
    run_scenario_steps-teardown =
        let (t, tf) = run_scenario_steps-teardown_from steps (start_run result w) in
        (t ∙ fresh.teardown, tf ∙ fresh.teardown_failures)
