-- ===== src/Runtime/Tests.antt =====
-- internal/runtime: the theorems at a scenario whose second step fails.
use tales.Base.{
  ℕ, suc, ◌+◌, String, str_eq, List, [], ◌∷◌, Option, none, some, Bool, true, if◌then◌else◌, ◌≡◌,
  refl, ◌⊎◌, arith, contains, insert, map, ◌==◌,
}
use tales.Report.{pass, fail, skip, Status, StepResult, ScenarioResult}
use tales.Model.Step.{Retry}
use tales.Runtime.Steps.{
  Calls, Lawful, Run, run_scenario_steps, run_one_step, run_skip, run_when, record_executed,
  record_halted_skip,
}
use tales.Runtime.Tracker.{dependency_blocker, mark_failed}
use tales.Runtime.Steps.Outcome.{
  Fresh, start_run, names, run_scenario_steps-status, run_scenario_steps-Stops,
  run_scenario_steps-Cascades,
}
use tales.Runtime.Steps.Invariant.{any_fail, first_failure, Stops, Cascades}
use tales.Runtime.Scenario.{ScenarioCalls}
use tales.Runtime.Scenario.Teardown.{TeardownNames, failures}
use tales.Runtime.Scenario.Outcome.{Outcome}
use tales.Runtime.Retry.{
  Tries, attempt_loop, execute_step_in_phase, retry_options, execute_step_in_phase-Tries,
  attempt_loop,
}
use tales.Runtime.Filter.{Scenario}
use tales.Runtime.SuiteTeardown.{run_suite_teardown, run_suite_teardown_lem}

abbrev result_of : String → String → Status → StepResult
result_of name phase status = record {
  name = name;
  phase = phase;
  status = status;
  attempts = 1;
  failure = none;
  skip_reason = none;
}

abbrev step_status : String → Status
step_status s = if str_eq s "pay" then fail else pass

-- The world counts the steps that have been executed.
abbrev shop : Calls ℕ String
shop = record {
  name = λ s. s;
  dependencies = λ n. if str_eq n "check" then "login" ∷ [] else [];
  skip_result = λ w s. none;
  when_reason = λ w s. none;
  execute = λ w s. (result_of s "step" (step_status s), suc w);
}

shop-Lawful : Lawful shop
shop-Lawful = record {
  execute_name = λ w s. refl;
  execute_status = λ w s. status_cases s;
  skip_name = λ w s r e. cc;
  skip_status = λ w s r e. cc;
}
  where
    status_cases : (s : String) → (step_status s ≡ pass) ⊎ (step_status s ≡ fail)
    status_cases s = ground arith

abbrev shop_scenario : ScenarioCalls ℕ String String
shop_scenario = record {
  steps = shop;
  workspace = λ w. (none, w);
  scenario_skip = λ w r. none;
  begin = λ h w. (if str_eq h "record" then some "no device" else none, suc w);
  end = λ h e w. ([], suc w);
  dependency_error = λ s. none;
  teardown_when = λ w s. none;
  teardown_execute = λ phase w s. (result_of s phase pass, suc w);
}

shop-TeardownNames : TeardownNames shop_scenario
shop-TeardownNames = λ phase w s. refl

abbrev empty_result : ScenarioResult
empty_result = record {
  name = "shop";
  status = pass;
  steps = [];
  teardown = [];
  failure = none;
  teardown_failures = [];
  skip_reason = none;
  artifacts = [];
}

empty_result-Fresh : Fresh empty_result
empty_result-Fresh = record {
  status = refl;
  failure = refl;
  steps = refl;
  teardown = refl;
  teardown_failures = refl;
}

abbrev shop_steps : List String
shop_steps = "login" ∷ "pay" ∷ "check" ∷ []

abbrev shop_run : Run ℕ
shop_run = run_scenario_steps shop shop_steps (start_run empty_result 0)

shop_test : map (λ r. r.status) shop_run.result.steps ≡ pass ∷ fail ∷ skip ∷ []
unfolding run_scenario_steps run_one_step dependency_blocker contains run_skip run_when
    record_executed mark_failed insert record_halted_skip
shop_test = refl

run_scenario_steps-status_example :
    (shop_run.result.status ≡ (if any_fail shop_run.result.steps then fail else pass))
    × (shop_run.result.failure ≡ first_failure shop_run.result.steps)
run_scenario_steps-status_example =
    run_scenario_steps-status shop shop-Lawful shop_steps empty_result 0 empty_result-Fresh

run_scenario_steps-Stops_example : Stops shop_run.result.steps
run_scenario_steps-Stops_example =
    run_scenario_steps-Stops shop shop-Lawful shop_steps empty_result 0 empty_result-Fresh

run_scenario_steps-Cascades_example : Cascades shop.dependencies [] shop_run.result.steps
run_scenario_steps-Cascades_example =
    run_scenario_steps-Cascades shop shop-Lawful shop_steps empty_result 0 empty_result-Fresh

abbrev failed_run : Run ℕ
failed_run = start_run (record empty_result { status = fail }) 4

run_suite_teardown_example :
    ((run_suite_teardown shop_scenario (λ w. (none, w)) ("drop" ∷ []) 0).0.1
      ≡ failures (run_suite_teardown shop_scenario (λ w. (none, w)) ("drop" ∷ []) 0).0.0)
    × ((names (run_suite_teardown shop_scenario (λ w. (none, w)) ("drop" ∷ []) 0).0.0 ≡ "drop" ∷ [])
        ⊎ ((names (run_suite_teardown shop_scenario (λ w. (none, w)) ("drop" ∷ []) 0).0.0
              ≡ "workspace" ∷ [])
            × ((message : String) × (none ≡ some message))))
run_suite_teardown_example =
    run_suite_teardown_lem shop_scenario shop-TeardownNames (λ w. (none, w)) ("drop" ∷ []) 0

-- The third attempt passes; the pauses are never interrupted.
abbrev flaky : ℕ → ℕ → StepResult × ℕ
flaky k w = (result_of "flaky" "step" (if k == 3 then pass else fail), suc w)

abbrev sleeps : ℕ → ℕ → Bool × ℕ
sleeps interval w = (true, interval + w)

abbrev five_tries : Option Retry
five_tries = some (record { attempts = 5; interval = 10 })

flaky_test : (execute_step_in_phase flaky sleeps "flaky" "step" five_tries 0).0.attempts ≡ 3
unfolding execute_step_in_phase attempt_loop retry_options
flaky_test = refl

execute_step_in_phase-Tries_example :
    Tries flaky sleeps
      (retry_options five_tries)
      1
      0
      (execute_step_in_phase flaky sleeps "flaky" "step" five_tries 0).0
execute_step_in_phase-Tries_example =
    execute_step_in_phase-Tries flaky sleeps "flaky" "step" five_tries 0

abbrev scenarios : List Scenario
scenarios =
    record { name = "buy"; tags = "smoke" ∷ [] }
    ∷ record { name = "refund"; tags = "slow" ∷ [] }
    ∷ []
