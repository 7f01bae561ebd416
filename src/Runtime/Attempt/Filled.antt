-- ===== src/Runtime/Attempt/Filled.antt =====
-- internal/runtime/runner.go: the loop over the steps with its own attempts, retries and skip rules.
use tales.Base.{
  ℕ, suc, String, List, some, Bool, ◌≡◌, refl, ◌⊎◌, inl, inr, Result, ok, err, Option-cases,
}
use tales.Model.Step.{Step}
use tales.Report.{pass, fail, ErrorDetail, StepResult}
use tales.Runtime.Steps.{Calls, Lawful}
use tales.Runtime.Retry.{
  Tries, passed, final, stopped, again, paused, retry_options, execute_step_in_phase,
  execute_step_in_phase-Tries,
}
use tales.Runtime.Skip.{Context, evaluate_step_skip}
use tales.Runtime.Skip.Rules.{evaluate_step_skip_lem}
use tales.Runtime.Attempt.{
  AttemptCalls, Place, run_attempt, execute_step_attempt, eval_when, new_scope,
}

module _ {E V W P Q O : Type 0} (calls : AttemptCalls E V W P Q O) where
  -- A provider with an executor of its own gives the step's name and passes or fails.
  abbrev pub DispatchLaw : Type 0
  DispatchLaw =
      (phase : String) (step : Step E) (place : Place W V) (r : StepResult) (next : Place W V)
      → calls.dispatch phase step place ≡ some (r, next)
      → (r.name ≡ step.name) × ((r.status ≡ pass) ⊎ (r.status ≡ fail))

  -- A result of the step called `name`.
  abbrev Settled : String → StepResult → Type 0
  Settled name r = (r.name ≡ name) × ((r.status ≡ pass) ⊎ (r.status ≡ fail))

  outcome-cases :
      {A : Type 0}
      → (m : Result ErrorDetail A) → ((a : A) × (m ≡ ok a)) ⊎ ((e : ErrorDetail) × (m ≡ err e))
  outcome-cases (ok a) = inl (a, refl)
  outcome-cases (err e) = inr (e, refl)

  execute_step_attempt-Settled :
      DispatchLaw
      → (phase : String) (step : Step E) (place : Place W V)
      → Settled step.name (execute_step_attempt calls phase step place).0
  unfolding execute_step_attempt
  execute_step_attempt-Settled law phase step place =
      elim (Option-cases (calls.dispatch phase step place)) [
        | inr ((r, next), e) ↦ rw (e, execute_step_attempt) (law phase step place r next e)
        | inl generic ↦ elim (outcome-cases (run_attempt calls step place).0) [
          | inl (values, e) ↦
              rw (generic, execute_step_attempt) (rw (e, execute_step_attempt) (refl, inl refl))
          | inr (failure, e) ↦
              rw (generic, execute_step_attempt) (rw (e, execute_step_attempt) (refl, inr refl))
        ]
      ]

-- The calls of the attempt with a number, the dependencies of the steps, the context of the skip rules
-- and the pause between two attempts. `calls` are those that evaluate the condition of a step.
module _ {E V W P Q O : Type 0} (calls : AttemptCalls E V W P Q O)
    (numbered : ℕ → AttemptCalls E V W P Q O) (dependencies : String → List String)
    (context : Place W V → Step E → Context E V) (sleep : ℕ → Place W V → Bool × Place W V) where
  -- runOneStep with evaluateStepSkip, evalWhen and executeStep.
  unfoldable pub runner_calls : Calls (Place W V) (Step E)
  runner_calls = record {
    name = λ s. s.name;
    dependencies = dependencies;
    skip_result = λ place s. evaluate_step_skip (context place s) s.name s.skip_rules;
    when_reason = λ place s. eval_when calls "step.when" s.when (new_scope calls place);
    execute = λ place s.
        execute_step_in_phase (λ k. execute_step_attempt (numbered k) "step" s) sleep s.name "step"
          s.retry place;
  }

  module _ (law : (k : ℕ) → DispatchLaw (numbered k)) where
    Tries-Settled :
        (s : Step E) (k : ℕ) (place : Place W V) (r : StepResult)
        → Tries
            (λ k. execute_step_attempt (numbered k) "step" s)
            sleep
            (retry_options s.retry)
            k
            place
            r
        → Settled calls s.name r
    Tries-Settled s k place r (passed _ _ e) =
        execute_step_attempt-Settled (numbered k) (law k) "step" s place
    Tries-Settled s k place r (final _ _ e) =
        execute_step_attempt-Settled (numbered k) (law k) "step" s place
    Tries-Settled s k place r (stopped _ _ l e i) =
        ((execute_step_attempt-Settled (numbered k) (law k) "step" s place).0, inr refl)
    Tries-Settled s k place r (again _ _ _ l e i t) = Tries-Settled s (suc k) _ r t
    Tries-Settled s k place r (paused _ _ _ l e i t) = Tries-Settled s (suc k) _ r t

    executed-Settled :
        (s : Step E) (place : Place W V) → Settled calls s.name (runner_calls.execute place s).0
    unfolding runner_calls
    executed-Settled s place = Tries-Settled s 1 place _ (
        execute_step_in_phase-Tries (λ k. execute_step_attempt (numbered k) "step" s) sleep s.name
          "step" s.retry place)

    -- The loop over the steps runs on its own evaluation of rules, attempts and retries: their results
    -- carry the names of the steps, an execution passes or fails, and rules skip or fail, provided
    -- that in every attempt the providers with an executor of their own keep to it.
    pub runner_calls-Lawful : Lawful runner_calls
    unfolding runner_calls
    runner_calls-Lawful = record {
      execute_name = λ place s. (executed-Settled s place).0;
      execute_status = λ place s. (executed-Settled s place).1;
      skip_name =
          λ place s r e. (evaluate_step_skip_lem (context place s) s.name s.skip_rules r e).0;
      skip_status =
          λ place s r e. (evaluate_step_skip_lem (context place s) s.name s.skip_rules r e).1;
    }
