-- ===== src/Runtime/Keyword/Isolated.antt =====
-- internal/runtime/runner.go: what a step that calls a keyword does to the scenario.
use tales.Base.{
  String, str_eq, List, Option, none, some, if◌then◌else◌, ◌≡◌, ◌≢◌, refl, ◌⊎◌, inl, inr, Result,
  ok, err, Bool-cases, arith, ap, subst,
}
use tales.Model.Step.{Step}
use tales.Report.{pass, fail, ErrorDetail, StepResult}
use tales.Runtime.Attempt.{Place, AttemptCalls, assign}
use tales.Runtime.Attempt.Filled.{DispatchLaw}
use tales.Runtime.Keyword.Completed.{Completed, keyword_outcome-ok, Completed-keyword_outcome}
use tales.Runtime.Keyword.{KeywordCalls, keyword_outcome, execute_keyword_step}

module _ {E V W P Q O : Type 0} (kw : KeywordCalls E V W P Q O) where
  outcome-cases :
      {A : Type 0}
      → (m : Result ErrorDetail A) → ((a : A) × (m ≡ ok a)) ⊎ ((e : ErrorDetail) × (m ≡ err e))
  outcome-cases (ok a) = inl (a, refl)
  outcome-cases (err e) = inr (e, refl)

  -- The step passes without a failure, its result is the object of the outputs, and no other result of
  -- the scenario has changed.
  abbrev pub Passed :
      List (String × V) → Step E → Place W V → List (String × V) → StepResult × Place W V → Type 0
  Passed input step place outputs (r, after) =
      (r.status ≡ pass)
      × (r.failure ≡ none)
      × (after.results ≡ assign step.name ((kw.calls input).object outputs) place.results)

  -- A step that calls a keyword passes exactly if the call completes: the keyword is there, all its
  -- declared inputs are given, no step of it is named like a result of the scenario, the references of
  -- its steps go back, each of them is held back by its condition or runs without a failure, and the
  -- outputs evaluate. Its own result is then the object of the outputs, and no other result is set or
  -- changed. If the call does not complete, the step fails with a failure and no result is changed.
  pub execute_keyword_step_lem :
      (input : List (String × V)) (phase : String) (step : Step E) (place : Place W V)
      → ((outputs : List (String × V)) × Completed kw input step place outputs
          × Passed input step place outputs (execute_keyword_step kw input phase step place))
        ⊎ ((((outputs : List (String × V)) × Completed kw input step place outputs) → ⊥)
            × ((execute_keyword_step kw input phase step place).0.status ≡ fail)
            × ((execute_keyword_step kw input phase step place).0.failure ≢ none)
            × ((execute_keyword_step kw input phase step place).1.results ≡ place.results))
  unfolding execute_keyword_step
  execute_keyword_step_lem input phase step place =
      elim (outcome-cases (keyword_outcome kw input step place).0) [
        | inl (outputs, e) ↦ inl (
          outputs,
          keyword_outcome-ok kw input step place outputs e,
          rw (e, execute_keyword_step) (refl, refl, refl),
        )
        | inr (failure, e) ↦ inr (
          λ (outputs, c). let good = Completed-keyword_outcome kw input step place outputs c in cc,
          rw (e, execute_keyword_step) refl,
          rw (e, execute_keyword_step) (λ h. cc),
          rw (e, execute_keyword_step) refl,
        )
      ]

  execute_keyword_step-Settled :
      (input : List (String × V)) (phase : String) (step : Step E) (place : Place W V)
      → ((execute_keyword_step kw input phase step place).0.name ≡ step.name)
        × (((execute_keyword_step kw input phase step place).0.status ≡ pass)
            ⊎ ((execute_keyword_step kw input phase step place).0.status ≡ fail))
  unfolding execute_keyword_step
  execute_keyword_step-Settled input phase step place =
      elim (outcome-cases (keyword_outcome kw input step place).0) [
        | inl (outputs, e) ↦ rw (e, execute_keyword_step) (refl, inl refl)
        | inr (failure, e) ↦ rw (e, execute_keyword_step) (refl, inr refl)
      ]

  -- dispatchProviderStep, where `others` are the executors of the other providers.
  unfoldable pub dispatch_keyword :
      (String → Step E → Place W V → Option (StepResult × Place W V))
      → List (String × V)
      → String
      → Step E
      → Place W V
      → Option (StepResult × Place W V)
  dispatch_keyword others input phase step place =
      if str_eq step.provider "keyword"
      then some (execute_keyword_step kw input phase step place)
      else others phase step place

  -- The dispatch of a step with keywords in it keeps to what the loop over the steps relies on, if
  -- the executors of the other providers do: the result carries the name of the step, and it passes
  -- or fails.
  pub dispatch_keyword-Law :
      (others : AttemptCalls E V W P Q O) (input : List (String × V))
      → DispatchLaw others
      → DispatchLaw (record others { dispatch = dispatch_keyword others.dispatch input })
  unfolding dispatch_keyword
  dispatch_keyword-Law others input law phase step place r next h =
      elim (Bool-cases (str_eq step.provider "keyword")) [
        | inl keyword ↦
            let same : some (execute_keyword_step kw input phase step place) ≡ some (r, next) =
              ground (arith, h, keyword) in
            let found : execute_keyword_step kw input phase step place ≡ (r, next) = cc in
            let settled = execute_keyword_step-Settled input phase step place in
            let first : (execute_keyword_step kw input phase step place).0 ≡ r =
              ap (λ t. t.0) found in
            subst (λ t. (t.name ≡ step.name) × ((t.status ≡ pass) ⊎ (t.status ≡ fail))) first
              settled
        | inr other ↦ law phase step place r next (ground (arith, h, other))
      ]
