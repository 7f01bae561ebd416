-- ===== src/Runtime/Scenario/Teardown.antt =====
-- internal/runtime/runner.go: what the teardown of a scenario adds to its result.
use tales.Base.{
  String, List, [], ◌∷◌, ◌++◌, map, Option, true, if◌then◌else◌, ◌≡◌, refl, sym, ◌∙◌, arith,
  append_assoc, append-nil, map-append, Bool-cases, inl, inr,
}
use tales.Report.{pass, fail, ErrorDetail, StepResult, ScenarioResult, is_fail}
use tales.Runtime.Steps.Outcome.{names}
use tales.Runtime.Steps.Invariant.{
  any_fail, first_failure, any_fail-snoc, first_failure-snoc, first_failure-none,
}
use tales.Runtime.Scenario.{
  ScenarioCalls, record_teardown, execute_teardown_step_in_phase, teardown_loop,
}

-- The failures of the results that fail.
abbrev pub failures : List StepResult → List (Option ErrorDetail)
failures [] = []
failures (r ∷ rs) = if is_fail r.status then r.failure ∷ failures rs else failures rs

pub failures-snoc :
    (rs : List StepResult) (r : StepResult)
    → failures (rs ++ (r ∷ []))
      ≡ (if is_fail r.status then failures rs ++ (r.failure ∷ []) else failures rs)
failures-snoc [] r = refl
failures-snoc (x ∷ rs) r = ground (arith, failures-snoc rs r)

first_failure-kept :
    (rs : List StepResult) (r : StepResult)
    → any_fail rs ≡ true
    → first_failure (rs ++ (r ∷ [])) ≡ first_failure rs
first_failure-kept [] r h = ground arith
first_failure-kept (x ∷ rs) r h = ground (arith, first_failure-kept rs r)

-- The result of a scenario counts its steps and its teardown.
pub record Summed (result : ScenarioResult) : Type 0 where
  pub status : result.status ≡ (if any_fail (result.steps ++ result.teardown) then fail else pass)
  pub failure : result.failure ≡ first_failure (result.steps ++ result.teardown)
  pub teardown_failures : result.teardown_failures ≡ failures result.teardown

record_teardown-status :
    (r : StepResult) (result : ScenarioResult)
    → (result.status ≡ (if any_fail (result.steps ++ result.teardown) then fail else pass))
    → (record_teardown r result).status
      ≡ (if any_fail ((result.steps ++ result.teardown) ++ (r ∷ [])) then fail else pass)
unfolding record_teardown
record_teardown-status r result h =
    ground (arith, any_fail-snoc (result.steps ++ result.teardown) r)

record_teardown-failure :
    (r : StepResult) (result : ScenarioResult)
    → Summed result
    → (record_teardown r result).failure
      ≡ first_failure ((result.steps ++ result.teardown) ++ (r ∷ []))
unfolding record_teardown
record_teardown-failure r result h =
    elim (Bool-cases (any_fail (result.steps ++ result.teardown))) [
      | inl failed ↦
          let e = first_failure-kept (result.steps ++ result.teardown) r failed in
          ground (arith, e, h.status, h.failure, failed)
      | inr fine ↦
          let e = first_failure-snoc (result.steps ++ result.teardown) r fine in
          let e' = first_failure-none (result.steps ++ result.teardown) fine in
          ground (arith, e, e', h.status, h.failure, fine)
    ]

record_teardown-lists :
    (r : StepResult) (result : ScenarioResult)
    → ((record_teardown r result).steps ≡ result.steps)
      × ((record_teardown r result).teardown ≡ result.teardown ++ (r ∷ []))
      × (result.teardown_failures ≡ failures result.teardown
          → (record_teardown r result).teardown_failures ≡ failures (result.teardown ++ (r ∷ [])))
unfolding record_teardown
record_teardown-lists r result =
    (ground arith, ground arith, λ h. ground (arith, failures-snoc result.teardown r))

pub record_teardown-Summed :
    (r : StepResult) (result : ScenarioResult) → Summed result → Summed (record_teardown r result)
record_teardown-Summed r result h =
    let (steps, teardown, counted) = record_teardown-lists r result in
    record {
      status =
          rw (steps, teardown, sym (append_assoc result.steps result.teardown (r ∷ [])))
            (record_teardown-status r result h.status);
      failure =
          rw (steps, teardown, sym (append_assoc result.steps result.teardown (r ∷ [])))
            (record_teardown-failure r result h);
      teardown_failures = rw teardown (counted h.teardown_failures);
    }

module _ {W S H : Type 0} (calls : ScenarioCalls W S H) where
  -- A teardown step's result carries its name.
  abbrev pub TeardownNames : Type 0
  TeardownNames =
      (phase : String) (w : W) (s : S)
      → (calls.teardown_execute phase w s).0.name ≡ calls.steps.name s

  pub teardown_loop-Summed :
      (steps : List S) (result : ScenarioResult) (w : W)
      → Summed result
      → Summed (teardown_loop calls steps result w).0
  unfolding teardown_loop
  teardown_loop-Summed [] result w h = h
  teardown_loop-Summed (s ∷ steps) result w h =
      teardown_loop-Summed steps _ _ (record_teardown-Summed _ result h)

  pub execute_teardown_step_in_phase-name :
      (laws : TeardownNames) (phase : String) (w : W) (s : S)
      → (execute_teardown_step_in_phase calls phase w s).0.name ≡ calls.steps.name s
  unfolding execute_teardown_step_in_phase
  execute_teardown_step_in_phase-name laws phase w s = ground (arith, laws phase w s)

  -- Every step of the teardown is reported, in order, whichever of them fail; what the steps of the
  -- scenario reported stays.
  pub teardown_loop-names :
      (laws : TeardownNames) (steps : List S) (result : ScenarioResult) (w : W)
      → (names (teardown_loop calls steps result w).0.teardown
          ≡ names result.teardown ++ map calls.steps.name steps)
        × ((teardown_loop calls steps result w).0.steps ≡ result.steps)
  unfolding teardown_loop
  teardown_loop-names laws [] result w = (sym (append-nil _), refl)
  teardown_loop-names laws (s ∷ steps) result w =
      let (r, w') = execute_teardown_step_in_phase calls "teardown" w s in
      let (kept, teardown, _) = record_teardown-lists r result in
      let (n, k) = teardown_loop-names laws steps (record_teardown r result) w' in
      (
        n
            ∙ (rw (teardown, map-append, execute_teardown_step_in_phase-name laws "teardown" w s)
                  refl
                ∙ append_assoc (names result.teardown) (calls.steps.name s ∷ []) _),
        k ∙ kept,
      )
