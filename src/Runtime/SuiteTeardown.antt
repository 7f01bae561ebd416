-- ===== src/Runtime/SuiteTeardown.antt =====
-- internal/runtime/suite_teardown.go: the teardown of the suite.
use tales.Base.{
  String, List, [], ◌∷◌, ◌++◌, map, Option, none, some, if◌then◌else◌, ◌≡◌, refl, sym, ap, ◌∙◌, ◌⊎◌,
  inl, inr, append_assoc, append-nil, map-append, Option-cases,
}
use tales.Report.{fail, ErrorDetail, StepResult, is_fail}
use tales.Runtime.Steps.Outcome.{names}
use tales.Runtime.Scenario.{ScenarioCalls, execute_teardown_step_in_phase}
use tales.Runtime.Scenario.Teardown.{
  TeardownNames, execute_teardown_step_in_phase-name, failures, failures-snoc,
}

-- The results and the failures.
abbrev pub Collected : Type 0
Collected = List StepResult × List (Option ErrorDetail)

unfoldable pub suite_teardown_setup_failure : String → Collected
suite_teardown_setup_failure message =
    let failure : Option ErrorDetail =
      some (record { kind = "runtime"; path = ""; message = message }) in
    (
      record {
        name = "workspace";
        phase = "suite_teardown";
        status = fail;
        attempts = 0;
        failure = failure;
        skip_reason = none;
      }
          ∷ [],
      failure ∷ [],
    )

module _ {W S H : Type 0} (calls : ScenarioCalls W S H) where
  -- The loop over the steps, with the results and the failures so far.
  unfoldable pub suite_teardown_loop : List S → Collected → W → Collected × W
  suite_teardown_loop [] found w = (found, w)
  suite_teardown_loop (s ∷ steps) (results, failures_found) w =
      let (r, w') = execute_teardown_step_in_phase calls "suite_teardown" w s in
      suite_teardown_loop steps
        (
          results ++ (r ∷ []),
          (if is_fail r.status then failures_found ++ (r.failure ∷ []) else failures_found),
        )
        w'

  -- `workspace` is buildSuiteTeardownWorkspace, with the text of its error.
  unfoldable pub run_suite_teardown : (W → Option String × W) → List S → W → Collected × W
  run_suite_teardown workspace [] w = (([], []), w)
  run_suite_teardown workspace (s ∷ steps) w =
      let (failure, w') = workspace w in
      elim failure [
        | some message ↦ (suite_teardown_setup_failure message, w')
        | none ↦ suite_teardown_loop (s ∷ steps) ([], []) w'
      ]

  suite_teardown_loop_lem :
      TeardownNames calls
      → (steps : List S) (found : Collected) (w : W) → found.1 ≡ failures found.0
      → ((suite_teardown_loop steps found w).0.1 ≡ failures (suite_teardown_loop steps found w).0.0)
        × (names (suite_teardown_loop steps found w).0.0
            ≡ names found.0 ++ map calls.steps.name steps)
  unfolding suite_teardown_loop
  suite_teardown_loop_lem laws [] found w h = (h, sym (append-nil _))
  suite_teardown_loop_lem laws (s ∷ steps) (results, failures_found) w h =
      let (r, w') = execute_teardown_step_in_phase calls "suite_teardown" w s in
      let (f, n) =
        suite_teardown_loop_lem laws steps
          (
            results ++ (r ∷ []),
            (if is_fail r.status then failures_found ++ (r.failure ∷ []) else failures_found),
          )
          w'
          (ap (λ t. if is_fail r.status then t ++ (r.failure ∷ []) else t) h
            ∙ sym (failures-snoc results r)) in
      (
        f,
        n
            ∙ (rw (map-append, execute_teardown_step_in_phase-name calls laws "suite_teardown" w s)
                  refl
                ∙ append_assoc (names results) (calls.steps.name s ∷ []) _),
      )

  -- The suite's teardown reports every step in order, whichever of them fail, or the one step
  -- `workspace` if the workspace cannot be created; its failures are those of the results that fail.
  pub run_suite_teardown_lem :
      (laws : TeardownNames calls) (workspace : W → Option String × W) (steps : List S) (w : W)
      → ((run_suite_teardown workspace steps w).0.1
          ≡ failures (run_suite_teardown workspace steps w).0.0)
        × ((names (run_suite_teardown workspace steps w).0.0 ≡ map calls.steps.name steps)
            ⊎ ((names (run_suite_teardown workspace steps w).0.0 ≡ "workspace" ∷ [])
                × ((message : String) × ((workspace w).0 ≡ some message))))
  unfolding run_suite_teardown suite_teardown_setup_failure
  run_suite_teardown_lem laws workspace [] w = (refl, inl refl)
  run_suite_teardown_lem laws workspace (s ∷ steps) w = elim (Option-cases (workspace w).0) [
    | inr (message, e) ↦ rw (e, run_suite_teardown) (refl, inr (refl, (message, refl)))
    | inl e ↦
        let (f, n) = suite_teardown_loop_lem laws (s ∷ steps) ([], []) (workspace w).1 refl in
        rw (e, run_suite_teardown) (f, inl n)
  ]
