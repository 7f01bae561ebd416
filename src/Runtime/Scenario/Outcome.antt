-- ===== src/Runtime/Scenario/Outcome.antt =====
-- internal/runtime/runner.go: what runScenario returns, on every path.
use tales.Base.{String, List, [], ◌∷◌, map, none, some, ◌≡◌, ◌⊎◌, Result, ok, err}
use tales.Report.{fail, ScenarioResult}
use tales.Runtime.Steps.Outcome.{names}
use tales.Runtime.Scenario.{ScenarioCalls, dependency_errors}
use tales.Runtime.Scenario.Teardown.{Summed}

module _ {W S H : Type 0} (calls : ScenarioCalls W S H) where
  -- The whole scenario is reported: one result for each step and for each step of the teardown, in
  -- their order, and a status and failures that count both.
  abbrev pub Reported : List S → List S → ScenarioResult → Type 0
  Reported steps teardown r =
      (names r.steps ≡ map calls.steps.name steps)
      × (names r.teardown ≡ map calls.steps.name teardown)
      × Summed r

  -- All the hooks begin, one after the other.
  abbrev pub AllBegin : List H → W → Type 0
  AllBegin [] v = Unit
  AllBegin (h ∷ hooks) v = ((calls.begin h v).0 ≡ none) × AllBegin hooks (calls.begin h v).1

  -- One of the hooks does not begin, with that error, when those before it have.
  abbrev pub OneFails : List H → W → String → Type 0
  OneFails [] v message = ⊥
  OneFails (h ∷ hooks) v message =
      ((calls.begin h v).0 ≡ some message)
      ⊎ (((calls.begin h v).0 ≡ none) × OneFails hooks (calls.begin h v).1 message)

  -- A hook has failed the scenario, of which nothing else is reported.
  abbrev pub HookFailed : String → ScenarioResult → Type 0
  HookFailed message r =
      (r.status ≡ fail)
      × (r.failure ≡ some (record { kind = "hook"; path = ""; message = message }))
      × (r.steps ≡ [])
      × (r.teardown ≡ [])

  -- What runScenario returns once the hooks are to begin in `v`.
  abbrev pub Hooked : List H → List S → List S → W → Result String ScenarioResult → Type 0
  Hooked hooks steps teardown v (err e) =
      AllBegin hooks v × (dependency_errors calls steps ≡ some e)
  Hooked hooks steps teardown v (ok r) =
      ((message : String) × OneFails hooks v message × HookFailed message r)
      ⊎ (AllBegin hooks v × (dependency_errors calls steps ≡ none) × Reported steps teardown r)

  -- What runScenario returns, `v` being what the workspace leaves: the error of the workspace, the
  -- result of the skip rules, or what comes of the hooks and the steps.
  abbrev pub Outcome :
      List H → List S → List S → ScenarioResult → W → Result String ScenarioResult → Type 0
  Outcome hooks steps teardown result w out =
      ((e : String) × ((calls.workspace w).0 ≡ some e) × (out ≡ err e))
      ⊎ (((calls.workspace w).0 ≡ none)
          × (((r : ScenarioResult) × (calls.scenario_skip (calls.workspace w).1 result ≡ some r)
                × (out ≡ ok r))
              ⊎ ((calls.scenario_skip (calls.workspace w).1 result ≡ none)
                  × Hooked hooks steps teardown (calls.workspace w).1 out)))
