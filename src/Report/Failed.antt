-- ===== src/Report/Failed.antt =====
-- internal/report/report.go: when a suite has failed.
use tales.Base.{
  List, [], ◌∷◌, length, ltb, Option, Bool, true, if◌then◌else◌, ◌≡◌, ◌≢◌, refl, ◌↔◌, ◌⊎◌, inl, inr,
  arith, false≢true, Bool-cases,
}
use tales.Report.{
  Status, fail, ErrorDetail, ScenarioResult, SuiteResult, is_fail, scenario_failed, failed,
}

-- Some scenario has failed.
abbrev pub SomeFailed : List ScenarioResult → Type 0
SomeFailed [] = ⊥
SomeFailed (s ∷ ss) = (s.status ≡ fail) ⊎ SomeFailed ss

is_fail_iff : (s : Status) → (is_fail s ≡ true) ↔ (s ≡ fail)
is_fail_iff s = ground arith

scenario_failed-SomeFailed : (ss : List ScenarioResult) → scenario_failed ss ≡ true → SomeFailed ss
unfolding scenario_failed
scenario_failed-SomeFailed [] h = false≢true h
scenario_failed-SomeFailed (s ∷ ss) h = elim (Bool-cases (is_fail s.status)) [
  | inl f ↦ inl ((is_fail_iff s.status).0 f)
  | inr ok ↦ inr (scenario_failed-SomeFailed ss (ground (arith, h, ok)))
]

SomeFailed-scenario_failed : (ss : List ScenarioResult) → SomeFailed ss → scenario_failed ss ≡ true
unfolding scenario_failed
SomeFailed-scenario_failed [] h = absurd h
SomeFailed-scenario_failed (s ∷ ss) (inl f) = ground arith
SomeFailed-scenario_failed (s ∷ ss) (inr h) = ground (arith, SomeFailed-scenario_failed ss h)

-- A suite has failed exactly if its teardown has a failure or one of its scenarios has failed.
pub failed_iff :
    (r : SuiteResult) → (failed r ≡ true) ↔ ((r.teardown_failures ≢ []) ⊎ SomeFailed r.scenarios)
unfolding failed
failed_iff r = (
  λ h. elim (Bool-cases (ltb 0 (length r.teardown_failures))) [
    | inl some_failure ↦ inl (λ e. absurd (ground (arith, some_failure, e)))
    | inr no_failure ↦ inr (scenario_failed-SomeFailed r.scenarios (ground (arith, h, no_failure)))
  ],
  λ h. elim h [
    | inl some_failure ↦ nonempty r.teardown_failures (scenario_failed r.scenarios) some_failure
    | inr some_scenario ↦ ground (arith, SomeFailed-scenario_failed r.scenarios some_scenario)
  ],
)
  where
    nonempty :
        (fs : List (Option ErrorDetail)) (b : Bool)
        → fs ≢ []
        → (if ltb 0 (length fs) then true else b) ≡ true
    nonempty [] b h = absurd (h refl)
    nonempty (f ∷ fs) b h = ground arith
