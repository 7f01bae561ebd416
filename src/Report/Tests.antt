-- ===== src/Report/Tests.antt =====
-- internal/report/report.go: a suite of which only the teardown fails.
use tales.Base.{[], ◌∷◌, none, true, ◌≡◌, refl}
use tales.Report.{pass, ScenarioResult, SuiteResult, failed}

abbrev shop : ScenarioResult
shop = record {
  name = "shop";
  status = pass;
  steps = [];
  teardown = [];
  failure = none;
  teardown_failures = [];
  skip_reason = none;
  artifacts = [];
}

abbrev suite : SuiteResult
suite = record { scenarios = shop ∷ []; teardown = []; teardown_failures = none ∷ [] }

suite_test : failed suite ≡ true
unfolding failed
suite_test = refl
