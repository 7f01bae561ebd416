-- ===== src/Report.antt =====
-- internal/report/report.go: the results that the runner collects. Times and durations, the request
-- and response maps, and the actions of user-interface steps are left out; a message is the text
-- that the source formats.
mod Tests
pub mod Failed
use tales.Base.{ℕ, String, List, [], ◌∷◌, Option, Bool, true, false, if◌then◌else◌, ltb, length}
use tales.Model.Step.{SkipKind}

pub data Status : Type 0 where
  pass fail skip unknown : Status

pub record ErrorDetail : Type 0 where
  pub kind : String
  pub path : String
  pub message : String

-- What the text of an attribute's match says: the attribute, whether it matched, and the strings
-- that the text lists.
pub record Why : Type 0 where
  pub attribute : String
  pub matched : Bool
  pub listed : List String

-- The reason that a skip rule gives, or the text of its kind and its attributes' matches.
pub data RuleReason : Type 0 where
  given : String → RuleReason
  automatic : SkipKind → List Why → RuleReason

-- Why a step did not run.
pub data SkipReason : Type 0 where
  depends_on_failed : String → SkipReason
  depends_on_skipped : String → SkipReason
  earlier_failed : SkipReason
  rule : RuleReason → SkipReason
  when_false : SkipReason
  when_error : String → SkipReason

pub record Artifact : Type 0 where
  pub type : String
  pub path : String

pub record StepResult : Type 0 where
  pub name : String
  pub phase : String
  pub status : Status
  pub attempts : ℕ
  pub failure : Option ErrorDetail
  pub skip_reason : Option SkipReason

pub record ScenarioResult : Type 0 where
  pub name : String
  pub status : Status
  pub steps : List StepResult
  pub teardown : List StepResult
  pub failure : Option ErrorDetail
  pub teardown_failures : List (Option ErrorDetail)
  pub skip_reason : Option SkipReason
  pub artifacts : List Artifact

pub record SuiteResult : Type 0 where
  pub scenarios : List ScenarioResult
  pub teardown : List StepResult
  pub teardown_failures : List (Option ErrorDetail)

abbrev pub is_pass : Status → Bool
is_pass pass = true
is_pass _ = false

abbrev pub is_fail : Status → Bool
is_fail fail = true
is_fail _ = false

abbrev pub is_skip : Status → Bool
is_skip skip = true
is_skip _ = false

scenario_failed : List ScenarioResult → Bool
scenario_failed [] = false
scenario_failed (s ∷ ss) = let rest = scenario_failed ss in if is_fail s.status then true else rest

-- Failed
unfoldable pub failed : SuiteResult → Bool
unfolding scenario_failed
failed r = if ltb 0 (length r.teardown_failures) then true else scenario_failed r.scenarios
