-- ===== src/Model/Step.antt =====
-- internal/model/step.go, skip.go, keyword.go and scenario.go: steps and what holds them. Durations
-- are numbers of nanoseconds; a number that the source declares as int and never lets be negative
-- is a natural number.
use tales.Base.{Option, List, String, ℕ}
use tales.Model.Expression.{Expression}
use tales.Model.Http.{Request, Expect, SaveBlock, StepVar, KeywordCall}
use tales.Model.Local.{FileCall, ExecCall}
use tales.Model.Services.{SqlCall, MailCall, LoadCall, WebhookCall, RpcCall}
use tales.Model.Ui.{MobileStep, BrowserStep}

-- A kind is a string in the source, so one that is neither of the two can stand there.
pub data SkipKind : Type 0 where
  skip_if skip_unless : SkipKind
  other_kind : String → SkipKind

pub record SkipRule (E : Type 0) : Type 0 where
  pub kind : SkipKind
  pub condition : Expression E
  pub reason : Expression E
  pub os : Expression E
  pub arch : Expression E
  pub env_set : Expression E
  pub env : Expression E

pub record Retry : Type 0 where
  pub attempts : ℕ
  pub interval : ℕ

-- The captures are the entries of a map, in some order.
pub record Step (E : Type 0) : Type 0 where
  pub provider : String
  pub name : String
  pub file : String
  pub line : ℕ
  pub depends_on : List String
  pub when : Expression E
  pub vars : List (StepVar E)
  pub request : Option (Request E)
  pub expect : Option (Expect E)
  pub capture : List (String × Expression E)
  pub save : Option (SaveBlock E)
  pub file_op : Option (FileCall E)
  pub exec : Option (ExecCall E)
  pub keyword : Option (KeywordCall E)
  pub mobile : Option (MobileStep E)
  pub sql : Option (SqlCall E)
  pub mail : Option (MailCall E)
  pub browser : Option (BrowserStep E)
  pub load : Option (LoadCall E)
  pub webhook : Option (WebhookCall E)
  pub rpc : Option (RpcCall E)
  pub retry : Option Retry
  pub skip_rules : List (SkipRule E)

pub record Keyword (E : Type 0) : Type 0 where
  pub name : String
  pub file : String
  pub inputs : List (String × Expression E)
  pub steps : List (Step E)
  pub outputs : List (String × Expression E)
