-- ===== src/Runtime/Attempt/Tests.antt =====
-- internal/runtime/runner.go: the theorems at a step that captures one value.
use tales.Base.{
  ℕ, suc, String, str_eq, List, [], ◌∷◌, none, some, Bool, true, false, if◌then◌else◌, ◌≡◌, refl,
  ok, err,
}
use tales.Model.Step.{Step}
use tales.Runtime.Steps.{Lawful}
use tales.Runtime.Skip.{Context}
use tales.Runtime.Attempt.{
  AttemptCalls, Place, assign, run_attempt, execute_step_attempt, call_provider, use_answer,
  check_and_capture, capture_loop, evaluate_step_vars, eval_vars,
}
use tales.Runtime.Attempt.Filled.{DispatchLaw, runner_calls, runner_calls-Lawful}

-- Expressions are texts that stand for their values; the only provider answers every request.
abbrev echo : AttemptCalls String String ℕ String String ℕ
echo = record {
  eval = λ prefix name e scope. elim e [ some t ↦ ok t | none ↦ err "nothing to evaluate" ];
  can_argument = λ e. none;
  eval_raw = λ path e scope. ok e;
  as_bool = λ v. if str_eq v "true" then some true else none;
  object = λ values. elim values [ [] ↦ "empty" | (v ∷ vs) ↦ v.1 ];
  dispatch = λ phase step place. none;
  evaluate_request = λ scope step. ok "GET";
  provider = λ name. if str_eq name "http" then some "http" else none;
  execute = λ p q w. (ok (record { request = q; response = "200"; rest = 0 }), suc w);
  apply_save = λ scope step output w. (ok (scope, output), w);
  evaluate_expect = λ scope step output. none;
}

abbrev get : Step String
get = record {
  provider = "http";
  name = "get";
  file = "shop.tales";
  line = 1;
  depends_on = [];
  when = none;
  vars = [];
  request = none;
  expect = none;
  capture = ("id", some "7") ∷ [];
  save = none;
  file_op = none;
  exec = none;
  keyword = none;
  mobile = none;
  sql = none;
  mail = none;
  browser = none;
  load = none;
  webhook = none;
  rpc = none;
  retry = none;
  skip_rules = [];
}

abbrev initial : Place ℕ String
initial = record { results = []; world = 0 }

get_test :
    (execute_step_attempt echo "step" get initial).1
    ≡ record { results = ("get", "GET") ∷ []; world = 1 }
unfolding execute_step_attempt run_attempt call_provider use_answer check_and_capture capture_loop
    evaluate_step_vars eval_vars assign
get_test = refl

echo-DispatchLaw : DispatchLaw echo
echo-DispatchLaw = λ phase step place r next e. cc

abbrev no_deps : String → List String
no_deps n = []

abbrev rules : Place ℕ String → Step String → Context String String
rules place step = record {
  eval = λ e. ok e;
  is_null = λ v. false;
  as_bool = λ v. none;
  as_string = λ v. some v;
  elements = λ v. none;
  entries = λ v. none;
  os = "linux";
  arch = "amd64";
  lookup_env = λ n. none;
  error_text = λ e. "error";
}

abbrev naps : ℕ → Place ℕ String → Bool × Place ℕ String
naps interval place = (true, place)

-- The calls of an attempt that knows its number.
abbrev numbered_echo : ℕ → AttemptCalls String String ℕ String String ℕ
numbered_echo k = echo

runner_calls-Lawful_example : Lawful (runner_calls echo numbered_echo no_deps rules naps)
runner_calls-Lawful_example =
    runner_calls-Lawful echo numbered_echo no_deps rules naps (λ k. echo-DispatchLaw)
