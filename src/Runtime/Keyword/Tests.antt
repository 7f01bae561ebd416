-- ===== src/Runtime/Keyword/Tests.antt =====
-- internal/runtime/runner.go: a keyword with one step, called by the step of a scenario.
use tales.Base.{
  ℕ, suc, String, str_eq, List, [], ◌∷◌, none, some, true, false, if◌then◌else◌, ◌≡◌, ◌≢◌, refl,
  ◌⊎◌, ok, err, contains,
}
use mathlib.Core.List.{flat_map}
use tales.Model.Step.{Step, Keyword}
use tales.Lang.Refs.{
  validate_step_order, order_loop, validate_step_refs, check_explicit, check_implicit,
  step_dependencies, dependency_set, step_expressions, collect_all, insert_all, find_step_refs,
  find_root_attr_refs, root_attr_loop,
}
use tales.Lang.Collect.{
  collect_request_refs, collect_expect_refs, collect_save_refs, collect_file_refs,
  collect_exec_refs, keyword_refs, collect_mobile_refs, collect_sql_refs, collect_webhook_refs,
  collect_rpc_refs, collect_skip_refs,
}
use tales.Report.{fail, ErrorDetail}
use tales.Runtime.Attempt.{
  AttemptCalls, Place, assign, report, eval_when, eval_vars, evaluate_step_vars, new_scope,
}
use tales.Runtime.Keyword.{
  KeywordCalls, keyword_loop, keyword_outcome, execute_keyword_step, call_keyword, run_keyword,
  execute_keyword_steps, evaluate_keyword_call, evaluate_inputs, validate_keyword_inputs,
  missing_input, new_keyword_state, step_names, fill, set_results, evaluate_keyword_outputs,
  outputs_loop, sort_entries, insert_sorted,
}
use tales.Runtime.Keyword.Completed.{Completed}
use tales.Runtime.Keyword.Recursive.{execute_keyword_step-again}
use tales.Runtime.Keyword.Isolated.{Passed, execute_keyword_step_lem}
use tales.Runtime.Keyword.Ran.{Clean, Failed, keyword_loop-Ends}

-- Expressions are texts that stand for their values.
abbrev echo : AttemptCalls String String ℕ String String ℕ
echo = record {
  eval = λ prefix name e scope. elim e [ some t ↦ ok t | none ↦ err "nothing to evaluate" ];
  can_argument = λ e. none;
  eval_raw = λ path e scope. ok e;
  as_bool = λ v. if str_eq v "true" then some true else none;
  object = λ values. elim values [ [] ↦ "empty" | (v ∷ vs) ↦ v.1 ];
  dispatch = λ phase step place. none;
  evaluate_request = λ scope step. ok "GET";
  provider = λ name. none;
  execute = λ p q w. (err "no provider", w);
  apply_save = λ scope step output w. (ok (scope, output), w);
  evaluate_expect = λ scope step output. none;
}

abbrev sign_in : Step String
sign_in = record {
  provider = "http";
  name = "sign_in";
  file = "keywords.tales";
  line = 1;
  depends_on = [];
  when = none;
  vars = [];
  request = none;
  expect = none;
  capture = [];
  save = none;
  file_op = none;
  exec = none;
  keyword = none;
  mobile = none;
  sql = none;
  mail = none;
  browser = none;
  load = none;
  webhook = none;
  rpc = none;
  retry = none;
  skip_rules = [];
}

abbrev call : Step String
call = record sign_in {
  provider = "keyword";
  name = "session";
  keyword = some (record { name = some "login"; inputs = none });
}

abbrev login : Keyword String
login = record {
  name = "login";
  file = "keywords.tales";
  inputs = [];
  steps = sign_in ∷ [];
  outputs = ("token", some "secret") ∷ [];
}

abbrev kw : KeywordCalls String String ℕ String String ℕ
kw = record {
  calls = λ input. echo;
  variables = λ e. [];
  keywords = λ name. if str_eq name "login" then some login else none;
  execute_step = λ input step place. (
    report step.name "step" none,
    record { results = assign step.name "signed" place.results; world = suc place.world },
  );
  as_text = λ v. some v;
  is_null = λ v. false;
  as_value_map = λ v. none;
  sprintf = λ format args. format;
  ref_text = λ e. "reference";
}

abbrev outside : Place ℕ String
outside = record { results = ("session", "empty") ∷ []; world = 0 }

session_test :
    execute_keyword_step kw [] "step" call outside
    ≡ (report "session" "step" none, record { results = ("session", "secret") ∷ []; world = 1 })
unfolding execute_keyword_step keyword_outcome call_keyword run_keyword execute_keyword_steps
    keyword_loop evaluate_keyword_call evaluate_inputs validate_keyword_inputs missing_input
    new_keyword_state step_names fill set_results evaluate_keyword_outputs outputs_loop sort_entries
    insert_sorted eval_vars evaluate_step_vars eval_when assign contains validate_step_order
    order_loop validate_step_refs check_explicit check_implicit step_dependencies dependency_set
    step_expressions collect_all insert_all find_step_refs find_root_attr_refs root_attr_loop
    collect_request_refs collect_expect_refs collect_save_refs collect_file_refs collect_exec_refs
    keyword_refs collect_mobile_refs collect_sql_refs collect_webhook_refs collect_rpc_refs
    collect_skip_refs flat_map
session_test = refl

execute_keyword_step_example :
    ((outputs : List (String × String)) × Completed kw [] call outside outputs
      × Passed kw [] call outside outputs (execute_keyword_step kw [] "step" call outside))
    ⊎ ((((outputs : List (String × String)) × Completed kw [] call outside outputs) → ⊥)
        × ((execute_keyword_step kw [] "step" call outside).0.status ≡ fail)
        × ((execute_keyword_step kw [] "step" call outside).0.failure ≢ none)
        × ((execute_keyword_step kw [] "step" call outside).1.results ≡ ("session", "empty") ∷ []))
execute_keyword_step_example = execute_keyword_step_lem kw [] "step" call outside

keyword_loop-Ends_example :
    (((keyword_loop kw login [] (sign_in ∷ []) outside).0 ≡ none)
      × Clean kw [] (sign_in ∷ []) outside (keyword_loop kw login [] (sign_in ∷ []) outside).1)
    ⊎ ((e : ErrorDetail) × ((keyword_loop kw login [] (sign_in ∷ []) outside).0 ≡ some e)
        × Failed kw [] login
            (sign_in ∷ [])
            outside
            e
            (keyword_loop kw login [] (sign_in ∷ []) outside).1)
keyword_loop-Ends_example = keyword_loop-Ends kw [] login (sign_in ∷ []) outside

abbrev inside : List (String × String)
inside = ("session", "empty") ∷ ("sign_in", "empty") ∷ []

-- Where the steps of `login` run.
abbrev login_place : Place ℕ String
login_place = record { results = inside; world = 7 }

login_started : new_keyword_state "empty" (("session", "empty") ∷ []) login.steps ≡ ok inside
unfolding new_keyword_state step_names fill set_results assign contains
login_started = refl

no_vars :
    evaluate_step_vars echo call (new_scope echo login_place) ≡ ok (new_scope echo login_place)
unfolding evaluate_step_vars eval_vars
no_vars = refl

calls_login :
    evaluate_keyword_call kw []
      (new_scope echo login_place)
      (record { name = some "login"; inputs = none })
    ≡ ok ("login", [])
unfolding evaluate_keyword_call evaluate_inputs
calls_login = refl

execute_keyword_step-again_example :
    ((execute_keyword_step kw [] "step" call login_place).0.status ≡ fail)
    × ((execute_keyword_step kw [] "step" call login_place).1.results ≡ inside)
    × ((execute_keyword_step kw [] "step" call login_place).1.world ≡ 7)
execute_keyword_step-again_example =
    execute_keyword_step-again kw login sign_in [] (("session", "empty") ∷ []) inside "empty" refl
      login_started login_place (λ m h. h) [] "step" call
      (record { name = some "login"; inputs = none }) (new_scope echo login_place) "login" [] refl
      no_vars calls_login refl
