-- ===== src/Runtime/Attempt.antt =====
-- internal/runtime/runner.go: one attempt of a step, executeStepAttempt, on the generic path. `E` and
-- `V` are the expressions and values of the HCL library, `W` is what the providers reach, `P` the
-- providers, `Q` and `O` the values of a request and what else a provider puts out.
mod Tests
pub mod Completed
pub mod Filled
use tales.Base.{
  String, str_eq, List, [], ◌∷◌, Option, none, some, Bool, true, false, if◌then◌else◌, Result, ok,
  err,
}
use tales.Model.Expression.{Expression}
use tales.Model.Http.{StepVar}
use tales.Model.Step.{Step}
use tales.Report.{pass, fail, skip, ErrorDetail, SkipReason, when_error, when_false, StepResult}

-- What an expression is evaluated in.
pub record Scope (V : Type 0) : Type 0 where
  pub results : List (String × V)
  pub request : V
  pub response : V
  pub vars : List (String × V)

pub record Output (V O : Type 0) : Type 0 where
  pub request : V
  pub response : V
  pub rest : O

-- The state of a scenario: the results of its steps, and what lies outside.
pub record Place (W V : Type 0) : Type 0 where
  pub results : List (String × V)
  pub world : W

-- What executeStepAttempt and evalWhen call. `eval` gets the place of the expression in its step;
-- `can_argument` is the argument of a call of the function `can`; `dispatch` is
-- dispatchProviderStep, `none` where it leaves the step to the generic path; `apply_save` is
-- applySaveAndDownload and `evaluate_expect` evaluateExpect. The number of the attempt, which the
-- source hands to `dispatch` and to the provider, is fixed in these calls.
pub record AttemptCalls (E V W P Q O : Type 0) : Type 0 where
  pub eval : String → String → Expression E → Scope V → Result String V
  pub as_bool : V → Option Bool
  pub can_argument : E → Option E
  pub eval_raw : String → E → Scope V → Result String V
  pub object : List (String × V) → V
  pub dispatch : String → Step E → Place W V → Option (StepResult × Place W V)
  pub evaluate_request : Scope V → Step E → Result String Q
  pub provider : String → Option P
  pub execute : P → Q → W → Result String (Output V O) × W
  pub apply_save : Scope V → Step E → Output V O → W → Result ErrorDetail (Scope V × Output V O) × W
  pub evaluate_expect : Scope V → Step E → Output V O → Option ErrorDetail

-- m[key] = v, with the entries in the order of their insertion.
unfoldable pub assign : {V : Type 0} → String → V → List (String × V) → List (String × V)
assign key v [] = (key, v) ∷ []
assign key v ((k, x) ∷ m) =
    let rest = assign key v m in if str_eq k key then (key, v) ∷ m else (k, x) ∷ rest

abbrev pub detail : String → String → String → ErrorDetail
detail kind path message = record { kind = kind; path = path; message = message }

abbrev pub report : String → String → Option ErrorDetail → StepResult
report name phase failure = record {
  name = name;
  phase = phase;
  status = elim failure [ some e ↦ fail | none ↦ pass ];
  attempts = 0;
  failure = failure;
  skip_reason = none;
}

module _ {E V W P Q O : Type 0} (calls : AttemptCalls E V W P Q O) where
  open calls use {
    eval, eval_raw, as_bool, can_argument, object, dispatch, evaluate_request, provider, execute,
    apply_save, evaluate_expect,
  }

  -- The loop of evaluateStepVars, with the values so far; an error names the variable.
  unfoldable pub eval_vars :
      List (StepVar E) → List (String × V) → Scope V → Result (String × String) (Scope V)
  eval_vars [] values scope = ok (record scope { vars = values })
  eval_vars (v ∷ vars) values scope =
      elim (eval "vars" v.name v.expr (record scope { vars = values })) [
        | err message ↦ err (v.name, message)
        | ok x ↦ eval_vars vars (assign v.name x values) scope
      ]

  unfoldable pub evaluate_step_vars : Step E → Scope V → Result (String × String) (Scope V)
  evaluate_step_vars step scope = eval_vars step.vars [] scope

  -- The loop over the captures, an entry of the result for each.
  unfoldable pub capture_loop :
      List (String × Expression E)
      → List (String × V)
      → Scope V
      → Result ErrorDetail (List (String × V))
  capture_loop [] values scope = ok values
  capture_loop ((key, e) ∷ captures) values scope = elim (eval "capture" key e scope) [
    | err message ↦ err (detail "capture" key message)
    | ok x ↦ capture_loop captures (assign key x values) scope
  ]

  -- From the expectations on.
  unfoldable pub check_and_capture :
      Step E → Scope V → Output V O → Result ErrorDetail (List (String × V))
  check_and_capture step scope output =
      let failed : Option ErrorDetail = elim step.expect [
        | some e ↦ evaluate_expect scope step output
        | none ↦ none
      ] in
      elim failed [
        | some failure ↦ err failure
        | none ↦
            capture_loop step.capture
              (assign "response" output.response (assign "request" output.request [])) scope
      ]

  -- From the answer of the provider on.
  unfoldable pub use_answer :
      Step E → Scope V → Output V O → W → Result ErrorDetail (List (String × V)) × W
  use_answer step scope output w =
      let seen : Scope V = record scope { request = output.request; response = output.response } in
      elim step.save [
        | none ↦ (check_and_capture step seen output, w)
        | some s ↦
            let (saved, w') = apply_save seen step output w in
            elim saved [
              | err failure ↦ (err failure, w')
              | ok (scope', output') ↦ (check_and_capture step scope' output', w')
            ]
      ]

  -- From the request on.
  unfoldable pub call_provider : Step E → Scope V → W → Result ErrorDetail (List (String × V)) × W
  call_provider step scope w = elim (evaluate_request scope step) [
    | err message ↦ (err (detail "eval" "" message), w)
    | ok request ↦ elim (provider step.provider) [
      | none ↦ (err (detail "provider" "" "unknown provider"), w)
      | some p ↦
          let (output, w') = execute p request w in
          elim output [
            | err message ↦ (err (detail "provider" "" message), w')
            | ok out ↦ use_answer step scope out w'
          ]
    ]
  ]

  unfoldable pub run_attempt : Step E → Place W V → Result ErrorDetail (List (String × V)) × W
  run_attempt step place =
      elim (evaluate_step_vars step (record {
        results = place.results;
        request = object [];
        response = object [];
        vars = [];
      })) [
        | err (name, message) ↦ (err (detail "vars" name message), place.world)
        | ok scope ↦ call_provider step scope place.world
      ]

  unfoldable pub execute_step_attempt : String → Step E → Place W V → StepResult × Place W V
  execute_step_attempt phase step place = elim (dispatch phase step place) [
    | some handled ↦ handled
    | none ↦
        let (outcome, w) = run_attempt step place in
        elim outcome [
          | err failure ↦ (report step.name phase (some failure), record place { world = w })
          | ok values ↦ (
            report step.name phase none,
            record { results = assign step.name (object values) place.results; world = w },
          )
        ]
  ]

  -- toBool
  unfoldable pub to_bool : V → Result String Bool
  to_bool v = elim (as_bool v) [ none ↦ err "expected boolean value" | some b ↦ ok b ]

  -- evalWhen: the reason for which the step does not run.
  unfoldable pub eval_when : String → Expression E → Scope V → Option SkipReason
  eval_when path none scope = none
  eval_when path (some e) scope = elim (can_argument e) [
    | some inner ↦ elim (eval_raw path inner scope) [ err message ↦ some when_false | ok v ↦ none ]
    | none ↦ elim (eval path "" (some e) scope) [
      | err message ↦ some (when_error message)
      | ok v ↦ elim (to_bool v) [
        | err message ↦ some (when_error message)
        | ok b ↦ if b then none else some when_false
      ]
    ]
  ]

  -- skipScope, without the input of a keyword; a new attempt starts with the same scope.
  abbrev pub new_scope : Place W V → Scope V
  new_scope place = record {
    results = place.results;
    request = object [];
    response = object [];
    vars = [];
  }
