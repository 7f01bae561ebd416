-- ===== src/Runtime/Skip.antt =====
-- internal/runtime/skip.go: the skip rules of scenarios and steps. `E` and `V` are the expressions
-- and the values of the HCL library.
mod Tests
pub mod Rules
pub mod Attributes
use tales.Base.{
  ℕ, suc, String, str_eq, List, [], ◌∷◌, ◌++◌, length, Option, none, some, Bool, true, false, not,
  ◌&&◌, if◌then◌else◌, Result, ok, err, ◌>>=◌, contains, ◌==◌,
}
use tales.Report.{
  pass, fail, skip, ErrorDetail, Why, RuleReason, given, automatic, SkipReason, rule, StepResult,
  ScenarioResult,
}
use tales.Model.Step.{SkipKind, skip_if, skip_unless, other_kind, SkipRule}

-- Why rules cannot be evaluated.
pub data SkipError : Type 0 where
  in_rule : ℕ → SkipError → SkipError
  in_attribute : String → SkipError → SkipError
  not_evaluated : String → SkipError
  unknown_kind : String → SkipError
  null_list not_a_list not_strings not_an_object entry_not_string not_a_bool reason_not_string :
      SkipError

-- What the rules are evaluated against: the evaluator with the scope and the place that one call
-- fixes, the value's tests of the cty library (`none` where the value has another type), the host,
-- and the text of an error.
pub record Context (E V : Type 0) : Type 0 where
  pub eval : E → Result String V
  pub is_null : V → Bool
  pub as_bool : V → Option Bool
  pub as_string : V → Option String
  pub elements : V → Option (List V)
  pub entries : V → Option (List (String × V))
  pub os : String
  pub arch : String
  pub lookup_env : String → Option String
  pub error_text : SkipError → String

module _ {E V : Type 0} (context : Context E V) where
  open context use {eval, is_null, as_bool, as_string, elements, entries, lookup_env, error_text}

  unfoldable pub evaluate : E → Result SkipError V
  evaluate e = elim (eval e) [ ok v ↦ ok v | err message ↦ err (not_evaluated message) ]

  unfoldable pub strings_of : List V → Result SkipError (List String)
  strings_of [] = ok []
  strings_of (v ∷ vs) =
      let rest = strings_of vs in
      if is_null v
      then err not_strings
      else elim (as_string v) [ none ↦ err not_strings | some s ↦ rest >>= λ items. ok (s ∷ items) ]

  unfoldable pub eval_string_list : E → Result SkipError (List String)
  eval_string_list e = evaluate e >>= λ v.
      if is_null v
      then err null_list
      else elim (elements v) [ none ↦ err not_a_list | some vs ↦ strings_of vs ]

  unfoldable pub match_os : E → Result SkipError (Bool × Why)
  match_os e = eval_string_list e >>= λ list.
      let found = contains context.os list in
      ok (found, record { attribute = "os"; matched = found; listed = context.os ∷ list })

  unfoldable pub match_arch : E → Result SkipError (Bool × Why)
  match_arch e = eval_string_list e >>= λ list.
      let found = contains context.arch list in
      ok (found, record { attribute = "arch"; matched = found; listed = context.arch ∷ list })

  -- value, present := os.LookupEnv(name); !present || value == ""
  unfoldable pub is_missing : String → Bool
  is_missing name = elim (lookup_env name) [ none ↦ true | some value ↦ str_eq value "" ]

  unfoldable pub missing_of : List String → List String
  missing_of [] = []
  missing_of (name ∷ names) =
      let rest = missing_of names in if is_missing name then name ∷ rest else rest

  unfoldable pub match_env_set : E → Result SkipError (Bool × Why)
  match_env_set e = eval_string_list e >>= λ names.
      let missing = missing_of names in
      if length missing == 0
      then ok (true, record { attribute = "env_set"; matched = true; listed = names })
      else ok (false, record { attribute = "env_set"; matched = false; listed = missing })

  unfoldable pub mismatches : String → String → Bool
  mismatches name expected = elim (lookup_env name) [
    | none ↦ true
    | some actual ↦ not (str_eq actual expected)
  ]

  -- The names whose value differs. The source ranges over a map.
  unfoldable pub mismatches_of : List (String × V) → Result SkipError (List String)
  mismatches_of [] = ok []
  mismatches_of ((name, v) ∷ vs) =
      let rest = mismatches_of vs in
      if is_null v then err entry_not_string else elim (as_string v) [
        | none ↦ err entry_not_string
        | some expected ↦
            rest >>= λ names. ok (if mismatches name expected then name ∷ names else names)
      ]

  unfoldable pub match_env : E → Result SkipError (Bool × Why)
  match_env e = evaluate e >>= λ v.
      if is_null v
      then ok (false, record { attribute = "env"; matched = false; listed = [] })
      else elim (entries v) [
        | none ↦ err not_an_object
        | some vs ↦ mismatches_of vs >>= λ names.
            let matched = length names == 0 in
            ok (matched, record { attribute = "env"; matched = matched; listed = names })
      ]

  unfoldable pub match_condition : E → Result SkipError (Bool × Why)
  match_condition e = evaluate e >>= λ v.
      if is_null v
      then ok (false, record { attribute = "condition"; matched = false; listed = "null" ∷ [] })
      else elim (as_bool v) [
        | none ↦ err not_a_bool
        | some b ↦ ok (b, record { attribute = "condition"; matched = b; listed = [] })
      ]

  -- One `if !rule.X.Empty()` of matchSkipAttributes, with what the ones before have found.
  unfoldable pub attribute_step :
      String
      → (E → Result SkipError (Bool × Why))
      → Option E
      → Bool × List Why
      → Result SkipError (Bool × List Why)
  attribute_step name matcher none found = ok found
  attribute_step name matcher (some e) (matched, whys) = elim (matcher e) [
    | ok (holds, why) ↦ ok ((matched && holds, whys ++ (why ∷ [])))
    | err error ↦ err (in_attribute name error)
  ]

  unfoldable pub match_skip_attributes : SkipRule E → Result SkipError (Bool × List Why)
  match_skip_attributes r = attribute_step "os" match_os r.os (true, []) >>= λ found.
      attribute_step "arch" match_arch r.arch found >>= λ found.
      attribute_step "env_set" match_env_set r.env_set found >>= λ found.
      attribute_step "env" match_env r.env found >>= λ found.
      attribute_step "condition" match_condition r.condition found

  unfoldable pub resolve_skip_reason : SkipRule E → List Why → Result SkipError RuleReason
  resolve_skip_reason r whys = elim r.reason [
    | none ↦ ok (automatic r.kind whys)
    | some e ↦ elim (eval e) [
      | err message ↦ err (in_attribute "reason" (not_evaluated message))
      | ok v ↦
          if is_null v
          then ok (automatic r.kind whys)
          else elim (as_string v) [ none ↦ err reason_not_string | some s ↦ ok (given s) ]
    ]
  ]

  abbrev pub triggers : SkipKind → Bool → Result SkipError Bool
  triggers skip_if matched = ok matched
  triggers skip_unless matched = ok (not matched)
  triggers (other_kind kind) matched = err (unknown_kind kind)

  -- The reason, where the rule triggers.
  unfoldable pub evaluate_skip_rule : SkipRule E → Result SkipError (Option RuleReason)
  evaluate_skip_rule r = match_skip_attributes r >>= λ (matched, whys).
      triggers r.kind matched >>= λ triggered.
      if triggered then (resolve_skip_reason r whys >>= λ reason. ok (some reason)) else ok none

  -- The rules from the i-th on.
  unfoldable pub rules_loop : ℕ → List (SkipRule E) → Result SkipError (Option RuleReason)
  rules_loop i [] = ok none
  rules_loop i (r ∷ rules) =
      let rest = rules_loop (suc i) rules in
      elim (evaluate_skip_rule r) [
        | err error ↦ err (in_rule i error)
        | ok (some reason) ↦ ok (some reason)
        | ok none ↦ rest
      ]

  unfoldable pub evaluate_skip_rules : List (SkipRule E) → Result SkipError (Option RuleReason)
  evaluate_skip_rules rules = rules_loop 0 rules

  -- Whether the scenario ends here, with its result.
  unfoldable pub apply_scenario_skip : List (SkipRule E) → ScenarioResult → Option ScenarioResult
  apply_scenario_skip [] result = none
  apply_scenario_skip rules result = elim (evaluate_skip_rules rules) [
    | err error ↦ some (record result {
      status = fail;
      failure = some (record { kind = "skip"; path = ""; message = error_text error });
    })
    | ok (some reason) ↦ some (record result { status = skip; skip_reason = some (rule reason) })
    | ok none ↦ none
  ]

  unfoldable pub evaluate_step_skip : String → List (SkipRule E) → Option StepResult
  evaluate_step_skip name [] = none
  evaluate_step_skip name rules = elim (evaluate_skip_rules rules) [
    | err error ↦ some (record {
      name = name;
      phase = "step";
      status = fail;
      attempts = 0;
      failure = some (record { kind = "skip"; path = ""; message = error_text error });
      skip_reason = none;
    })
    | ok (some reason) ↦ some (record {
      name = name;
      phase = "step";
      status = skip;
      attempts = 0;
      failure = none;
      skip_reason = some (rule reason);
    })
    | ok none ↦ none
  ]
