-- ===== src/Runtime/Keyword.antt =====
-- internal/runtime/runner.go: a step that calls a keyword, executeKeywordStep. Its steps run in a state
-- of their own.
mod Tests
pub mod Ran
pub mod Nested
pub mod Isolated
pub mod Recursive
pub mod Completed
use tales.Base.{
  ℕ, String, str_eq, List, [], ◌∷◌, map, Option, none, some, Bool, true, false, if◌then◌else◌, ◌||◌,
  Result, ok, err, ◌>>=◌, contains, Bytes, codes, ltb, ◌==◌,
}
use tales.Base.Entries.{lookup}
use tales.Model.Expression.{Expression}
use tales.Model.Http.{KeywordCall}
use tales.Model.Step.{Step, Keyword}
use tales.Lang.Refs.{Traversal, RefError, validate_step_order}
use tales.Report.{fail, is_fail, ErrorDetail, StepResult}
use tales.Runtime.Attempt.{
  Scope, Place, AttemptCalls, assign, detail, report, evaluate_step_vars, eval_when, new_scope,
}

-- The keys of a map, toKeySet.
abbrev pub keys : {V : Type 0} → List (String × V) → List String
keys m = map (λ kv. kv.0) m

-- a < b for two texts.
unfoldable pub text_before : Bytes → Bytes → Bool
text_before [] [] = false
text_before [] (d ∷ t) = true
text_before (c ∷ s) [] = false
text_before (c ∷ s) (d ∷ t) =
    let rest = text_before s t in ltb c d || (if c == d then rest else false)

unfoldable pub insert_sorted : {A : Type 0} → String × A → List (String × A) → List (String × A)
insert_sorted kv [] = kv ∷ []
insert_sorted (k, v) ((l, w) ∷ m) =
    let rest = insert_sorted (k, v) m in
    if text_before (codes k) (codes l) then (k, v) ∷ (l, w) ∷ m else (l, w) ∷ rest

-- The entries in the order of sort.Strings of their keys.
unfoldable pub sort_entries : {A : Type 0} → List (String × A) → List (String × A)
sort_entries [] = []
sort_entries (kv ∷ m) = insert_sorted kv (sort_entries m)

-- SetStepResult for each entry.
unfoldable pub set_results :
    {V : Type 0} → List (String × V) → List (String × V) → List (String × V)
set_results [] results = results
set_results ((name, v) ∷ m) results = set_results m (assign name v results)

-- The loop over the steps: their names, or the step that collides with an outer result.
unfoldable pub step_names : {E : Type 0} → List String → List (Step E) → Result String (List String)
step_names outer [] = ok []
step_names outer (step ∷ steps) =
    let rest = step_names outer steps in
    if contains step.name outer then err step.name else do names ← rest; ok (step.name ∷ names)

module _ {V : Type 0} (empty : V) where
  -- The results of NewScenarioState: an empty object for each name.
  unfoldable pub fill : List String → List (String × V) → List (String × V)
  fill [] results = results
  fill (name ∷ names) results = fill names (assign name empty results)

  -- The results of the state that the steps of the keyword run in.
  unfoldable pub new_keyword_state :
      {E : Type 0} → List (String × V) → List (Step E) → Result String (List (String × V))
  new_keyword_state outer steps = do
    names ← step_names (keys outer) steps
    ok (set_results outer (fill names (fill (keys outer) [])))

-- What executeKeywordStep calls. `calls` are those of an attempt, for the input of the keyword that
-- the step stands in; `execute_step` is executeStep, which may come back here; `sprintf` is fmt.Sprintf
-- and `ref_text` the text of an error of lang. A value is a text, null, or an object or a map.
pub record KeywordCalls (E V W P Q O : Type 0) : Type 0 where
  pub calls : List (String × V) → AttemptCalls E V W P Q O
  pub variables : E → List Traversal
  pub keywords : String → Option (Keyword E)
  pub execute_step : List (String × V) → Step E → Place W V → StepResult × Place W V
  pub as_text : V → Option String
  pub is_null : V → Bool
  pub as_value_map : V → Option (List (String × V))
  pub sprintf : String → List String → String
  pub ref_text : RefError → String

module _ {E V W P Q O : Type 0} (kw : KeywordCalls E V W P Q O) where
  open kw use {
    calls, variables, keywords, execute_step, as_text, is_null, as_value_map, sprintf, ref_text,
  }

  -- toValueMap
  unfoldable pub to_value_map : V → String → Result String (List (String × V))
  to_value_map v field = if is_null v then ok [] else elim (as_value_map v) [
    | none ↦ err (sprintf "%s must be an object" (field ∷ []))
    | some m ↦ ok m
  ]

  -- The part of evaluateKeywordCall on the inputs.
  unfoldable pub evaluate_inputs :
      List (String × V) → Scope V → Expression E → Result String (List (String × V))
  evaluate_inputs input scope none = ok []
  evaluate_inputs input scope (some e) =
      elim ((calls input).eval "keyword.inputs" "" (some e) scope) [
        | err message ↦ err (sprintf "keyword.inputs: %w" (message ∷ []))
        | ok v ↦ to_value_map v "keyword.inputs"
      ]

  -- The name of the keyword and its inputs.
  unfoldable pub evaluate_keyword_call :
      List (String × V) → Scope V → KeywordCall E → Result String (String × List (String × V))
  evaluate_keyword_call input scope call =
      elim ((calls input).eval "keyword.name" "" call.name scope) [
        | err message ↦ err (sprintf "keyword.name: %w" (message ∷ []))
        | ok v ↦ elim (as_text v) [
          | none ↦ err "keyword.name must be a string"
          | some name ↦ do inputs ← evaluate_inputs input scope call.inputs; ok (name, inputs)
        ]
      ]

  -- The loop over the declared inputs.
  unfoldable pub missing_input : List String → List (String × V) → Option String
  missing_input [] inputs = none
  missing_input (name ∷ names) inputs = elim (lookup name inputs) [
    | none ↦ some name
    | some v ↦ missing_input names inputs
  ]

  unfoldable pub validate_keyword_inputs : Keyword E → List (String × V) → Result String (Unit {0})
  validate_keyword_inputs keyword inputs = elim (missing_input (keys keyword.inputs) inputs) [
    | none ↦ ok tt
    | some name ↦ err (sprintf "keyword %q missing required input %q" (keyword.name ∷ name ∷ []))
  ]

  -- The failure that a step of a keyword makes of its result.
  unfoldable pub keyword_failure : Keyword E → Step E → StepResult → ErrorDetail
  keyword_failure keyword step r = detail "keyword" step.name (
      sprintf "keyword %q step %q failed: %s" (
        keyword.name
        ∷ step.name
        ∷ elim r.failure [ none ↦ "keyword step failed" | some e ↦ e.message ]
        ∷ []))

  -- The loop of executeKeywordSteps.
  unfoldable pub keyword_loop :
      Keyword E → List (String × V) → List (Step E) → Place W V → Option ErrorDetail × Place W V
  keyword_loop keyword input [] place = (none, place)
  keyword_loop keyword input (step ∷ steps) place =
      elim (eval_when (calls input) "step.when" step.when (new_scope (calls input) place)) [
        | some reason ↦ keyword_loop keyword input steps place
        | none ↦
            let (r, next) = execute_step input step place in
            let rest = keyword_loop keyword input steps next in
            if is_fail r.status then (some (keyword_failure keyword step r), next) else rest
      ]

  unfoldable pub execute_keyword_steps :
      Keyword E → List (String × V) → List String → Place W V → Option ErrorDetail × Place W V
  execute_keyword_steps keyword input external place =
      elim (validate_step_order variables keyword.steps external) [
        | err e ↦ (
          some (
              detail "keyword" ""
                (sprintf "keyword %q graph error: %v" (keyword.name ∷ ref_text e ∷ []))),
          place,
        )
        | ok checked ↦ keyword_loop keyword input keyword.steps place
      ]

  -- The loop over the sorted outputs, with the values so far.
  unfoldable pub outputs_loop :
      Keyword E
      → List (String × V)
      → Scope V
      → List (String × Expression E)
      → List (String × V)
      → Result String (List (String × V))
  outputs_loop keyword input scope [] values = ok values
  outputs_loop keyword input scope ((key, e) ∷ outputs) values =
      elim ((calls input).eval "keyword.outputs" key e scope) [
        | err message ↦
            err (sprintf "keyword %q outputs.%s: %w" (keyword.name ∷ key ∷ message ∷ []))
        | ok v ↦ outputs_loop keyword input scope outputs (assign key v values)
      ]

  unfoldable pub evaluate_keyword_outputs :
      Keyword E → List (String × V) → Place W V → Result String (List (String × V))
  evaluate_keyword_outputs keyword input place =
      outputs_loop keyword input
        (record {
          results = place.results;
          request = (calls input).object [];
          response = (calls input).object [];
          vars = [];
        })
        (sort_entries keyword.outputs) []

  -- From the steps of the keyword on: its outputs, and what the providers reached.
  unfoldable pub run_keyword :
      Keyword E
      → List (String × V)
      → List String
      → Place W V
      → Result ErrorDetail (List (String × V)) × W
  run_keyword keyword input external inner =
      let (failure, after) = execute_keyword_steps keyword input external inner in
      elim failure [
        | some e ↦ (err e, after.world)
        | none ↦ elim (evaluate_keyword_outputs keyword input after) [
          | err message ↦ (err (detail "keyword" "" message), after.world)
          | ok outputs ↦ (ok outputs, after.world)
        ]
      ]

  -- From the lookup of the keyword on.
  unfoldable pub call_keyword :
      String → List (String × V) → Place W V → Result ErrorDetail (List (String × V)) × W
  call_keyword name inputs place = elim (keywords name) [
    | none ↦ (err (detail "keyword" "" (sprintf "unknown keyword %q" (name ∷ []))), place.world)
    | some keyword ↦ elim (validate_keyword_inputs keyword inputs) [
      | err message ↦ (err (detail "keyword" "" message), place.world)
      | ok valid ↦ elim (new_keyword_state ((calls inputs).object []) place.results keyword.steps) [
        | err step ↦ (
          err (
              detail "keyword" ""
                (sprintf "keyword step %q collides with existing scenario step name" (step ∷ []))),
          place.world,
        )
        | ok results ↦
            run_keyword keyword inputs (keys place.results)
              (record { results = results; world = place.world })
      ]
    ]
  ]

  unfoldable pub keyword_outcome :
      List (String × V) → Step E → Place W V → Result ErrorDetail (List (String × V)) × W
  keyword_outcome input step place = elim step.keyword [
    | none ↦ (
      err (detail "keyword" "" "keyword step is missing keyword call configuration"),
      place.world,
    )
    | some call ↦
        elim (evaluate_step_vars (calls input) step (record {
          results = place.results;
          request = (calls input).object [];
          response = (calls input).object [];
          vars = [];
        })) [
          | err (name, message) ↦ (err (detail "vars" name message), place.world)
          | ok scope ↦ elim (evaluate_keyword_call input scope call) [
            | err message ↦ (err (detail "eval" "" message), place.world)
            | ok (name, inputs) ↦ call_keyword name inputs place
          ]
        ]
  ]

  unfoldable pub execute_keyword_step :
      List (String × V) → String → Step E → Place W V → StepResult × Place W V
  execute_keyword_step input phase step place =
      let (outcome, w) = keyword_outcome input step place in
      elim outcome [
        | err failure ↦ (report step.name phase (some failure), record place { world = w })
        | ok outputs ↦ (
          report step.name phase none,
          record {
            results = assign step.name ((calls input).object outputs) place.results;
            world = w;
          },
        )
      ]
