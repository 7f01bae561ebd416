-- ===== src/Runtime/Keyword/Completed.antt =====
-- internal/runtime/runner.go: what it takes for a call of a keyword to give outputs.
use tales.Base.{
  String, List, [], ◌∷◌, none, some, false, ◌≡◌, ◌≢◌, refl, ap, ◌∙◌, ◌⊎◌, inl, inr, Result, ok, err,
  contains, arith, Option-cases, All,
}
use tales.Base.Entries.{lookup}
use tales.Model.Http.{KeywordCall}
use tales.Model.Step.{Step, Keyword}
use tales.Lang.Refs.{validate_step_order}
use tales.Runtime.Attempt.{Scope, Place, eval_when, new_scope, evaluate_step_vars}
use tales.Runtime.Keyword.{
  KeywordCalls, keys, missing_input, validate_keyword_inputs, new_keyword_state, keyword_loop,
  execute_keyword_steps, evaluate_keyword_outputs, evaluate_keyword_call, run_keyword, call_keyword,
  keyword_outcome,
}
use tales.Runtime.Keyword.Nested.{new_keyword_state-ok}
use tales.Runtime.Keyword.Ran.{Clean, done, held, ran, keyword_loop-Ends}

module _ {E V W P Q O : Type 0} (kw : KeywordCalls E V W P Q O) where
  missing_input-given :
      (names : List String) (inputs : List (String × V))
      → missing_input kw names inputs ≡ none
      → All (λ k. lookup k inputs ≢ none) names
  unfolding missing_input
  missing_input-given [] inputs h = tt
  missing_input-given (k ∷ names) inputs h = elim (Option-cases (lookup k inputs)) [
    | inl e ↦ absurd (ground (arith, h, e))
    | inr (v, e) ↦ (λ gone. cc, missing_input-given names inputs (ground (arith, h, e)))
  ]

  given-missing_input :
      (names : List String) (inputs : List (String × V))
      → All (λ k. lookup k inputs ≢ none) names
      → missing_input kw names inputs ≡ none
  unfolding missing_input
  given-missing_input [] inputs h = refl
  given-missing_input (k ∷ names) inputs (there, h) = elim (Option-cases (lookup k inputs)) [
    | inl e ↦ absurd (there e)
    | inr (v, e) ↦ rw (e, missing_input) (given-missing_input names inputs h)
  ]

  pub Result-cases :
      {F A : Type 0} → (m : Result F A) → ((a : A) × (m ≡ ok a)) ⊎ ((e : F) × (m ≡ err e))
  Result-cases (ok a) = inl (a, refl)
  Result-cases (err e) = inr (e, refl)

  -- The keyword is there, the call gives all the inputs that it declares, no step of it is named like a
  -- result outside, its references go back, its steps are held back or run without a failure, and its
  -- outputs evaluate.
  pub record Called (name : String) (inputs : List (String × V)) (place : Place W V)
      (outputs : List (String × V)) : Type 0 where
    keyword : Keyword E
    results : List (String × V)
    after : Place W V
    known : kw.keywords name ≡ some keyword
    given : All (λ k. lookup k inputs ≢ none) (keys keyword.inputs)
    apart : All (λ s. contains s.name (keys place.results) ≡ false) keyword.steps
    state : new_keyword_state ((kw.calls inputs).object []) place.results keyword.steps ≡ ok results
    ordered : validate_step_order kw.variables keyword.steps (keys place.results) ≡ ok tt
    clean : Clean kw inputs keyword.steps (record { results = results; world = place.world }) after
    outputs_are : evaluate_keyword_outputs kw keyword inputs after ≡ ok outputs

  Clean-keyword_loop :
      (keyword : Keyword E) (input : List (String × V)) (steps : List (Step E))
      (place after : Place W V)
      → Clean kw input steps place after
      → keyword_loop kw keyword input steps place ≡ (none, after)
  unfolding keyword_loop
  Clean-keyword_loop keyword input _ place after (done _) = refl
  Clean-keyword_loop keyword input _ place after (held step steps _ _ off clean) =
      elim (Option-cases
        (eval_when (kw.calls input) "step.when" step.when (new_scope (kw.calls input) place))) [
          | inl due ↦ absurd (off due)
          | inr (reason, e) ↦
              rw (e, keyword_loop) (Clean-keyword_loop keyword input steps place after clean)
        ]
  Clean-keyword_loop keyword input _ place after (ran step steps _ _ due fine clean) =
      rw (due, keyword_loop) (rw fine (Clean-keyword_loop keyword input steps _ after clean))

  run_keyword-ok :
      (keyword : Keyword E) (input : List (String × V)) (external : List String) (inner : Place W V)
      (outputs : List (String × V))
      → (run_keyword kw keyword input external inner).0 ≡ ok outputs
      → (validate_step_order kw.variables keyword.steps external ≡ ok tt)
        × ((after : Place W V) × Clean kw input keyword.steps inner after
            × (evaluate_keyword_outputs kw keyword input after ≡ ok outputs))
  unfolding run_keyword execute_keyword_steps
  run_keyword-ok keyword input external inner outputs h =
      elim (Result-cases (validate_step_order kw.variables keyword.steps external)) [
        | inr (e, wrong) ↦ absurd (ground (arith, h, wrong))
        | inl (u, fine) ↦ elim (keyword_loop-Ends kw input keyword keyword.steps inner) [
          | inr (e, failed, f) ↦ absurd (ground (arith, h, fine, failed))
          | inl (whole, clean) ↦ (fine, (_, clean, ground (arith, h, fine, whole)))
        ]
      ]

  Clean-execute_keyword_steps :
      (keyword : Keyword E) (input : List (String × V)) (external : List String)
      (inner after : Place W V)
      → validate_step_order kw.variables keyword.steps external ≡ ok tt
      → Clean kw input keyword.steps inner after
      → execute_keyword_steps kw keyword input external inner ≡ (none, after)
  unfolding execute_keyword_steps
  Clean-execute_keyword_steps keyword input external inner after fine clean =
      rw (fine, execute_keyword_steps)
        (Clean-keyword_loop keyword input keyword.steps inner after clean)

  run_keyword-total :
      (keyword : Keyword E) (input : List (String × V)) (external : List String)
      (inner after : Place W V) (outputs : List (String × V))
      → validate_step_order kw.variables keyword.steps external ≡ ok tt
      → Clean kw input keyword.steps inner after
      → evaluate_keyword_outputs kw keyword input after ≡ ok outputs
      → (run_keyword kw keyword input external inner).0 ≡ ok outputs
  unfolding run_keyword
  run_keyword-total keyword input external inner after outputs fine clean given =
      let steps = Clean-execute_keyword_steps keyword input external inner after fine clean in
      let whole : (execute_keyword_steps kw keyword input external inner).0 ≡ none =
        ap (λ t. t.0) steps in
      let out =
        ap (λ t. evaluate_keyword_outputs kw keyword input t) (ap (λ t. t.1) steps) ∙ given in
      rw (whole, run_keyword) (rw out refl)

  call_keyword-ok :
      (name : String) (inputs : List (String × V)) (place : Place W V) (outputs : List (String × V))
      → (call_keyword kw name inputs place).0 ≡ ok outputs
      → Called name inputs place outputs
  unfolding call_keyword validate_keyword_inputs
  call_keyword-ok name inputs place outputs h = elim (Option-cases (kw.keywords name)) [
    | inl e ↦ absurd (ground (arith, h, e))
    | inr (keyword, known) ↦ elim (Option-cases (missing_input kw (keys keyword.inputs) inputs)) [
      | inr (k, e) ↦ absurd (ground (arith, h, known, e))
      | inl given ↦
          elim (Result-cases
            (new_keyword_state ((kw.calls inputs).object []) place.results keyword.steps)) [
              | inr (e, clash) ↦ absurd (ground (arith, h, known, given, clash))
              | inl (results, state) ↦
                  let run : (run_keyword kw keyword inputs (keys place.results)
                        (record { results = results; world = place.world })).0
                      ≡ ok outputs =
                    ground (arith, h, known, given, state) in
                  let (ordered, (after, clean, out)) =
                    run_keyword-ok keyword inputs (keys place.results) _ outputs run in
                  record {
                    keyword = keyword;
                    results = results;
                    after = after;
                    known = known;
                    given = missing_input-given (keys keyword.inputs) inputs given;
                    apart =
                        (new_keyword_state-ok ((kw.calls inputs).object []) place.results results
                          keyword.steps state).1;
                    state = state;
                    ordered = ordered;
                    clean = clean;
                    outputs_are = out;
                  }
            ]
    ]
  ]

  Called-call_keyword :
      (name : String) (inputs : List (String × V)) (place : Place W V) (outputs : List (String × V))
      → Called name inputs place outputs
      → (call_keyword kw name inputs place).0 ≡ ok outputs
  unfolding call_keyword validate_keyword_inputs
  Called-call_keyword name inputs place outputs c =
      let given = given-missing_input (keys c.keyword.inputs) inputs c.given in
      rw (c.known, call_keyword)
        (rw (given, c.state)
          (run_keyword-total c.keyword inputs (keys place.results) _ c.after outputs c.ordered
            c.clean c.outputs_are))

  -- The step has a call of a keyword, its variables and the call evaluate, and the call gives outputs.
  pub record Completed (input : List (String × V)) (step : Step E) (place : Place W V)
      (outputs : List (String × V)) : Type 0 where
    call : KeywordCall E
    scope : Scope V
    name : String
    inputs : List (String × V)
    is_call : step.keyword ≡ some call
    vars_are :
        evaluate_step_vars (kw.calls input) step (new_scope (kw.calls input) place) ≡ ok scope
    call_is : evaluate_keyword_call kw input scope call ≡ ok (name, inputs)
    called : Called name inputs place outputs

  pub keyword_outcome-ok :
      (input : List (String × V)) (step : Step E) (place : Place W V) (outputs : List (String × V))
      → (keyword_outcome kw input step place).0 ≡ ok outputs
      → Completed input step place outputs
  unfolding keyword_outcome
  keyword_outcome-ok input step place outputs h = elim (Option-cases step.keyword) [
    | inl e ↦ absurd (ground (arith, h, e))
    | inr (call, is_call) ↦
        elim (Result-cases
          (evaluate_step_vars (kw.calls input) step (new_scope (kw.calls input) place))) [
            | inr ((k, message), e) ↦ absurd (ground (arith, h, is_call, e))
            | inl (scope, vars) ↦ elim (Result-cases (evaluate_keyword_call kw input scope call)) [
              | inr (message, e) ↦ absurd (ground (arith, h, is_call, vars, e))
              | inl ((name, inputs), evaluated) ↦ record {
                call = call;
                scope = scope;
                name = name;
                inputs = inputs;
                is_call = is_call;
                vars_are = vars;
                call_is = evaluated;
                called =
                    call_keyword-ok name inputs place outputs
                      (ground (arith, h, is_call, vars, evaluated));
              }
            ]
          ]
  ]

  pub Completed-keyword_outcome :
      (input : List (String × V)) (step : Step E) (place : Place W V) (outputs : List (String × V))
      → Completed input step place outputs
      → (keyword_outcome kw input step place).0 ≡ ok outputs
  unfolding keyword_outcome
  Completed-keyword_outcome input step place outputs c =
      rw (c.is_call, keyword_outcome)
        (rw (c.vars_are, c.call_is) (Called-call_keyword c.name c.inputs place outputs c.called))
