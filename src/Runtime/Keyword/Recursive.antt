-- ===== src/Runtime/Keyword/Recursive.antt =====
-- internal/runtime/runner.go: a keyword that is called while its own steps run.
use tales.Base.{
  String, List, [], ◌∷◌, some, true, ◌≡◌, refl, ap, ◌∙◌, inl, inr, ok, err, contains, arith,
  Option-cases, head-contains,
}
use tales.Model.Http.{KeywordCall}
use tales.Model.Step.{Step, Keyword}
use tales.Report.{fail, ErrorDetail}
use tales.Runtime.Attempt.{Scope, Place, evaluate_step_vars, new_scope}
use tales.Runtime.Keyword.{
  KeywordCalls, keys, missing_input, validate_keyword_inputs, new_keyword_state,
  evaluate_keyword_call, call_keyword, keyword_outcome, execute_keyword_step,
}
use tales.Runtime.Keyword.Completed.{Result-cases}
use tales.Runtime.Keyword.Nested.{names, new_keyword_state-ok, free-name}

module _ {E V W P Q O : Type 0} (kw : KeywordCalls E V W P Q O) where
  -- A keyword with a step that is named like a result is refused before any step runs.
  taken-refused :
      (name : String) (inputs : List (String × V)) (place : Place W V) (k : Keyword E) (n : String)
      → kw.keywords name ≡ some k
      → contains n (names k.steps) ≡ true
      → contains n (keys place.results) ≡ true
      → ((e : ErrorDetail) × ((call_keyword kw name inputs place).0 ≡ err e))
        × ((call_keyword kw name inputs place).1 ≡ place.world)
  unfolding call_keyword validate_keyword_inputs
  taken-refused name inputs place k n known step taken =
      elim (Option-cases (missing_input kw (keys k.inputs) inputs)) [
        | inr (m, e) ↦ rw (known, call_keyword) (rw e ((_, refl), refl))
        | inl given ↦
            elim (Result-cases kw
              (new_keyword_state ((kw.calls inputs).object []) place.results k.steps)) [
                | inr (s, clash) ↦ rw (known, call_keyword) (rw (given, clash) ((_, refl), refl))
                | inl (results, state) ↦
                    let free =
                      (new_keyword_state-ok ((kw.calls inputs).object []) place.results results
                        k.steps state).1 in
                    let other =
                      free-name ((kw.calls inputs).object []) n (keys place.results) k.steps free
                        taken in
                    absurd (ground (arith, step, other))
              ]
      ]

  -- A keyword does not run inside itself: where the results are known with which the steps of a keyword
  -- have started, through whatever other keywords, a step that calls that keyword again fails, no step
  -- of the keyword runs, and no result is changed, provided that the keyword has a step.
  pub execute_keyword_step-again :
      (k : Keyword E) (s : Step E) (steps : List (Step E)) (outer inner : List (String × V))
      (empty : V)
      → k.steps ≡ s ∷ steps
      → new_keyword_state empty outer k.steps ≡ ok inner
      → (place : Place W V)
      → ((m : String) → contains m (keys inner) ≡ true → contains m (keys place.results) ≡ true)
      → (input : List (String × V)) (phase : String) (step : Step E) (call : KeywordCall E)
        (scope : Scope V) (name : String) (inputs : List (String × V))
      → step.keyword ≡ some call
      → evaluate_step_vars (kw.calls input) step (new_scope (kw.calls input) place) ≡ ok scope
      → evaluate_keyword_call kw input scope call ≡ ok (name, inputs)
      → kw.keywords name ≡ some k
      → ((execute_keyword_step kw input phase step place).0.status ≡ fail)
        × ((execute_keyword_step kw input phase step place).1.results ≡ place.results)
        × ((execute_keyword_step kw input phase step place).1.world ≡ place.world)
  unfolding execute_keyword_step keyword_outcome
  execute_keyword_step-again k s steps outer inner empty has state place grown input phase step call
        scope name inputs is_call vars evaluated known =
      let own : contains s.name (names k.steps) ≡ true =
        ap (λ t. contains s.name (names t)) has ∙ head-contains s.name (names steps) in
      let holds = (new_keyword_state-ok empty outer inner k.steps state).0 s.name in
      let inside : contains s.name (keys inner) ≡ true = ground (arith, holds, own) in
      let ((e, refused), still) =
        taken-refused name inputs place k s.name known own (grown s.name inside) in
      let outcome : (keyword_outcome kw input step place).0 ≡ err e =
        rw (is_call, keyword_outcome) (rw (vars, evaluated) refused) in
      let world : (keyword_outcome kw input step place).1 ≡ place.world =
        rw (is_call, keyword_outcome) (rw (vars, evaluated) still) in
      (
        rw (outcome, execute_keyword_step) refl,
        rw (outcome, execute_keyword_step) refl,
        rw (outcome, execute_keyword_step) world,
      )
