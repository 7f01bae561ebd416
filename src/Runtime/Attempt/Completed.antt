-- ===== src/Runtime/Attempt/Completed.antt =====
-- internal/runtime/runner.go: what it takes for an attempt of a step to complete, on the generic path.
use tales.Base.{
  String, List, [], none, some, ◌≡◌, refl, ◌⊎◌, inl, inr, Result, ok, err, arith, Option-cases,
}
use tales.Model.Http.{SaveBlock}
use tales.Model.Step.{Step}
use tales.Runtime.Attempt.{
  Scope, Output, Place, AttemptCalls, assign, evaluate_step_vars, capture_loop, check_and_capture,
  use_answer, call_provider, run_attempt, new_scope,
}

module _ {E V W P Q O : Type 0} (calls : AttemptCalls E V W P Q O) where
  pub Result-cases :
      {F A : Type 0} → (m : Result F A) → ((a : A) × (m ≡ ok a)) ⊎ ((e : F) × (m ≡ err e))
  Result-cases (ok a) = inl (a, refl)
  Result-cases (err e) = inr (e, refl)

  -- The scope with what the provider was asked and what it answered.
  abbrev seen : Scope V → Output V O → Scope V
  seen scope output = record scope { request = output.request; response = output.response }

  -- The expectations of the step hold, if it has any, and each capture evaluates, the request and the
  -- response being among the values.
  abbrev Checked : Step E → Scope V → Output V O → List (String × V) → Type 0
  Checked step scope output values =
      ((step.expect ≡ none) ⊎ (calls.evaluate_expect scope step output ≡ none))
      × (capture_loop calls step.capture
            (assign "response" output.response (assign "request" output.request [])) scope
          ≡ ok values)

  -- What the step saves is saved, if it saves something, before the answer is checked.
  abbrev Answered : Step E → Scope V → Output V O → W → List (String × V) → Type 0
  Answered step scope output w values =
      ((step.save ≡ none) × Checked step (seen scope output) output values)
      ⊎ ((s : SaveBlock E) × (scope' : Scope V) × (output' : Output V O) × (step.save ≡ some s)
          × ((calls.apply_save (seen scope output) step output w).0 ≡ ok (scope', output'))
          × Checked step scope' output' values)

  -- The variables and the request evaluate, the provider is known and answers, and the answer is
  -- saved, checked and captured.
  pub record Attempted (step : Step E) (place : Place W V) (values : List (String × V))
      : Type 0 where
    scope : Scope V
    request : Q
    p : P
    output : Output V O
    vars_are : evaluate_step_vars calls step (new_scope calls place) ≡ ok scope
    request_is : calls.evaluate_request scope step ≡ ok request
    provider_is : calls.provider step.provider ≡ some p
    executed : (calls.execute p request place.world).0 ≡ ok output
    answered : Answered step scope output (calls.execute p request place.world).1 values

  check_and_capture-Checked :
      (step : Step E) (scope : Scope V) (output : Output V O) (values : List (String × V))
      → check_and_capture calls step scope output ≡ ok values
      → Checked step scope output values
  unfolding check_and_capture
  check_and_capture-Checked step scope output values h = elim (Option-cases step.expect) [
    | inl e ↦ (inl e, ground (arith, h, e))
    | inr (x, e) ↦ elim (Option-cases (calls.evaluate_expect scope step output)) [
      | inl fine ↦ (inr fine, ground (arith, h, e, fine))
      | inr (d, wrong) ↦ absurd (ground (arith, h, e, wrong))
    ]
  ]

  Checked-check_and_capture :
      (step : Step E) (scope : Scope V) (output : Output V O) (values : List (String × V))
      → Checked step scope output values
      → check_and_capture calls step scope output ≡ ok values
  unfolding check_and_capture
  Checked-check_and_capture step scope output values (expected, captured) =
      elim (Option-cases step.expect) [
        | inl e ↦ rw (e, check_and_capture) captured
        | inr (x, e) ↦ elim expected [
          | inl off ↦ rw (off, check_and_capture) captured
          | inr fine ↦ rw (e, check_and_capture) (rw fine captured)
        ]
      ]

  use_answer-Answered :
      (step : Step E) (scope : Scope V) (output : Output V O) (w : W) (values : List (String × V))
      → (use_answer calls step scope output w).0 ≡ ok values
      → Answered step scope output w values
  unfolding use_answer
  use_answer-Answered step scope output w values h = elim (Option-cases step.save) [
    | inl e ↦ inl (e, check_and_capture-Checked step _ output values (ground (arith, h, e)))
    | inr (s, e) ↦ elim (Result-cases (calls.apply_save (seen scope output) step output w).0) [
      | inr (d, wrong) ↦ absurd (ground (arith, h, e, wrong))
      | inl ((scope', output'), saved) ↦ inr (
        s,
        scope',
        output',
        e,
        saved,
        check_and_capture-Checked step scope' output' values (ground (arith, h, e, saved)),
      )
    ]
  ]

  Answered-use_answer :
      (step : Step E) (scope : Scope V) (output : Output V O) (w : W) (values : List (String × V))
      → Answered step scope output w values
      → (use_answer calls step scope output w).0 ≡ ok values
  unfolding use_answer
  Answered-use_answer step scope output w values (inl (e, checked)) =
      rw (e, use_answer) (Checked-check_and_capture step _ output values checked)
  Answered-use_answer step scope output w values (inr (s, scope', output', e, saved, checked)) =
      rw (e, use_answer) (rw saved (Checked-check_and_capture step scope' output' values checked))

  pub run_attempt-Attempted :
      (step : Step E) (place : Place W V) (values : List (String × V))
      → (run_attempt calls step place).0 ≡ ok values
      → Attempted step place values
  unfolding run_attempt call_provider
  run_attempt-Attempted step place values h =
      elim (Result-cases (evaluate_step_vars calls step (new_scope calls place))) [
        | inr ((k, m), e) ↦ absurd (ground (arith, h, e))
        | inl (scope, vars) ↦ elim (Result-cases (calls.evaluate_request scope step)) [
          | inr (m, e) ↦ absurd (ground (arith, h, vars, e))
          | inl (request, asked) ↦ elim (Option-cases (calls.provider step.provider)) [
            | inl e ↦ absurd (ground (arith, h, vars, asked, e))
            | inr (p, known) ↦ elim (Result-cases (calls.execute p request place.world).0) [
              | inr (m, e) ↦ absurd (ground (arith, h, vars, asked, known, e))
              | inl (output, executed) ↦ record {
                scope = scope;
                request = request;
                p = p;
                output = output;
                vars_are = vars;
                request_is = asked;
                provider_is = known;
                executed = executed;
                answered =
                    use_answer-Answered step scope output _ values
                      (ground (arith, h, vars, asked, known, executed));
              }
            ]
          ]
        ]
      ]

  pub Attempted-run_attempt :
      (step : Step E) (place : Place W V) (values : List (String × V))
      → Attempted step place values
      → (run_attempt calls step place).0 ≡ ok values
  unfolding run_attempt call_provider
  Attempted-run_attempt step place values a =
      rw (a.vars_are, run_attempt)
        (rw (a.request_is, call_provider)
          (rw (a.provider_is, a.executed)
            (Answered-use_answer step a.scope a.output _ values a.answered)))
