-- ===== src/Runtime/Keyword/Ran.antt =====
-- internal/runtime/runner.go: the loop over the steps of a keyword.
use tales.Base.{
  String, List, [], ◌∷◌, ◌++◌, none, some, true, false, ◌≡◌, ◌≢◌, refl, ap, ◌⊎◌, inl, inr,
  Bool-cases, Option-cases,
}
use tales.Model.Step.{Step, Keyword}
use tales.Report.{is_fail, ErrorDetail}
use tales.Runtime.Attempt.{Place, eval_when, new_scope}
use tales.Runtime.Keyword.{KeywordCalls, keyword_failure, keyword_loop}

module _ {E V W P Q O : Type 0} (kw : KeywordCalls E V W P Q O) (input : List (String × V)) where
  -- The step is to run.
  abbrev Due : Step E → Place W V → Type 0
  Due step place =
      eval_when (kw.calls input) "step.when" step.when (new_scope (kw.calls input) place) ≡ none

  -- Each of these steps was held back by its condition, or ran and did not fail.
  pub data Clean : List (Step E) → Place W V → Place W V → Type 0 where
    done : (place : Place W V) → Clean [] place place
    held :
        (step : Step E) (steps : List (Step E)) (place after : Place W V)
        → eval_when (kw.calls input) "step.when" step.when (new_scope (kw.calls input) place) ≢ none
        → Clean steps place after
        → Clean (step ∷ steps) place after
    ran :
        (step : Step E) (steps : List (Step E)) (place after : Place W V)
        → Due step place
        → is_fail (kw.execute_step input step place).0.status ≡ false
        → Clean steps (kw.execute_step input step place).1 after
        → Clean (step ∷ steps) place after

  -- The steps are those before the one that failed, that one, and others.
  pub record Failed (keyword : Keyword E) (steps : List (Step E)) (place : Place W V)
      (e : ErrorDetail) (after : Place W V) : Type 0 where
    before : List (Step E)
    step : Step E
    others : List (Step E)
    at : Place W V
    split : steps ≡ before ++ (step ∷ others)
    clean : Clean before place at
    due : Due step at
    failed : is_fail (kw.execute_step input step at).0.status ≡ true
    reported : e ≡ keyword_failure kw keyword step (kw.execute_step input step at).0
    left : after ≡ (kw.execute_step input step at).1

  -- The loop over the steps of a keyword has no failure, and every step was held back by its
  -- condition or ran and did not fail; or the failure is that of the first step that fails, which is
  -- the last to run.
  pub keyword_loop-Ends :
      (keyword : Keyword E) (steps : List (Step E)) (place : Place W V)
      → (((keyword_loop kw keyword input steps place).0 ≡ none)
          × Clean steps place (keyword_loop kw keyword input steps place).1)
        ⊎ ((e : ErrorDetail) × ((keyword_loop kw keyword input steps place).0 ≡ some e)
            × Failed keyword steps place e (keyword_loop kw keyword input steps place).1)
  unfolding keyword_loop
  keyword_loop-Ends keyword [] place = inl (refl, done place)
  keyword_loop-Ends keyword (step ∷ steps) place =
      elim (Option-cases
        (eval_when (kw.calls input) "step.when" step.when (new_scope (kw.calls input) place))) [
          | inr (reason, gate) ↦
              let off : eval_when (kw.calls input) "step.when" step.when
                    (new_scope (kw.calls input) place)
                  ≢ none =
                λ h. cc in
              rw (gate, keyword_loop)
                (elim (keyword_loop-Ends keyword steps place) [
                  | inl (e, clean) ↦ inl (e, held step steps place _ off clean)
                  | inr (e, h, f) ↦ inr (
                    e,
                    h,
                    record {
                      before = step ∷ f.before;
                      step = f.step;
                      others = f.others;
                      at = f.at;
                      split = ap (λ t. step ∷ t) f.split;
                      clean = held step f.before place f.at off f.clean;
                      due = f.due;
                      failed = f.failed;
                      reported = f.reported;
                      left = f.left;
                    },
                  )
                ])
          | inl gate ↦ elim (Bool-cases (is_fail (kw.execute_step input step place).0.status)) [
            | inl fails ↦
                rw (gate, keyword_loop)
                  (rw fails (
                    inr (
                      keyword_failure kw keyword step (kw.execute_step input step place).0,
                      refl,
                      record {
                        before = [];
                        step = step;
                        others = steps;
                        at = place;
                        split = refl;
                        clean = done place;
                        due = gate;
                        failed = fails;
                        reported = refl;
                        left = refl;
                      },
                    )))
            | inr fine ↦
                rw (gate, keyword_loop)
                  (rw fine
                    (elim (keyword_loop-Ends keyword steps (kw.execute_step input step place).1) [
                      | inl (e, clean) ↦ inl (e, ran step steps place _ gate fine clean)
                      | inr (e, h, f) ↦ inr (
                        e,
                        h,
                        record {
                          before = step ∷ f.before;
                          step = f.step;
                          others = f.others;
                          at = f.at;
                          split = ap (λ t. step ∷ t) f.split;
                          clean = ran step f.before place f.at gate fine f.clean;
                          due = f.due;
                          failed = f.failed;
                          reported = f.reported;
                          left = f.left;
                        },
                      )
                    ]))
          ]
        ]
