-- ===== src/Runtime/Skip/Rules.antt =====
-- internal/runtime/skip.go: which of the rules of a scenario or a step decides.
use tales.Base.{
  ℕ, suc, String, List, [], ◌∷◌, ◌++◌, Option, none, some, ◌≡◌, refl, ap, sym, ◌∙◌, ◌↔◌, ◌⊎◌, inl,
  inr, Result, ok, err, All, arith,
}
use tales.Report.{fail, skip, RuleReason, StepResult}
use tales.Model.Step.{SkipRule}
use tales.Runtime.Skip.{
  SkipError, in_rule, Context, evaluate_skip_rule, rules_loop, evaluate_skip_rules,
  evaluate_step_skip,
}

-- A result with its equation.
evaluated-cases :
    (m : Result SkipError (Option RuleReason))
    → (m ≡ ok none)
      ⊎ (((reason : RuleReason) × (m ≡ ok (some reason))) ⊎ ((e : SkipError) × (m ≡ err e)))
evaluated-cases (ok none) = inl refl
evaluated-cases (ok (some reason)) = inr (inl (reason, refl))
evaluated-cases (err e) = inr (inr (e, refl))

module _ {E V : Type 0} (context : Context E V) where
  -- A rule that does not skip.
  abbrev pub Passes : SkipRule E → Type 0
  Passes r = evaluate_skip_rule context r ≡ ok none

  -- The first rule that does not pass is `r`, in the middle.
  abbrev pub Decides : List (SkipRule E) → SkipRule E → Type 0
  Decides rules r = (pre post : List (SkipRule E)) × (rules ≡ pre ++ (r ∷ post)) × All Passes pre

  rules_loop-cons :
      (i : ℕ) (r : SkipRule E) (rules : List (SkipRule E))
      → (evaluate_skip_rule context r ≡ ok none
          → rules_loop context i (r ∷ rules) ≡ rules_loop context (suc i) rules)
        × ((reason : RuleReason)
            → evaluate_skip_rule context r ≡ ok (some reason)
            → rules_loop context i (r ∷ rules) ≡ ok (some reason))
        × ((e : SkipError)
            → evaluate_skip_rule context r ≡ err e
            → rules_loop context i (r ∷ rules) ≡ err (in_rule i e))
  unfolding rules_loop
  rules_loop-cons i r rules = (
    λ p. rw (p, rules_loop) refl,
    λ reason p. rw (p, rules_loop) refl,
    λ e p. rw (p, rules_loop) refl,
  )

  rules_loop-Passes :
      (i : ℕ) (rules : List (SkipRule E)) → rules_loop context i rules ≡ ok none → All Passes rules
  rules_loop-Passes i [] h = tt
  rules_loop-Passes i (r ∷ rules) h =
      let (passes, skips, fails) = rules_loop-cons i r rules in
      elim (evaluated-cases (evaluate_skip_rule context r)) [
        | inl p ↦ (p, rules_loop-Passes (suc i) rules (sym (passes p) ∙ h))
        | inr (inl (reason, p)) ↦ let c = sym (skips reason p) ∙ h in cc
        | inr (inr (e, p)) ↦ let c = sym (fails e p) ∙ h in cc
      ]

  Passes-rules_loop :
      (i : ℕ) (rules : List (SkipRule E)) → All Passes rules → rules_loop context i rules ≡ ok none
  unfolding rules_loop
  Passes-rules_loop i [] h = refl
  Passes-rules_loop i (r ∷ rules) h = rw (h.0, rules_loop) (Passes-rules_loop (suc i) rules h.1)

  rules_loop-skips :
      (i : ℕ) (rules : List (SkipRule E)) (reason : RuleReason)
      → rules_loop context i rules ≡ ok (some reason)
      → (r : SkipRule E) × Decides rules r × (evaluate_skip_rule context r ≡ ok (some reason))
  unfolding rules_loop
  rules_loop-skips i [] reason h = cc
  rules_loop-skips i (r ∷ rules) reason h =
      let (passes, skips, fails) = rules_loop-cons i r rules in
      elim (evaluated-cases (evaluate_skip_rule context r)) [
        | inl p ↦
            let (d, (pre, post, eq, passes), e) =
              rules_loop-skips (suc i) rules reason (sym (passes p) ∙ h) in
            (d, (r ∷ pre, post, ap (λ t. r ∷ t) eq, (p, passes)), e)
        | inr (inl (reason', p)) ↦ (r, ([], rules, refl, tt), p ∙ (sym (skips reason' p) ∙ h))
        | inr (inr (e, p)) ↦ let c = sym (fails e p) ∙ h in cc
      ]

  skips-rules_loop :
      (i : ℕ) (pre post : List (SkipRule E)) (r : SkipRule E) (reason : RuleReason)
      → All Passes pre
      → evaluate_skip_rule context r ≡ ok (some reason)
      → rules_loop context i (pre ++ (r ∷ post)) ≡ ok (some reason)
  unfolding rules_loop
  skips-rules_loop i [] post r reason h e = rw (e, rules_loop) refl
  skips-rules_loop i (x ∷ pre) post r reason h e =
      rw (h.0, rules_loop) (skips-rules_loop (suc i) pre post r reason h.1 e)

  -- No rule skips exactly if every rule is evaluated and does not trigger.
  pub evaluate_skip_rules-none_iff :
      (rules : List (SkipRule E)) → (evaluate_skip_rules context rules ≡ ok none) ↔ All Passes rules
  unfolding evaluate_skip_rules
  evaluate_skip_rules-none_iff rules = (rules_loop-Passes 0 rules, Passes-rules_loop 0 rules)

  -- The rules skip for a reason exactly if the first of them that does not pass triggers for that
  -- reason.
  pub evaluate_skip_rules-some_iff :
      (rules : List (SkipRule E)) (reason : RuleReason)
      → (evaluate_skip_rules context rules ≡ ok (some reason))
        ↔ ((r : SkipRule E) × Decides rules r × (evaluate_skip_rule context r ≡ ok (some reason)))
  unfolding evaluate_skip_rules
  evaluate_skip_rules-some_iff rules reason = (
    rules_loop-skips 0 rules reason,
    λ (r, (pre, post, eq, passes), e). rw eq (skips-rules_loop 0 pre post r reason passes e),
  )

  -- The result that a step's rules give carries the step's name, and is a skip or a failure.
  pub evaluate_step_skip_lem :
      (name : String) (rules : List (SkipRule E)) (r : StepResult)
      → evaluate_step_skip context name rules ≡ some r
      → (r.name ≡ name) × ((r.status ≡ skip) ⊎ (r.status ≡ fail))
  unfolding evaluate_step_skip
  evaluate_step_skip_lem name [] r h = cc
  evaluate_step_skip_lem name (x ∷ rules) r h =
      ground (arith, evaluated-cases (evaluate_skip_rules context (x ∷ rules)))
