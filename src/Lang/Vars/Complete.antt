-- ===== src/Lang/Vars/Complete.antt =====
-- internal/lang/refs.go: ValidateStepVars against all that a step reads.
use tales.Base.{
  List, [], ◌∷◌, ◌++◌, map, String, true, false, ◌||◌, contains, ◌≡◌, ◌↔◌, ok, arith, refl,
}
use tales.Model.Expression.{Expression}
use tales.Model.Step.{Step}
use tales.Lang.Collect.{collect_skip_refs}
use tales.Lang.Missed.{missed_expressions}
use tales.Lang.Refs.{Traversal}
use tales.Lang.Vars.{body_expressions, validate_step_vars}
use tales.Lang.Vars.Accepts.{VarsGoBack, reads, some_reads, validate_step_vars-ok_iff}

module _ {E : Type 0} (variables : E → List Traversal) where
  some_reads-append :
      (a : String) (es fs : List (Expression E))
      → some_reads variables a (es ++ fs) ≡ (some_reads variables a es || some_reads variables a fs)
  some_reads-append a [] fs = refl
  some_reads-append a (e ∷ es) fs = ground (arith, some_reads-append a es fs)

  -- Each variable has a name of its own and reads only variables before it, `when` and the skip rules
  -- read none, and every variable that any other expression of the step reads is declared.
  abbrev pub Declared : Step E → Type 0
  Declared step =
      VarsGoBack variables step.vars []
      × ((a : String) → reads variables a step.when ≡ false)
      × ((a : String) → some_reads variables a (collect_skip_refs step.skip_rules) ≡ false)
      × ((a : String)
          → some_reads variables a (body_expressions variables step ++ missed_expressions step)
            ≡ true
          → contains a (map (λ v. v.name) step.vars) ≡ true)

  -- The variables of a step are accepted exactly if each has a name of its own and reads only
  -- variables before it, `when` and the skip rules read none, and every variable that another
  -- expression of the step reads is declared in it, provided that none is read in a multipart body, a
  -- shortcut, a mail, browser or load block or the `first` of an action on a mobile device.
  pub validate_step_vars-Declared :
      (step : Step E)
      → ((a : String) → some_reads variables a (missed_expressions step) ≡ false)
      → (validate_step_vars variables step ≡ ok tt) ↔ Declared step
  validate_step_vars-Declared step missed =
      let iff = validate_step_vars-ok_iff variables step in
      let all = λ (a : String).
        some_reads-append a (body_expressions variables step) (missed_expressions step) in
      (
        λ h.
            let (back, condition, rules, body) = iff.0 h in
            (back, condition, rules, λ a e. body a (ground (arith, e, all a, missed a))),
        λ (back, condition, rules, body).
            iff.1 (back, condition, rules, λ a e. body a (ground (arith, e, all a))),
      )
