-- ===== src/Lang/Vars.antt =====
-- internal/lang/refs.go: ValidateStepVars, the variables of one step.
pub mod Accepts
pub mod Complete
use tales.Base.{
  String, str_eq, List, [], ◌∷◌, ◌++◌, Bool, true, false, if◌then◌else◌, contains, insert, Result,
  ok, err, ◌>>=◌,
}
use tales.Model.Expression.{Expression}
use tales.Model.Http.{StepVar}
use tales.Model.Step.{Step, SkipRule}
use tales.Lang.Collect.{
  values, collect_request_refs, collect_expect_refs, collect_save_refs, collect_file_refs,
  collect_exec_refs, keyword_refs, collect_mobile_refs, collect_sql_refs, collect_webhook_refs,
  collect_rpc_refs, collect_skip_refs,
}
use tales.Lang.Refs.{Traversal, find_var_refs, insert_all}

pub data VarError : Type 0 where
  references_itself : String → VarError
  references_before : String → String → VarError
  duplicate_variable : String → VarError
  in_when : String → VarError
  in_skip_rules : String → VarError
  unknown_variable : String → VarError

-- The loop over the references of the variable called `name`.
unfoldable pub check_var_refs : String → List String → List String → Result VarError (Unit {0})
check_var_refs name declared [] = ok tt
check_var_refs name declared (ref ∷ refs) =
    let rest = check_var_refs name declared refs in
    if str_eq ref name
    then err (references_itself name)
    else if contains ref declared
    then rest
    else err (references_before name ref)

-- The loop over the references of the body.
unfoldable pub check_seen : List String → List String → Result VarError (Unit {0})
check_seen declared [] = ok tt
check_seen declared (ref ∷ refs) =
    let rest = check_seen declared refs in
    if contains ref declared then rest else err (unknown_variable ref)

-- An error for the first of the references, if there is one.
unfoldable pub forbid : (String → VarError) → List String → Result VarError (Unit {0})
forbid error [] = ok tt
forbid error (ref ∷ refs) = err (error ref)

module _ {E : Type 0} (variables : E → List Traversal) where
  -- The loop over the variables, with the names declared.
  unfoldable pub declare_vars : List (StepVar E) → List String → Result VarError (List String)
  declare_vars [] declared = ok declared
  declare_vars (v ∷ vars) declared =
      let rest = declare_vars vars (insert v.name declared) in
      check_var_refs v.name declared (find_var_refs variables v.expr) >>= λ checked.
      if contains v.name declared then err (duplicate_variable v.name) else rest

  -- The loops over the skip rules and over the expressions of each.
  unfoldable pub forbid_all : List (Expression E) → Result VarError (Unit {0})
  forbid_all [] = ok tt
  forbid_all (e ∷ es) =
      let rest = forbid_all es in
      forbid in_skip_rules (find_var_refs variables e) >>= λ checked. rest

  -- What the closure `collect` is given, in order.
  unfoldable pub body_expressions : Step E → List (Expression E)
  body_expressions step =
      collect_request_refs step.request
      ++ (collect_expect_refs step.expect
          ++ (values step.capture
              ++ (keyword_refs step.keyword
                  ++ (collect_save_refs step.save
                      ++ (collect_file_refs step.file_op
                          ++ (collect_exec_refs step.exec
                              ++ (collect_mobile_refs step.mobile
                                  ++ (collect_sql_refs step.sql
                                      ++ (collect_webhook_refs step.webhook
                                          ++ collect_rpc_refs step.rpc)))))))))

  unfoldable pub seen_vars : List (Expression E) → List String → List String
  seen_vars [] seen = seen
  seen_vars (e ∷ es) seen = seen_vars es (insert_all (find_var_refs variables e) seen)

  unfoldable pub validate_step_vars : Step E → Result VarError (Unit {0})
  validate_step_vars step = declare_vars step.vars [] >>= λ declared.
      forbid in_when (find_var_refs variables step.when) >>= λ checked.
      forbid_all (collect_skip_refs step.skip_rules) >>= λ checked'.
      check_seen declared (seen_vars (body_expressions step) [])
