-- ===== src/Lang/Refs.antt =====
-- internal/lang/refs.go: the dependencies of a step, and the order of the steps of a scenario.
-- `variables` is the method of the HCL library that lists the traversals of an expression.
pub mod Sets
pub mod Order
pub mod Complete
use tales.Base.{
  Option, none, some, List, [], ◌∷◌, ◌++◌, map, String, str_eq, if◌then◌else◌, contains, insert,
  Result, ok, err, ◌>>=◌,
}
use tales.Model.Expression.{Expression}
use tales.Model.Step.{Step}
use tales.Lang.Collect.{
  values, collect_request_refs, collect_expect_refs, collect_save_refs, collect_file_refs,
  collect_exec_refs, keyword_refs, collect_mobile_refs, collect_sql_refs, collect_webhook_refs,
  collect_rpc_refs, collect_skip_refs,
}

-- A step of an HCL traversal: TraverseRoot, TraverseAttr, or one that the source does not look at.
pub data Traverser : Type 0 where
  root : String → Traverser
  attr : String → Traverser
  other : Traverser

abbrev pub Traversal : Type 0
Traversal = List Traverser

pub data RefError : Type 0 where
  depends_on_itself : String → RefError
  depends_on_later : String → String → RefError
  depends_on_unknown : String → String → RefError
  references_later : String → String → RefError
  references_unknown : String → String → RefError

-- The name that one round of findRootAttrRefs adds.
abbrev pub root_attr : String → Traversal → Option String
root_attr name (root r ∷ (attr a ∷ rest)) = if str_eq r name then some a else none
root_attr name _ = none

abbrev pub add_ref : List String → Option String → List String
add_ref refs none = refs
add_ref refs (some a) = insert a refs

unfoldable pub root_attr_loop : String → List Traversal → List String → List String
root_attr_loop name [] refs = refs
root_attr_loop name (t ∷ ts) refs = root_attr_loop name ts (add_ref refs (root_attr name t))

unfoldable pub insert_all : List String → List String → List String
insert_all [] s = s
insert_all (x ∷ xs) s = insert_all xs (insert x s)

-- The loop over DependsOn.
unfoldable pub check_explicit :
    String → List String → List String → List String → List String → Result RefError (Unit {0})
check_explicit name [] seen known external = ok tt
check_explicit name (dep ∷ deps) seen known external =
    let rest = check_explicit name deps seen known external in
    if str_eq dep name
    then rest
    else if contains dep seen
    then rest
    else if contains dep external
    then rest
    else if contains dep known
    then err (depends_on_later name dep)
    else err (depends_on_unknown name dep)

-- The loop over the set of dependencies.
unfoldable pub check_implicit :
    String
    → List String
    → List String
    → List String
    → List String
    → List String
    → Result RefError (Unit {0})
check_implicit name explicit [] seen known external = ok tt
check_implicit name explicit (dep ∷ deps) seen known external =
    let rest = check_implicit name explicit deps seen known external in
    if contains dep explicit
    then rest
    else if contains dep seen
    then rest
    else if contains dep external
    then rest
    else if contains dep known
    then err (references_later name dep)
    else err (references_unknown name dep)

module _ {E : Type 0} (variables : E → List Traversal) where
  unfoldable pub find_root_attr_refs : Expression E → String → List String
  unfolding root_attr_loop
  find_root_attr_refs none name = []
  find_root_attr_refs (some e) name = root_attr_loop name (variables e) []

  unfoldable pub find_step_refs : Expression E → List String
  unfolding find_root_attr_refs
  find_step_refs e = find_root_attr_refs e "result"

  unfoldable pub find_var_refs : Expression E → List String
  unfolding find_root_attr_refs
  find_var_refs e = find_root_attr_refs e "vars"

  -- The expressions that StepDependencies collects, in order.
  unfoldable pub step_expressions : Step E → List (Expression E)
  step_expressions step =
      (step.when ∷ map (λ v. v.expr) step.vars)
      ++ (collect_request_refs step.request
          ++ (collect_expect_refs step.expect
              ++ (values step.capture
                  ++ (collect_save_refs step.save
                      ++ (collect_file_refs step.file_op
                          ++ (collect_exec_refs step.exec
                              ++ (keyword_refs step.keyword
                                  ++ (collect_mobile_refs step.mobile
                                      ++ (collect_sql_refs step.sql
                                          ++ (collect_webhook_refs step.webhook
                                              ++ (collect_rpc_refs step.rpc
                                                  ++ collect_skip_refs step.skip_rules)))))))))))

  -- The closure `collect`, for each expression.
  unfoldable pub collect_all : List (Expression E) → List String → List String
  collect_all [] deps = deps
  collect_all (e ∷ es) deps = collect_all es (insert_all (find_step_refs e) deps)

  unfoldable pub dependency_set : Step E → List String
  dependency_set step = collect_all (step_expressions step) (insert_all step.depends_on [])

  unfoldable pub step_dependencies : Step E → Result RefError (List String)
  step_dependencies step =
      if contains step.name (dependency_set step)
      then err (depends_on_itself step.name)
      else ok (dependency_set step)

  unfoldable pub validate_step_refs :
      Step E → List String → List String → List String → Result RefError (Unit {0})
  validate_step_refs step seen known external = do
    checked ← check_explicit step.name step.depends_on seen known external
    deps ← step_dependencies step
    check_implicit step.name step.depends_on deps seen known external

  unfoldable pub order_loop :
      List (Step E) → List String → List String → List String → Result RefError (Unit {0})
  order_loop [] seen known external = ok tt
  order_loop (step ∷ steps) seen known external =
      let rest = order_loop steps (insert step.name seen) known external in
      do checked ← validate_step_refs step seen known external; rest

  unfoldable pub validate_step_order : List (Step E) → List String → Result RefError (Unit {0})
  validate_step_order steps external =
      order_loop steps [] (insert_all (map (λ s. s.name) steps) []) external
