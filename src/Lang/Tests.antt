-- ===== src/Lang/Tests.antt =====
-- internal/lang/refs.go: the theorems at two steps, of which the second refers to the first.
use tales.Base.{String, List, [], ◌∷◌, none, some, ok, ◌≡◌, ◌↔◌, refl}
use tales.Model.Step.{Step}
use tales.Model.Expression.{Expression}
use tales.Lang.Vars.{validate_step_vars}
use tales.Lang.Refs.{Traversal, root, attr, validate_step_order}
use tales.Lang.Refs.Complete.{AllBack, validate_step_order-AllBack}
use tales.Lang.Vars.Complete.{Declared, validate_step_vars-Declared}

-- An expression is the list of its traversals.
abbrev variables : List Traversal → List Traversal
variables e = e

abbrev step_when : String → List String → Expression (List Traversal) → Step (List Traversal)
step_when name deps condition = record {
  provider = "http";
  name = name;
  file = "shop.tales";
  line = 1;
  depends_on = deps;
  when = condition;
  vars = [];
  request = none;
  expect = none;
  capture = [];
  save = none;
  file_op = none;
  exec = none;
  keyword = none;
  mobile = none;
  sql = none;
  mail = none;
  browser = none;
  load = none;
  webhook = none;
  rpc = none;
  retry = none;
  skip_rules = [];
}

abbrev login : Step (List Traversal)
login = step_when "login" [] none

abbrev pay : Step (List Traversal)
pay = step_when "pay" [] (some ((root "result" ∷ attr "login" ∷ []) ∷ []))

validate_step_order-AllBack_example :
    (validate_step_order variables (login ∷ pay ∷ []) [] ≡ ok tt)
    ↔ AllBack variables (login ∷ pay ∷ []) []
validate_step_order-AllBack_example =
    validate_step_order-AllBack variables (login ∷ pay ∷ []) [] (λ d. refl, (λ d. refl, tt))

-- The variable `total` is read by `when`.
abbrev early : Step (List Traversal)
early = record (step_when "pay" [] (some ((root "vars" ∷ attr "total" ∷ []) ∷ []))) {
  vars = record { name = "total"; expr = none } ∷ [];
}

validate_step_vars-Declared_example :
    (validate_step_vars variables early ≡ ok tt) ↔ Declared variables early
validate_step_vars-Declared_example = validate_step_vars-Declared variables early (λ a. refl)
