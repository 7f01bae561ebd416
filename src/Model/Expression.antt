-- ===== src/Model/Expression.antt =====
-- internal/model/expression.go. `E` is the type of the expressions of the HCL library; the nil
-- expression is `none`. The file and line serve diagnostics only.
use tales.Base.{Option, none, some, Bool, true, false}

abbrev pub Expression : Type 0 → Type 0
Expression E = Option E

-- Empty
abbrev pub empty {ℓ} : {E : Type ℓ} → Option E → Bool
empty none = true
empty (some _) = false
