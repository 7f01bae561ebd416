-- ===== src/Lang/Vars/Accepts.antt =====
-- internal/lang/refs.go: which steps ValidateStepVars accepts.
use tales.Base.{
  String, eq_iff, List, [], ◌∷◌, map, none, some, Bool, true, false, ◌||◌, ◌≡◌, refl, sym, ap, ◌∙◌,
  ◌↔◌, inl, inr, contains, insert, contains-insert, head-contains, tail-contains, ok, >>=-inv,
  ok-injective, arith, Bool-cases, false≢true,
}
use tales.Model.Expression.{Expression}
use tales.Model.Http.{StepVar}
use tales.Model.Step.{Step}
use tales.Lang.Collect.{collect_skip_refs}
use tales.Lang.Refs.{Traversal, find_var_refs, insert_all}
use tales.Lang.Refs.Sets.{has_ref, contains-root_attr_loop, contains-insert_all}
use tales.Lang.Vars.{
  VarError, in_when, in_skip_rules, check_var_refs, check_seen, forbid, declare_vars, forbid_all,
  body_expressions, seen_vars, validate_step_vars,
}

check_var_refs-declared :
    (name : String) (declared refs : List String) (a : String)
    → check_var_refs name declared refs ≡ ok tt
    → contains a refs ≡ true
    → contains a declared ≡ true
unfolding check_var_refs contains
check_var_refs-declared name declared [] a h e = cc
check_var_refs-declared name declared (ref ∷ refs) a h e =
    ground (arith, eq_iff ref a, check_var_refs-declared name declared refs a)

check_var_refs-total :
    (name : String) (declared refs : List String)
    → contains name declared ≡ false
    → ((a : String) → contains a refs ≡ true → contains a declared ≡ true)
    → check_var_refs name declared refs ≡ ok tt
unfolding check_var_refs
check_var_refs-total name declared [] fresh h = refl
check_var_refs-total name declared (ref ∷ refs) fresh h =
    let head = h ref (head-contains ref refs) in
    let rest =
      check_var_refs-total name declared refs fresh (λ a e. h a (tail-contains a ref refs e)) in
    ground (arith, eq_iff ref name, head, rest, fresh)

check_seen-declared :
    (declared refs : List String) (a : String)
    → check_seen declared refs ≡ ok tt
    → contains a refs ≡ true
    → contains a declared ≡ true
unfolding check_seen contains
check_seen-declared declared [] a h e = cc
check_seen-declared declared (ref ∷ refs) a h e =
    ground (arith, eq_iff ref a, check_seen-declared declared refs a)

check_seen-total :
    (declared refs : List String)
    → ((a : String) → contains a refs ≡ true → contains a declared ≡ true)
    → check_seen declared refs ≡ ok tt
unfolding check_seen
check_seen-total declared [] h = refl
check_seen-total declared (ref ∷ refs) h =
    let head = h ref (head-contains ref refs) in
    let rest = check_seen-total declared refs (λ a e. h a (tail-contains a ref refs e)) in
    ground (arith, head, rest)

forbid-none :
    (error : String → VarError) (refs : List String) (a : String)
    → forbid error refs ≡ ok tt
    → contains a refs ≡ false
unfolding forbid contains
forbid-none error [] a h = refl
forbid-none error (ref ∷ refs) a h = cc

forbid-total :
    (error : String → VarError) (refs : List String)
    → ((a : String) → contains a refs ≡ false)
    → forbid error refs ≡ ok tt
unfolding forbid
forbid-total error [] h = refl
forbid-total error (ref ∷ refs) h = absurd (false≢true (sym (h ref) ∙ head-contains ref refs))

seen_first : (a : String) (b : Bool) → b ≡ true → (b || contains a []) ≡ true
seen_first a b h = ground arith

seen_only : (a : String) (b : Bool) → (b || contains a []) ≡ true → b ≡ true
unfolding contains
seen_only a b h = ground arith

module _ {E : Type 0} (variables : E → List Traversal) where
  -- The expression refers to vars.<name>.
  abbrev pub reads : String → Expression E → Bool
  reads a none = false
  reads a (some e) = has_ref "vars" a (variables e)

  abbrev pub some_reads : String → List (Expression E) → Bool
  some_reads a [] = false
  some_reads a (e ∷ es) = reads a e || some_reads a es

  contains-find_var_refs :
      (a : String) (e : Expression E) → contains a (find_var_refs variables e) ≡ reads a e
  unfolding find_var_refs contains
  contains-find_var_refs a none = refl
  contains-find_var_refs a (some e) =
      ground (arith, contains-root_attr_loop "vars" a (variables e) [])

  contains-seen_vars :
      (a : String) (es : List (Expression E)) (seen : List String)
      → contains a (seen_vars variables es seen) ≡ (some_reads a es || contains a seen)
  unfolding seen_vars
  contains-seen_vars a [] seen = refl
  contains-seen_vars a (e ∷ es) seen = ground (
    arith,
    contains-seen_vars a es (insert_all (find_var_refs variables e) seen),
    contains-insert_all a (find_var_refs variables e) seen,
    contains-find_var_refs a e,
  )

  -- Each variable has a name of its own and reads only variables before it.
  abbrev pub VarsGoBack : List (StepVar E) → List String → Type 0
  VarsGoBack [] declared = Unit
  VarsGoBack (v ∷ vars) declared =
      ((a : String) → reads a v.expr ≡ true → contains a declared ≡ true)
      × (contains v.name declared ≡ false)
      × VarsGoBack vars (insert v.name declared)

  abbrev declared_names : List (StepVar E) → List String → List String
  declared_names [] declared = declared
  declared_names (v ∷ vars) declared = declared_names vars (insert v.name declared)

  contains-declared_names :
      (a : String) (vars : List (StepVar E)) (declared : List String)
      → contains a (declared_names vars declared)
        ≡ (contains a (map (λ v. v.name) vars) || contains a declared)
  unfolding contains
  contains-declared_names a [] declared = refl
  contains-declared_names a (v ∷ vars) declared = ground (
    arith,
    contains-declared_names a vars (insert v.name declared),
    contains-insert a v.name declared,
  )

  names-declared :
      (a : String) (vars : List (StepVar E))
      → contains a (declared_names vars []) ≡ contains a (map (λ v. v.name) vars)
  unfolding contains
  names-declared a vars = ground (arith, contains-declared_names a vars [])

  declare_vars-inv :
      (vars : List (StepVar E)) (declared out : List String)
      → declare_vars variables vars declared ≡ ok out
      → VarsGoBack vars declared × (out ≡ declared_names vars declared)
  unfolding declare_vars
  declare_vars-inv [] declared out h = (tt, sym (ok-injective h))
  declare_vars-inv (v ∷ vars) declared out h =
      let (u, checked, rest) =
        >>=-inv (check_var_refs v.name declared (find_var_refs variables v.expr)) _ h in
      elim (Bool-cases (contains v.name declared)) [
        | inl taken ↦ absurd (ground (arith, rest, taken))
        | inr fresh ↦
            let rest' : declare_vars variables vars (insert v.name declared) ≡ ok out =
              ground (arith, rest, fresh) in
            let (back, same) = declare_vars-inv vars (insert v.name declared) out rest' in
            (
              (
                λ a e.
                    check_var_refs-declared v.name declared _ a checked
                      (contains-find_var_refs a v.expr ∙ e),
                fresh,
                back,
              ),
              same,
            )
      ]

  declare_vars-total :
      (vars : List (StepVar E)) (declared : List String)
      → VarsGoBack vars declared
      → declare_vars variables vars declared ≡ ok (declared_names vars declared)
  unfolding declare_vars
  declare_vars-total [] declared h = refl
  declare_vars-total (v ∷ vars) declared (back, fresh, h) =
      let checked =
        check_var_refs-total v.name declared (find_var_refs variables v.expr) fresh
          (λ a e. back a (sym (contains-find_var_refs a v.expr) ∙ e)) in
      rw (checked, fresh) (declare_vars-total vars (insert v.name declared) h)

  forbid_all-none :
      (es : List (Expression E)) (a : String)
      → forbid_all variables es ≡ ok tt
      → some_reads a es ≡ false
  unfolding forbid_all
  forbid_all-none [] a h = refl
  forbid_all-none (e ∷ es) a h =
      let (u, first, rest) = >>=-inv (forbid in_skip_rules (find_var_refs variables e)) _ h in
      let none_here = forbid-none in_skip_rules (find_var_refs variables e) a first in
      ground (arith, none_here, contains-find_var_refs a e, forbid_all-none es a rest)

  forbid_all-total :
      (es : List (Expression E))
      → ((a : String) → some_reads a es ≡ false)
      → forbid_all variables es ≡ ok tt
  unfolding forbid_all
  forbid_all-total [] h = refl
  forbid_all-total (e ∷ es) h =
      let first =
        forbid-total in_skip_rules (find_var_refs variables e)
          (λ a. contains-find_var_refs a e ∙ ground (arith, h a)) in
      rw first (forbid_all-total es (λ a. ground (arith, h a)))

  -- The variables of a step are accepted exactly if each has a name of its own and reads only
  -- variables before it, `when` and the skip rules read none, and the body reads only variables of
  -- the step.
  pub validate_step_vars-ok_iff :
      (step : Step E)
      → (validate_step_vars variables step ≡ ok tt) ↔ (
          VarsGoBack step.vars []
          × ((a : String) → reads a step.when ≡ false)
          × ((a : String) → some_reads a (collect_skip_refs step.skip_rules) ≡ false)
          × ((a : String)
              → some_reads a (body_expressions variables step) ≡ true
              → contains a (map (λ v. v.name) step.vars) ≡ true))
  unfolding validate_step_vars
  validate_step_vars-ok_iff step = (
    λ h.
        let (declared, vars, h1) = >>=-inv (declare_vars variables step.vars []) _ h in
        let (u1, condition, h2) =
          >>=-inv (forbid in_when (find_var_refs variables step.when)) _ h1 in
        let (u2, rules, body) =
          >>=-inv (forbid_all variables (collect_skip_refs step.skip_rules)) _ h2 in
        let (back, same) = declare_vars-inv step.vars [] declared vars in
        (
          back,
          λ a. sym (contains-find_var_refs a step.when) ∙ forbid-none in_when _ a condition,
          λ a. forbid_all-none (collect_skip_refs step.skip_rules) a rules,
          λ a e.
              sym (names-declared a step.vars)
              ∙ (ap (contains a) (sym same)
                  ∙ check_seen-declared declared _ a body (
                      contains-seen_vars a (body_expressions variables step) []
                      ∙ seen_first a _ e)),
        ),
    λ (back, condition, rules, body).
        rw
          (
            declare_vars-total step.vars [] back,
            forbid-total in_when (find_var_refs variables step.when)
                (λ a. contains-find_var_refs a step.when ∙ condition a),
            forbid_all-total (collect_skip_refs step.skip_rules) rules,
          )
          (check_seen-total (declared_names step.vars [])
            (seen_vars variables (body_expressions variables step) [])
            (λ a e.
              names-declared a step.vars
              ∙ body a (
                  seen_only a _
                    (sym (contains-seen_vars a (body_expressions variables step) []) ∙ e)))),
  )
