-- ===== src/Lang/Refs/Order.antt =====
-- internal/lang/refs.go: ValidateStepOrder accepts the lists of steps whose references all go back.
use tales.Base.{
  List, [], ◌∷◌, ◌++◌, map, String, str_eq, eq_iff, true, false, ◌||◌, contains, insert,
  contains-insert, contains-append, subst, ◌≡◌, ◌≢◌, ◌↔◌, refl, sym, ◌∙◌, ap, arith, Bool-cases,
  inl, inr, false≢true, ok, >>=-inv, head-contains, tail-contains,
}
use tales.Model.Step.{Step}
use tales.Lang.Refs.{
  Traversal, insert_all, dependency_set, step_expressions, step_dependencies, check_explicit,
  check_implicit, validate_step_refs, order_loop, validate_step_order,
}
use tales.Lang.Refs.Sets.{contains-dependency_set, some_refers}

check_explicit-ok :
    (name : String) (deps seen known external : List String) (d : String)
    → check_explicit name deps seen known external ≡ ok tt
    → contains d deps ≡ true
    → (str_eq d name || (contains d seen || contains d external)) ≡ true
unfolding check_explicit contains
check_explicit-ok name [] seen known external d e h = cc
check_explicit-ok name (dep ∷ deps) seen known external d e h =
    ground (arith, eq_iff dep d, check_explicit-ok name deps seen known external d)

check_explicit-total :
    (name : String) (deps seen known external : List String)
    → ((d : String)
        → contains d deps ≡ true
        → (str_eq d name || (contains d seen || contains d external)) ≡ true)
    → check_explicit name deps seen known external ≡ ok tt
unfolding check_explicit
check_explicit-total name [] seen known external h = refl
check_explicit-total name (dep ∷ deps) seen known external h = ground (
  arith,
  h dep (head-contains dep deps),
  check_explicit-total name deps seen known external (λ d m. h d (tail-contains d dep deps m)),
)

check_implicit-ok :
    (name : String) (explicit deps seen known external : List String) (d : String)
    → check_implicit name explicit deps seen known external ≡ ok tt
    → contains d deps ≡ true
    → (contains d explicit || (contains d seen || contains d external)) ≡ true
unfolding check_implicit contains
check_implicit-ok name explicit [] seen known external d e h = cc
check_implicit-ok name explicit (dep ∷ deps) seen known external d e h =
    ground (arith, eq_iff dep d, check_implicit-ok name explicit deps seen known external d)

check_implicit-total :
    (name : String) (explicit deps seen known external : List String)
    → ((d : String)
        → contains d deps ≡ true
        → (contains d explicit || (contains d seen || contains d external)) ≡ true)
    → check_implicit name explicit deps seen known external ≡ ok tt
unfolding check_implicit
check_implicit-total name explicit [] seen known external h = refl
check_implicit-total name explicit (dep ∷ deps) seen known external h = ground (
  arith,
  h dep (head-contains dep deps),
  check_implicit-total name explicit deps seen known external
      (λ d m. h d (tail-contains d dep deps m)),
)

contains-none : (d : String) (s : List String) → (contains d [] || contains d s) ≡ contains d s
unfolding contains
contains-none d s = refl

-- A name that is met moves from the list to the set of those seen.
shift :
    (d name : String) (names seen external : List String)
    → (contains d names || contains d (insert name seen ++ external)) ≡ true
    → (contains d (name ∷ names) || contains d (seen ++ external)) ≡ true
unfolding contains
shift d name names seen external h = ground (
  arith,
  contains-append d (insert name seen) external,
  contains-insert d name seen,
  contains-append d seen external,
)

unshift :
    (d name : String) (names seen external : List String)
    → (contains d (name ∷ names) || contains d (seen ++ external)) ≡ true
    → (contains d names || contains d (insert name seen ++ external)) ≡ true
unfolding contains
unshift d name names seen external h = ground (
  arith,
  contains-append d (insert name seen) external,
  contains-insert d name seen,
  contains-append d seen external,
)

module _ {E : Type 0} (variables : E → List Traversal) where
  -- The step depends on the name, by depends_on or by an expression.
  abbrev pub Depends : Step E → String → Type 0
  Depends step d =
      (contains d step.depends_on || some_refers variables d (step_expressions variables step))
      ≡ true

  -- The step does not depend on itself, and what it depends on is in one of the two sets.
  abbrev Resolved : Step E → List String → List String → Type 0
  Resolved step seen external =
      (d : String)
      → Depends step d
      → (d ≢ step.name) × ((contains d seen || contains d external) ≡ true)

  step_dependencies-ok :
      (step : Step E) (deps : List String)
      → step_dependencies variables step ≡ ok deps
      → (contains step.name (dependency_set variables step) ≡ false)
        × (deps ≡ dependency_set variables step)
  unfolding step_dependencies
  step_dependencies-ok step deps e = ground arith

  step_dependencies-total :
      (step : Step E)
      → contains step.name (dependency_set variables step) ≡ false
      → step_dependencies variables step ≡ ok (dependency_set variables step)
  unfolding step_dependencies
  step_dependencies-total step h = rw h

  validate_step_refs-ok :
      (step : Step E) (seen known external : List String)
      → validate_step_refs variables step seen known external ≡ ok tt
      → Resolved step seen external
  unfolding validate_step_refs
  validate_step_refs-ok step seen known external e d dep =
      let (_, explicit, e') =
        >>=-inv (check_explicit step.name step.depends_on seen known external) _ e in
      let (deps, found, implicit) = >>=-inv (step_dependencies variables step) _ e' in
      let (not_self, same) = step_dependencies-ok step deps found in
      let held = contains-dependency_set variables d step ∙ dep in
      let self = contains-dependency_set variables step.name step in
      let other : d ≢ step.name = λ q.
        false≢true
          (sym not_self ∙ (ap (λ n. contains n (dependency_set variables step)) (sym q) ∙ held)) in
      (
        other,
        ground (
          arith,
          eq_iff d step.name,
          check_implicit-ok step.name step.depends_on deps seen known external d implicit
              (ap (contains d) same ∙ held),
          check_explicit-ok step.name step.depends_on seen known external d explicit,
        ),
      )

  validate_step_refs-total :
      (step : Step E) (seen known external : List String)
      → Resolved step seen external
      → validate_step_refs variables step seen known external ≡ ok tt
  unfolding validate_step_refs
  validate_step_refs-total step seen known external h =
      let set = dependency_set variables step in
      let held = λ (d : String) (m : contains d set ≡ true).
        h d (sym (contains-dependency_set variables d step) ∙ m) in
      let explicit =
        check_explicit-total step.name step.depends_on seen known external
          λ d m. ground (arith, (h d (ground (arith, m))).1) in
      let implicit =
        check_implicit-total step.name step.depends_on set seen known external
          λ d m. ground (arith, (held d m).1) in
      let not_self : contains step.name set ≡ false = elim (Bool-cases (contains step.name set)) [
        | inl yes_self ↦ absurd ((held step.name yes_self).0 refl)
        | inr not_self ↦ not_self
      ] in
      rw explicit (ground (arith, step_dependencies-total step not_self, implicit))

  -- Whatever a step of the list depends on is another name, which an earlier step bears or which is
  -- in the set.
  abbrev pub GoesBack : List (Step E) → List String → Type 0
  GoesBack steps names =
      (pre : List (Step E)) (step : Step E) (post : List (Step E))
      → steps ≡ pre ++ (step ∷ post)
      → (d : String) → Depends step d
      → (d ≢ step.name) × ((contains d (map (λ s. s.name) pre) || contains d names) ≡ true)

  order_loop-inv :
      (s : Step E) (steps : List (Step E)) (seen known external : List String)
      → order_loop variables (s ∷ steps) seen known external ≡ ok tt
      → (validate_step_refs variables s seen known external ≡ ok tt)
        × (order_loop variables steps (insert s.name seen) known external ≡ ok tt)
  unfolding order_loop
  order_loop-inv s steps seen known external e =
      let (_, now, rest) = >>=-inv (validate_step_refs variables s seen known external) _ e in
      (now, rest)

  order_loop-ok :
      (steps : List (Step E)) (seen known external : List String)
      → order_loop variables steps seen known external ≡ ok tt
      → GoesBack steps (seen ++ external)
  order_loop-ok [] seen known external e [] step post q d dep = cc
  order_loop-ok [] seen known external e (p ∷ pre) step post q d dep = cc
  order_loop-ok (s ∷ steps) seen known external e [] step post q d dep =
      let same : s ≡ step = cc in
      let now = (order_loop-inv s steps seen known external e).0 in
      let (other, held) =
        validate_step_refs-ok s seen known external now d
          (subst (λ t. Depends t d) (sym same) dep) in
      (
        subst (λ t. d ≢ t.name) same other,
        contains-none d (seen ++ external) ∙ (contains-append d seen external ∙ held),
      )
  order_loop-ok (s ∷ steps) seen known external e (p ∷ pre) step post q d dep =
      let same : s ≡ p = cc in
      let rest = (order_loop-inv s steps seen known external e).1 in
      let (other, held) =
        order_loop-ok steps (insert s.name seen) known external rest pre step post (cc) d dep in
      (
        other,
        subst
            (λ t.
              (contains d (map (λ s. s.name) (t ∷ pre)) || contains d (seen ++ external)) ≡ true)
            same (shift d s.name (map (λ s. s.name) pre) seen external held),
      )

  order_loop-total :
      (steps : List (Step E)) (seen known external : List String)
      → GoesBack steps (seen ++ external)
      → order_loop variables steps seen known external ≡ ok tt
  unfolding order_loop
  order_loop-total [] seen known external h = refl
  order_loop-total (s ∷ steps) seen known external h =
      let now = validate_step_refs-total s seen known external λ d dep.
        let (other, held) = h [] s steps refl d dep in
        (
          other,
          sym (contains-append d seen external) ∙ (sym (contains-none d (seen ++ external)) ∙ held),
        ) in
      let rest = order_loop-total steps (insert s.name seen) known external λ pre step post q d dep.
        let (other, held) = h (s ∷ pre) step post (ap (λ t. s ∷ t) q) d dep in
        (other, unshift d s.name (map (λ s. s.name) pre) seen external held) in
      rw now rest

  -- The steps of a list are accepted exactly when each depends only on names of steps before it, or
  -- on names that are resolved outside the list, and never on its own name.
  pub validate_step_order-ok_iff :
      (steps : List (Step E)) (external : List String)
      → (validate_step_order variables steps external ≡ ok tt) ↔ GoesBack steps external
  unfolding validate_step_order
  validate_step_order-ok_iff steps external =
      let known = insert_all (map (λ s. s.name) steps) [] in
      (order_loop-ok steps [] known external, order_loop-total steps [] known external)
