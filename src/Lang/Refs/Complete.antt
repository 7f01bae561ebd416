-- ===== src/Lang/Refs/Complete.antt =====
-- internal/lang/refs.go: ValidateStepOrder against all that the steps refer to.
use tales.Base.{
  List, [], ◌∷◌, ◌++◌, map, String, true, false, ◌||◌, contains, ◌≡◌, ◌≢◌, ◌↔◌, ok, arith, refl,
  All, subst,
}
use tales.Model.Expression.{Expression}
use tales.Model.Step.{Step}
use tales.Lang.Missed.{missed_expressions}
use tales.Lang.Refs.{Traversal, step_expressions, validate_step_order}
use tales.Lang.Refs.Sets.{some_refers}
use tales.Lang.Refs.Order.{Depends, validate_step_order-ok_iff}

module _ {E : Type 0} (variables : E → List Traversal) where
  -- The step depends on the name, by depends_on or by any expression that it has.
  abbrev pub Refers : Step E → String → Type 0
  Refers step d =
      (contains d step.depends_on
        || some_refers variables d (step_expressions variables step ++ missed_expressions step))
      ≡ true

  -- Whatever a step of the list refers to is another name, which an earlier step bears or which is in
  -- the set.
  abbrev pub AllBack : List (Step E) → List String → Type 0
  AllBack steps names =
      (pre : List (Step E)) (step : Step E) (post : List (Step E))
      → steps ≡ pre ++ (step ∷ post)
      → (d : String) → Refers step d
      → (d ≢ step.name) × ((contains d (map (λ s. s.name) pre) || contains d names) ≡ true)

  -- None of the expressions that are not collected refers to a step.
  abbrev pub NothingMissed : Step E → Type 0
  NothingMissed step = (d : String) → some_refers variables d (missed_expressions step) ≡ false

  some_refers-append :
      (d : String) (es fs : List (Expression E))
      → some_refers variables d (es ++ fs)
        ≡ (some_refers variables d es || some_refers variables d fs)
  some_refers-append d [] fs = refl
  some_refers-append d (e ∷ es) fs = ground (arith, some_refers-append d es fs)

  Depends-Refers : (step : Step E) (d : String) → Depends variables step d → Refers step d
  Depends-Refers step d h =
      ground
        (arith, h, some_refers-append d (step_expressions variables step) (missed_expressions step))

  Refers-Depends :
      (step : Step E) (d : String) → NothingMissed step → Refers step d → Depends variables step d
  Refers-Depends step d none_missed h = ground (
    arith,
    h,
    some_refers-append d (step_expressions variables step) (missed_expressions step),
    none_missed d,
  )

  missed-split :
      (steps pre : List (Step E)) (step : Step E) (post : List (Step E))
      → steps ≡ pre ++ (step ∷ post)
      → All NothingMissed steps
      → NothingMissed step
  missed-split [] [] step post q h = cc
  missed-split [] (p ∷ pre) step post q h = cc
  missed-split (s ∷ steps) [] step post q (h, all) =
      let same : s ≡ step = cc in subst NothingMissed same h
  missed-split (s ∷ steps) (p ∷ pre) step post q (h, all) =
      missed-split steps pre step post (cc) all

  -- The steps of a list are accepted exactly when each refers only to names of steps before it, or to
  -- names that are resolved outside the list, and never to its own name: by depends_on or by any of
  -- its expressions, provided that no step is referred to from a multipart body, a shortcut, a mail,
  -- browser or load block or the `first` of an action on a mobile device.
  pub validate_step_order-AllBack :
      (steps : List (Step E)) (external : List String)
      → All NothingMissed steps
      → (validate_step_order variables steps external ≡ ok tt) ↔ AllBack steps external
  validate_step_order-AllBack steps external missed =
      let iff = validate_step_order-ok_iff variables steps external in
      (
        λ h pre step post q d refers_to.
            iff.0 h pre step post q d
              (Refers-Depends step d (missed-split steps pre step post q missed) refers_to),
        λ back.
            iff.1
              λ pre step post q d depends. back pre step post q d (Depends-Refers step d depends),
      )
