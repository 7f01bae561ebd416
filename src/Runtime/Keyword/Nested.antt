-- ===== src/Runtime/Keyword/Nested.antt =====
-- internal/runtime/runner.go: the names of the results that the steps of a keyword see, and calls of
-- keywords inside keywords.
use tales.Base.{
  String, str_eq, List, [], ◌∷◌, map, true, false, ◌||◌, ◌≡◌, refl, sym, ap, ◌∙◌, ◌↔◌, inl, inr,
  eq_iff, ◌>>=◌, ok, >>=-inv, ok-injective, Bool-cases, arith, contains, All,
}
use tales.Model.Step.{Step, Keyword}
use tales.Runtime.Attempt.{assign}
use tales.Runtime.Keyword.{keys, fill, set_results, step_names, new_keyword_state}

-- The names of the steps.
abbrev pub names : {E : Type 0} → List (Step E) → List String
names steps = map (λ s. s.name) steps

contains-assign :
    {V : Type 0} (k name : String) (v : V) (m : List (String × V))
    → contains k (keys (assign name v m)) ≡ (str_eq name k || contains k (keys m))
unfolding assign contains
contains-assign k name v [] = refl
contains-assign k name v ((l, w) ∷ m) = elim (Bool-cases (str_eq l name)) [
  | inl same ↦ ground (arith, same, ap (λ t. str_eq t k) ((eq_iff l name).0 same))
  | inr other ↦ ground (arith, other, contains-assign k name v m)
]

module _ {V : Type 0} (empty : V) where
  contains-fill :
      (k : String) (ns : List String) (m : List (String × V))
      → contains k (keys (fill empty ns m)) ≡ (contains k ns || contains k (keys m))
  unfolding fill contains
  contains-fill k [] m = refl
  contains-fill k (n ∷ ns) m =
      ground (arith, contains-fill k ns (assign n empty m), contains-assign k n empty m)

  contains-set_results :
      (k : String) (m r : List (String × V))
      → contains k (keys (set_results m r)) ≡ (contains k (keys m) || contains k (keys r))
  unfolding set_results contains
  contains-set_results k [] r = refl
  contains-set_results k ((n, v) ∷ m) r =
      ground (arith, contains-set_results k m (assign n v r), contains-assign k n v r)

  step_names-ok :
      {E : Type 0} (outer : List String) (steps : List (Step E)) {ns : List String}
      → step_names outer steps ≡ ok ns
      → (ns ≡ names steps) × All (λ s. contains s.name outer ≡ false) steps
  unfolding step_names
  step_names-ok outer [] h = (sym (ok-injective h), tt)
  step_names-ok outer (s ∷ steps) {ns = ns} h = elim (Bool-cases (contains s.name outer)) [
    | inl taken ↦ absurd (ground (arith, h, taken))
    | inr free ↦
        let run : (step_names outer steps >>= (λ n. ok (s.name ∷ n))) ≡ ok ns =
          ground (arith, h, free) in
        let (n, e, e') = >>=-inv (step_names outer steps) _ run in
        let (same, all) = step_names-ok outer steps e in
        (sym (ok-injective e') ∙ ap (λ t. s.name ∷ t) same, (free, all))
  ]

  -- A state for the steps of a keyword holds the names of the results outside and those of the steps,
  -- none of which was there before.
  pub new_keyword_state-ok :
      {E : Type 0} (outer inner : List (String × V)) (steps : List (Step E))
      → new_keyword_state empty outer steps ≡ ok inner
      → ((k : String)
          → contains k (keys inner) ≡ (contains k (keys outer) || contains k (names steps)))
        × All (λ s. contains s.name (keys outer) ≡ false) steps
  unfolding new_keyword_state contains
  new_keyword_state-ok outer inner steps h =
      let (ns, e, e') = >>=-inv (step_names (keys outer) steps) _ h in
      let (same, free) = step_names-ok (keys outer) steps e in
      let made : set_results outer (fill empty ns (fill empty (keys outer) [])) ≡ inner =
        ok-injective e' in
      (
        λ k.
            ap (λ t. contains k (keys t)) (sym made)
            ∙ ground (
              arith,
              contains-set_results k outer (fill empty ns (fill empty (keys outer) [])),
              contains-fill k ns (fill empty (keys outer) []),
              contains-fill k (keys outer) [],
              ap (λ t. contains k t) same,
            ),
        free,
      )

  step_names-total :
      {E : Type 0} (outer : List String) (steps : List (Step E))
      → All (λ s. contains s.name outer ≡ false) steps
      → step_names outer steps ≡ ok (names steps)
  unfolding step_names
  step_names-total outer [] h = refl
  step_names-total outer (s ∷ steps) (free, h) =
      ground (arith, free, step_names-total outer steps h)

  -- The steps of a keyword get a state exactly if none of them is named like a result of the scenario
  -- that calls it, and the state then holds the names of those results and of the steps, no others.
  pub new_keyword_state-ok_iff :
      {E : Type 0} (outer : List (String × V)) (steps : List (Step E))
      → (((inner : List (String × V)) × (new_keyword_state empty outer steps ≡ ok inner))
          ↔ All (λ s. contains s.name (keys outer) ≡ false) steps)
        × ((inner : List (String × V))
            → new_keyword_state empty outer steps ≡ ok inner
            → (k : String)
            → contains k (keys inner) ≡ (contains k (keys outer) || contains k (names steps)))
  unfolding new_keyword_state
  new_keyword_state-ok_iff outer steps = (
    (
      λ (inner, h). (new_keyword_state-ok outer inner steps h).1,
      λ free. (
        set_results outer (fill empty (names steps) (fill empty (keys outer) [])),
        rw (step_names-total (keys outer) steps free) refl,
      ),
    ),
    λ inner h. (new_keyword_state-ok outer inner steps h).0,
  )

  pub free-name :
      {E : Type 0} (n : String) (outer : List String) (steps : List (Step E))
      → All (λ s. contains s.name outer ≡ false) steps
      → contains n outer ≡ true
      → contains n (names steps) ≡ false
  unfolding contains
  free-name n outer [] free h = refl
  free-name n outer (s ∷ steps) (f, free) h = elim (Bool-cases (str_eq s.name n)) [
    | inl same ↦
        let there : contains s.name outer ≡ contains n outer =
          ap (λ t. contains t outer) ((eq_iff s.name n).0 same) in
        absurd (ground (arith, f, h, there))
    | inr other ↦ ground (arith, other, free-name n outer steps free h)
  ]

  -- Keywords that were called one inside the other, each from a state that has at least the results
  -- that the one around it started with.
  pub data Nested (E : Type 0) : List (String × V) → List (Keyword E) → Type 0 where
    innermost : (outer : List (String × V)) → Nested E outer []
    enter :
        (outer inner later : List (String × V)) (k : Keyword E) (ks : List (Keyword E))
        → new_keyword_state empty outer k.steps ≡ ok inner
        → ((n : String) → contains n (keys inner) ≡ true → contains n (keys later) ≡ true)
        → Nested E later ks
        → Nested E outer (k ∷ ks)

  known-names :
      {E : Type 0} (n : String) (outer : List (String × V)) (ks : List (Keyword E))
      → contains n (keys outer) ≡ true
      → Nested E outer ks
      → All (λ k. contains n (names k.steps) ≡ false) ks
  known-names n outer ks h (innermost o) = tt
  known-names n outer ks h (enter o inner later k ks' e grows nested) =
      let (holds, free) = new_keyword_state-ok o inner k.steps e in
      let inside : contains n (keys inner) ≡ true = ground (arith, h, holds n) in
      (free-name n (keys o) k.steps free h, known-names n later ks' (grows n inside) nested)

  -- Keywords do not call each other without end: the name of a step of a keyword is not that of a step
  -- of any keyword called inside it, so that a keyword with a step never runs inside itself.
  pub Nested-once :
      {E : Type 0} (outer : List (String × V)) (k : Keyword E) (ks : List (Keyword E)) (n : String)
      → Nested E outer (k ∷ ks)
      → contains n (names k.steps) ≡ true
      → All (λ k'. contains n (names k'.steps) ≡ false) ks
  Nested-once outer k ks n (enter o inner later k' ks' e grows nested) h =
      let (holds, free) = new_keyword_state-ok o inner k'.steps e in
      let inside : contains n (keys inner) ≡ true = ground (arith, h, holds n) in
      known-names n later ks' (grows n inside) nested
