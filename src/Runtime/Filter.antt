-- ===== src/Runtime/Filter.antt =====
-- internal/runtime/runner.go: the scenarios that the tags and the name of a run select.
use tales.Base.{
  String, str_eq, eq_iff, List, [], ◌∷◌, length, ◌==◌, ltb, Bool, true, false, ◌&&◌, not,
  if◌then◌else◌, ◌≡◌, refl, ◌⊎◌, inl, inr, arith, contains, Bool-cases, head-contains,
  tail-contains,
}

-- What the selection reads of a scenario.
pub record Scenario : Type 0 where
  pub name : String
  pub tags : List String

-- The loop that looks for one of the scenario's tags in the set of tags.
unfoldable pub any_tag : List String → List String → Bool
any_tag tags [] = false
any_tag tags (tag ∷ rest) = let more = any_tag tags rest in if contains tag tags then true else more

-- Whether the loop over the scenarios appends this one.
unfoldable pub selects : List String → String → Scenario → Bool
selects tags name s =
    if not (str_eq name "") && not (str_eq s.name name)
    then false
    else if ltb 0 (length tags)
    then any_tag tags s.tags
    else true

unfoldable pub filter_loop : List String → String → List Scenario → List Scenario
filter_loop tags name [] = []
filter_loop tags name (s ∷ scenarios) =
    let rest = filter_loop tags name scenarios in if selects tags name s then s ∷ rest else rest

unfoldable pub filter_scenarios : List Scenario → List String → String → List Scenario
filter_scenarios scenarios tags name =
    if (length tags == 0) && str_eq name "" then scenarios else filter_loop tags name scenarios

-- `ys` is `xs` without the elements that `P` excludes, in the same order.
pub data Kept (P : Scenario → Type 0) : List Scenario → List Scenario → Type 0 where
  none_left : Kept P [] []
  keep : (x : Scenario) (xs ys : List Scenario) → P x → Kept P xs ys → Kept P (x ∷ xs) (x ∷ ys)
  omit : (x : Scenario) (xs ys : List Scenario) → (P x → ⊥) → Kept P xs ys → Kept P (x ∷ xs) ys

-- The scenario has the name, where one is given, and one of the tags, where there are any.
abbrev pub Wanted : List String → String → Scenario → Type 0
Wanted tags name s =
    ((name ≡ "") ⊎ (s.name ≡ name))
    × ((tags ≡ []) ⊎ ((tag : String) × (contains tag s.tags ≡ true) × (contains tag tags ≡ true)))

any_tag_sound :
    (tags rest : List String)
    → any_tag tags rest ≡ true
    → (tag : String) × (contains tag rest ≡ true) × (contains tag tags ≡ true)
unfolding any_tag contains
any_tag_sound tags [] h = absurd (ground arith)
any_tag_sound tags (t ∷ rest) h = elim (Bool-cases (contains t tags)) [
  | inl c ↦ (t, head-contains t rest, c)
  | inr c ↦
      let (tag, a, b) = any_tag_sound tags rest (ground (arith, h, c)) in
      (tag, tail-contains tag t rest a, b)
]

any_tag_complete :
    (tags rest : List String) (tag : String)
    → contains tag rest ≡ true
    → contains tag tags ≡ true
    → any_tag tags rest ≡ true
unfolding any_tag contains
any_tag_complete tags [] tag a b = absurd (ground arith)
any_tag_complete tags (t ∷ rest) tag a b =
    ground (arith, eq_iff t tag, any_tag_complete tags rest tag)

selects-Wanted :
    (tags : List String) (name : String) (s : Scenario)
    → selects tags name s ≡ true
    → Wanted tags name s
unfolding selects
selects-Wanted [] name s h = (ground (arith, eq_iff name "", eq_iff s.name name), inl refl)
selects-Wanted (t ∷ tags) name s h = (
  ground (arith, eq_iff name "", eq_iff s.name name),
  inr (any_tag_sound (t ∷ tags) s.tags (ground arith)),
)

Wanted-selects :
    (tags : List String) (name : String) (s : Scenario)
    → Wanted tags name s
    → selects tags name s ≡ true
unfolding selects
Wanted-selects [] name s (n, t) = ground (arith, eq_iff name "", eq_iff s.name name)
Wanted-selects (t ∷ tags) name s (n, inl e) = cc
Wanted-selects (t ∷ tags) name s (n, inr (tag, a, b)) =
    let found = any_tag_complete (t ∷ tags) s.tags tag a b in
    ground (arith, found, eq_iff name "", eq_iff s.name name)

filter_loop-Kept :
    (tags : List String) (name : String) (scenarios : List Scenario)
    → Kept (Wanted tags name) scenarios (filter_loop tags name scenarios)
unfolding filter_loop
filter_loop-Kept tags name [] = none_left
filter_loop-Kept tags name (s ∷ scenarios) = elim (Bool-cases (selects tags name s)) [
  | inl c ↦
      rw (c, filter_loop)
        (keep s scenarios _ (selects-Wanted tags name s c) (filter_loop-Kept tags name scenarios))
  | inr c ↦
      rw (c, filter_loop)
        (omit s scenarios _ (λ w. absurd (ground (arith, Wanted-selects tags name s w)))
          (filter_loop-Kept tags name scenarios))
]

Kept-whole :
    (scenarios : List Scenario) (name : String)
    → name ≡ ""
    → Kept (Wanted [] name) scenarios scenarios
Kept-whole [] name e = none_left
Kept-whole (s ∷ scenarios) name e =
    keep s scenarios scenarios (inl e, inl refl) (Kept-whole scenarios name e)

-- The selection keeps, in their order, exactly the scenarios that have the name, where one is given,
-- and one of the tags, where there are any.
pub filter_scenarios-Kept :
    (scenarios : List Scenario) (tags : List String) (name : String)
    → Kept (Wanted tags name) scenarios (filter_scenarios scenarios tags name)
unfolding filter_scenarios
filter_scenarios-Kept scenarios (t ∷ tags) name =
    let e : (length (t ∷ tags) == 0) ≡ false = ground arith in
    rw (e, filter_scenarios) (filter_loop-Kept (t ∷ tags) name scenarios)
filter_scenarios-Kept scenarios [] name = elim (Bool-cases (str_eq name "")) [
  | inl e ↦ rw (e, filter_scenarios) (Kept-whole scenarios name (ground (arith, eq_iff name "")))
  | inr e ↦ rw (e, filter_scenarios) (filter_loop-Kept [] name scenarios)
]
