-- ===== src/Parser/Order.antt =====
-- internal/parser/order.go: reorderStepsBySource. The steps are pointers in the source, so that the
-- line that it sets stays set where it returns the steps as they are; here the steps with their
-- lines are passed on.
pub mod Kept
pub mod Distinct
pub mod Permuted
use tales.Base.{
  ℕ, String, str_eq, List, [], ◌∷◌, ◌++◌, map, length, ◌==◌, ltb, Option, none, some, Bool, true,
  false, ◌&&◌, not, if◌then◌else◌,
}

-- stepKey
pub record StepKey : Type 0 where
  pub provider : String
  pub name : String

pub record SourceStep : Type 0 where
  pub key : StepKey
  pub line : ℕ

-- What the function reads and writes of a step; `body` stands for the rest.
pub record Decoded (B : Type 0) : Type 0 where
  pub key : StepKey
  pub line : ℕ
  pub body : B

abbrev pub same_key : StepKey → StepKey → Bool
same_key a b = str_eq a.provider b.provider && str_eq a.name b.name

module _ {B : Type 0} where
  -- The lookup in byKey.
  unfoldable pub find_step : StepKey → List (Decoded B) → Option (Decoded B)
  find_step key [] = none
  find_step key (s ∷ steps) =
      let rest = find_step key steps in if same_key s.key key then some s else rest

  -- The loop that fills byKey stops at a key that is there already.
  unfoldable pub has_duplicate : List (Decoded B) → List (Decoded B) → Bool
  has_duplicate seen [] = false
  has_duplicate seen (s ∷ steps) =
      let rest = has_duplicate (s ∷ seen) steps in
      elim (find_step s.key seen) [ some t ↦ true | none ↦ rest ]

  -- step.Line = src.line, for the step that the key points to.
  unfoldable pub set_line : StepKey → ℕ → List (Decoded B) → List (Decoded B)
  set_line key line [] = []
  set_line key line (s ∷ steps) =
      (if same_key s.key key && ltb 0 line then record s { line = line } else s)
      ∷ set_line key line steps

  -- The pointers that are appended to `reordered`, as keys.
  abbrev pub dereference : List StepKey → List (Decoded B) → List (Decoded B)
  dereference [] steps = []
  dereference (key ∷ keys) steps = elim (find_step key steps) [
    | some s ↦ s ∷ dereference keys steps
    | none ↦ dereference keys steps
  ]

  unfoldable pub reorder_loop : List SourceStep → List StepKey → List (Decoded B) → List (Decoded B)
  reorder_loop [] keys steps = dereference keys steps
  reorder_loop (src ∷ order) keys steps = elim (find_step src.key steps) [
    | none ↦ steps
    | some s ↦ reorder_loop order (keys ++ (src.key ∷ [])) (set_line src.key src.line steps)
  ]

  unfoldable pub reorder_steps_by_source : List (Decoded B) → List SourceStep → List (Decoded B)
  reorder_steps_by_source steps order =
      if not (length order == length steps)
      then steps
      else if has_duplicate [] steps
      then steps
      else reorder_loop order [] steps
