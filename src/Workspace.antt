-- ===== src/Workspace.antt =====
-- internal/workspace/resolver.go: the resolution of paths under the roots of a scenario. A path is what
-- stands between its slashes, and the roots are absolute. `eval_symlinks` is filepath.EvalSymlinks, of
-- which an error is none.
mod Tests
pub mod Clean
pub mod Contained
use tales.Base.{
  ℕ, zero, suc, String, str_eq, List, [], ◌∷◌, ◌++◌, map, Option, none, some, Bool, true, false,
  not, ◌||◌, if◌then◌else◌, length, take, drop, Result, ok, err,
}

pub record FilePath : Type 0 where
  pub absolute : Bool
  pub elements : List String

-- The elements of a stack, the last one first, before others.
unfoldable pub unwind : List String → List String → List String
unwind [] elements = elements
unwind (x ∷ stack) elements = unwind stack (x ∷ elements)

-- The elements without the last one.
abbrev pub pop : List String → List String
pop [] = []
pop (x ∷ stack) = stack

-- The loop of filepath.Clean for an absolute path, with the elements that stay as a stack.
unfoldable pub clean_loop : List String → List String → List String
clean_loop stack [] = unwind stack []
clean_loop stack (x ∷ elements) =
    let skipped = clean_loop stack elements in
    let popped = clean_loop (pop stack) elements in
    let pushed = clean_loop (x ∷ stack) elements in
    if str_eq x "" || str_eq x "." then skipped else if str_eq x ".." then popped else pushed

-- filepath.Clean of an absolute path.
unfoldable pub clean : List String → List String
clean elements = clean_loop [] elements

-- cleanAbs, of which filepath.Join cleans what it joins.
unfoldable pub clean_abs : List String → FilePath → List String
clean_abs base p = if p.absolute then clean p.elements else clean (base ++ p.elements)

-- The part of filepath.Rel after the cleaning; no elements stand for ".".
unfoldable pub rel_elements : List String → List String → List String
rel_elements [] target = target
rel_elements (b ∷ base) [] = map (λ x. "..") (b ∷ base)
rel_elements (b ∷ base) (t ∷ target) =
    let rest = rel_elements base target in
    if str_eq b t then rest else map (λ x. "..") (b ∷ base) ++ (t ∷ target)

-- rel == ".." || strings.HasPrefix(rel, "../")
abbrev pub goes_up : List String → Bool
goes_up [] = false
goes_up (x ∷ rel) = str_eq x ".."

unfoldable pub rel_inside : List String → List String → Bool
rel_inside base target = not (goes_up (rel_elements (clean base) (clean target)))

pub record Resolver : Type 0 where
  pub workdir : List String
  pub project_dir : Option (List String)

module _ (eval_symlinks : List String → Option (List String)) where
  -- The loop of resolveExisting, where `n` elements of the path are left in front of the suffix.
  unfoldable pub resolve_loop : ℕ → List String → List String
  resolve_loop zero p = elim (eval_symlinks []) [ some resolved ↦ clean (resolved ++ p) | none ↦ p ]
  resolve_loop (suc n) p = elim (eval_symlinks (take (suc n) p)) [
    | some resolved ↦ clean (resolved ++ drop (suc n) p)
    | none ↦ resolve_loop n p
  ]

  unfoldable pub resolve_existing : List String → List String
  resolve_existing p = resolve_loop (length (clean p)) (clean p)

  unfoldable pub contained : List String → List String → Bool
  contained base target =
      if not (rel_inside base target)
      then false
      else rel_inside (resolve_existing base) (resolve_existing target)

  -- The error names the path that escapes.
  unfoldable pub resolve_output : Resolver → FilePath → Result FilePath (List String)
  resolve_output r p =
      let target = clean_abs r.workdir p in if contained r.workdir target then ok target else err p

  -- The turn of the loop on the project directory, which is skipped where there is none.
  unfoldable pub in_project : Resolver → List String → Bool
  in_project r target = elim r.project_dir [ none ↦ false | some root ↦ contained root target ]

  unfoldable pub resolve_input : Resolver → FilePath → Result FilePath (List String)
  resolve_input r p =
      let target = clean_abs r.workdir p in
      if contained r.workdir target || in_project r target then ok target else err p
