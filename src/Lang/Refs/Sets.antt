-- ===== src/Lang/Refs/Sets.antt =====
-- internal/lang/refs.go: which names the sets of references hold.
use tales.Base.{
  Option, none, some, List, [], ◌∷◌, String, str_eq, Bool, false, ◌||◌, contains, insert,
  contains-insert, ◌≡◌, refl, arith,
}
use tales.Model.Expression.{Expression}
use tales.Model.Step.{Step}
use tales.Lang.Refs.{
  Traversal, root_attr, add_ref, root_attr_loop, insert_all, find_step_refs, step_expressions,
  collect_all, dependency_set,
}

abbrev pub is_name : String → Option String → Bool
is_name a none = false
is_name a (some x) = str_eq x a

-- Some traversal starts with the root and the attribute.
abbrev pub has_ref : String → String → List Traversal → Bool
has_ref name a [] = false
has_ref name a (t ∷ ts) = is_name a (root_attr name t) || has_ref name a ts

contains-add_ref :
    (a : String) (refs : List String) (o : Option String)
    → contains a (add_ref refs o) ≡ (is_name a o || contains a refs)
contains-add_ref a refs none = refl
contains-add_ref a refs (some x) = contains-insert a x refs

pub contains-root_attr_loop :
    (name a : String) (ts : List Traversal) (refs : List String)
    → contains a (root_attr_loop name ts refs) ≡ (has_ref name a ts || contains a refs)
unfolding root_attr_loop
contains-root_attr_loop name a [] refs = refl
contains-root_attr_loop name a (t ∷ ts) refs = ground (
  arith,
  contains-root_attr_loop name a ts (add_ref refs (root_attr name t)),
  contains-add_ref a refs (root_attr name t),
)

pub contains-insert_all :
    (a : String) (xs s : List String)
    → contains a (insert_all xs s) ≡ (contains a xs || contains a s)
unfolding insert_all contains
contains-insert_all a [] s = refl
contains-insert_all a (x ∷ xs) s =
    ground (arith, contains-insert_all a xs (insert x s), contains-insert a x s)

module _ {E : Type 0} (variables : E → List Traversal) where
  -- The name is referred to by the expression as result.<name>.
  abbrev pub refers : String → Expression E → Bool
  refers a none = false
  refers a (some e) = has_ref "result" a (variables e)

  abbrev pub some_refers : String → List (Expression E) → Bool
  some_refers a [] = false
  some_refers a (e ∷ es) = refers a e || some_refers a es

  contains-find_step_refs :
      (a : String) (e : Expression E) → contains a (find_step_refs variables e) ≡ refers a e
  unfolding find_step_refs contains
  contains-find_step_refs a none = refl
  contains-find_step_refs a (some e) =
      ground (arith, contains-root_attr_loop "result" a (variables e) [])

  contains-collect_all :
      (a : String) (es : List (Expression E)) (deps : List String)
      → contains a (collect_all variables es deps) ≡ (some_refers a es || contains a deps)
  unfolding collect_all
  contains-collect_all a [] deps = refl
  contains-collect_all a (e ∷ es) deps = ground (
    arith,
    contains-collect_all a es (insert_all (find_step_refs variables e) deps),
    contains-insert_all a (find_step_refs variables e) deps,
    contains-find_step_refs a e,
  )

  -- The set of dependencies holds what depends_on names and what an expression refers to.
  pub contains-dependency_set :
      (a : String) (step : Step E)
      → contains a (dependency_set variables step)
        ≡ (contains a step.depends_on || some_refers a (step_expressions variables step))
  unfolding dependency_set contains
  contains-dependency_set a step = ground (
    arith,
    contains-collect_all a (step_expressions variables step) (insert_all step.depends_on []),
    contains-insert_all a step.depends_on [],
  )
