-- ===== src/Workspace/Clean.antt =====
-- internal/workspace/resolver.go: clean paths, and when one lies in another.
use tales.Base.{
  String, str_eq, eq_iff, List, [], ◌∷◌, ◌++◌, true, false, ◌||◌, ◌≡◌, ◌↔◌, refl, sym, ap, ◌∙◌,
  subst, arith, All, Bool-cases, inl, inr,
}
use tales.Workspace.{unwind, pop, clean_loop, clean, rel_elements, goes_up, rel_inside}

-- The name of a directory or a file.
abbrev pub Proper : String → Type 0
Proper x = ((str_eq x "" || str_eq x ".") ≡ false) × (str_eq x ".." ≡ false)

unwind-Proper :
    (stack elements : List String)
    → All Proper stack
    → All Proper elements
    → All Proper (unwind stack elements)
unfolding unwind
unwind-Proper [] elements hs he = he
unwind-Proper (x ∷ stack) elements (hx, hs) he = unwind-Proper stack (x ∷ elements) hs (hx, he)

pop-Proper : (stack : List String) → All Proper stack → All Proper (pop stack)
pop-Proper [] h = tt
pop-Proper (x ∷ stack) h = h.1

clean_loop-Proper :
    (stack elements : List String) → All Proper stack → All Proper (clean_loop stack elements)
unfolding clean_loop
clean_loop-Proper stack [] h = unwind-Proper stack [] h tt
clean_loop-Proper stack (x ∷ elements) h = elim (Bool-cases (str_eq x "" || str_eq x ".")) [
  | inl skip ↦ rw skip (clean_loop-Proper stack elements h)
  | inr kept ↦ elim (Bool-cases (str_eq x "..")) [
    | inl up ↦ rw kept (rw up (clean_loop-Proper (pop stack) elements (pop-Proper stack h)))
    | inr name ↦ rw kept (rw name (clean_loop-Proper (x ∷ stack) elements ((kept, name), h)))
  ]
]

pub clean-Proper : (elements : List String) → All Proper (clean elements)
unfolding clean
clean-Proper elements = clean_loop-Proper [] elements tt

clean_loop-unwind :
    (stack elements : List String)
    → All Proper elements
    → clean_loop stack elements ≡ unwind stack elements
unfolding clean_loop unwind
clean_loop-unwind stack [] h = refl
clean_loop-unwind stack (x ∷ elements) ((kept, name), h) =
    rw kept (rw name (clean_loop-unwind (x ∷ stack) elements h))

-- A clean path stays as it is.
pub clean_idem : (elements : List String) → All Proper elements → clean elements ≡ elements
unfolding clean unwind
clean_idem elements h = clean_loop-unwind [] elements h

rel_elements-inside :
    (base target : List String)
    → goes_up (rel_elements base target) ≡ false
    → (rest : List String) × (target ≡ base ++ rest)
unfolding rel_elements
rel_elements-inside [] target h = (target, refl)
rel_elements-inside (b ∷ base) [] h = absurd (cc)
rel_elements-inside (b ∷ base) (t ∷ target) h = elim (Bool-cases (str_eq b t)) [
  | inl same ↦
      let (rest, e) = rel_elements-inside base target (ground (arith, h, same)) in
      (rest, ap (λ l. t ∷ l) e ∙ ap (λ x. x ∷ (base ++ rest)) (sym ((eq_iff b t).0 same)))
  | inr other ↦ absurd (ground (arith, h, other))
]

rel_elements-rest : (base rest : List String) → rel_elements base (base ++ rest) ≡ rest
unfolding rel_elements
rel_elements-rest [] rest = refl
rel_elements-rest (b ∷ base) rest = ground (arith, (eq_iff b b).1 refl, rel_elements-rest base rest)

rest-Proper : (base rest : List String) → All Proper (base ++ rest) → All Proper rest
rest-Proper [] rest h = h
rest-Proper (b ∷ base) rest h = rest-Proper base rest h.1

goes_up-Proper : (rest : List String) → All Proper rest → goes_up rest ≡ false
goes_up-Proper [] h = refl
goes_up-Proper (x ∷ rest) h = h.0.1

-- The path starts with all the elements of the other one, after the cleaning of both.
abbrev pub Under : List String → List String → Type 0
Under base target = (rest : List String) × (clean target ≡ clean base ++ rest)

pub rel_inside-Under :
    (base target : List String) → (rel_inside base target ≡ true) ↔ Under base target
unfolding rel_inside
rel_inside-Under base target = (
  λ h. rel_elements-inside (clean base) (clean target) (ground (arith, h)),
  λ (rest, e).
      let tail : All Proper rest =
        rest-Proper (clean base) rest (subst (All Proper) e (clean-Proper target)) in
      let up : goes_up (rel_elements (clean base) (clean target)) ≡ false =
        ap (λ t. goes_up (rel_elements (clean base) t)) e
        ∙ (ap goes_up (rel_elements-rest (clean base) rest) ∙ goes_up-Proper rest tail) in
      ground (arith, up),
)
