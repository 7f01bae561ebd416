-- ===== src/Parser/Order/Kept.antt =====
-- internal/parser/order.go: the steps are put in the order of the source, or keep their order.
use tales.Base.{
  ℕ, eq_iff, List, [], ◌∷◌, ◌++◌, map, length, ◌==◌, none, some, Bool, true, false, ◌≡◌, refl, sym,
  ap, ap₂, ◌∙◌, ◌⊎◌, inl, inr, arith, Bool-cases, Option-cases, append_assoc, append-nil, All,
  subst,
}
use tales.Parser.Order.{
  StepKey, SourceStep, Decoded, same_key, find_step, has_duplicate, set_line, dereference,
  reorder_loop, reorder_steps_by_source,
}

module _ {B : Type 0} where
  abbrev pub keys_of : List (Decoded B) → List StepKey
  keys_of = map (λ s. s.key)

  abbrev pub found : StepKey → List (Decoded B) → Bool
  found key steps = elim (find_step key steps) [ some s ↦ true | none ↦ false ]

  pub set_line-keys :
      (key : StepKey) (line : ℕ) (steps : List (Decoded B))
      → keys_of (set_line key line steps) ≡ keys_of steps
  unfolding set_line
  set_line-keys key line [] = refl
  set_line-keys key line (s ∷ steps) = ground (arith, set_line-keys key line steps)

  found-set_line :
      (k key : StepKey) (line : ℕ) (steps : List (Decoded B))
      → found k (set_line key line steps) ≡ found k steps
  unfolding set_line find_step
  found-set_line k key line [] = refl
  found-set_line k key line (s ∷ steps) = ground (arith, found-set_line k key line steps)

  find_step-key :
      (k : StepKey) (steps : List (Decoded B)) (s : Decoded B)
      → find_step k steps ≡ some s
      → s.key ≡ k
  unfolding find_step
  find_step-key k [] s h = cc
  find_step-key k (t ∷ steps) s h =
      ground
        (arith, eq_iff t.key.provider k.provider, eq_iff t.key.name k.name, find_step-key k steps s)

  -- Every key points to a step.
  abbrev pub AllFound : List StepKey → List (Decoded B) → Type 0
  AllFound [] steps = Unit
  AllFound (k ∷ keys) steps = (found k steps ≡ true) × AllFound keys steps

  pub AllFound-set_line :
      (keys : List StepKey) (key : StepKey) (line : ℕ) (steps : List (Decoded B))
      → AllFound keys steps
      → AllFound keys (set_line key line steps)
  AllFound-set_line [] key line steps h = tt
  AllFound-set_line (k ∷ keys) key line steps h =
      (found-set_line k key line steps ∙ h.0, AllFound-set_line keys key line steps h.1)

  pub AllFound-snoc :
      (keys : List StepKey) (k : StepKey) (steps : List (Decoded B))
      → AllFound keys steps
      → found k steps ≡ true
      → AllFound (keys ++ (k ∷ [])) steps
  AllFound-snoc [] k steps h e = (e, tt)
  AllFound-snoc (x ∷ keys) k steps h e = (h.0, AllFound-snoc keys k steps h.1 e)

  pub dereference-keys :
      (keys : List StepKey) (steps : List (Decoded B))
      → AllFound keys steps
      → keys_of (dereference keys steps) ≡ keys
  dereference-keys [] steps h = refl
  dereference-keys (k ∷ keys) steps h = elim (Option-cases (find_step k steps)) [
    | inl e ↦ absurd (ground (arith, h.0, e))
    | inr (s, e) ↦
        rw (e, dereference)
          (ap₂ (λ (a : StepKey) (b : List StepKey). a ∷ b) (find_step-key k steps s e)
            (dereference-keys keys steps h.1))
  ]

  -- A step without its line.
  abbrev pub blank : Decoded B → StepKey × B
  blank s = (s.key, s.body)

  pub set_line-blank :
      (key : StepKey) (line : ℕ) (steps : List (Decoded B))
      → map blank (set_line key line steps) ≡ map blank steps
  unfolding set_line
  set_line-blank key line [] = refl
  set_line-blank key line (s ∷ steps) = ground (arith, set_line-blank key line steps)

  -- The step is one of the list, with a line of its own.
  abbrev pub Among : List (Decoded B) → Decoded B → Type 0
  Among [] s = ⊥
  Among (t ∷ steps) s = (blank s ≡ blank t) ⊎ Among steps s

  Among-blank :
      (steps steps' : List (Decoded B)) (s : Decoded B)
      → map blank steps ≡ map blank steps'
      → Among steps s
      → Among steps' s
  Among-blank [] steps' s e h = absurd h
  Among-blank (t ∷ steps) [] s e h = cc
  Among-blank (t ∷ steps) (t' ∷ steps') s e (inl h) =
      let head : blank t ≡ blank t' = cc in inl (h ∙ head)
  Among-blank (t ∷ steps) (t' ∷ steps') s e (inr h) =
      let tail : map blank steps ≡ map blank steps' = cc in inr (Among-blank steps steps' s tail h)

  find_step-Among :
      (k : StepKey) (steps : List (Decoded B)) (s : Decoded B)
      → find_step k steps ≡ some s
      → Among steps s
  unfolding find_step
  find_step-Among k [] s h = cc
  find_step-Among k (t ∷ steps) s h = elim (Bool-cases (same_key t.key k)) [
    | inl same ↦ let e : t ≡ s = ground (arith, h, same) in inl (ap blank (sym e))
    | inr other ↦
        let h' : find_step k steps ≡ some s = ground (arith, h, other) in
        inr (find_step-Among k steps s h')
  ]

  pub dereference-none :
      (k : StepKey) (keys : List StepKey) (steps : List (Decoded B))
      → find_step k steps ≡ none
      → dereference (k ∷ keys) steps ≡ dereference keys steps
  dereference-none k keys steps e = rw (e, dereference) refl

  pub dereference-some :
      (k : StepKey) (keys : List StepKey) (steps : List (Decoded B)) (s : Decoded B)
      → find_step k steps ≡ some s
      → dereference (k ∷ keys) steps ≡ s ∷ dereference keys steps
  dereference-some k keys steps s e = rw (e, dereference) refl

  dereference-Among :
      (keys : List StepKey) (steps : List (Decoded B)) → All (Among steps) (dereference keys steps)
  dereference-Among [] steps = tt
  dereference-Among (k ∷ keys) steps = elim (Option-cases (find_step k steps)) [
    | inl e ↦
        subst (All (Among steps)) (sym (dereference-none k keys steps e))
          (dereference-Among keys steps)
    | inr (s, e) ↦
        subst (All (Among steps)) (sym (dereference-some k keys steps s e))
          (find_step-Among k steps s e, dereference-Among keys steps)
  ]

  All-Among :
      (steps steps' rs : List (Decoded B))
      → map blank steps ≡ map blank steps'
      → All (Among steps) rs
      → All (Among steps') rs
  All-Among steps steps' [] e h = tt
  All-Among steps steps' (r ∷ rs) e h =
      (Among-blank steps steps' r e h.0, All-Among steps steps' rs e h.1)

  -- The steps stand in the order of the source, or in their own; only lines have changed.
  abbrev pub Reordered : List (Decoded B) → List StepKey → List (Decoded B) → Type 0
  Reordered steps keys rs =
      ((keys_of rs ≡ keys) × All (Among steps) rs) ⊎ (map blank rs ≡ map blank steps)

  reorder_loop-Reordered :
      (order : List SourceStep) (keys : List StepKey) (steps : List (Decoded B))
      → AllFound keys steps
      → Reordered steps (keys ++ map (λ src. src.key) order) (reorder_loop order keys steps)
  unfolding reorder_loop
  reorder_loop-Reordered [] keys steps h =
      inl (dereference-keys keys steps h ∙ sym (append-nil keys), dereference-Among keys steps)
  reorder_loop-Reordered (src ∷ order) keys steps h =
      elim (Option-cases (find_step src.key steps)) [
        | inl e ↦ rw (e, reorder_loop) (inr refl)
        | inr (s, e) ↦
            let next = set_line src.key src.line steps in
            let here : found src.key steps ≡ true = ground (arith, e) in
            let all =
              AllFound-set_line (keys ++ (src.key ∷ [])) src.key src.line steps
                (AllFound-snoc keys src.key steps h here) in
            rw (e, reorder_loop)
              (elim (reorder_loop-Reordered order (keys ++ (src.key ∷ [])) next all) [
                | inl (k, among) ↦ inl (
                  k ∙ append_assoc keys (src.key ∷ []) (map (λ t. t.key) order),
                  All-Among next steps _ (set_line-blank src.key src.line steps) among,
                )
                | inr same ↦ inr (same ∙ set_line-blank src.key src.line steps)
              ])
      ]

  -- The steps of a body are put in the order of the source, each of them one of those that were
  -- decoded, or they keep their order; nothing but their lines changes.
  pub reorder_steps_by_source-Reordered :
      (steps : List (Decoded B)) (order : List SourceStep)
      → Reordered steps (map (λ src. src.key) order) (reorder_steps_by_source steps order)
  unfolding reorder_steps_by_source
  reorder_steps_by_source-Reordered steps order = elim (Bool-cases (length order == length steps)) [
    | inr other ↦ rw (other, reorder_steps_by_source) (inr refl)
    | inl same ↦ elim (Bool-cases (has_duplicate [] steps)) [
      | inl d ↦ rw (same, reorder_steps_by_source) (rw (d, reorder_steps_by_source) (inr refl))
      | inr d ↦
          rw (same, reorder_steps_by_source)
            (rw (d, reorder_steps_by_source) (reorder_loop-Reordered order [] steps tt))
    ]
  ]
