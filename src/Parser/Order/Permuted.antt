-- ===== src/Parser/Order/Permuted.antt =====
-- internal/parser/order.go: no step is lost or doubled where the source has the steps that were decoded.
use mathlib.Core.List.{Permᴰ}
use mathlib.Core.List.Permᴰ.{nil, cons, swap, trans}
use mathlib.Core.List.Permᴰ
use tales.Base.{
  List, [], ◌∷◌, ◌++◌, map, length, ◌==◌, Option, none, some, true, false, ◌≡◌, refl, sym, ap, ap₂,
  ◌∙◌, ◌⊎◌, inl, inr, arith, Bool-cases, Option-cases, append_assoc, append-nil, subst, false≢true,
}
use tales.Parser.Order.{
  StepKey, SourceStep, Decoded, find_step, has_duplicate, set_line, dereference, reorder_loop,
  reorder_steps_by_source,
}
use tales.Parser.Order.Distinct.{
  key_in, Distinct, same_key_comm, same_key_self, Unseen-nil, has_duplicate-Distinct,
  Distinct-has_duplicate,
}
use tales.Parser.Order.Kept.{
  keys_of, found, blank, AllFound, AllFound-set_line, set_line-blank, set_line-keys,
  dereference-keys, dereference-some,
}

Perm-length : {A : Type 0} → (xs ys : List A) → Permᴰ xs ys → length xs ≡ length ys
Perm-length _ _ nil = refl
Perm-length _ _ (cons {l₁ = xs} {l₂ = ys} e p) = omega (arith, Perm-length xs ys p)
Perm-length _ _ (swap e e') = refl
Perm-length xs ys (trans {l₂ = zs} p q) = Perm-length xs zs p ∙ Perm-length zs ys q

length-map : {A C : Type 0} → (f : A → C) (xs : List A) → length (map f xs) ≡ length xs
length-map f [] = refl
length-map f (x ∷ xs) = omega (arith, length-map f xs)

module _ {B : Type 0} where
  found_first : (s : Decoded B) (steps : List (Decoded B)) → find_step s.key (s ∷ steps) ≡ some s
  unfolding find_step
  found_first s steps = ground (arith, same_key_self s.key)

  AllFound-cons :
      (ks : List StepKey) (s : Decoded B) (steps : List (Decoded B))
      → AllFound ks steps
      → AllFound ks (s ∷ steps)
  unfolding find_step
  AllFound-cons [] s steps h = tt
  AllFound-cons (k ∷ ks) s steps (h, all) = (ground (arith, h), AllFound-cons ks s steps all)

  AllFound-keys_of : (steps : List (Decoded B)) → AllFound (keys_of steps) steps
  AllFound-keys_of [] = tt
  AllFound-keys_of (s ∷ steps) =
      let first = found_first s steps in
      (ground (arith, first), AllFound-cons (keys_of steps) s steps (AllFound-keys_of steps))

  AllFound-Perm :
      (ks ls : List StepKey) (steps : List (Decoded B))
      → Permᴰ ks ls
      → AllFound ks steps
      → AllFound ls steps
  AllFound-Perm _ _ steps nil h = tt
  AllFound-Perm _ _ steps (cons {l₁ = ks} {l₂ = ls} e p) (h, all) =
      (subst (λ k. found k steps ≡ true) e h, AllFound-Perm ks ls steps p all)
  AllFound-Perm _ _ steps (swap e e') (h, (h', all)) =
      (subst (λ k. found k steps ≡ true) e' h', (subst (λ k. found k steps ≡ true) e h, all))
  AllFound-Perm ks ls steps (trans {l₂ = ms} p q) h =
      AllFound-Perm ms ls steps q (AllFound-Perm ks ms steps p h)

  -- The steps with the result of one lookup before them.
  abbrev prepend : Option (Decoded B) → List (Decoded B) → List (Decoded B)
  prepend none steps = steps
  prepend (some s) steps = s ∷ steps

  dereference-prepend :
      (k : StepKey) (ks : List StepKey) (steps : List (Decoded B))
      → dereference (k ∷ ks) steps ≡ prepend (find_step k steps) (dereference ks steps)
  dereference-prepend k ks steps = elim (Option-cases (find_step k steps)) [
    | inl e ↦ rw (e, dereference) refl
    | inr (s, e) ↦ rw (e, dereference) refl
  ]

  prepend-Perm :
      (o : Option (Decoded B)) (xs ys : List (Decoded B))
      → Permᴰ xs ys
      → Permᴰ (prepend o xs) (prepend o ys)
  prepend-Perm none xs ys p = p
  prepend-Perm (some s) xs ys p = cons refl p

  prepend-swap :
      (o o' : Option (Decoded B)) (xs : List (Decoded B))
      → Permᴰ (prepend o (prepend o' xs)) (prepend o' (prepend o xs))
  prepend-swap none none xs = Permᴰ.refl xs
  prepend-swap none (some t) xs = Permᴰ.refl (t ∷ xs)
  prepend-swap (some s) none xs = Permᴰ.refl (s ∷ xs)
  prepend-swap (some s) (some t) xs = swap refl refl

  dereference-Perm :
      (ks ls : List StepKey) (steps : List (Decoded B))
      → Permᴰ ks ls
      → Permᴰ (dereference ks steps) (dereference ls steps)
  dereference-Perm _ _ steps nil = nil
  dereference-Perm _ _ steps (cons {a = k} {b = l} {l₁ = ks} {l₂ = ls} e p) =
      subst (λ c. Permᴰ (dereference (k ∷ ks) steps) (dereference (c ∷ ls) steps)) e
        (rw (dereference-prepend k ks steps, dereference-prepend k ls steps)
          (prepend-Perm (find_step k steps) _ _ (dereference-Perm ks ls steps p)))
  dereference-Perm _ _ steps (swap {a = a} {b = b} {a' = c} {b' = d} {l = ks} e e') =
      subst (λ x. Permᴰ (dereference (a ∷ b ∷ ks) steps) (dereference (x ∷ d ∷ ks) steps)) e'
        (subst (λ x. Permᴰ (dereference (a ∷ b ∷ ks) steps) (dereference (b ∷ x ∷ ks) steps)) e
          (rw
            (
              dereference-prepend a (b ∷ ks) steps,
              dereference-prepend b ks steps,
              dereference-prepend b (a ∷ ks) steps,
              dereference-prepend a ks steps,
            )
            (prepend-swap (find_step a steps) (find_step b steps) (dereference ks steps))))
  dereference-Perm ks ls steps (trans {l₂ = ms} p q) =
      trans (dereference-Perm ks ms steps p) (dereference-Perm ms ls steps q)

  dereference-skip :
      (ks : List StepKey) (s : Decoded B) (steps : List (Decoded B))
      → key_in s.key ks ≡ false
      → dereference ks (s ∷ steps) ≡ dereference ks steps
  unfolding find_step
  dereference-skip [] s steps h = refl
  dereference-skip (k ∷ ks) s steps h =
      let skipped : find_step k (s ∷ steps) ≡ find_step k steps =
        ground (arith, h, same_key_comm s.key k) in
      dereference-prepend k ks (s ∷ steps)
      ∙ (ap₂ prepend skipped (dereference-skip ks s steps (ground (arith, h)))
          ∙ sym (dereference-prepend k ks steps))

  dereference-keys_of :
      (steps : List (Decoded B))
      → Distinct (keys_of steps)
      → dereference (keys_of steps) steps ≡ steps
  dereference-keys_of [] d = refl
  dereference-keys_of (s ∷ steps) (free, d) =
      dereference-some s.key (keys_of steps) (s ∷ steps) s (found_first s steps)
      ∙ ap (λ t. s ∷ t)
          (dereference-skip (keys_of steps) s steps free ∙ dereference-keys_of steps d)

  -- Where every key points to a step, the loop ends, and only lines have changed.
  reorder_loop-AllFound :
      (order : List SourceStep) (keys : List StepKey) (steps : List (Decoded B))
      → AllFound (map (λ src. src.key) order) steps
      → (lined : List (Decoded B)) × (map blank lined ≡ map blank steps)
        × (keys_of lined ≡ keys_of steps)
        × (reorder_loop order keys steps ≡ dereference (keys ++ map (λ src. src.key) order) lined)
  unfolding reorder_loop
  reorder_loop-AllFound [] keys steps h =
      (steps, refl, refl, ap (λ k. dereference k steps) (sym (append-nil keys)))
  reorder_loop-AllFound (src ∷ order) keys steps (h, all) =
      let next = set_line src.key src.line steps in
      let (lined, same, kept, run) =
        reorder_loop-AllFound order (keys ++ (src.key ∷ [])) next
          (AllFound-set_line (map (λ t. t.key) order) src.key src.line steps all) in
      (
        lined,
        same ∙ set_line-blank src.key src.line steps,
        kept ∙ set_line-keys src.key src.line steps,
        elim (Option-cases (find_step src.key steps)) [
          | inl e ↦ absurd (ground (arith, h, e))
          | inr (s, e) ↦
              rw (e, reorder_loop)
                (run
                  ∙ ap (λ k. dereference k lined)
                      (append_assoc keys (src.key ∷ []) (map (λ t. t.key) order)))
        ],
      )

  -- The steps are those that were decoded, each as often, but for their lines; they stand in the order
  -- of the source, or two of them have the same key and nothing is changed.
  abbrev pub Permuted : List (Decoded B) → List SourceStep → List (Decoded B) → Type 0
  Permuted steps order rs =
      Permᴰ (map blank steps) (map blank rs)
      × ((keys_of rs ≡ map (λ src. src.key) order)
          ⊎ ((Distinct (keys_of steps) → ⊥) × (rs ≡ steps)))

  reorder_loop-Permuted :
      (steps : List (Decoded B)) (order : List SourceStep)
      → Permᴰ (keys_of steps) (map (λ src. src.key) order)
      → Distinct (keys_of steps)
      → Permuted steps order (reorder_loop order [] steps)
  reorder_loop-Permuted steps order p distinct =
      let keys = map (λ src. src.key) order in
      let all = AllFound-Perm (keys_of steps) keys steps p (AllFound-keys_of steps) in
      let (lined, same, kept, run) = reorder_loop-AllFound order [] steps all in
      let distinct' = subst Distinct (sym kept) distinct in
      let moved = dereference-Perm (keys_of steps) keys lined p in
      let whole : dereference (keys_of steps) lined ≡ lined =
        ap (λ k. dereference k lined) (sym kept) ∙ dereference-keys_of lined distinct' in
      let blanks = Permᴰ.map blank (subst (λ l. Permᴰ l (dereference keys lined)) whole moved) in
      let found_all =
        AllFound-Perm (keys_of steps) keys lined p
          (subst (λ k. AllFound k lined) kept (AllFound-keys_of lined)) in
      subst (Permuted steps order) (sym run) (
        subst (λ l. Permᴰ l (map blank (dereference keys lined))) same blanks,
        inl (dereference-keys keys lined found_all),
      )

  -- Where the source has the keys of the decoded steps, each as often and in any order, no step is
  -- lost or doubled, and nothing of a step but its line changes; the steps are put in the order of the
  -- source, except that if two of them have the same key they are returned as they are.
  pub reorder_steps_by_source-Permuted :
      (steps : List (Decoded B)) (order : List SourceStep)
      → Permᴰ (keys_of steps) (map (λ src. src.key) order)
      → Permuted steps order (reorder_steps_by_source steps order)
  unfolding reorder_steps_by_source
  reorder_steps_by_source-Permuted steps order p =
      let count : (length order == length steps) ≡ true = ground (
        arith,
        Perm-length (keys_of steps) (map (λ src. src.key) order) p,
        length-map (λ (s : Decoded B). s.key) steps,
        length-map (λ (src : SourceStep). src.key) order,
      ) in
      elim (Bool-cases (has_duplicate [] steps)) [
        | inl twice ↦
            rw (count, reorder_steps_by_source)
              (rw (twice, reorder_steps_by_source)
                (
                  Permᴰ.refl (map blank steps),
                  inr (
                    λ d.
                        false≢true
                          (sym (Distinct-has_duplicate [] steps (Unseen-nil steps) d) ∙ twice),
                    refl,
                  ),
                ))
        | inr single ↦
            rw (count, reorder_steps_by_source)
              (rw (single, reorder_steps_by_source)
                (reorder_loop-Permuted steps order p (has_duplicate-Distinct [] steps single).1))
      ]
