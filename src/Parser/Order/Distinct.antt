-- ===== src/Parser/Order/Distinct.antt =====
-- internal/parser/order.go: what the loop that fills byKey rules out.
use tales.Base.{
  eq_iff, List, [], ◌∷◌, Bool, true, false, ◌||◌, ◌≡◌, refl, inl, inr, arith, Option-cases, All,
}
use tales.Parser.Order.{StepKey, Decoded, same_key, find_step, has_duplicate}
use tales.Parser.Order.Kept.{keys_of, found}

abbrev pub key_in : StepKey → List StepKey → Bool
key_in k [] = false
key_in k (l ∷ ls) = same_key l k || key_in k ls

-- No key stands there twice.
abbrev pub Distinct : List StepKey → Type 0
Distinct [] = Unit
Distinct (k ∷ ks) = (key_in k ks ≡ false) × Distinct ks

pub same_key_comm : (a b : StepKey) → same_key a b ≡ same_key b a
same_key_comm a b = ground (
  arith,
  eq_iff a.provider b.provider,
  eq_iff a.name b.name,
  eq_iff b.provider a.provider,
  eq_iff b.name a.name,
)

pub same_key_self : (a : StepKey) → same_key a a ≡ true
same_key_self a = ground (arith, eq_iff a.provider a.provider, eq_iff a.name a.name)

module _ {B : Type 0} where
  pub found-key_in :
      (k : StepKey) (steps : List (Decoded B)) → found k steps ≡ key_in k (keys_of steps)
  unfolding find_step
  found-key_in k [] = refl
  found-key_in k (s ∷ steps) = ground (arith, found-key_in k steps)

  -- None of the keys of the steps is that of one of `seen`.
  abbrev pub Unseen : List (Decoded B) → List (Decoded B) → Type 0
  Unseen seen steps = All (λ s. found s.key seen ≡ false) steps

  Unseen-cons :
      (s : Decoded B) (seen steps : List (Decoded B))
      → Unseen (s ∷ seen) steps
      → Unseen seen steps × (key_in s.key (keys_of steps) ≡ false)
  unfolding find_step
  Unseen-cons s seen [] h = (tt, refl)
  Unseen-cons s seen (t ∷ steps) (h, all) =
      let (unseen, free) = Unseen-cons s seen steps all in
      ((ground (arith, h), unseen), ground (arith, h, free, same_key_comm s.key t.key))

  Unseen-snoc :
      (s : Decoded B) (seen steps : List (Decoded B))
      → Unseen seen steps
      → key_in s.key (keys_of steps) ≡ false
      → Unseen (s ∷ seen) steps
  unfolding find_step
  Unseen-snoc s seen [] h free = tt
  Unseen-snoc s seen (t ∷ steps) (h, all) free = (
    ground (arith, h, free, same_key_comm s.key t.key),
    Unseen-snoc s seen steps all (ground (arith, free)),
  )

  pub Unseen-nil : (steps : List (Decoded B)) → Unseen [] steps
  unfolding find_step
  Unseen-nil [] = tt
  Unseen-nil (s ∷ steps) = (refl, Unseen-nil steps)

  pub has_duplicate-Distinct :
      (seen steps : List (Decoded B))
      → has_duplicate seen steps ≡ false
      → Unseen seen steps × Distinct (keys_of steps)
  unfolding has_duplicate
  has_duplicate-Distinct seen [] h = (tt, tt)
  has_duplicate-Distinct seen (s ∷ steps) h = elim (Option-cases (find_step s.key seen)) [
    | inr (t, there) ↦ absurd (ground (arith, h, there))
    | inl fresh ↦
        let (all, distinct) = has_duplicate-Distinct (s ∷ seen) steps (ground (arith, h, fresh)) in
        let (unseen, free) = Unseen-cons s seen steps all in
        ((ground (arith, fresh), unseen), (free, distinct))
  ]

  pub Distinct-has_duplicate :
      (seen steps : List (Decoded B))
      → Unseen seen steps
      → Distinct (keys_of steps)
      → has_duplicate seen steps ≡ false
  unfolding has_duplicate
  Distinct-has_duplicate seen [] h d = refl
  Distinct-has_duplicate seen (s ∷ steps) (h, all) (free, d) =
      ground
        (arith, h, Distinct-has_duplicate (s ∷ seen) steps (Unseen-snoc s seen steps all free) d)
