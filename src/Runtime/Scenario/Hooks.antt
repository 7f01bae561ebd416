-- ===== src/Runtime/Scenario/Hooks.antt =====
-- internal/runtime/runner.go: which hooks have begun when runScenario ends them.
use tales.Base.{
  String, List, [], ◌∷◌, ◌++◌, Option, none, some, ◌≡◌, refl, ap, sym, ◌∙◌, append_assoc,
  append-nil, subst, Option-cases, inl, inr,
}
use tales.Runtime.Scenario.{ScenarioCalls, begin_hooks}

abbrev pub backwards : {H : Type 0} → List H → List H
backwards [] = []
backwards (h ∷ hs) = backwards hs ++ (h ∷ [])

module _ {W S H : Type 0} (calls : ScenarioCalls W S H) where
  -- The hooks begin without an error, from one world to another.
  pub data Begin : List H → W → W → Type 0 where
    done : (w : W) → Begin [] w w
    next :
        (h : H) (hs : List H) (w w' : W)
        → (calls.begin h w).0 ≡ none
        → Begin hs (calls.begin h w).1 w'
        → Begin (h ∷ hs) w w'

  -- How the hooks begin: all of them, or those before the first that fails. They are listed from
  -- the last to the first.
  pub data Begun : List H → W → List H × Option String × W → Type 0 where
    whole :
        (hooks : List H) (w w' : W) → Begin hooks w w' → Begun hooks w (backwards hooks, none, w')
    stopped :
        (pre post : List H) (h : H) (message : String) (w w' : W)
        → Begin pre w w'
        → (calls.begin h w').0 ≡ some message
        → Begun (pre ++ (h ∷ post)) w (backwards pre, some message, (calls.begin h w').1)

  -- Behind `began`.
  after : List H → List H × Option String × W → List H × Option String × W
  after began (found, message, w) = (found ++ began, message, w)

  Begun-cons :
      (h : H) (hooks began : List H) (w : W) (out : List H × Option String × W)
      → (calls.begin h w).0 ≡ none
      → Begun hooks (calls.begin h w).1 out
      → (out' : List H × Option String × W) × (after (h ∷ began) out ≡ after began out')
        × Begun (h ∷ hooks) w out'
  unfolding after
  Begun-cons h hooks began w out e (whole _ _ w' b) = (
    (backwards (h ∷ hooks), none, w'),
    ap (λ t. (t, none, w')) (sym (append_assoc (backwards hooks) (h ∷ []) began)),
    whole (h ∷ hooks) w w' (next h hooks w w' e b),
  )
  Begun-cons h hooks began w out e (stopped pre post h' message _ w' b e') = (
    (backwards (h ∷ pre), some message, (calls.begin h' w').1),
    ap (λ t. (t, some message, (calls.begin h' w').1))
        (sym (append_assoc (backwards pre) (h ∷ []) began)),
    stopped (h ∷ pre) post h' message w w' (next h pre w w' e b) e',
  )

  begin_hooks_from :
      (hooks began : List H) (w : W)
      → (out : List H × Option String × W) × (begin_hooks calls hooks began w ≡ after began out)
        × Begun hooks w out
  unfolding begin_hooks after
  begin_hooks_from [] began w = (([], none, w), refl, whole [] w w (done w))
  begin_hooks_from (h ∷ hooks) began w = elim (Option-cases (calls.begin h w).0) [
    | inl fine ↦
        let (out, e, b) = begin_hooks_from hooks (h ∷ began) (calls.begin h w).1 in
        let (out', e', b') = Begun-cons h hooks began w out fine b in
        (out', rw (fine, begin_hooks) (e ∙ e'), b')
    | inr (message, e) ↦ (
      ([], some message, (calls.begin h w).1),
      rw (e, begin_hooks) refl,
      stopped [] hooks h message w w (done w) e,
    )
  ]

  -- The hooks that runScenario ends are those that have begun without an error, the last one first:
  -- all of them, or those before the first that fails.
  pub begin_hooks_lem : (hooks : List H) (w : W) → Begun hooks w (begin_hooks calls hooks [] w)
  unfolding after
  begin_hooks_lem hooks w =
      let ((found, message, w'), e, b) = begin_hooks_from hooks [] w in
      subst (Begun hooks w) (sym (e ∙ ap (λ t. (t, message, w')) (append-nil found))) b
