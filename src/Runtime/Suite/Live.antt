-- ===== src/Runtime/Suite/Live.antt =====
-- internal/runtime/runner.go: the goroutines of the scenarios come to an end.
use tales.Base.{
  ℕ, zero, suc, ◌<◌, List, [], ◌∷◌, ◌++◌, Option, ◌≡◌, refl, subst, ◌⊎◌, inl, inr, arith,
  append_assoc,
}
use tales.Runtime.Suite.{
  effective_parallel, Worker, waiting, started, stored, noted, ended, Run, launch_run, RunMoves,
  acquire, store, note, release, RunReaches, rank, holding, total, AllEnded, total-replace,
}
use tales.Runtime.Suite.Bound.{RunReaches-places}

module _ {S R E : Type 0} (Returns : S → R → Option E → Type 0) where
  -- Every step brings the end nearer.
  Moves-rank :
      (a b : Run S R E) → RunMoves Returns a b → total rank b.workers < total rank a.workers
  Moves-rank a b (acquire pre post s n first) =
      omega (arith, total-replace rank pre post (waiting s) (started s))
  Moves-rank a b (store pre post s r e n first returns) =
      omega (arith, total-replace rank pre post (started s) (stored s r e))
  Moves-rank a b (note pre post s r e n first) =
      omega (arith, total-replace rank pre post (stored s r e) (noted s r e))
  Moves-rank a b (release pre post s r e n first) =
      omega (arith, total-replace rank pre post (noted s r e) (ended s r e))

  -- A step of some goroutine, which brings the end nearer.
  abbrev pub Progress : Run S R E → Type 0
  Progress a =
      (b : Run S R E) × RunMoves Returns a b × (total rank b.workers < total rank a.workers)

  at_next :
      (pre ws : List (Worker S R E)) (w : Worker S R E) (free : ℕ) (first : Option E)
      → Progress (record { workers = (pre ++ (w ∷ [])) ++ ws; free = free; first_err = first })
      → Progress (record { workers = pre ++ (w ∷ ws); free = free; first_err = first })
  at_next pre ws w free first =
      subst (λ t. Progress (record { workers = t; free = free; first_err = first }))
        (append_assoc pre (w ∷ []) ws)

  shift :
      (pre ws : List (Worker S R E)) (w : Worker S R E) (free : ℕ) (first : Option E)
      → Progress (record { workers = (pre ++ (w ∷ [])) ++ ws; free = free; first_err = first })
        ⊎ (total holding ws ≡ 0)
      → holding w ≡ 0
      → Progress (record { workers = pre ++ (w ∷ ws); free = free; first_err = first })
        ⊎ (total holding (w ∷ ws) ≡ 0)
  shift pre ws w free first (inl p) h = inl (at_next pre ws w free first p)
  shift pre ws w free first (inr none_left) h = inr (omega (arith, none_left, h))

  -- With a free place and none held: a goroutine that waits goes on, or all have ended.
  seeker :
      (pre ws : List (Worker S R E)) (n : ℕ) (first : Option E)
      → total holding ws ≡ 0
      → Progress (record { workers = pre ++ ws; free = suc n; first_err = first }) ⊎ AllEnded ws
  seeker pre [] n first h = inr tt
  seeker pre (waiting s ∷ ws) n first h =
      inl (_, acquire pre ws s n first, Moves-rank _ _ (acquire pre ws s n first))
  seeker pre (started s ∷ ws) n first h = absurd (omega (arith, h))
  seeker pre (stored s r e ∷ ws) n first h = absurd (omega (arith, h))
  seeker pre (noted s r e ∷ ws) n first h = absurd (omega (arith, h))
  seeker pre (ended s r e ∷ ws) n first h =
      elim (seeker (pre ++ (ended s r e ∷ [])) ws n first (omega (arith, h))) [
        | inl p ↦ inl (at_next pre ws (ended s r e) (suc n) first p)
        | inr all ↦ inr (refl, all)
      ]

  module _ (total_runs : (s : S) → (r : R) × ((e : Option E) × Returns s r e)) where
    -- Of the goroutines from some index on: one can take a step, or none holds a place.
    holder :
        (pre ws : List (Worker S R E)) (free : ℕ) (first : Option E)
        → Progress (record { workers = pre ++ ws; free = free; first_err = first })
          ⊎ (total holding ws ≡ 0)
    holder pre [] free first = inr refl
    holder pre (waiting s ∷ ws) free first =
        shift pre ws (waiting s) free first (holder (pre ++ (waiting s ∷ [])) ws free first) refl
    holder pre (started s ∷ ws) free first =
        let (r, (e, returns)) = total_runs s in
        inl (
          _,
          store pre ws s r e free first returns,
          Moves-rank _ _ (store pre ws s r e free first returns),
        )
    holder pre (stored s r e ∷ ws) free first =
        inl (_, note pre ws s r e free first, Moves-rank _ _ (note pre ws s r e free first))
    holder pre (noted s r e ∷ ws) free first =
        inl (_, release pre ws s r e free first, Moves-rank _ _ (release pre ws s r e free first))
    holder pre (ended s r e ∷ ws) free first =
        shift pre ws (ended s r e) free first (holder (pre ++ (ended s r e ∷ [])) ws free first)
          refl

    freed :
        (ws : List (Worker S R E)) (free : ℕ) (first : Option E)
        → total holding ws ≡ 0
        → 0 < free
        → Progress (record { workers = ws; free = free; first_err = first }) ⊎ AllEnded ws
    freed ws zero first h some_free = absurd (omega (arith, some_free))
    freed ws (suc n) first h some_free = seeker [] ws n first h

    some_place : (parallel : ℕ) → 0 < effective_parallel parallel
    unfolding effective_parallel
    some_place zero = omega arith
    some_place (suc n) = omega arith

    -- Where every scenario returns, the suite does not stop before its end: in every interleaving all
    -- goroutines have ended, or one of them can take a step, and that brings the end nearer.
    pub RunReaches-Live :
        (scenarios : List S) (parallel : ℕ) (workers : List (Worker S R E)) (free : ℕ)
        (first : Option E)
        → RunReaches Returns
            (launch_run scenarios parallel)
            (record { workers = workers; free = free; first_err = first })
        → Progress (record { workers = workers; free = free; first_err = first }) ⊎ AllEnded workers
    RunReaches-Live scenarios parallel workers free first reach =
        elim (holder [] workers free first) [
          | inl p ↦ inl p
          | inr idle ↦ freed workers free first idle (
              omega (
                arith,
                idle,
                some_place parallel,
                RunReaches-places Returns scenarios parallel _ reach,
              ))
        ]
