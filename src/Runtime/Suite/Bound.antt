-- ===== src/Runtime/Suite/Bound.antt =====
-- internal/runtime/runner.go: how many scenarios run at a time.
use tales.Base.{ℕ, ◌+◌, ◌≤◌, List, [], ◌∷◌, map, Option, ◌≡◌, refl, ◌∙◌, arith}
use tales.Runtime.Suite.{
  effective_parallel, waiting, started, stored, noted, ended, Run, launch_run, RunMoves, acquire,
  store, note, release, RunReaches, begin, go, holding, total, total-replace,
}

module _ {S R E : Type 0} (Returns : S → R → Option E → Type 0) where
  total-waiting :
      (scenarios : List S) → total (holding {S = S} {R = R} {E = E}) (map waiting scenarios) ≡ 0
  total-waiting [] = refl
  total-waiting (s ∷ ss) = omega (arith, total-waiting ss)

  Moves-places :
      (a b : Run S R E)
      → RunMoves Returns a b
      → total holding b.workers + b.free ≡ total holding a.workers + a.free
  Moves-places a b (acquire pre post s n first) =
      omega (arith, total-replace holding pre post (waiting s) (started s))
  Moves-places a b (store pre post s r e n first returns) =
      omega (arith, total-replace holding pre post (started s) (stored s r e))
  Moves-places a b (note pre post s r e n first) =
      omega (arith, total-replace holding pre post (stored s r e) (noted s r e))
  Moves-places a b (release pre post s r e n first) =
      omega (arith, total-replace holding pre post (noted s r e) (ended s r e))

  pub RunReaches-places :
      (scenarios : List S) (parallel : ℕ) (a : Run S R E)
      → RunReaches Returns (launch_run scenarios parallel) a
      → total holding a.workers + a.free ≡ effective_parallel parallel
  unfolding launch_run
  RunReaches-places scenarios parallel a begin = omega (arith, total-waiting scenarios)
  RunReaches-places scenarios parallel a (go b c r m) =
      Moves-places b c m ∙ RunReaches-places scenarios parallel b r

  -- In every interleaving, no more scenarios run at a time than the option says, or one where it says
  -- none.
  pub RunReaches-Bound :
      (scenarios : List S) (parallel : ℕ) (a : Run S R E)
      → RunReaches Returns (launch_run scenarios parallel) a
      → total holding a.workers ≤ effective_parallel parallel
  RunReaches-Bound scenarios parallel a r = omega (arith, RunReaches-places scenarios parallel a r)
