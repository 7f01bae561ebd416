-- ===== src/Load/Workers/Ends.antt =====
-- internal/provider/load/runner.go: the workers come to an end.
use tales.Base.{
  ℕ, zero, suc, ◌+◌, ◌*◌, ◌<◌, List, [], ◌∷◌, ◌++◌, Bool, true, false, ◌≡◌, ◌≢◌, refl, ap, ◌≤◌, ◌⊎◌,
  inl, inr, arith, All, append_assoc, subst,
}
use tales.Load.Workers.{
  Remaining, pos, negsuc, decrement, Phase, top, checked, claimed, ready, exited, State, Moves,
  cancel, check_context, take_request, wait_token, wait_cancelled, sample, idle, start,
  worker_count,
}
use tales.Load.Workers.Exact.{left}

-- The steps that a worker takes before it claims a request again.
abbrev pub rank : Phase → ℕ
rank exited = 0
rank checked = 1
rank top = 2
rank ready = 3
rank claimed = 4

abbrev pub ranks : List Phase → ℕ
ranks [] = 0
ranks (p ∷ ps) = rank p + ranks ps

abbrev pub measure : State → ℕ
measure s = 5 * left s.remaining + ranks s.workers

ranks-append : (ps qs : List Phase) → ranks (ps ++ qs) ≡ ranks ps + ranks qs
ranks-append [] qs = omega arith
ranks-append (p ∷ ps) qs = omega (arith, ranks-append ps qs)

replaced-ranks :
    (pre post : List Phase) (p q : Phase)
    → ranks (pre ++ (p ∷ post)) + rank q ≡ ranks (pre ++ (q ∷ post)) + rank p
replaced-ranks pre post p q =
    omega (arith, ranks-append pre (p ∷ post), ranks-append pre (q ∷ post))

-- A worker's step makes the measure smaller; cancelling changes nothing else.
pub Moves-measure :
    (s t : State) → Moves s t → (measure t < measure s) ⊎ (t ≡ record s { cancelled = true })
unfolding decrement
Moves-measure s t (cancel _) = inr refl
Moves-measure s t (check_context r true pre post n) =
    inl (omega (arith, replaced-ranks pre post top exited))
Moves-measure s t (check_context r false pre post n) =
    inl (omega (arith, replaced-ranks pre post top checked))
Moves-measure s t (take_request (pos zero) c pre post n) =
    inl (omega (arith, replaced-ranks pre post checked exited))
Moves-measure s t (take_request (pos (suc m)) c pre post n) =
    inl (omega (arith, replaced-ranks pre post checked claimed))
Moves-measure s t (take_request (negsuc m) c pre post n) =
    inl (omega (arith, replaced-ranks pre post checked exited))
Moves-measure s t (wait_token r c pre post n) =
    inl (omega (arith, replaced-ranks pre post claimed ready))
Moves-measure s t (wait_cancelled r pre post n) =
    inl (omega (arith, replaced-ranks pre post claimed exited))
Moves-measure s t (sample r c pre post n) = inl (omega (arith, replaced-ranks pre post ready top))

-- A step that makes the measure smaller.
abbrev Nears : State → Type 0
Nears s = (t : State) × Moves s t × (measure t < measure s)

-- The state with those workers.
abbrev with_workers : Remaining → Bool → ℕ → List Phase → State
with_workers r c n ps = record { remaining = r; cancelled = c; workers = ps; requests = n }

Steps-from :
    (r : Remaining) (c : Bool) (n : ℕ) (pre ps : List Phase)
    → All (λ p. p ≡ exited) ps ⊎ Nears (with_workers r c n (pre ++ ps))
unfolding decrement
Steps-from r c n pre [] = inl tt
Steps-from r true n pre (top ∷ ps) =
    inr (_, check_context r true pre ps n, omega (arith, replaced-ranks pre ps top exited))
Steps-from r false n pre (top ∷ ps) =
    inr (_, check_context r false pre ps n, omega (arith, replaced-ranks pre ps top checked))
Steps-from (pos zero) c n pre (checked ∷ ps) =
    inr (_, take_request (pos zero) c pre ps n, omega (arith, replaced-ranks pre ps checked exited))
Steps-from (pos (suc m)) c n pre (checked ∷ ps) =
    inr (
      _,
      take_request (pos (suc m)) c pre ps n,
      omega (arith, replaced-ranks pre ps checked claimed),
    )
Steps-from (negsuc m) c n pre (checked ∷ ps) =
    inr (_, take_request (negsuc m) c pre ps n, omega (arith, replaced-ranks pre ps checked exited))
Steps-from r c n pre (claimed ∷ ps) =
    inr (_, wait_token r c pre ps n, omega (arith, replaced-ranks pre ps claimed ready))
Steps-from r c n pre (ready ∷ ps) =
    inr (_, sample r c pre ps n, omega (arith, replaced-ranks pre ps ready top))
Steps-from r c n pre (exited ∷ ps) = elim (Steps-from r c n (pre ++ (exited ∷ [])) ps) [
  | inl gone ↦ inl (refl, gone)
  | inr step ↦
      inr (subst (λ l. Nears (with_workers r c n l)) (append_assoc pre (exited ∷ []) ps) step)
]

-- A step of a worker.
abbrev pub Steps : State → Type 0
Steps s = (t : State) × Moves s t × (t ≢ record s { cancelled = true })

-- A run from `s` in which the workers have taken `n` steps. Cancelling the context is not a step of a
-- worker.
pub data Runs (s : State) : ℕ → State → Type 0 where
  begin : Runs s 0 s
  cancels : (n : ℕ) (t : State) → Runs s n t → Runs s n (record t { cancelled = true })
  works :
      (n : ℕ) (t u : State)
      → Runs s n t
      → Moves t u
      → u ≢ record t { cancelled = true }
      → Runs s (suc n) u

Runs-measure : (s t : State) (n : ℕ) → Runs s n t → n + measure t ≤ measure s
Runs-measure s t n begin = omega arith
Runs-measure s t n (cancels _ u run) = Runs-measure s u n run
Runs-measure s t n (works k u _ run step work) = elim (Moves-measure u t step) [
  | inl less ↦ omega (arith, less, Runs-measure s u k run)
  | inr same ↦ absurd (work same)
]

ranks-idle : (k : ℕ) → ranks (idle k) ≡ 2 * k
ranks-idle zero = refl
ranks-idle (suc k) = omega (arith, ranks-idle k)

Nears-Steps : (s : State) → Nears s → Steps s
Nears-Steps s (t, step, less) = (t, step, λ same. omega (arith, less, ap measure same))

-- However the workers of a run in requests mode interleave, and wherever the run is cancelled, all of
-- them together take at most five steps for each request and two for each worker; and until all of
-- them have left, one of them can take a step.
pub workers-end :
    (requests concurrency : ℕ) (limited : 0 < requests) (s : State) (n : ℕ)
    → Runs (start requests limited concurrency) n s
    → (n ≤ 5 * requests + 2 * worker_count concurrency)
      × (All (λ p. p ≡ exited) s.workers ⊎ Steps s)
unfolding start
workers-end requests concurrency limited s n run =
    let bound = Runs-measure (start requests limited concurrency) s n run in
    (
      omega (arith, bound, ranks-idle (worker_count concurrency)),
      elim (Steps-from s.remaining s.cancelled s.requests [] s.workers) [
        | inl gone ↦ inl gone
        | inr step ↦ inr (Nears-Steps s step)
      ],
    )
