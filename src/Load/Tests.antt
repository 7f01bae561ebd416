-- ===== src/Load/Tests.antt =====
-- internal/provider/load: the theorems at one worker with one request, and at two samples.
use tales.Base.{All, ◌<◌, ◌≤◌, arith, ◌⊎◌, List, [], ◌∷◌, none, some, false, ◌≡◌, refl}
use tales.Load.Workers.{
  checked, claimed, Moves, pos, negsuc, exited, State, start, decrement, Reaches, here, move,
  check_context, take_request, wait_token, sample,
}
use tales.Load.Workers.Exact.{requests-exact}
use tales.Load.Workers.Ends.{Runs, begin, works, Steps, workers-end}
use tales.Load.Samples.{Sample}

abbrev finished : State
finished = record { remaining = negsuc 0; cancelled = false; workers = exited ∷ []; requests = 1 }

one_or_more : 0 < 1
one_or_more = omega arith

one_request : Reaches (start 1 one_or_more 1) finished
unfolding start decrement
one_request =
    move _ _
      (move _ _
        (move _ _
          (move _ _
            (move _ _ (move _ _ here (check_context (pos 1) false [] [] 0))
              (take_request (pos 1) false [] [] 0))
            (wait_token (pos 0) false [] [] 0))
          (sample (pos 0) false [] [] 0))
        (check_context (pos 0) false [] [] 1))
      (take_request (pos 0) false [] [] 1)

requests-exact_example : finished.requests ≡ 1
requests-exact_example = requests-exact 1 1 one_or_more finished one_request refl (refl, tt)

abbrev samples : List Sample
samples =
    record { latency = 5; status = 200; bytes_in = 10; bytes_out = 2; error = none }
    ∷ record { latency = 7; status = 0; bytes_in = 0; bytes_out = 2; error = some "refused" }
    ∷ []

-- One worker has checked the context and claimed the request.
abbrev one_claimed : State
one_claimed = record { remaining = pos 0; cancelled = false; workers = claimed ∷ []; requests = 0 }

two_steps : Runs (start 1 one_or_more 1) 2 one_claimed
unfolding start decrement
two_steps =
    works 1 _ _ (works 0 _ _ begin (check_context (pos 1) false [] [] 0) (λ same. cc))
      (take_request (pos 1) false [] [] 0) (λ same. cc)

workers-end_example : (2 ≤ 7) × (All (λ p. p ≡ exited) one_claimed.workers ⊎ Steps one_claimed)
workers-end_example = workers-end 1 1 one_or_more one_claimed 2 two_steps

-- A worker that has passed the check, with one request left.
abbrev before_claim : State
before_claim = record { remaining = pos 1; cancelled = false; workers = checked ∷ []; requests = 0 }

abbrev after_claim : State
after_claim = record { remaining = pos 0; cancelled = false; workers = claimed ∷ []; requests = 0 }

one_claim : Moves before_claim after_claim
unfolding decrement
one_claim = take_request (pos 1) false [] [] 0
