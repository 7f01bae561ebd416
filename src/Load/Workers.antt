-- ===== src/Load/Workers.antt =====
-- internal/provider/load/runner.go: the goroutines of runWorkers in requests mode, as the steps that
-- they take one at a time between two accesses of the shared state.
pub mod Exact
pub mod Ends
use tales.Base.{
  ℕ, zero, suc, ◌+◌, ◌≤◌, ◌<◌, List, [], ◌∷◌, ◌++◌, Bool, true, false, if◌then◌else◌, ◌≡◌, refl,
  sym, ap, ◌∙◌, ◌==◌,
}

-- An int64 that only counts down.
pub data Remaining : Type 0 where
  pos : ℕ → Remaining
  negsuc : ℕ → Remaining

-- atomic.AddInt64(&remaining, -1)
unfoldable pub decrement : Remaining → Remaining
decrement (pos (suc n)) = pos n
decrement (pos zero) = negsuc 0
decrement (negsuc n) = negsuc (suc n)

abbrev pub is_negative : Remaining → Bool
is_negative (pos n) = false
is_negative (negsuc n) = true

-- Where a worker stands: at the head of its loop, behind the check of the context, with a request
-- claimed, behind the rate limiter, and out of its loop.
pub data Phase : Type 0 where
  top checked claimed ready exited : Phase

pub record State : Type 0 where
  pub remaining : Remaining
  pub cancelled : Bool
  pub workers : List Phase
  -- The samples recorded.
  pub requests : ℕ

abbrev pub check : Bool → Phase
check true = exited
check false = checked

abbrev pub claim : Remaining → Phase
claim r = if is_negative r then exited else claimed

-- One worker, between `pre` and `post`, takes one step; or the context is cancelled.
pub data Moves : State → State → Type 0 where
  cancel : (s : State) → Moves s (record s { cancelled = true })
  check_context :
      (r : Remaining) (c : Bool) (pre post : List Phase) (n : ℕ)
      → Moves
          (record { remaining = r; cancelled = c; workers = pre ++ (top ∷ post); requests = n })
          (record { remaining = r; cancelled = c; workers = pre ++ (check c ∷ post); requests = n })
  take_request :
      (r : Remaining) (c : Bool) (pre post : List Phase) (n : ℕ)
      → Moves
          (record { remaining = r; cancelled = c; workers = pre ++ (checked ∷ post); requests = n })
          (record {
            remaining = decrement r;
            cancelled = c;
            workers = pre ++ (claim (decrement r) ∷ post);
            requests = n;
          })
  wait_token :
      (r : Remaining) (c : Bool) (pre post : List Phase) (n : ℕ)
      → Moves
          (record { remaining = r; cancelled = c; workers = pre ++ (claimed ∷ post); requests = n })
          (record { remaining = r; cancelled = c; workers = pre ++ (ready ∷ post); requests = n })
  wait_cancelled :
      (r : Remaining) (pre post : List Phase) (n : ℕ)
      → Moves
          (record {
            remaining = r;
            cancelled = true;
            workers = pre ++ (claimed ∷ post);
            requests = n;
          })
          (record {
            remaining = r;
            cancelled = true;
            workers = pre ++ (exited ∷ post);
            requests = n;
          })
  sample :
      (r : Remaining) (c : Bool) (pre post : List Phase) (n : ℕ)
      → Moves
          (record { remaining = r; cancelled = c; workers = pre ++ (ready ∷ post); requests = n })
          (record { remaining = r; cancelled = c; workers = pre ++ (top ∷ post); requests = suc n })

abbrev pub idle : ℕ → List Phase
idle zero = []
idle (suc n) = top ∷ idle n

-- `workers <= 0` counts as one worker.
abbrev pub worker_count : ℕ → ℕ
worker_count concurrency = if concurrency == 0 then 1 else concurrency

-- stopOnLimit is set: requests mode, and cfg.requests > 0.
unfoldable pub start : (requests : ℕ) → 0 < requests → ℕ → State
start requests limited concurrency = record {
  remaining = pos requests;
  cancelled = false;
  workers = idle (worker_count concurrency);
  requests = 0;
}

pub data Reaches (s : State) : State → Type 0 where
  here : Reaches s s
  move : (t u : State) → Reaches s t → Moves t u → Reaches s u
