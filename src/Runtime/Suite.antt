-- ===== src/Runtime/Suite.antt =====
-- internal/runtime/runner.go: Run, whose goroutines run a scenario each, at most as many at a time as
-- the semaphore lets in. `S` are the scenarios, `R` the reports and `E` the errors of runScenario.
mod Tests
pub mod Bound
pub mod Reported
pub mod Live
use tales.Base.{ℕ, zero, suc, ◌+◌, List, [], ◌∷◌, ◌++◌, map, Option, none, some, ◌≡◌, All, arith}

-- if opts.Parallel <= 0 { opts.Parallel = 1 }
unfoldable pub effective_parallel : ℕ → ℕ
effective_parallel zero = 1
effective_parallel (suc n) = suc n

-- A goroutine: before the semaphore, inside runScenario, after the result is stored, after the error is
-- looked at, and after the semaphore is left.
pub data Worker (S R E : Type 0) : Type 0 where
  waiting : S → Worker S R E
  started : S → Worker S R E
  stored : S → R → Option E → Worker S R E
  noted : S → R → Option E → Worker S R E
  ended : S → R → Option E → Worker S R E

-- if firstErr == nil { firstErr = runErr }, of an error that may be nil.
unfoldable pub first_error : {E : Type 0} → Option E → Option E → Option E
first_error none e = e
first_error (some first) e = some first

-- The goroutines by their indices, the free places of the semaphore, and firstErr.
pub record Run (S R E : Type 0) : Type 0 where
  pub workers : List (Worker S R E)
  pub free : ℕ
  pub first_err : Option E

-- The state when the goroutines are there.
unfoldable pub launch_run : {S R E : Type 0} → List S → ℕ → Run S R E
launch_run scenarios parallel = record {
  workers = map waiting scenarios;
  free = effective_parallel parallel;
  first_err = none;
}

-- result.Scenarios
unfoldable pub stored_results : {S R E : Type 0} → List (Worker S R E) → List (Option R)
stored_results [] = []
stored_results (waiting s ∷ ws) = none ∷ stored_results ws
stored_results (started s ∷ ws) = none ∷ stored_results ws
stored_results (stored s r e ∷ ws) = some r ∷ stored_results ws
stored_results (noted s r e ∷ ws) = some r ∷ stored_results ws
stored_results (ended s r e ∷ ws) = some r ∷ stored_results ws

-- `Returns s r e` says that runScenario may return the report and the error for the scenario.
module _ {S R E : Type 0} (Returns : S → R → Option E → Type 0) where
  -- A step of a goroutine between two accesses of what they share.
  pub data RunMoves : Run S R E → Run S R E → Type 0 where
    acquire :
        (pre post : List (Worker S R E)) (s : S) (n : ℕ) (first : Option E)
        → RunMoves
            (record { workers = pre ++ (waiting s ∷ post); free = suc n; first_err = first })
            (record { workers = pre ++ (started s ∷ post); free = n; first_err = first })
    store :
        (pre post : List (Worker S R E)) (s : S) (r : R) (e : Option E) (n : ℕ) (first : Option E)
        → Returns s r e
        → RunMoves
            (record { workers = pre ++ (started s ∷ post); free = n; first_err = first })
            (record { workers = pre ++ (stored s r e ∷ post); free = n; first_err = first })
    note :
        (pre post : List (Worker S R E)) (s : S) (r : R) (e : Option E) (n : ℕ) (first : Option E)
        → RunMoves
            (record { workers = pre ++ (stored s r e ∷ post); free = n; first_err = first })
            (record {
              workers = pre ++ (noted s r e ∷ post);
              free = n;
              first_err = first_error first e;
            })
    release :
        (pre post : List (Worker S R E)) (s : S) (r : R) (e : Option E) (n : ℕ) (first : Option E)
        → RunMoves
            (record { workers = pre ++ (noted s r e ∷ post); free = n; first_err = first })
            (record { workers = pre ++ (ended s r e ∷ post); free = suc n; first_err = first })

  pub data RunReaches (a : Run S R E) : Run S R E → Type 0 where
    begin : RunReaches a a
    go : (b c : Run S R E) → RunReaches a b → RunMoves b c → RunReaches a c

-- The steps that a goroutine has left.
abbrev pub rank : {S R E : Type 0} → Worker S R E → ℕ
rank (waiting s) = 4
rank (started s) = 3
rank (stored s r e) = 2
rank (noted s r e) = 1
rank (ended s r e) = 0

-- The places of the semaphore that a goroutine holds.
abbrev pub holding : {S R E : Type 0} → Worker S R E → ℕ
holding (waiting s) = 0
holding (started s) = 1
holding (stored s r e) = 1
holding (noted s r e) = 1
holding (ended s r e) = 0

abbrev pub total : {A : Type 0} → (A → ℕ) → List A → ℕ
total f [] = 0
total f (x ∷ xs) = f x + total f xs

-- Every goroutine has left the semaphore.
abbrev pub AllEnded : {S R E : Type 0} → List (Worker S R E) → Type 0
AllEnded ws = All (λ w. rank w ≡ 0) ws

pub total-append :
    {A : Type 0} (f : A → ℕ) (xs ys : List A) → total f (xs ++ ys) ≡ total f xs + total f ys
total-append f [] ys = omega arith
total-append f (x ∷ xs) ys = omega (arith, total-append f xs ys)

pub total-replace :
    {A : Type 0} (f : A → ℕ) (pre post : List A) (x y : A)
    → total f (pre ++ (x ∷ post)) + f y ≡ total f (pre ++ (y ∷ post)) + f x
total-replace f pre post x y =
    omega (arith, total-append f pre (x ∷ post), total-append f pre (y ∷ post))
