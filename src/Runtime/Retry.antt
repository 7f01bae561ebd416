-- ===== src/Runtime/Retry.antt =====
-- internal/runtime/runner.go: the attempts of one step, executeStepInPhase. `W` is the state that an
-- attempt changes, the clock included.
use tales.Base.{
  ℕ, zero, suc, ◌+◌, ◌≤◌, ◌<◌, String, Option, none, some, Bool, true, false, ◌||◌, if◌then◌else◌,
  ltb, ◌==◌, ◌≡◌, refl, sym, subst, arith, Bool-cases, inl, inr,
}
use tales.Report.{fail, StepResult, is_pass}
use tales.Model.Step.{Retry}

-- A retry of fewer attempts than one counts as one.
unfoldable pub retry_options : Option Retry → Retry
retry_options none = record { attempts = 1; interval = 0 }
retry_options (some r) = if ltb r.attempts 1 then record r { attempts = 1 } else r

suc_of : (n : ℕ) → 1 ≤ n → (m : ℕ) × (n ≡ suc m)
suc_of zero h = absurd (omega arith)
suc_of (suc m) h = (m, refl)

abbrev pub interrupted : StepResult → StepResult
interrupted r = record r {
  status = fail;
  failure = some (record {
    kind = "runtime";
    path = "";
    message = "step retry interrupted by context cancellation";
  });
}

abbrev pub not_executed : String → String → ℕ → StepResult
not_executed name phase attempts = record {
  name = name;
  phase = phase;
  status = fail;
  attempts = attempts;
  failure = some (record { kind = "runtime"; path = ""; message = "step was not executed" });
  skip_reason = none;
}

-- `attempt` is executeStepAttempt; `sleep` is sleepWithContext, false where the context ends first.
module _ {W : Type 0} (attempt : ℕ → W → StepResult × W) (sleep : ℕ → W → Bool × W) where
  -- The rounds from the k-th on, of which `left` remain; `last` is lastResult.
  unfoldable pub attempt_loop : Retry → StepResult → ℕ → ℕ → W → StepResult × W
  attempt_loop retry last zero k w = (last, w)
  attempt_loop retry last (suc left) k w =
      let (r, w') = attempt k w in
      let counted : StepResult = record r { attempts = k } in
      elim (is_pass r.status || (k == retry.attempts)) [
        | true ↦ (counted, w')
        | false ↦ elim (ltb 0 retry.interval) [
          | false ↦ attempt_loop retry counted left (suc k) w'
          | true ↦
              let (slept, w'') = sleep retry.interval w' in
              elim slept [
                | true ↦ attempt_loop retry counted left (suc k) w''
                | false ↦ (interrupted counted, w'')
              ]
        ]
      ]

  unfoldable pub execute_step_in_phase : String → String → Option Retry → W → StepResult × W
  execute_step_in_phase name phase retry w =
      let options = retry_options retry in
      attempt_loop options (not_executed name phase options.attempts) options.attempts 1 w

  -- The k-th attempt of `retry` and those after it, in the world `w`, end with a result: the first
  -- that passes, the last of the attempts, or one after which the pause was interrupted.
  pub data Tries (retry : Retry) : ℕ → W → StepResult → Type 0 where
    passed :
        (k : ℕ) (w : W)
        → is_pass (attempt k w).0.status ≡ true
        → Tries retry k w (record (attempt k w).0 { attempts = k })
    final :
        (k : ℕ) (w : W)
        → k ≡ retry.attempts
        → Tries retry k w (record (attempt k w).0 { attempts = k })
    stopped :
        (k : ℕ) (w : W)
        → k < retry.attempts
        → is_pass (attempt k w).0.status ≡ false
        → (sleep retry.interval (attempt k w).1).0 ≡ false
        → Tries retry k w (interrupted (record (attempt k w).0 { attempts = k }))
    again :
        (k : ℕ) (w : W) (r : StepResult)
        → k < retry.attempts
        → is_pass (attempt k w).0.status ≡ false
        → retry.interval ≡ 0
        → Tries retry (suc k) (attempt k w).1 r
        → Tries retry k w r
    paused :
        (k : ℕ) (w : W) (r : StepResult)
        → k < retry.attempts
        → is_pass (attempt k w).0.status ≡ false
        → (sleep retry.interval (attempt k w).1).0 ≡ true
        → Tries retry (suc k) (sleep retry.interval (attempt k w).1).1 r
        → Tries retry k w r

  module _ (retry : Retry) where
    attempt_loop-Tries :
        (latest : StepResult) (left k : ℕ) (w : W)
        → k + left ≡ retry.attempts
        → Tries retry k w (attempt_loop retry latest (suc left) k w).0
    unfolding attempt_loop
    attempt_loop-Tries latest zero k w h = elim (Bool-cases (is_pass (attempt k w).0.status)) [
      | inl p ↦ rw (p, attempt_loop) (passed k w p)
      | inr p ↦
          let e : (k == retry.attempts) ≡ true = ground arith in
          rw (p, attempt_loop) (rw (e, attempt_loop) (final k w (omega arith)))
    ]
    attempt_loop-Tries latest (suc left) k w h =
        elim (Bool-cases (is_pass (attempt k w).0.status)) [
          | inl p ↦ rw (p, attempt_loop) (passed k w p)
          | inr p ↦
              let e : (k == retry.attempts) ≡ false = ground arith in
              elim (Bool-cases (ltb 0 retry.interval)) [
                | inr z ↦
                    rw (p, attempt_loop)
                      (rw (e, attempt_loop)
                        (rw (z, attempt_loop)
                          (again k w _ (omega arith) p (ground arith) (
                            attempt_loop-Tries (record (attempt k w).0 { attempts = k }) left
                              (suc k) _ (omega arith)))))
                | inl z ↦ elim (Bool-cases (sleep retry.interval (attempt k w).1).0) [
                  | inl t ↦
                      rw (p, attempt_loop)
                        (rw (e, attempt_loop)
                          (rw (z, attempt_loop)
                            (rw (t, attempt_loop)
                              (paused k w _ (omega arith) p t (
                                attempt_loop-Tries (record (attempt k w).0 { attempts = k }) left
                                  (suc k) _ (omega arith))))))
                  | inr t ↦
                      rw (p, attempt_loop)
                        (rw (e, attempt_loop)
                          (rw (z, attempt_loop)
                            (rw (t, attempt_loop) (stopped k w (omega arith) p t))))
                ]
              ]
        ]

    Tries-attempts :
        (k : ℕ) (w : W) (r : StepResult)
        → k ≤ retry.attempts
        → Tries retry k w r
        → (k ≤ r.attempts) × (r.attempts ≤ retry.attempts)
    Tries-attempts k w r h (passed _ _ p) = (omega arith, h)
    Tries-attempts k w r h (final _ _ e) = (omega arith, h)
    Tries-attempts k w r h (stopped _ _ l p q) = (omega arith, h)
    Tries-attempts k w r h (again _ _ _ l p q t) =
        let (a, b) = Tries-attempts (suc k) _ r (omega arith) t in (omega arith, b)
    Tries-attempts k w r h (paused _ _ _ l p q t) =
        let (a, b) = Tries-attempts (suc k) _ r (omega arith) t in (omega arith, b)

  retry_options-attempts : (retry : Option Retry) → 1 ≤ (retry_options retry).attempts
  unfolding retry_options
  retry_options-attempts none = omega arith
  retry_options-attempts (some r) = ground arith

  -- The attempts of a step end with the first that passes, with the last of them, or with one after
  -- which the pause was interrupted.
  pub execute_step_in_phase-Tries :
      (name phase : String) (retry : Option Retry) (w : W)
      → Tries (retry_options retry) 1 w (execute_step_in_phase name phase retry w).0
  unfolding execute_step_in_phase
  execute_step_in_phase-Tries name phase retry w =
      let options = retry_options retry in
      let (left, e) = suc_of options.attempts (retry_options-attempts retry) in
      subst
        (λ n.
          Tries options 1 w
            (attempt_loop options (not_executed name phase options.attempts) n 1 w).0)
        (sym e) (attempt_loop-Tries options _ left 1 w (omega (arith, e)))

  -- A step is attempted at least once, and at most as often as its retry says.
  pub execute_step_in_phase-attempts :
      (name phase : String) (retry : Option Retry) (w : W)
      → (1 ≤ (execute_step_in_phase name phase retry w).0.attempts)
        × ((execute_step_in_phase name phase retry w).0.attempts ≤ (retry_options retry).attempts)
  execute_step_in_phase-attempts name phase retry w =
      Tries-attempts (retry_options retry) 1 w _ (retry_options-attempts retry)
        (execute_step_in_phase-Tries name phase retry w)
