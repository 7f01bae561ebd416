-- ===== src/Runtime/Steps/Invariant.antt =====
-- internal/runtime/runner.go: the report of a scenario and the tracker agree after every step.
use tales.Base.{
  String, str_eq, List, [], ◌∷◌, ◌++◌, Option, none, Bool, true, false, ◌&&◌, ◌||◌, if◌then◌else◌,
  ◌≡◌, refl, sym, arith, contains, insert, contains-insert, Bool-cases, inl, inr, append_assoc,
  append-nil, subst,
}
use tales.Report.{Status, pass, fail, skip, ErrorDetail, StepResult, is_fail, is_skip}
use tales.Runtime.Steps.{Run}
use tales.Runtime.Steps.Recorded.{Recorded, blocked}

-- A result of that name has a status that passes the test.
abbrev pub has : (Status → Bool) → String → List StepResult → Bool
has p n [] = false
has p n (r ∷ rs) = (str_eq r.name n && p r.status) || has p n rs

abbrev pub any_fail : List StepResult → Bool
any_fail [] = false
any_fail (r ∷ rs) = is_fail r.status || any_fail rs

-- The failure of the first result that fails.
abbrev pub first_failure : List StepResult → Option ErrorDetail
first_failure [] = none
first_failure (r ∷ rs) = if is_fail r.status then r.failure else first_failure rs

-- A step that was not skipped comes after results in which none of its dependencies failed or was
-- skipped.
abbrev pub Cascades : (String → List String) → List StepResult → List StepResult → Type 0
Cascades deps pre [] = Unit
Cascades deps pre (r ∷ rs) =
    (is_skip r.status ≡ false
      → (d : String) → contains d (deps r.name) ≡ true
      → (has is_fail d pre || has is_skip d pre) ≡ false)
    × Cascades deps (pre ++ (r ∷ [])) rs

-- Behind a result that fails there are only skips.
abbrev pub AllSkip : List StepResult → Type 0
AllSkip [] = Unit
AllSkip (r ∷ rs) = (r.status ≡ skip) × AllSkip rs

abbrev pub Stops : List StepResult → Type 0
Stops [] = Unit
Stops (r ∷ rs) = (is_fail r.status ≡ true → AllSkip rs) × Stops rs

has-snoc :
    (p : Status → Bool) (n : String) (rs : List StepResult) (r : StepResult)
    → has p n (rs ++ (r ∷ [])) ≡ (has p n rs || (str_eq r.name n && p r.status))
has-snoc p n [] r = ground arith
has-snoc p n (x ∷ rs) r = ground (arith, has-snoc p n rs r)

pub any_fail-snoc :
    (rs : List StepResult) (r : StepResult)
    → any_fail (rs ++ (r ∷ [])) ≡ (any_fail rs || is_fail r.status)
any_fail-snoc [] r = ground arith
any_fail-snoc (x ∷ rs) r = ground (arith, any_fail-snoc rs r)

pub first_failure-snoc :
    (rs : List StepResult) (r : StepResult)
    → any_fail rs ≡ false
    → first_failure (rs ++ (r ∷ [])) ≡ (if is_fail r.status then r.failure else none)
first_failure-snoc [] r h = refl
first_failure-snoc (x ∷ rs) r h = ground (arith, first_failure-snoc rs r)

first_failure-skips :
    (rs : List StepResult) (r : StepResult)
    → r.status ≡ skip
    → first_failure (rs ++ (r ∷ [])) ≡ first_failure rs
first_failure-skips [] r h = ground arith
first_failure-skips (x ∷ rs) r h = ground (arith, first_failure-skips rs r)

Cascades-snoc :
    (deps : String → List String) (pre rs : List StepResult) (r : StepResult)
    → Cascades deps pre rs
    → (is_skip r.status ≡ false
        → (d : String) → contains d (deps r.name) ≡ true
        → (has is_fail d (pre ++ rs) || has is_skip d (pre ++ rs)) ≡ false)
    → Cascades deps pre (rs ++ (r ∷ []))
Cascades-snoc deps pre [] r c h = (
  λ ran d held.
      subst (λ t. (has is_fail d t || has is_skip d t) ≡ false) (append-nil pre) (h ran d held),
  tt,
)
Cascades-snoc deps pre (x ∷ rs) r c h = (
  c.0,
  Cascades-snoc deps (pre ++ (x ∷ [])) rs r c.1 λ ran d held.
      subst (λ t. (has is_fail d t || has is_skip d t) ≡ false) (sym (append_assoc pre (x ∷ []) rs))
        (h ran d held),
)

AllSkip-snoc :
    (rs : List StepResult) (r : StepResult)
    → AllSkip rs
    → r.status ≡ skip
    → AllSkip (rs ++ (r ∷ []))
AllSkip-snoc [] r h s = (s, tt)
AllSkip-snoc (x ∷ rs) r h s = (h.0, AllSkip-snoc rs r h.1 s)

Stops-snoc :
    (rs : List StepResult) (r : StepResult)
    → Stops rs
    → (any_fail rs ≡ true → r.status ≡ skip)
    → Stops (rs ++ (r ∷ []))
Stops-snoc [] r h s = ((λ f. tt), tt)
Stops-snoc (x ∷ rs) r h s =
    (λ f. AllSkip-snoc rs r (h.0 f) (s (ground arith)), Stops-snoc rs r h.1 (λ f. s (ground arith)))

-- The report, the tracker and the dependencies agree.
pub record Inv {W : Type 0} (deps : String → List String) (run : Run W) : Type 0 where
  pub status : run.result.status ≡ (if any_fail run.result.steps then fail else pass)
  pub failure : run.result.failure ≡ first_failure run.result.steps
  pub failed : (n : String) → contains n run.tracker.failed ≡ has is_fail n run.result.steps
  pub skipped : (n : String) → contains n run.tracker.skipped ≡ has is_skip n run.result.steps
  pub cascades : Cascades deps [] run.result.steps
  pub stops : Stops run.result.steps

named_one :
    (p : Status → Bool) (name n : String) (r : StepResult) (rs : List StepResult) (s : List String)
    → r.name ≡ name
    → contains n s ≡ has p n rs
    → contains n (if p r.status then insert name s else s) ≡ has p n (rs ++ (r ∷ []))
named_one p name n r rs s e h =
    ground (arith, has-snoc p n rs r, contains-insert n name s, Bool-cases (p r.status))

pub first_failure-none : (rs : List StepResult) → any_fail rs ≡ false → first_failure rs ≡ none
first_failure-none [] h = refl
first_failure-none (x ∷ rs) h = ground (arith, first_failure-none rs)

fail-skip : (s : Status) → s ≡ skip → is_fail s ≡ false
fail-skip s h = ground arith

module _ {W : Type 0} (deps : String → List String) (run next : Run W) (inv : Inv deps run) where
  halts :
      (name : String) (r : StepResult)
      → Recorded name r run next
      → any_fail run.result.steps ≡ true
      → r.status ≡ skip
  halts name r rec h = rec.halted (rw (inv.status, h) refl)

  next_status :
      (name : String) (r : StepResult)
      → Recorded name r run next
      → next.result.status ≡ (if any_fail next.result.steps then fail else pass)
  next_status name r rec =
      ground (arith, rec.status, rec.steps, inv.status, any_fail-snoc run.result.steps r)

  next_failure :
      (name : String) (r : StepResult)
      → Recorded name r run next
      → next.result.failure ≡ first_failure next.result.steps
  next_failure name r rec = elim (Bool-cases (any_fail run.result.steps)) [
    | inl failed ↦
        let s = halts name r rec failed in
        rw (rec.failure, rec.steps, fail-skip r.status s, first_failure-skips run.result.steps r s)
          inv.failure
    | inr fine ↦
        rw
          (
            rec.failure,
            rec.steps,
            first_failure-snoc run.result.steps r fine,
            inv.failure,
            first_failure-none run.result.steps fine,
          )
          refl
  ]

  next-Stops : (name : String) (r : StepResult) → Recorded name r run next → Stops next.result.steps
  next-Stops name r rec = rw rec.steps (Stops-snoc run.result.steps r inv.stops (halts name r rec))

  pub Recorded-Inv :
      (name : String) (r : StepResult)
      → Recorded name r run next
      → (is_skip r.status ≡ false
          → (d : String) → contains d (deps name) ≡ true
          → blocked run.tracker d ≡ false)
      → Inv deps next
  Recorded-Inv name r rec free = record {
    status = next_status name r rec;
    failure = next_failure name r rec;
    failed =
        λ n. rw (rec.failed, rec.steps) (named_one is_fail name n r _ _ rec.named (inv.failed n));
    skipped =
        λ n. rw (rec.skipped, rec.steps) (named_one is_skip name n r _ _ rec.named (inv.skipped n));
    cascades = rw rec.steps (
        Cascades-snoc deps [] run.result.steps r inv.cascades λ ran d held.
          rw (sym (inv.failed d), sym (inv.skipped d)) (free ran d (rw (sym rec.named) held)));
    stops = next-Stops name r rec;
  }
