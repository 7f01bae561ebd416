-- ===== src/Runtime/Suite/Reported.antt =====
-- internal/runtime/runner.go: the reports of the scenarios, and the error that Run returns.
use tales.Base.{
  ℕ, List, [], ◌∷◌, ◌++◌, map, Option, none, some, ◌≡◌, refl, ap, ◌∙◌, subst, All, arith,
}
use tales.Runtime.Suite.{
  Worker, waiting, started, stored, noted, ended, first_error, Run, launch_run, stored_results,
  RunMoves, acquire, store, note, release, RunReaches, begin, go, AllEnded,
}

-- The scenario of a goroutine.
abbrev subject : {S R E : Type 0} → Worker S R E → S
subject (waiting s) = s
subject (started s) = s
subject (stored s r e) = s
subject (noted s r e) = s
subject (ended s r e) = s

-- The error that a goroutine has told.
abbrev told : {S R E : Type 0} → Worker S R E → Option E
told (noted s r e) = e
told (ended s r e) = e
told _ = none

map-replace :
    {A B : Type 0} (f : A → B) (pre post : List A) (x y : A)
    → f y ≡ f x
    → map f (pre ++ (y ∷ post)) ≡ map f (pre ++ (x ∷ post))
map-replace f [] post x y h = ap (λ t. t ∷ map f post) h
map-replace f (p ∷ pre) post x y h = ap (λ t. f p ∷ t) (map-replace f pre post x y h)

module _ {A : Type 0} (P : A → Type 0) where
  All-replace :
      (pre post : List A) (x y : A)
      → (P x → P y)
      → All P (pre ++ (x ∷ post))
      → All P (pre ++ (y ∷ post))
  All-replace [] post x y f (h, rest) = (f h, rest)
  All-replace (p ∷ pre) post x y f (h, rest) = (h, All-replace pre post x y f rest)

module _ {S R E : Type 0} (Returns : S → R → Option E → Type 0) where
  -- The report and the error of a goroutine are those of its scenario.
  abbrev Own : Worker S R E → Type 0
  Own (waiting s) = Unit
  Own (started s) = Unit
  Own (stored s r e) = Returns s r e
  Own (noted s r e) = Returns s r e
  Own (ended s r e) = Returns s r e

  -- Some scenario may return the error.
  abbrev pub Comes : E → Type 0
  Comes e = (s : S) × ((r : R) × Returns s r (some e))

  -- firstErr comes from a scenario, and while it is nil no goroutine has told an error.
  abbrev FromRuns : Option E → List (Worker S R E) → Type 0
  FromRuns none ws = All (λ w. told w ≡ none) ws
  FromRuns (some e) ws = Comes e

  record Sound (scenarios : List S) (a : Run S R E) : Type 0 where
    subjects : map subject a.workers ≡ scenarios
    own : All Own a.workers
    errors : FromRuns a.first_err a.workers

  keep_errors :
      (first : Option E) (pre post : List (Worker S R E)) (x y : Worker S R E)
      → told y ≡ told x
      → FromRuns first (pre ++ (x ∷ post))
      → FromRuns first (pre ++ (y ∷ post))
  keep_errors none pre post x y same h =
      All-replace (λ w. told w ≡ none) pre post x y (λ e. same ∙ e) h
  keep_errors (some e) pre post x y same h = h

  note_error :
      (first e : Option E) (pre post : List (Worker S R E)) (s : S) (r : R)
      → Returns s r e
      → FromRuns first (pre ++ (stored s r e ∷ post))
      → FromRuns (first_error first e) (pre ++ (noted s r e ∷ post))
  unfolding first_error
  note_error (some f) e pre post s r returns h = h
  note_error none none pre post s r returns h =
      All-replace (λ w. told w ≡ none) pre post (stored s r none) (noted s r none) (λ e. refl) h
  note_error none (some e) pre post s r returns h = (s, (r, returns))

  All-at : (pre post : List (Worker S R E)) (x : Worker S R E) → All Own (pre ++ (x ∷ post)) → Own x
  All-at [] post x h = h.0
  All-at (p ∷ pre) post x h = All-at pre post x h.1

  Moves-Sound :
      (scenarios : List S) (a b : Run S R E)
      → RunMoves Returns a b
      → Sound scenarios a
      → Sound scenarios b
  Moves-Sound scenarios a b (acquire pre post s n first) h = record {
    subjects = map-replace subject pre post (waiting s) (started s) refl ∙ h.subjects;
    own = All-replace Own pre post (waiting s) (started s) (λ u. tt) h.own;
    errors = keep_errors first pre post (waiting s) (started s) refl h.errors;
  }
  Moves-Sound scenarios a b (store pre post s r e n first returns) h = record {
    subjects = map-replace subject pre post (started s) (stored s r e) refl ∙ h.subjects;
    own = All-replace Own pre post (started s) (stored s r e) (λ u. returns) h.own;
    errors = keep_errors first pre post (started s) (stored s r e) refl h.errors;
  }
  Moves-Sound scenarios a b (note pre post s r e n first) h = record {
    subjects = map-replace subject pre post (stored s r e) (noted s r e) refl ∙ h.subjects;
    own = All-replace Own pre post (stored s r e) (noted s r e) (λ u. u) h.own;
    errors = note_error first e pre post s r (All-at pre post (stored s r e) h.own) h.errors;
  }
  Moves-Sound scenarios a b (release pre post s r e n first) h = record {
    subjects = map-replace subject pre post (noted s r e) (ended s r e) refl ∙ h.subjects;
    own = All-replace Own pre post (noted s r e) (ended s r e) (λ u. u) h.own;
    errors = keep_errors first pre post (noted s r e) (ended s r e) refl h.errors;
  }

  start-subjects : (ss : List S) → map (subject {S = S} {R = R} {E = E}) (map waiting ss) ≡ ss
  start-subjects [] = refl
  start-subjects (s ∷ ss) = ap (λ t. s ∷ t) (start-subjects ss)

  start-Own : (ss : List S) → All Own (map waiting ss)
  start-Own [] = tt
  start-Own (s ∷ ss) = (tt, start-Own ss)

  start-told : (ss : List S) → All (λ w. told {S = S} {R = R} {E = E} w ≡ none) (map waiting ss)
  start-told [] = tt
  start-told (s ∷ ss) = (refl, start-told ss)

  RunReaches-Sound :
      (scenarios : List S) (parallel : ℕ) (a : Run S R E)
      → RunReaches Returns (launch_run scenarios parallel) a
      → Sound scenarios a
  unfolding launch_run
  RunReaches-Sound scenarios parallel a begin = record {
    subjects = start-subjects scenarios;
    own = start-Own scenarios;
    errors = start-told scenarios;
  }
  RunReaches-Sound scenarios parallel a (go b c r m) =
      Moves-Sound scenarios b c m (RunReaches-Sound scenarios parallel b r)

  -- Each report is one that its scenario may return, and the error is nil where all are to be.
  pub data Answers (first : Option E) : List S → List (Option R) → Type 0 where
    no_more : Answers first [] []
    answer :
        (s : S) (r : R) (e : Option E) (ss : List S) (rs : List (Option R))
        → Returns s r e
        → (first ≡ none → e ≡ none)
        → Answers first ss rs
        → Answers first (s ∷ ss) (some r ∷ rs)

  answers :
      (first : Option E) (ws : List (Worker S R E))
      → All Own ws
      → (first ≡ none → All (λ w. told w ≡ none) ws)
      → AllEnded ws
      → Answers first (map subject ws) (stored_results ws)
  unfolding stored_results
  answers first [] own quiet done = no_more
  answers first (ended s r e ∷ ws) (o, own) quiet (d, done) =
      answer s r e _ _ o (λ h. (quiet h).0) (answers first ws own (λ h. (quiet h).1) done)
  answers first (waiting s ∷ ws) own quiet (d, done) = absurd (omega (arith, d))
  answers first (started s ∷ ws) own quiet (d, done) = absurd (omega (arith, d))
  answers first (stored s r e ∷ ws) own quiet (d, done) = absurd (omega (arith, d))
  answers first (noted s r e ∷ ws) own quiet (d, done) = absurd (omega (arith, d))

  quiet_errors :
      (first : Option E) (ws : List (Worker S R E))
      → FromRuns first ws
      → first ≡ none
      → All (λ w. told w ≡ none) ws
  quiet_errors none ws h e = h
  quiet_errors (some x) ws h e = cc

  -- When all goroutines have ended, in whatever order they ran, the suite has a report for each
  -- scenario at its place, which the scenario may return; the error is one that a scenario may return,
  -- and where there is none, no scenario returned one.
  pub RunReaches-Answers :
      (scenarios : List S) (parallel : ℕ) (a : Run S R E)
      → RunReaches Returns (launch_run scenarios parallel) a
      → AllEnded a.workers
      → Answers a.first_err scenarios (stored_results a.workers)
        × ((e : E) → a.first_err ≡ some e → Comes e)
  RunReaches-Answers scenarios parallel a reach done =
      let h = RunReaches-Sound scenarios parallel a reach in
      (
        subst (λ t. Answers a.first_err t (stored_results a.workers)) h.subjects
            (answers a.first_err a.workers h.own (quiet_errors a.first_err a.workers h.errors)
              done),
        λ e is_e. subst (λ t. FromRuns t a.workers) is_e h.errors,
      )
