-- ===== src/Load/Workers/Exact.antt =====
-- internal/provider/load/runner.go: how many samples the workers record, in any interleaving.
use tales.Base.{
  ℕ, zero, suc, ◌+◌, ◌≤◌, ◌<◌, List, [], ◌∷◌, ◌++◌, Bool, true, false, ◌||◌, if◌then◌else◌, ◌≡◌,
  refl, sym, ◌∙◌, arith, false≢true, ◌==◌, All, length, length-append,
}
use tales.Load.Workers.{
  Remaining, pos, negsuc, decrement, is_negative, Phase, top, checked, claimed, ready, exited,
  State, check, claim, Moves, cancel, check_context, take_request, wait_token, wait_cancelled,
  sample, idle, start, Reaches, here, move,
}

abbrev pub left : Remaining → ℕ
left (pos n) = n
left (negsuc n) = 0

-- The requests that a worker holds.
abbrev pub weight : Phase → ℕ
weight claimed = 1
weight ready = 1
weight _ = 0

abbrev pub held : List Phase → ℕ
held [] = 0
held (p ∷ ps) = weight p + held ps

abbrev pub is_exited : Phase → Bool
is_exited exited = true
is_exited _ = false

abbrev pub any_exited : List Phase → Bool
any_exited [] = false
any_exited (p ∷ ps) = is_exited p || any_exited ps

held-append : (ps qs : List Phase) → held (ps ++ qs) ≡ held ps + held qs
held-append [] qs = omega arith
held-append (p ∷ ps) qs = omega (arith, held-append ps qs)

any_exited-append : (ps qs : List Phase) → any_exited (ps ++ qs) ≡ (any_exited ps || any_exited qs)
any_exited-append [] qs = refl
any_exited-append (p ∷ ps) qs = ground (arith, any_exited-append ps qs)

-- Of `total` requests: none is lost unless the run is cancelled, and no worker leaves before they
-- are spent.
record Inv (total : ℕ) (s : State) : Type 0 where
  bound : left s.remaining + held s.workers + s.requests ≤ total
  exact : s.cancelled ≡ false → left s.remaining + held s.workers + s.requests ≡ total
  manned : 1 ≤ length s.workers
  spent : s.cancelled ≡ false → any_exited s.workers ≡ true → is_negative s.remaining ≡ true

-- One worker changes from `p` to `q`.
module _ (pre post : List Phase) (p q : Phase) where
  replaced-held : held (pre ++ (p ∷ post)) + weight q ≡ held (pre ++ (q ∷ post)) + weight p
  replaced-held = omega (arith, held-append pre (p ∷ post), held-append pre (q ∷ post))

  replaced-length : length (pre ++ (p ∷ post)) ≡ length (pre ++ (q ∷ post))
  replaced-length = omega (arith, length-append pre (p ∷ post), length-append pre (q ∷ post))

  replaced-exited :
      is_exited q ≡ false
      → any_exited (pre ++ (q ∷ post)) ≡ true
      → any_exited (pre ++ (p ∷ post)) ≡ true
  replaced-exited h e =
      ground (arith, any_exited-append pre (p ∷ post), any_exited-append pre (q ∷ post))

Moves-Inv : (total : ℕ) (s t : State) → Moves s t → Inv total s → Inv total t
unfolding decrement
Moves-Inv total s t (cancel _) inv = record {
  bound = inv.bound;
  exact = λ e. cc;
  manned = inv.manned;
  spent = λ e. cc;
}
Moves-Inv total s t (check_context r c pre post n) inv = ground (
  arith,
  replaced-held pre post top (check c),
  replaced-length pre post top (check c),
  replaced-exited pre post top (check c),
  inv.bound,
  inv.exact,
  inv.manned,
  inv.spent,
)
Moves-Inv total s t (take_request r c pre post n) inv = ground (
  arith,
  replaced-held pre post checked (claim (decrement r)),
  replaced-length pre post checked (claim (decrement r)),
  replaced-exited pre post checked (claim (decrement r)),
  inv.bound,
  inv.exact,
  inv.manned,
  inv.spent,
)
Moves-Inv total s t (wait_token r c pre post n) inv = ground (
  arith,
  replaced-held pre post claimed ready,
  replaced-length pre post claimed ready,
  replaced-exited pre post claimed ready,
  inv.bound,
  inv.exact,
  inv.manned,
  inv.spent,
)
Moves-Inv total s t (wait_cancelled r pre post n) inv = ground (
  arith,
  replaced-held pre post claimed exited,
  replaced-length pre post claimed exited,
  replaced-exited pre post claimed exited,
  inv.bound,
  inv.exact,
  inv.manned,
  inv.spent,
)
Moves-Inv total s t (sample r c pre post n) inv = ground (
  arith,
  replaced-held pre post ready top,
  replaced-length pre post ready top,
  replaced-exited pre post ready top,
  inv.bound,
  inv.exact,
  inv.manned,
  inv.spent,
)

held-idle : (n : ℕ) → held (idle n) ≡ 0
held-idle zero = refl
held-idle (suc n) = omega (arith, held-idle n)

any_exited-idle : (n : ℕ) → any_exited (idle n) ≡ false
any_exited-idle zero = refl
any_exited-idle (suc n) = any_exited-idle n

length-idle : (n : ℕ) → length (idle n) ≡ n
length-idle zero = refl
length-idle (suc n) = omega (arith, length-idle n)

start-Inv :
    (requests concurrency : ℕ) (limited : 0 < requests)
    → Inv requests (start requests limited concurrency)
unfolding start
start-Inv requests concurrency limited =
    let n : ℕ = if concurrency == 0 then 1 else concurrency in
    let some_worker : 1 ≤ n = ground arith in
    record {
      bound = omega (arith, held-idle n);
      exact = λ e. omega (arith, held-idle n);
      manned = omega (arith, length-idle n);
      spent = λ e e'. absurd (false≢true (sym (any_exited-idle n) ∙ e'));
    }

Reaches-Inv : (total : ℕ) (s t : State) → Inv total s → Reaches s t → Inv total t
Reaches-Inv total s t inv here = inv
Reaches-Inv total s t inv (move u _ r m) = Moves-Inv total u t m (Reaches-Inv total s u inv r)

left-spent : (r : Remaining) → is_negative r ≡ true → left r ≡ 0
left-spent r h = ground arith

gone-held : (ps : List Phase) → All (λ p. p ≡ exited) ps → held ps ≡ 0
gone-held [] h = refl
gone-held (p ∷ ps) h = rw h.0 (omega (arith, gone-held ps h.1))

gone-any : (ps : List Phase) → 1 ≤ length ps → All (λ p. p ≡ exited) ps → any_exited ps ≡ true
gone-any [] n h = absurd (omega arith)
gone-any (p ∷ ps) n h = rw h.0 refl

-- However the workers interleave, they never record more samples than the requests configured.
pub requests-bound :
    (requests concurrency : ℕ) (limited : 0 < requests) (s : State)
    → Reaches (start requests limited concurrency) s
    → s.requests ≤ requests
requests-bound requests concurrency limited s r =
    let inv = Reaches-Inv requests _ s (start-Inv requests concurrency limited) r in
    omega (arith, inv.bound)

-- However the workers of a run in requests mode interleave, if the run is not cancelled, then once all of them have left they
-- have recorded exactly as many samples as the requests configured.
pub requests-exact :
    (requests concurrency : ℕ) (limited : 0 < requests) (s : State)
    → Reaches (start requests limited concurrency) s
    → s.cancelled ≡ false
    → All (λ p. p ≡ exited) s.workers
    → s.requests ≡ requests
requests-exact requests concurrency limited s r c gone =
    let inv = Reaches-Inv requests _ s (start-Inv requests concurrency limited) r in
    let none_left = left-spent s.remaining (inv.spent c (gone-any s.workers inv.manned gone)) in
    omega (arith, inv.exact c, none_left, gone-held s.workers gone)
