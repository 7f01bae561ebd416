-- ===== src/Webhook/Receiver/Woken.antt =====
-- internal/provider/webhook/server.go: a waiter is woken when enough requests are there.
use tales.Base.{
  ℕ, zero, suc, ◌<◌, ◌≤◌, String, List, [], ◌∷◌, ◌++◌, Bool, true, false, leb, length, Bytes, ◌≡◌,
  refl, ◌⊎◌, inl, inr, arith, Bool-cases,
}
use tales.Webhook.Receiver.{
  ReceivedRequest, Waiter, checking, selecting, expired, returned, timed_out, cancelled,
  ReceiverState, check_count, Exchange, capture, refuse, append, notify, check, receive, deadline,
  time_out, cancel, Reaches, here, move, waiting_from,
}

module _ {V : Type 0} (decode : String → Bytes → V) (path : String) (max_body count : ℕ) where
  -- A waiter in the select has too few requests yet, or a signal is there or will come.
  abbrev Alert : Waiter V → List (ReceivedRequest V) → Bool → ℕ → Type 0
  Alert selecting requests signal n = (length requests < count) ⊎ ((signal ≡ true) ⊎ (0 < n))
  Alert _ requests signal n = Unit

  check-Alert :
      (requests : List (ReceivedRequest V)) (signal : Bool) (n : ℕ)
      → Alert (check_count count requests) requests signal n
  unfolding check_count
  check-Alert requests signal n = elim (Bool-cases (leb count (length requests))) [
    | inl enough ↦ rw (enough, check_count) tt
    | inr few ↦ rw (few, check_count) (inl (ground (arith, few)))
  ]

  append-Alert :
      (w : Waiter V) (requests : List (ReceivedRequest V)) (signal : Bool) (n : ℕ)
      → Alert w requests signal (suc n)
  append-Alert checking requests signal n = tt
  append-Alert selecting requests signal n = inr (inr (omega arith))
  append-Alert expired requests signal n = tt
  append-Alert (returned snapshot) requests signal n = tt
  append-Alert (timed_out got) requests signal n = tt
  append-Alert cancelled requests signal n = tt

  notify-Alert :
      (w : Waiter V) (requests : List (ReceivedRequest V)) (n : ℕ) → Alert w requests true n
  notify-Alert checking requests n = tt
  notify-Alert selecting requests n = inr (inl refl)
  notify-Alert expired requests n = tt
  notify-Alert (returned snapshot) requests n = tt
  notify-Alert (timed_out got) requests n = tt
  notify-Alert cancelled requests n = tt

  Exchange-Alert :
      (s t : ReceiverState V)
      → Exchange decode path max_body count s t
      → Alert s.waiter s.requests s.signal s.recorded
      → Alert t.waiter t.requests t.signal t.recorded
  Exchange-Alert s t (capture s' r c e) h = h
  Exchange-Alert s t (refuse s' r e e') h = h
  Exchange-Alert s t (append requests pre post c signal n w) h =
      append-Alert w (requests ++ (c ∷ [])) signal n
  Exchange-Alert s t (notify requests captured signal n w) h = notify-Alert w requests n
  Exchange-Alert s t (check requests captured signal n) h = check-Alert requests signal n
  Exchange-Alert s t (receive requests captured n) h = tt
  Exchange-Alert s t (deadline requests captured signal n) h = tt
  Exchange-Alert s t (time_out requests captured signal n) h = tt
  Exchange-Alert s t (cancel requests captured signal n) h = tt

  Reaches-Alert :
      (s t : ReceiverState V)
      → Reaches decode path max_body count (waiting_from s) t
      → Alert t.waiter t.requests t.signal t.recorded
  Reaches-Alert s t here = tt
  Reaches-Alert s t (move u t' r m) = Exchange-Alert u t' m (Reaches-Alert s u r)

  returns :
      (requests : List (ReceivedRequest V))
      → count ≤ length requests
      → check_count count requests ≡ returned requests
  unfolding check_count
  returns requests enough = ground (arith, enough)

  -- The waiter takes the signal and finds the requests.
  takes :
      (requests captured : List (ReceivedRequest V)) (n : ℕ)
      → count ≤ length requests
      → (u : ReceiverState V) × Reaches decode path max_body count
          (record {
            requests = requests;
            signal = true;
            captured = captured;
            recorded = n;
            waiter = selecting;
          })
          u
        × (u.waiter ≡ returned requests)
  takes requests captured n enough = (
    record {
      requests = requests;
      signal = false;
      captured = captured;
      recorded = n;
      waiter = check_count count requests;
    },
    move _ _ (move _ _ here (receive requests captured n)) (check requests captured false n),
    returns requests enough,
  )

  Reaches-trans :
      (s t u : ReceiverState V)
      → Reaches decode path max_body count s t
      → Reaches decode path max_body count t u
      → Reaches decode path max_body count s u
  Reaches-trans s t u r here = r
  Reaches-trans s t u r (move v u' r' m) = move v u' (Reaches-trans s t v r r') m

  woken :
      (requests captured : List (ReceivedRequest V)) (signal : Bool) (n : ℕ)
      → count ≤ length requests
      → Alert selecting requests signal n
      → (u : ReceiverState V) × Reaches decode path max_body count
          (record {
            requests = requests;
            signal = signal;
            captured = captured;
            recorded = n;
            waiter = selecting;
          })
          u
        × (u.waiter ≡ returned requests)
  woken requests captured signal n enough (inl few) = absurd (omega (arith, enough, few))
  woken requests captured true n enough (inr alert) = takes requests captured n enough
  woken requests captured false zero enough (inr (inl on)) = cc
  woken requests captured false zero enough (inr (inr some)) = absurd (omega (arith, some))
  woken requests captured false (suc n) enough (inr alert) =
      let (u, r, e) = takes requests captured n enough in
      (u, Reaches-trans _ _ u (move _ _ here (notify requests captured false n selecting)) r, e)

  -- No wake-up is lost: whenever a waiter stands in the select while enough requests are recorded, in
  -- any interleaving with the handlers, it can go on to return all of them, without another request
  -- and before its deadline.
  pub waiter-Woken :
      (s : ReceiverState V) (requests captured : List (ReceivedRequest V)) (signal : Bool) (n : ℕ)
      → Reaches decode path max_body count (waiting_from s) (record {
        requests = requests;
        signal = signal;
        captured = captured;
        recorded = n;
        waiter = selecting;
      })
      → count ≤ length requests
      → (u : ReceiverState V) × Reaches decode path max_body count
          (record {
            requests = requests;
            signal = signal;
            captured = captured;
            recorded = n;
            waiter = selecting;
          })
          u
        × (u.waiter ≡ returned requests)
  waiter-Woken s requests captured signal n reach enough =
      woken requests captured signal n enough (Reaches-Alert s _ reach)
