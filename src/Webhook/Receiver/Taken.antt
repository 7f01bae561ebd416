-- ===== src/Webhook/Receiver/Taken.antt =====
-- internal/provider/webhook/server.go: what is recorded, and what a waiter returns.
use tales.Base.{
  ℕ, ◌≤◌, String, str_eq, eq_iff, List, [], ◌∷◌, ◌++◌, append_assoc, append-nil, leb, ltb, length,
  length-append, Bytes, ◌≡◌, sym, ap, ◌∙◌, inl, inr, arith, Bool-cases, subst, All, All-append,
  Result, ok, ok-injective,
}
use tales.Webhook.Receiver.{
  as_received, ReceivedRequest, Incoming, Refusal, read_body, handle, Waiter, checking, selecting,
  expired, returned, timed_out, cancelled, ReceiverState, check_count, Exchange, capture, refuse,
  append, notify, check, receive, deadline, time_out, cancel, Reaches, here, move, waiting_from,
}

module _ {V : Type 0} (decode : String → Bytes → V) (path : String) (max_body count : ℕ) where
  -- A request of the receiver's path whose body is within the limit.
  abbrev pub Fits : ReceivedRequest V → Type 0
  Fits c = (c.path ≡ path) × (length c.raw_body ≤ max_body)

  handle-Fits :
      (r : Incoming) (c : ReceivedRequest V) → handle decode path max_body r ≡ ok c → Fits c
  unfolding handle read_body
  handle-Fits r c h = elim (Bool-cases (str_eq r.path path)) [
    | inr other ↦ absurd (ground (arith, h, other))
    | inl same ↦ elim (Bool-cases (ltb max_body (length r.body))) [
      | inl large ↦ absurd (ground (arith, h, same, large))
      | inr small ↦ elim (Bool-cases r.broken) [
        | inl broken ↦ absurd (ground (arith, h, same, small, broken))
        | inr whole ↦
            let made : ◌≡◌ {A = Result Refusal (ReceivedRequest V)}
                (ok (as_received decode r r.body)) (ok c) =
              ground (arith, h, same, small, whole) in
            subst Fits (ok-injective made) ((eq_iff r.path path).0 same, ground (arith, small))
      ]
    ]
  ]

  All-split :
      (pre post : List (ReceivedRequest V)) (c : ReceivedRequest V)
      → All Fits (pre ++ (c ∷ post))
      → Fits c × All Fits (pre ++ post)
  All-split [] post c h = h
  All-split (x ∷ pre) post c (hx, h) = let (hc, rest) = All-split pre post c h in (hc, (hx, rest))

  -- What a waiter has returned or reported, against the requests recorded since `before`.
  abbrev Answer : Waiter V → List (ReceivedRequest V) → Type 0
  Answer (returned snapshot) requests =
      (count ≤ length snapshot)
      × ((more : List (ReceivedRequest V)) × (requests ≡ snapshot ++ more))
  Answer (timed_out got) requests = got ≤ length requests
  Answer _ requests = Unit

  Answer-append :
      (w : Waiter V) (requests : List (ReceivedRequest V)) (c : ReceivedRequest V)
      → Answer w requests
      → Answer w (requests ++ (c ∷ []))
  Answer-append checking requests c h = tt
  Answer-append selecting requests c h = tt
  Answer-append expired requests c h = tt
  Answer-append cancelled requests c h = tt
  Answer-append (timed_out got) requests c h = omega (arith, h, length-append requests (c ∷ []))
  Answer-append (returned snapshot) requests c (enough, (more, e)) =
      (enough, (more ++ (c ∷ []), ap (λ t. t ++ (c ∷ [])) e ∙ append_assoc snapshot more (c ∷ [])))

  Answer-check :
      (requests : List (ReceivedRequest V)) → Answer (check_count count requests) requests
  unfolding check_count
  Answer-check requests = elim (Bool-cases (leb count (length requests))) [
    | inl enough ↦
        rw (enough, check_count) (ground (arith, enough), ([], sym (append-nil requests)))
    | inr few ↦ rw (few, check_count) tt
  ]

  -- The receiver records requests that fit, and a waiter answers with enough of them.
  pub record Sound (before : List (ReceivedRequest V)) (s : ReceiverState V) : Type 0 where
    pub kept : (more : List (ReceivedRequest V)) × (s.requests ≡ before ++ more) × All Fits more
    pub coming : All Fits s.captured
    pub answer : Answer s.waiter s.requests

  append-kept :
      (before requests : List (ReceivedRequest V)) (c : ReceivedRequest V)
      → Fits c
      → (more : List (ReceivedRequest V)) × (requests ≡ before ++ more) × All Fits more
      → (more : List (ReceivedRequest V)) × ((requests ++ (c ∷ [])) ≡ before ++ more)
        × All Fits more
  append-kept before requests c fits (more, e, all) = (
    more ++ (c ∷ []),
    ap (λ t. t ++ (c ∷ [])) e ∙ append_assoc before more (c ∷ []),
    All-append Fits more (c ∷ []) all (fits, tt),
  )

  Exchange-Sound :
      (before : List (ReceivedRequest V)) (s t : ReceiverState V)
      → Exchange decode path max_body count s t
      → Sound before s
      → Sound before t
  Exchange-Sound before s t (capture s' r c e) h = record {
    kept = h.kept;
    coming = (handle-Fits r c e, h.coming);
    answer = h.answer;
  }
  Exchange-Sound before s t (refuse s' r e e') h = h
  Exchange-Sound before s t (append requests pre post c signal n w) h =
      let (fits, rest) = All-split pre post c h.coming in
      record {
        kept = append-kept before requests c fits h.kept;
        coming = rest;
        answer = Answer-append w requests c h.answer;
      }
  Exchange-Sound before s t (notify requests captured signal n w) h = record {
    kept = h.kept;
    coming = h.coming;
    answer = h.answer;
  }
  Exchange-Sound before s t (check requests captured signal n) h = record {
    kept = h.kept;
    coming = h.coming;
    answer = Answer-check requests;
  }
  Exchange-Sound before s t (receive requests captured n) h = record {
    kept = h.kept;
    coming = h.coming;
    answer = tt;
  }
  Exchange-Sound before s t (deadline requests captured signal n) h = record {
    kept = h.kept;
    coming = h.coming;
    answer = tt;
  }
  Exchange-Sound before s t (time_out requests captured signal n) h = record {
    kept = h.kept;
    coming = h.coming;
    answer = omega arith;
  }
  Exchange-Sound before s t (cancel requests captured signal n) h = record {
    kept = h.kept;
    coming = h.coming;
    answer = tt;
  }

  -- In any interleaving of handlers and a waiter, where the requests on their way fit: what is recorded
  -- stays and gets only requests of the receiver's path with a body within the limit; what a waiter
  -- returns are the first of the requests, as many as it waits for or more; a timeout reports no more
  -- requests than there are.
  pub Reaches-Sound :
      (s t : ReceiverState V)
      → All Fits s.captured
      → Reaches decode path max_body count (waiting_from s) t
      → Sound s.requests t
  Reaches-Sound s t fits here = record {
    kept = ([], sym (append-nil s.requests), tt);
    coming = fits;
    answer = tt;
  }
  Reaches-Sound s t fits (move u t' r m) =
      Exchange-Sound s.requests u t' m (Reaches-Sound s u fits r)
