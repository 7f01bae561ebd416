-- ===== src/Load/Samples/Counted.antt =====
-- internal/provider/load/runner.go: what the counters of a run count.
use tales.Base.{
  ℕ, ◌+◌, ◌≤◌, List, [], ◌∷◌, length, none, some, if◌then◌else◌, ◌≡◌, refl, arith, length-append,
}
use tales.Load.Samples.{
  StatusCounts, RunResult, Sample, within, count_status, record_sample, new_result, record_all,
}

abbrev pub total : StatusCounts → ℕ
total c = c.c0 + c.c1 + c.c2 + c.c3 + c.c4 + c.c5

-- The counters: each request has one latency, an error is counted in class 0, no request is counted
-- in two classes, and the first error is kept exactly if there is an error.
pub record Consistent (r : RunResult) : Type 0 where
  pub measured : length r.latencies ≡ r.requests
  pub class_zero : r.status_counts.c0 ≡ r.errors
  pub classes : total r.status_counts ≤ r.requests
  pub no_message : r.errors ≡ 0 → r.first_error ≡ none
  pub message : r.first_error ≡ none → r.errors ≡ 0

record_sample-Consistent :
    (s : Sample) (r : RunResult) → Consistent r → Consistent (record_sample s r)
unfolding record_sample count_status
record_sample-Consistent s r h = ground (
  arith,
  length-append r.latencies (s.latency ∷ []),
  h.measured,
  h.class_zero,
  h.classes,
  h.no_message,
  h.message,
)

record_all-Consistent_from :
    (samples : List Sample) (r : RunResult) → Consistent r → Consistent (record_all samples r)
record_all-Consistent_from [] r h = h
record_all-Consistent_from (s ∷ samples) r h =
    record_all-Consistent_from samples (record_sample s r) (record_sample-Consistent s r h)

new_result-Consistent : Consistent new_result
new_result-Consistent = record {
  measured = refl;
  class_zero = refl;
  classes = omega arith;
  no_message = λ h. refl;
  message = λ h. refl;
}

-- In whatever order the workers record the samples, the counters agree: each request has one
-- latency, class 0 counts the errors, no request is counted in two classes, and the first error is
-- kept exactly if there is an error.
pub record_all-Consistent : (samples : List Sample) → Consistent (record_all samples new_result)
record_all-Consistent samples = record_all-Consistent_from samples new_result new_result-Consistent

-- A request that was answered with a status in the range.
unfoldable pub answered : ℕ → ℕ → Sample → ℕ
answered low high s = elim s.error [ some e ↦ 0 | none ↦ if within low s.status high then 1 else 0 ]

unfoldable pub errored : Sample → ℕ
errored s = elim s.error [ some e ↦ 1 | none ↦ 0 ]

abbrev pub sum : (Sample → ℕ) → List Sample → ℕ
sum f [] = 0
sum f (s ∷ samples) = f s + sum f samples

-- A counter to which each sample adds its amount.
record_all-sum :
    (counter : RunResult → ℕ) (f : Sample → ℕ)
    → ((s : Sample) (r : RunResult) → counter (record_sample s r) ≡ counter r + f s)
    → (samples : List Sample) (r : RunResult)
    → counter (record_all samples r) ≡ counter r + sum f samples
record_all-sum counter f step [] r = omega arith
record_all-sum counter f step (s ∷ samples) r =
    omega (arith, record_all-sum counter f step samples (record_sample s r), step s r)

record_sample-requests :
    (s : Sample) (r : RunResult) → (record_sample s r).requests ≡ r.requests + 1
unfolding record_sample
record_sample-requests s r = ground arith

record_sample-errors :
    (s : Sample) (r : RunResult) → (record_sample s r).errors ≡ r.errors + errored s
unfolding record_sample errored
record_sample-errors s r = ground arith

record_sample-bytes_in :
    (s : Sample) (r : RunResult) → (record_sample s r).bytes_in ≡ r.bytes_in + s.bytes_in
unfolding record_sample
record_sample-bytes_in s r = ground arith

record_sample-bytes_out :
    (s : Sample) (r : RunResult) → (record_sample s r).bytes_out ≡ r.bytes_out + s.bytes_out
unfolding record_sample
record_sample-bytes_out s r = ground arith

record_sample-c1 :
    (s : Sample) (r : RunResult)
    → (record_sample s r).status_counts.c1 ≡ r.status_counts.c1 + answered 100 200 s
unfolding record_sample count_status answered
record_sample-c1 s r = ground arith

record_sample-c2 :
    (s : Sample) (r : RunResult)
    → (record_sample s r).status_counts.c2 ≡ r.status_counts.c2 + answered 200 300 s
unfolding record_sample count_status answered
record_sample-c2 s r = ground arith

record_sample-c3 :
    (s : Sample) (r : RunResult)
    → (record_sample s r).status_counts.c3 ≡ r.status_counts.c3 + answered 300 400 s
unfolding record_sample count_status answered
record_sample-c3 s r = ground arith

record_sample-c4 :
    (s : Sample) (r : RunResult)
    → (record_sample s r).status_counts.c4 ≡ r.status_counts.c4 + answered 400 500 s
unfolding record_sample count_status answered
record_sample-c4 s r = ground arith

record_sample-c5 :
    (s : Sample) (r : RunResult)
    → (record_sample s r).status_counts.c5 ≡ r.status_counts.c5 + answered 500 600 s
unfolding record_sample count_status answered
record_sample-c5 s r = ground arith

module _ (samples : List Sample) where
  from_zero :
      (counter : RunResult → ℕ) (f : Sample → ℕ)
      → ((s : Sample) (r : RunResult) → counter (record_sample s r) ≡ counter r + f s)
      → counter new_result ≡ 0
      → counter (record_all samples new_result) ≡ sum f samples
  from_zero counter f step z = omega (arith, record_all-sum counter f step samples new_result, z)

  -- The counters of a run are sums over its samples, so that the order in which the workers record
  -- them does not matter: the requests, the errors, the bytes of both directions, and the answers of
  -- each class of status.
  pub record_all-counts :
      ((record_all samples new_result).requests ≡ sum (λ s. 1) samples)
      × ((record_all samples new_result).errors ≡ sum errored samples)
      × ((record_all samples new_result).bytes_in ≡ sum (λ s. s.bytes_in) samples)
      × ((record_all samples new_result).bytes_out ≡ sum (λ s. s.bytes_out) samples)
      × ((record_all samples new_result).status_counts.c1 ≡ sum (answered 100 200) samples)
      × ((record_all samples new_result).status_counts.c2 ≡ sum (answered 200 300) samples)
      × ((record_all samples new_result).status_counts.c3 ≡ sum (answered 300 400) samples)
      × ((record_all samples new_result).status_counts.c4 ≡ sum (answered 400 500) samples)
      × ((record_all samples new_result).status_counts.c5 ≡ sum (answered 500 600) samples)
  record_all-counts = (
    from_zero (λ r. r.requests) (λ s. 1) record_sample-requests refl,
    from_zero (λ r. r.errors) errored record_sample-errors refl,
    from_zero (λ r. r.bytes_in) (λ s. s.bytes_in) record_sample-bytes_in refl,
    from_zero (λ r. r.bytes_out) (λ s. s.bytes_out) record_sample-bytes_out refl,
    from_zero (λ r. r.status_counts.c1) (answered 100 200) record_sample-c1 refl,
    from_zero (λ r. r.status_counts.c2) (answered 200 300) record_sample-c2 refl,
    from_zero (λ r. r.status_counts.c3) (answered 300 400) record_sample-c3 refl,
    from_zero (λ r. r.status_counts.c4) (answered 400 500) record_sample-c4 refl,
    from_zero (λ r. r.status_counts.c5) (answered 500 600) record_sample-c5 refl,
  )
