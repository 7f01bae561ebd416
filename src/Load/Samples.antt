-- ===== src/Load/Samples.antt =====
-- internal/provider/load/runner.go: the counters of a run, runResult and recordSample. The numbers
-- stand for int and int64 that do not overflow.
pub mod Counted
use tales.Base.{
  ℕ, suc, ◌+◌, ◌≤◌, String, List, [], ◌∷◌, ◌++◌, length, Option, none, some, Bool, true, false,
  ◌&&◌, leb, ltb, if◌then◌else◌, ◌≡◌, refl, sym, ap, ◌∙◌, arith, length-append,
}

-- statusCounts, an array of six.
pub record StatusCounts : Type 0 where
  pub c0 : ℕ
  pub c1 : ℕ
  pub c2 : ℕ
  pub c3 : ℕ
  pub c4 : ℕ
  pub c5 : ℕ

pub record RunResult : Type 0 where
  pub requests : ℕ
  pub errors : ℕ
  pub status_counts : StatusCounts
  pub bytes_in : ℕ
  pub bytes_out : ℕ
  pub latencies : List ℕ
  -- The message and whether firstErrorOnce is done.
  pub first_error : Option String

-- What doOne returns.
pub record Sample : Type 0 where
  pub latency : ℕ
  pub status : ℕ
  pub bytes_in : ℕ
  pub bytes_out : ℕ
  pub error : Option String

abbrev pub within : ℕ → ℕ → ℕ → Bool
within low status high = leb low status && ltb status high

unfoldable pub count_status : ℕ → StatusCounts → StatusCounts
count_status status c =
    if within 100 status 200
    then record c { c1 = suc c.c1 }
    else if within 200 status 300
    then record c { c2 = suc c.c2 }
    else if within 300 status 400
    then record c { c3 = suc c.c3 }
    else if within 400 status 500
    then record c { c4 = suc c.c4 }
    else if within 500 status 600
    then record c { c5 = suc c.c5 }
    else c

abbrev pub once : Option String → String → Option String
once (some message) e = some message
once none e = some e

unfoldable pub record_sample : Sample → RunResult → RunResult
record_sample s r =
    let added : RunResult = record r {
      requests = suc r.requests;
      latencies = r.latencies ++ (s.latency ∷ []);
      bytes_in = r.bytes_in + s.bytes_in;
      bytes_out = r.bytes_out + s.bytes_out;
    } in
    elim s.error [
      | some e ↦ record added {
        errors = suc r.errors;
        status_counts = record r.status_counts { c0 = suc r.status_counts.c0 };
        first_error = once r.first_error e;
      }
      | none ↦ record added { status_counts = count_status s.status r.status_counts }
    ]

abbrev pub new_result : RunResult
new_result = record {
  requests = 0;
  errors = 0;
  status_counts = record { c0 = 0; c1 = 0; c2 = 0; c3 = 0; c4 = 0; c5 = 0 };
  bytes_in = 0;
  bytes_out = 0;
  latencies = [];
  first_error = none;
}

-- The samples in the order in which the workers hold the lock.
abbrev pub record_all : List Sample → RunResult → RunResult
record_all [] r = r
record_all (s ∷ samples) r = record_all samples (record_sample s r)
