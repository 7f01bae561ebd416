-- ===== src/Webhook/Receiver.antt =====
-- internal/provider/webhook/server.go: the receiver, whose handlers run beside the one step that waits
-- for requests. `V` are the values that bodies are decoded to.
pub mod Woken
pub mod Taken
use tales.Base.{
  ℕ, zero, suc, String, str_eq, List, [], ◌∷◌, ◌++◌, Option, none, some, Bool, true, false, not,
  if◌then◌else◌, leb, ltb, length, Bytes, Result, ok, err, ◌≡◌,
}

pub record ReceivedRequest (V : Type 0) : Type 0 where
  pub method : String
  pub path : String
  pub query : List (String × List String)
  pub headers : List (String × List String)
  pub raw_body : Bytes
  pub json_body : V
  pub remote_addr : String

-- A request as it comes: `body` are the bytes that arrive, `broken` that the sender fails after them.
pub record Incoming : Type 0 where
  pub method : String
  pub path : String
  pub query : List (String × List String)
  pub headers : List (String × List String)
  pub content_type : String
  pub body : Bytes
  pub broken : Bool
  pub remote_addr : String

-- The answers without a record: http.NotFound, and the two of http.Error.
pub data Refusal : Type 0 where
  not_found payload_too_large cannot_read_body : Refusal

-- io.ReadAll of the MaxBytesReader.
unfoldable pub read_body : ℕ → Incoming → Result Refusal Bytes
read_body max_body r =
    if ltb max_body (length r.body)
    then err payload_too_large
    else if r.broken
    then err cannot_read_body
    else ok r.body

module _ {V : Type 0} (decode_body_json : String → Bytes → V) where
  abbrev pub as_received : Incoming → Bytes → ReceivedRequest V
  as_received r body = record {
    method = r.method;
    path = r.path;
    query = r.query;
    headers = r.headers;
    raw_body = body;
    json_body = decode_body_json r.content_type body;
    remote_addr = r.remote_addr;
  }

  -- handle, up to the lock.
  unfoldable pub handle : String → ℕ → Incoming → Result Refusal (ReceivedRequest V)
  handle path max_body r =
      if not (str_eq r.path path) then err not_found else elim (read_body max_body r) [
        | err refusal ↦ err refusal
        | ok body ↦ ok (as_received r body)
      ]

-- Where waitFor stands: before the lock, in the select, after the deadline, or at its end.
pub data Waiter (V : Type 0) : Type 0 where
  checking : Waiter V
  selecting : Waiter V
  expired : Waiter V
  returned : List (ReceivedRequest V) → Waiter V
  timed_out : ℕ → Waiter V
  cancelled : Waiter V

-- The receiver with its handlers: the requests that are captured and not yet recorded, the number of
-- handlers that have recorded and not yet signalled, and whether the slot of the channel is taken.
pub record ReceiverState (V : Type 0) : Type 0 where
  pub requests : List (ReceivedRequest V)
  pub signal : Bool
  pub captured : List (ReceivedRequest V)
  pub recorded : ℕ
  pub waiter : Waiter V

-- The test under the lock.
unfoldable pub check_count : {V : Type 0} → ℕ → List (ReceivedRequest V) → Waiter V
check_count count requests = if leb count (length requests) then returned requests else selecting

module _ {V : Type 0} (decode_body_json : String → Bytes → V) (path : String)
    (max_body count : ℕ) where
  -- A step of a handler or of the waiter, between two accesses of what they share.
  pub data Exchange : ReceiverState V → ReceiverState V → Type 0 where
    capture :
        (s : ReceiverState V) (r : Incoming) (c : ReceivedRequest V)
        → handle decode_body_json path max_body r ≡ ok c
        → Exchange s (record s { captured = c ∷ s.captured })
    refuse :
        (s : ReceiverState V) (r : Incoming) (e : Refusal)
        → handle decode_body_json path max_body r ≡ err e
        → Exchange s s
    append :
        (requests pre post : List (ReceivedRequest V)) (c : ReceivedRequest V) (signal : Bool)
        (n : ℕ) (w : Waiter V)
        → Exchange
            (record {
              requests = requests;
              signal = signal;
              captured = pre ++ (c ∷ post);
              recorded = n;
              waiter = w;
            })
            (record {
              requests = requests ++ (c ∷ []);
              signal = signal;
              captured = pre ++ post;
              recorded = suc n;
              waiter = w;
            })
    notify :
        (requests captured : List (ReceivedRequest V)) (signal : Bool) (n : ℕ) (w : Waiter V)
        → Exchange
            (record {
              requests = requests;
              signal = signal;
              captured = captured;
              recorded = suc n;
              waiter = w;
            })
            (record {
              requests = requests;
              signal = true;
              captured = captured;
              recorded = n;
              waiter = w;
            })
    check :
        (requests captured : List (ReceivedRequest V)) (signal : Bool) (n : ℕ)
        → Exchange
            (record {
              requests = requests;
              signal = signal;
              captured = captured;
              recorded = n;
              waiter = checking;
            })
            (record {
              requests = requests;
              signal = signal;
              captured = captured;
              recorded = n;
              waiter = check_count count requests;
            })
    receive :
        (requests captured : List (ReceivedRequest V)) (n : ℕ)
        → Exchange
            (record {
              requests = requests;
              signal = true;
              captured = captured;
              recorded = n;
              waiter = selecting;
            })
            (record {
              requests = requests;
              signal = false;
              captured = captured;
              recorded = n;
              waiter = checking;
            })
    deadline :
        (requests captured : List (ReceivedRequest V)) (signal : Bool) (n : ℕ)
        → Exchange
            (record {
              requests = requests;
              signal = signal;
              captured = captured;
              recorded = n;
              waiter = selecting;
            })
            (record {
              requests = requests;
              signal = signal;
              captured = captured;
              recorded = n;
              waiter = expired;
            })
    time_out :
        (requests captured : List (ReceivedRequest V)) (signal : Bool) (n : ℕ)
        → Exchange
            (record {
              requests = requests;
              signal = signal;
              captured = captured;
              recorded = n;
              waiter = expired;
            })
            (record {
              requests = requests;
              signal = signal;
              captured = captured;
              recorded = n;
              waiter = timed_out (length requests);
            })
    cancel :
        (requests captured : List (ReceivedRequest V)) (signal : Bool) (n : ℕ)
        → Exchange
            (record {
              requests = requests;
              signal = signal;
              captured = captured;
              recorded = n;
              waiter = selecting;
            })
            (record {
              requests = requests;
              signal = signal;
              captured = captured;
              recorded = n;
              waiter = cancelled;
            })

  -- Some number of steps.
  pub data Reaches (s : ReceiverState V) : ReceiverState V → Type 0 where
    here : Reaches s s
    move : (t u : ReceiverState V) → Reaches s t → Exchange t u → Reaches s u

-- The receiver when a step starts to wait; requests may have come before, and be on their way.
abbrev pub waiting_from : {V : Type 0} → ReceiverState V → ReceiverState V
waiting_from s = record s { waiter = checking }
