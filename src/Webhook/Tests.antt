-- ===== src/Webhook/Tests.antt =====
-- internal/provider/webhook: one request and one waiter, and a few timestamps.
use tales.Base.{
  some, ℕ, ◌*◌, ◌≤◌, String, [], ◌∷◌, true, false, ◌≡◌, ◌↔◌, refl, codes, Bytes, ok, err, length,
  arith,
}
use tales.Lang.Versions.{trim_space, trim_left, trim_right, is_space}
use tales.Webhook.Receiver.{
  Incoming, ReceivedRequest, as_received, handle, read_body, not_found, payload_too_large,
  ReceiverState, Reaches, here, move, capture, append, check, check_count, waiting_from, checking,
  selecting, returned,
}
use tales.Webhook.Receiver.Woken.{waiter-Woken}
use tales.Webhook.Receiver.Taken.{Sound, Reaches-Sound}
use tales.Assertion.Uuid.{is_hex}
use tales.Webhook.Format.{
  SignatureFormat, segments, check_segments, parse_signature_format, no_signature, parse,
  match_parts, run_of,
}
use tales.Webhook.Format.Filled.{fill_parts, parse-fill}
use tales.Webhook.Signature.{
  parse_int, read_number, read_digits, int64_sub, int64_mul, int64_leb, timestamp_within_tolerance,
  within_tolerance,
}
use tales.Webhook.Signature.Tolerance.{apart, timestamp_within_tolerance-true_iff}

abbrev decode : String → Bytes → ℕ
decode content_type body = length body

abbrev event : Incoming
event = record {
  method = "POST";
  path = "/events";
  query = [];
  headers = [];
  content_type = "text/plain";
  body = 104 ∷ 105 ∷ [];
  broken = false;
  remote_addr = "127.0.0.1:40000";
}

elsewhere_test : handle decode "/hooks" 8 event ≡ err not_found
unfolding handle
elsewhere_test = refl

large_test : handle decode "/events" 1 event ≡ err payload_too_large
unfolding handle read_body
large_test = refl

abbrev recorded_event : ReceivedRequest ℕ
recorded_event = as_received decode event (104 ∷ 105 ∷ [])

abbrev quiet : ReceiverState ℕ
quiet = record { requests = []; signal = false; captured = []; recorded = 0; waiter = checking }

-- The waiter looks first, and then the request comes.
abbrev before_signal : ReceiverState ℕ
before_signal = record {
  requests = recorded_event ∷ [];
  signal = false;
  captured = [];
  recorded = 1;
  waiter = selecting;
}

signalling : Reaches decode "/events" 8 1 (waiting_from quiet) before_signal
unfolding check_count handle read_body
signalling =
    move _ _ (move _ _ (move _ _ here (check [] [] false 0)) (capture _ event recorded_event refl))
      (append [] [] [] recorded_event false 0 selecting)

waiter-Woken_example :
    (u : ReceiverState ℕ) × Reaches decode "/events" 8 1 before_signal u
    × (u.waiter ≡ returned (recorded_event ∷ []))
waiter-Woken_example =
    waiter-Woken decode "/events" 8 1 quiet (recorded_event ∷ []) [] false 1 signalling
      (omega arith)

Reaches-Sound_example : Sound decode "/events" 8 1 [] before_signal
Reaches-Sound_example = Reaches-Sound decode "/events" 8 1 quiet before_signal tt signalling

near_test : timestamp_within_tolerance (codes " 1700000100 ") 1700000000 300000000000 ≡ ok true
unfolding timestamp_within_tolerance within_tolerance parse_int read_number read_digits int64_sub
    int64_mul int64_leb trim_space trim_left trim_right is_space
near_test = refl

-- The product wraps around for a timestamp that is 292 years away.
far_test : timestamp_within_tolerance (codes "10923372037") 1700000000 300000000000 ≡ ok true
unfolding timestamp_within_tolerance within_tolerance parse_int read_number read_digits int64_sub
    int64_mul int64_leb trim_space trim_left trim_right is_space
far_test = refl

timestamp_within_tolerance-true_iff_example :
    (timestamp_within_tolerance (codes "1700000100") 1700000000 300000000000 ≡ ok true)
    ↔ (apart 1700000000 1700000100 * 1000000000 ≤ 300000000000)
unfolding parse_int read_number read_digits trim_space trim_left trim_right is_space
timestamp_within_tolerance-true_iff_example =
    timestamp_within_tolerance-true_iff (codes "1700000100") 1700000100 1700000000 300000000000 refl
      (omega arith) (omega arith) (omega arith) (omega arith) (omega arith)

-- The form of Stripe's header.
abbrev stripe : SignatureFormat
stripe = record { parts = segments 0 (codes "t={timestamp},v1={signature}"); has_timestamp = true }

stripe_test : parse_signature_format (codes "t={timestamp},v1={signature}") ≡ ok stripe
unfolding parse_signature_format check_segments segments trim_space trim_left trim_right is_space
stripe_test = refl

unsigned_test : parse_signature_format (codes "t={timestamp}") ≡ err no_signature
unfolding parse_signature_format check_segments segments trim_space trim_left trim_right is_space
unsigned_test = refl

parse_test : parse stripe (codes "t=170,v1=a0F") ≡ some (codes "170", codes "a0F")
unfolding parse match_parts segments run_of is_hex
parse_test = refl

parse-fill_example :
    parse stripe (fill_parts stripe.parts (codes "170") (codes "a0F"))
    ≡ some (codes "170", codes "a0F")
unfolding segments is_hex
parse-fill_example =
    parse-fill stripe (codes "170") (codes "a0F") (refl, (tt, tt))
      ((λ h. cc), (refl, (refl, (refl, tt)))) ((λ h. cc), (refl, (refl, (refl, tt))))
