-- ===== src/Runtime/Webhook.antt =====
-- internal/runtime/webhook.go: the expectations of a step that waits for a webhook. The received request
-- is the map that the source makes of it.
mod Tests
pub mod Checked
pub mod Signed
use tales.Base.{
  ℕ, zero, suc, String, str_eq, List, [], ◌∷◌, ◌++◌, Option, none, some, Bool, true, false, not,
  if◌then◌else◌, ◌||◌, ◌&&◌, ◌==◌, Bytes, codes, length, Result, ok, err, ◌>>=◌,
}
use tales.Base.Entries.{lookup}
use tales.Model.Expression.{Expression}
use tales.Model.Services.{WebhookRequestExpect, WebhookHmacExpect, WebhookExpect}
use tales.Assertion.{
  Cty, Location, top, field, Mismatch, is_string_type, is_object_type, is_object_or_map,
}
use tales.Assertion.Json.{Outcome, passed, failed, exhausted, match_json}
use tales.Assertion.Uuid.{to_lower}
use tales.Lang.Versions.{trim_space}
use tales.Webhook.Signature.{signatures_equal, timestamp_within_tolerance}
use tales.Webhook.Format.{FormatError, SignatureFormat, parse_signature_format, parse}

-- What the checks call: the evaluator, with evalStringAttr, evalWebhookOptionalString and
-- evalDurationAttr on it, the canonical keys of net/textproto, HMAC of crypto, fmt and the clock.
-- `fuel` is what MatchJSON gets for an expected value.
pub record WebhookCalls (E V F : Type 0) : Type 0 where
  pub cty : Cty V F
  pub fuel : V → ℕ
  pub eval : String → Expression E → Result String V
  pub eval_with_timestamp : String → E → Bytes → Result String V
  pub string_attr : String → Expression E → Result String String
  pub optional_string : String → Expression E → Result String String
  pub duration_attr : String → Expression E → Result String ℕ
  pub to_bool : V → Result String Bool
  pub lower_text : String → String
  pub null_string : V
  pub canonical_key : String → String
  pub compute_hmac : String → String → String → Result String String
  pub mismatch_text : Mismatch V F → String
  pub format_text : FormatError → String
  pub sprintf : String → List String → String
  pub duration_text : ℕ → String
  pub now : ℕ

module _ {E V F : Type 0} (wc : WebhookCalls E V F) where
  open wc use {
    cty, fuel, eval, eval_with_timestamp, string_attr, optional_string, duration_attr, to_bool,
    lower_text, null_string, canonical_key, compute_hmac, mismatch_text, format_text, sprintf,
    duration_text, now,
  }

  -- webhookHeaderValue
  unfoldable pub webhook_header_value : List (String × V) → String → Option String
  webhook_header_value received name = elim (lookup "headers" received) [
    | none ↦ none
    | some headers ↦
        if cty.is_null headers || not (is_object_type (cty.kind headers))
        then none
        else elim (lookup (canonical_key name) (cty.attributes headers)) [
          | none ↦ none
          | some value ↦
              if cty.is_null value || not (is_string_type (cty.kind value))
              then none
              else some (cty.as_string value)
        ]
  ]

  -- webhookRawBody
  unfoldable pub webhook_raw_body : List (String × V) → V
  webhook_raw_body received = elim (lookup "body" received) [
    | none ↦ null_string
    | some body ↦
        if cty.is_null body || not (is_object_type (cty.kind body))
        then null_string
        else elim (lookup "raw" (cty.attributes body)) [ none ↦ null_string | some raw ↦ raw ]
  ]

  -- MatchJSON, whose error is wrapped.
  unfoldable pub assert_match :
      String → List String → V → V → Bool → Location → Result String (Unit {0})
  assert_match format args expected actual strict path =
      elim (match_json cty (fuel expected) expected actual strict path) [
        | passed ↦ ok tt
        | failed m ↦ err (sprintf format (args ++ (mismatch_text m ∷ [])))
        | exhausted ↦ err "out of fuel"
      ]

  -- One of the checks of assertWebhookRequest that compare a value.
  unfoldable pub assert_value :
      String → String → Expression E → V → Bool → Location → Result String (Unit {0})
  assert_value expr_path format none actual strict path = ok tt
  assert_value expr_path format (some e) actual strict path = elim (eval expr_path (some e)) [
    | err message ↦ err (sprintf "%s: %w" (expr_path ∷ message ∷ []))
    | ok expected ↦ assert_match format [] expected actual strict path
  ]

  -- The value of a key, cty.NullVal(cty.String) where it is not there.
  unfoldable pub keyed_value : V → String → V
  keyed_value actual key =
      if not (cty.is_null actual) && is_object_type (cty.kind actual)
      then elim (lookup key (cty.attributes actual)) [ none ↦ null_string | some v ↦ v ]
      else null_string

  -- The loop of assertWebhookKeyedMap.
  unfoldable pub keyed_loop : List (String × V) → V → String → Bool → Result String (Unit {0})
  keyed_loop [] actual prefix canonical = ok tt
  keyed_loop ((key, expected) ∷ entries) actual prefix canonical =
      let rest = keyed_loop entries actual prefix canonical in
      do
        matched ←
            assert_match "assert %s.%s: %w" (prefix ∷ key ∷ []) expected
              (keyed_value actual (if canonical then canonical_key key else key)) false
              (field (top prefix) key)
        rest

  unfoldable pub assert_webhook_keyed_map :
      String → Expression E → V → String → Bool → Result String (Unit {0})
  assert_webhook_keyed_map expr_path none actual prefix canonical = ok tt
  assert_webhook_keyed_map expr_path (some e) actual prefix canonical =
      elim (eval expr_path (some e)) [
        | err message ↦ err (sprintf "%s: %w" (expr_path ∷ message ∷ []))
        | ok expected ↦
            if cty.is_null expected
            then ok tt
            else if not (is_object_or_map (cty.kind expected))
            then err (sprintf "%s must be an object" (expr_path ∷ []))
            else keyed_loop (cty.attributes expected) actual prefix canonical
      ]

  -- received[key], of which a missing key gives the zero value of cty.
  abbrev received_value : V → List (String × V) → String → V
  received_value zero_value received key = elim (lookup key received) [
    | none ↦ zero_value
    | some v ↦ v
  ]

  unfoldable pub assert_webhook_request :
      V → WebhookRequestExpect E → List (String × V) → Result String (Unit {0})
  assert_webhook_request zero_value expect received = do
    m ←
        assert_value "expect.request.method" "assert request.method: %w" expect.method
          (received_value zero_value received "method") true (top "request.method")
    p ←
        assert_value "expect.request.path" "assert request.path: %w" expect.path
          (received_value zero_value received "path") true (top "request.path")
    h ←
        assert_webhook_keyed_map "expect.request.headers" expect.headers
          (received_value zero_value received "headers") "request.headers" true
    q ←
        assert_webhook_keyed_map "expect.request.query" expect.query
          (received_value zero_value received "query") "request.query" false
    j ←
        assert_value "expect.request.json" "assert request.json: %w" expect.json
          (received_value zero_value received "json") false (top "request.json")
    assert_value "expect.request.body" "assert request.body: %w" expect.body
        (webhook_raw_body received) true (top "request.body")

  -- Whether a timestamp is required, by the format where nothing else is said.
  unfoldable pub timestamp_required : WebhookHmacExpect E → Bool → Result String Bool
  timestamp_required expect by_format = elim expect.timestamp_required [
    | none ↦ ok by_format
    | some e ↦ elim (eval "expect.hmac_signature.timestamp_required" (some e)) [
      | err message ↦ err (sprintf "expect.hmac_signature.timestamp_required: %w" (message ∷ []))
      | ok value ↦ if cty.is_null value then ok by_format else elim (to_bool value) [
        | err message ↦ err (sprintf "expect.hmac_signature.timestamp_required: %w" (message ∷ []))
        | ok required ↦ ok required
      ]
    ]
  ]

  unfoldable pub require_timestamp : Bool → Bytes → Result String (Unit {0})
  require_timestamp required ts =
      if required && (length (trim_space ts) == 0)
      then err "signature header is missing a timestamp"
      else ok tt

  unfoldable pub assert_webhook_timestamp_required :
      WebhookHmacExpect E → SignatureFormat → Bytes → Result String (Unit {0})
  assert_webhook_timestamp_required expect f ts = do
    required ← timestamp_required expect f.has_timestamp
    require_timestamp required ts

  -- evalWebhookPayload
  unfoldable pub eval_webhook_payload : Expression E → Bytes → Result String String
  eval_webhook_payload none ts = err "expect.hmac_signature.payload is required"
  eval_webhook_payload (some e) ts =
      elim (eval_with_timestamp "expect.hmac_signature.payload" e ts) [
        | err message ↦ err (sprintf "expect.hmac_signature.payload: %w" (message ∷ []))
        | ok value ↦
            if cty.is_null value || not (is_string_type (cty.kind value))
            then err "expect.hmac_signature.payload must evaluate to a string"
            else ok (cty.as_string value)
      ]

  -- The verdict on a timestamp for a positive tolerance.
  unfoldable pub check_tolerance : Bytes → ℕ → Result String (Unit {0})
  check_tolerance ts tolerance = elim (timestamp_within_tolerance ts now tolerance) [
    | err not_a_timestamp ↦ err (
        sprintf "expect.hmac_signature.timestamp_tolerance: %w"
          ("webhook signature timestamp is not a unix timestamp" ∷ []))
    | ok within ↦
        if within
        then ok tt
        else err (
            sprintf "webhook signature timestamp is outside tolerance %s"
              (duration_text tolerance ∷ []))
  ]

  unfoldable pub assert_webhook_tolerance : WebhookHmacExpect E → Bytes → Result String (Unit {0})
  assert_webhook_tolerance expect ts = elim expect.timestamp_tolerance [
    | none ↦ ok tt
    | some e ↦ do
      tolerance ← duration_attr "expect.hmac_signature.timestamp_tolerance" (some e)
      if tolerance == 0 then ok tt else check_tolerance ts tolerance
  ]

  unfoldable pub hmac_algorithm : WebhookHmacExpect E → Result String String
  hmac_algorithm expect = elim expect.algorithm [
    | none ↦ ok "sha256"
    | some e ↦ do
      name ← optional_string "expect.hmac_signature.algorithm" (some e)
      ok (lower_text name)
  ]

  abbrev or_error : {A : Type 0} → Option A → String → Result String A
  or_error none message = err message
  or_error (some a) message = ok a

  unfoldable pub compiled_format : String → Result String SignatureFormat
  compiled_format format = elim (parse_signature_format (codes format)) [
    | err e ↦ err (sprintf "expect.hmac_signature.format: %w" (format_text e ∷ []))
    | ok f ↦ ok f
  ]

  -- The comparison of the digests.
  unfoldable pub check_signature : String → Bytes → Result String (Unit {0})
  check_signature expected sig =
      if signatures_equal (codes expected) sig then ok tt else err "invalid webhook signature"

  unfoldable pub computed_hmac : String → String → String → Result String String
  computed_hmac algorithm secret payload = elim (compute_hmac algorithm secret payload) [
    | err message ↦ err (sprintf "expect.hmac_signature: %w" (message ∷ []))
    | ok digest ↦ ok digest
  ]

  unfoldable pub assert_webhook_hmac :
      WebhookHmacExpect E → List (String × V) → Result String (Unit {0})
  assert_webhook_hmac expect received = do
    name ← string_attr "expect.hmac_signature.header" expect.header
    secret ← string_attr "expect.hmac_signature.secret" expect.secret
    format ← string_attr "expect.hmac_signature.format" expect.format
    algorithm ← hmac_algorithm expect
    header ←
        or_error (webhook_header_value received name)
          (sprintf "missing signature header %q" (name ∷ []))
    f ← compiled_format format
    (ts, sig) ←
        or_error (parse f (codes header))
          (sprintf "signature header does not match format %q" (format ∷ []))
    there ← assert_webhook_timestamp_required expect f ts
    payload ← eval_webhook_payload expect.payload ts
    expected ← computed_hmac algorithm secret payload
    equal ← check_signature expected sig
    assert_webhook_tolerance expect ts

  -- assertWebhook
  unfoldable pub assert_webhook :
      V → Option (WebhookExpect E) → List (String × V) → Result String (Unit {0})
  assert_webhook zero_value none received = ok tt
  assert_webhook zero_value (some we) received =
      let signed : Result String (Unit {0}) = elim we.hmac [
        | none ↦ ok tt
        | some h ↦ assert_webhook_hmac h received
      ] in
      elim we.request [
        | none ↦ signed
        | some r ↦ do matched ← assert_webhook_request zero_value r received; signed
      ]
