-- ===== src/Runtime/Webhook/Tests.antt =====
-- internal/runtime/webhook.go: a request with a signature and one without.
use tales.Base.{
  ℕ, String, str_eq, List, [], ◌∷◌, none, some, true, false, if◌then◌else◌, ltb, leb, ◌≡◌, refl, ok,
  err,
}
use tales.Model.Services.{WebhookHmacExpect}
use tales.Assertion.{Kind, string_type, object_type}
use tales.Assertion.Uuid.{is_hex, same_text, to_lower, lower_code}
use tales.Lang.Versions.{trim_space, trim_left, trim_right, is_space}
use tales.Webhook.Signature.{signatures_equal}
use tales.Webhook.Format.{
  segments, check_segments, parse_signature_format, parse, match_parts, run_of,
}
use tales.Runtime.Webhook.{
  WebhookCalls, webhook_header_value, compiled_format, check_signature, computed_hmac,
  eval_webhook_payload, assert_webhook_tolerance, timestamp_required, require_timestamp,
  assert_webhook_timestamp_required, hmac_algorithm, assert_webhook_hmac,
}
use tales.Runtime.Webhook.Signed.{Signed, assert_webhook_hmac-Signed}

data Part : Type 0 where
  header_table signature_text payload_text : Part

abbrev kind_of : Part → Kind
kind_of header_table = object_type
kind_of signature_text = string_type
kind_of payload_text = string_type

abbrev entries_of : Part → List (String × Part)
entries_of header_table = ("X-Signature", signature_text) ∷ []
entries_of signature_text = []
entries_of payload_text = []

abbrev text_of : Part → String
text_of header_table = ""
text_of signature_text = "v1=ab"
text_of payload_text = "paid"

abbrev calls : WebhookCalls String Part ℕ
calls = record {
  cty = record {
    kind = kind_of;
    is_null = λ v. false;
    attributes = entries_of;
    elements = λ v. [];
    as_string = text_of;
    raw_equals = λ v w. str_eq (text_of v) (text_of w);
    float = λ v. 0;
    parse_duration = λ t. none;
    less = ltb;
    less_equal = leb;
    compile = λ t. err "no pattern";
  };
  fuel = λ v. 1;
  eval = λ path e. err "no value";
  eval_with_timestamp = λ path e ts. ok payload_text;
  string_attr = λ path e. elim e [ none ↦ err "required" | some t ↦ ok t ];
  optional_string = λ path e. ok "";
  duration_attr = λ path e. ok 0;
  to_bool = λ v. ok true;
  lower_text = λ t. t;
  null_string = payload_text;
  canonical_key = λ k. k;
  compute_hmac = λ algorithm secret payload. if str_eq payload "paid" then ok "AB" else ok "CD";
  mismatch_text = λ m. "mismatch";
  format_text = λ e. "format";
  sprintf = λ format args. format;
  duration_text = λ d. "duration";
  now = 1700000000;
}

abbrev expectation : WebhookHmacExpect String
expectation = record {
  header = some "X-Signature";
  secret = some "key";
  algorithm = none;
  format = some "v1={signature}";
  payload = some "request.body.raw";
  timestamp_tolerance = none;
  timestamp_required = none;
}

accepted : assert_webhook_hmac calls expectation (("headers", header_table) ∷ []) ≡ ok tt
unfolding assert_webhook_hmac webhook_header_value compiled_format check_signature computed_hmac
    eval_webhook_payload assert_webhook_tolerance timestamp_required require_timestamp
    assert_webhook_timestamp_required hmac_algorithm signatures_equal segments check_segments
    parse_signature_format parse match_parts run_of is_hex same_text to_lower lower_code trim_space
    trim_left trim_right is_space
accepted = refl

unaccepted-Signed : assert_webhook_hmac calls expectation [] ≡ err "missing signature header %q"
unfolding assert_webhook_hmac webhook_header_value hmac_algorithm
unaccepted-Signed = refl

accepted-Signed : Signed calls expectation (("headers", header_table) ∷ [])
accepted-Signed =
    (assert_webhook_hmac-Signed calls expectation (("headers", header_table) ∷ [])).0 accepted
