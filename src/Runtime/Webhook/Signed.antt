-- ===== src/Runtime/Webhook/Signed.antt =====
-- internal/runtime/webhook.go: a request passes only with a signature of its payload.
use tales.Base.{◌↔◌, String, List, [], ◌∷◌, some, Bytes, codes, ◌≡◌, ok, >>=-inv}
use tales.Model.Services.{WebhookHmacExpect}
use tales.Webhook.Format.{SignatureFormat, parse, parse_signature_format}
use tales.Assertion.Uuid.{to_lower}
use tales.Runtime.Webhook.{
  WebhookCalls, webhook_header_value, or_error, compiled_format, check_signature, computed_hmac,
  eval_webhook_payload, assert_webhook_timestamp_required, hmac_algorithm, assert_webhook_hmac,
}
use tales.Runtime.Webhook.Checked.{
  Timed, Near, or_error-ok, compiled_format-ok, computed_hmac-ok, check_signature-ok,
  check_signature-total, timestamp_required-Timed, Timed-timestamp_required, tolerance-Near,
  Near-tolerance, compiled_format-total, computed_hmac-total,
}

module _ {E V F : Type 0} (wc : WebhookCalls E V F) where
  -- The header of the request has the form of the format, with a signature that is the digest of the
  -- payload under the secret, in either case of its letters, and a timestamp that is there where it is
  -- required and is within the tolerance.
  pub record Signed (expect : WebhookHmacExpect E) (received : List (String × V)) : Type 0 where
    name : String
    secret : String
    format : String
    algorithm : String
    header : String
    f : SignatureFormat
    ts : Bytes
    sig : Bytes
    payload : String
    digest : String
    name_is : wc.string_attr "expect.hmac_signature.header" expect.header ≡ ok name
    secret_is : wc.string_attr "expect.hmac_signature.secret" expect.secret ≡ ok secret
    format_is : wc.string_attr "expect.hmac_signature.format" expect.format ≡ ok format
    algorithm_is : hmac_algorithm wc expect ≡ ok algorithm
    header_is : webhook_header_value wc received name ≡ some header
    compiled : parse_signature_format (codes format) ≡ ok f
    parsed : parse f (codes header) ≡ some (ts, sig)
    timed : Timed wc expect f ts
    payload_is : eval_webhook_payload wc expect.payload ts ≡ ok payload
    digest_is : wc.compute_hmac algorithm secret payload ≡ ok digest
    equal : to_lower (codes digest) ≡ to_lower sig
    near : Near wc expect ts

  hmac-Signed :
      (expect : WebhookHmacExpect E) (received : List (String × V))
      → assert_webhook_hmac wc expect received ≡ ok tt
      → Signed expect received
  unfolding assert_webhook_hmac
  hmac-Signed expect received run =
      let (name, e1, r1) =
        >>=-inv (wc.string_attr "expect.hmac_signature.header" expect.header) _ run in
      let (secret, e2, r2) =
        >>=-inv (wc.string_attr "expect.hmac_signature.secret" expect.secret) _ r1 in
      let (format, e3, r3) =
        >>=-inv (wc.string_attr "expect.hmac_signature.format" expect.format) _ r2 in
      let (algorithm, e4, r4) = >>=-inv (hmac_algorithm wc expect) _ r3 in
      let (header, e5, r5) =
        >>=-inv
          (or_error wc (webhook_header_value wc received name)
            (wc.sprintf "missing signature header %q" (name ∷ [])))
          _ r4 in
      let (f, e6, r6) = >>=-inv (compiled_format wc format) _ r5 in
      let ((ts, sig), e7, r7) =
        >>=-inv
          (or_error wc (parse f (codes header))
            (wc.sprintf "signature header does not match format %q" (format ∷ [])))
          _ r6 in
      let (there, e8, r8) = >>=-inv (assert_webhook_timestamp_required wc expect f ts) _ r7 in
      let (payload, e9, r9) = >>=-inv (eval_webhook_payload wc expect.payload ts) _ r8 in
      let (digest, e10, r10) = >>=-inv (computed_hmac wc algorithm secret payload) _ r9 in
      let (same, e11, near) = >>=-inv (check_signature wc digest sig) _ r10 in
      record {
        name = name;
        secret = secret;
        format = format;
        algorithm = algorithm;
        header = header;
        f = f;
        ts = ts;
        sig = sig;
        payload = payload;
        digest = digest;
        name_is = e1;
        secret_is = e2;
        format_is = e3;
        algorithm_is = e4;
        header_is = or_error-ok wc _ _ e5;
        compiled = compiled_format-ok wc format e6;
        parsed = or_error-ok wc _ _ e7;
        timed = timestamp_required-Timed wc expect f ts e8;
        payload_is = e9;
        digest_is = computed_hmac-ok wc algorithm secret payload e10;
        equal = check_signature-ok wc digest sig e11;
        near = tolerance-Near wc expect ts near;
      }

  Signed-hmac :
      (expect : WebhookHmacExpect E) (received : List (String × V))
      → Signed expect received
      → assert_webhook_hmac wc expect received ≡ ok tt
  unfolding assert_webhook_hmac
  Signed-hmac expect received s =
      let format = compiled_format-total wc s.format s.compiled in
      let timed = Timed-timestamp_required wc expect s.f s.ts s.timed in
      let digest = computed_hmac-total wc s.algorithm s.secret s.payload s.digest_is in
      let equal = check_signature-total wc s.digest s.sig s.equal in
      rw (s.name_is, s.secret_is, s.format_is, s.algorithm_is, s.header_is)
        (rw (format, s.parsed, timed, s.payload_is, digest, equal)
          (Near-tolerance wc expect s.ts s.near))

  pub assert_webhook_hmac-Signed :
      (expect : WebhookHmacExpect E) (received : List (String × V))
      → (assert_webhook_hmac wc expect received ≡ ok tt) ↔ Signed expect received
  assert_webhook_hmac-Signed expect received =
      (hmac-Signed expect received, Signed-hmac expect received)
