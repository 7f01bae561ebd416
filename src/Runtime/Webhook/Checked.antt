-- ===== src/Runtime/Webhook/Checked.antt =====
-- internal/runtime/webhook.go: the checks that assertWebhookHMAC makes, one by one.
use tales.Base.{
  ℕ, Bool, false, ◌≢◌, ◌⊎◌, inl, inr, refl, sym, ap₂, ◌∙◌, ◌>>=◌, ◌==◌, if◌then◌else◌, length,
  Bool-cases, Option-cases, String, [], ◌∷◌, Option, none, some, true, Bytes, codes, ◌≡◌, ok,
  >>=-inv, arith, ap, ok-injective,
}
use tales.Model.Services.{WebhookHmacExpect}
use tales.Webhook.Signature.{signatures_equal}
use tales.Webhook.Format.{SignatureFormat, parse_signature_format}
use tales.Assertion.Uuid.{same_text, to_lower}
use tales.Lang.Versions.{trim_space}
use tales.Webhook.Signature.{timestamp_within_tolerance}
use tales.Webhook.Signature.Tolerance.{Close, timestamp_within_tolerance-Close}
use tales.Runtime.Webhook.{
  timestamp_required, require_timestamp, check_tolerance, WebhookCalls, or_error, compiled_format,
  check_signature, computed_hmac, assert_webhook_tolerance, assert_webhook_timestamp_required,
}

same_text-eq : (s t : Bytes) → same_text s t ≡ true → s ≡ t
unfolding same_text
same_text-eq [] [] h = refl
same_text-eq [] (d ∷ t) h = cc
same_text-eq (c ∷ s) [] h = cc
same_text-eq (c ∷ s) (d ∷ t) h =
    let head : c ≡ d = ground (arith, h) in
    ap₂ (λ (x : ℕ) (y : Bytes). x ∷ y) head (same_text-eq s t (ground (arith, h)))

same_text_self : (s : Bytes) → same_text s s ≡ true
unfolding same_text
same_text_self [] = refl
same_text_self (c ∷ s) = ground (arith, same_text_self s)

length-some : (s : Bytes) → s ≢ [] → (length s == 0) ≡ false
length-some [] h = absurd (h refl)
length-some (c ∷ s) h = ground arith

module _ {E V F : Type 0} (wc : WebhookCalls E V F) where
  -- A timestamp that is required is there.
  abbrev pub Timed : WebhookHmacExpect E → SignatureFormat → Bytes → Type 0
  Timed expect f ts =
      (required : Bool) × (timestamp_required wc expect f.has_timestamp ≡ ok required)
      × ((required ≡ false) ⊎ (trim_space ts ≢ []))

  -- There is no tolerance, or it is 0, or the timestamp is within it.
  abbrev pub Near : WebhookHmacExpect E → Bytes → Type 0
  Near expect ts =
      (expect.timestamp_tolerance ≡ none)
      ⊎ ((e : E) × (tolerance : ℕ) × (expect.timestamp_tolerance ≡ some e)
          × (wc.duration_attr "expect.hmac_signature.timestamp_tolerance" (some e) ≡ ok tolerance)
          × ((tolerance ≡ 0)
              ⊎ ((timestamp_within_tolerance ts wc.now tolerance ≡ ok true)
                  × Close ts wc.now tolerance)))

  pub or_error-ok :
      {A : Type 0} (o : Option A) (message : String) {a : A}
      → or_error wc o message ≡ ok a
      → o ≡ some a
  or_error-ok none message h = cc
  or_error-ok (some b) message h = ap some (ok-injective h)

  pub compiled_format-ok :
      (format : String) {f : SignatureFormat}
      → compiled_format wc format ≡ ok f
      → parse_signature_format (codes format) ≡ ok f
  unfolding compiled_format
  compiled_format-ok format {f = f} h = ground (arith, h)

  pub computed_hmac-ok :
      (algorithm secret payload : String) {digest : String}
      → computed_hmac wc algorithm secret payload ≡ ok digest
      → wc.compute_hmac algorithm secret payload ≡ ok digest
  unfolding computed_hmac
  computed_hmac-ok algorithm secret payload h = ground (arith, h)

  pub check_signature-ok :
      (digest : String) (sig : Bytes)
      → check_signature wc digest sig ≡ ok tt
      → to_lower (codes digest) ≡ to_lower sig
  unfolding check_signature signatures_equal
  check_signature-ok digest sig h =
      same_text-eq (to_lower (codes digest)) (to_lower sig) (ground (arith, h))

  pub check_signature-total :
      (digest : String) (sig : Bytes)
      → to_lower (codes digest) ≡ to_lower sig
      → check_signature wc digest sig ≡ ok tt
  unfolding check_signature signatures_equal
  check_signature-total digest sig h =
      let same : same_text (to_lower (codes digest)) (to_lower sig) ≡ true =
        ap (λ t. same_text (to_lower (codes digest)) t) (sym h)
        ∙ same_text_self (to_lower (codes digest)) in
      ground (arith, same)

  pub timestamp_required-Timed :
      (expect : WebhookHmacExpect E) (f : SignatureFormat) (ts : Bytes)
      → assert_webhook_timestamp_required wc expect f ts ≡ ok tt
      → Timed expect f ts
  unfolding assert_webhook_timestamp_required require_timestamp
  timestamp_required-Timed expect f ts h =
      let (required, e, rest) = >>=-inv (timestamp_required wc expect f.has_timestamp) _ h in
      (
        required,
        e,
        elim (Bool-cases required) [
          | inr off ↦ inl off
          | inl on ↦ inr λ nothing.
              let blank : length (trim_space ts) ≡ 0 = ap length nothing in
              ground (arith, rest, on, blank)
        ],
      )

  pub Timed-timestamp_required :
      (expect : WebhookHmacExpect E) (f : SignatureFormat) (ts : Bytes)
      → Timed expect f ts
      → assert_webhook_timestamp_required wc expect f ts ≡ ok tt
  unfolding assert_webhook_timestamp_required require_timestamp
  Timed-timestamp_required expect f ts (required, e, inl off) = rw e (ground (arith, off))
  Timed-timestamp_required expect f ts (required, e, inr there) =
      let some_code : (length (trim_space ts) == 0) ≡ false = length-some (trim_space ts) there in
      rw e (ground (arith, some_code))

  pub tolerance-Near :
      (expect : WebhookHmacExpect E) (ts : Bytes)
      → assert_webhook_tolerance wc expect ts ≡ ok tt
      → Near expect ts
  unfolding assert_webhook_tolerance check_tolerance
  tolerance-Near expect ts h = elim (Option-cases expect.timestamp_tolerance) [
    | inl e ↦ inl e
    | inr (x, e) ↦
        let run : (wc.duration_attr "expect.hmac_signature.timestamp_tolerance" (some x)
              >>= (λ t. if t == 0 then ok tt else check_tolerance wc ts t))
            ≡ ok tt =
          ground (arith, h, e) in
        let (t, found, rest) =
          >>=-inv (wc.duration_attr "expect.hmac_signature.timestamp_tolerance" (some x)) _ run in
        inr (
          x,
          t,
          e,
          found,
          elim (Bool-cases (t == 0)) [
            | inl zero_tolerance ↦ inl (ground (arith, zero_tolerance))
            | inr positive ↦
                let within : timestamp_within_tolerance ts wc.now t ≡ ok true =
                  ground (arith, rest, positive) in
                inr (
                  within,
                  timestamp_within_tolerance-Close ts wc.now t (ground (arith, positive)) within,
                )
          ],
        )
  ]

  pub Near-tolerance :
      (expect : WebhookHmacExpect E) (ts : Bytes)
      → Near expect ts
      → assert_webhook_tolerance wc expect ts ≡ ok tt
  unfolding assert_webhook_tolerance check_tolerance
  Near-tolerance expect ts (inl off) = rw (off, assert_webhook_tolerance) refl
  Near-tolerance expect ts (inr (x, t, e, found, inl zero_tolerance)) =
      rw (e, assert_webhook_tolerance) (rw found (ground (arith, zero_tolerance)))
  Near-tolerance expect ts (inr (x, t, e, found, inr (within, close))) =
      rw (e, assert_webhook_tolerance) (rw found (ground (arith, within)))

  pub compiled_format-total :
      (format : String) {f : SignatureFormat}
      → parse_signature_format (codes format) ≡ ok f
      → compiled_format wc format ≡ ok f
  unfolding compiled_format
  compiled_format-total format h = rw (h, compiled_format) refl

  pub computed_hmac-total :
      (algorithm secret payload : String) {digest : String}
      → wc.compute_hmac algorithm secret payload ≡ ok digest
      → computed_hmac wc algorithm secret payload ≡ ok digest
  unfolding computed_hmac
  computed_hmac-total algorithm secret payload h = rw (h, computed_hmac) refl
