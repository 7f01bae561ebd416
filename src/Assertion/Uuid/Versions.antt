-- ===== src/Assertion/Uuid/Versions.antt =====
-- internal/assertion/uuid.go: a version of RFC 9562 against any of them.
use tales.Base.{
  String, str_eq, List, [], ◌∷◌, none, true, false, ◌≡◌, refl, sym, subst, arith, ℕ, Bytes, codes,
  ok, ◌≤◌,
}
use tales.Assertion.{Cty, Location}
use tales.Assertion.Uuid.{
  same_text, uuid_variant_ok, byte_at, expect_exact_uuid, validate_any_uuid,
  validate_versioned_uuid, validate_uuid, wanted_version, to_lower, match_uuid,
}
use tales.Lang.Versions.{normalize_uuid_version, normalize_uuid_version-All}

module _ (V F : Type 0) (lower : Bytes) (original : String) (path : Location) where
  -- A text that passes for the version passes for any.
  abbrev Narrower : String → Type 0
  Narrower want =
      validate_uuid {V = V} {F = F} lower original want path ≡ none
      → validate_uuid {V = V} {F = F} lower original "" path ≡ none

  nil-Narrower : Narrower "nil"
  unfolding validate_uuid expect_exact_uuid validate_any_uuid
  nil-Narrower h = ground (arith, h)

  max-Narrower : Narrower "max"
  unfolding validate_uuid expect_exact_uuid validate_any_uuid
  max-Narrower h = ground (arith, h)

  digit-Narrower :
      (want : String) (d : ℕ)
      → codes want ≡ d ∷ []
      → str_eq want "nil" ≡ false
      → str_eq want "max" ≡ false
      → str_eq want "" ≡ false
      → 49 ≤ d
      → d ≤ 56
      → Narrower want
  unfolding validate_uuid validate_versioned_uuid validate_any_uuid same_text
  digit-Narrower want d text n m e low high h =
      let digit : same_text (byte_at lower 14 ∷ []) (d ∷ []) ≡ true =
        subst (λ t. same_text (byte_at lower 14 ∷ []) t ≡ true) text (ground (arith, h, n, m, e)) in
      let fits : uuid_variant_ok lower ≡ true = ground (arith, h, n, m, e) in
      ground (arith, digit, fits, low, high)

  version-Narrower : (raw : String) {v : String} → normalize_uuid_version raw ≡ ok v → Narrower v
  version-Narrower raw h =
      normalize_uuid_version-All Narrower raw (nil-Narrower, (max-Narrower, tt))
        (
          digit-Narrower "1" 49 refl refl refl refl (omega arith) (omega arith),
          (
            digit-Narrower "2" 50 refl refl refl refl (omega arith) (omega arith),
            (
              digit-Narrower "3" 51 refl refl refl refl (omega arith) (omega arith),
              (
                digit-Narrower "4" 52 refl refl refl refl (omega arith) (omega arith),
                (
                  digit-Narrower "5" 53 refl refl refl refl (omega arith) (omega arith),
                  (
                    digit-Narrower "6" 54 refl refl refl refl (omega arith) (omega arith),
                    (
                      digit-Narrower "7" 55 refl refl refl refl (omega arith) (omega arith),
                      (digit-Narrower "8" 56 refl refl refl refl (omega arith) (omega arith), tt),
                    ),
                  ),
                ),
              ),
            ),
          ),
        )
        h

module _ {V F : Type 0} (cty : Cty V F) where
  -- For every version that the function `uuid` of the language passes on: a value that the matcher
  -- accepts for the version, it accepts without one.
  pub match_uuid-any :
      (raw : String) {version : String} (args : List (String × V)) (actual : V) (path : Location)
      → normalize_uuid_version raw ≡ ok version
      → wanted_version cty args ≡ version
      → match_uuid cty args actual path ≡ none
      → match_uuid cty [] actual path ≡ none
  unfolding match_uuid wanted_version
  match_uuid-any raw args actual path known wanted run =
      let narrower : Narrower V F (to_lower (codes (cty.as_string actual))) (cty.as_string actual)
          path (wanted_version cty args) =
        subst
          (λ t.
            Narrower V F (to_lower (codes (cty.as_string actual))) (cty.as_string actual) path t)
          (sym wanted) (version-Narrower V F _ _ path raw known) in
      ground (arith, run, narrower)
