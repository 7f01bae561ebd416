-- ===== src/Assertion/Matcher/Paths.antt =====
-- internal/assertion/matcher.go: a handler puts the path that it is given into its error, and uses it
-- for nothing else.
use tales.Base.{
  String, List, Option, none, some, Bool, ◌≡◌, refl, arith, All, Option-cases, inl, inr, Bytes,
  codes,
}
use tales.Assertion.{Cty, Location, Mismatch}
use tales.Assertion.Uuid.{
  match_uuid, wanted_version, to_lower, validate_uuid, validate_any_uuid, validate_versioned_uuid,
  expect_exact_uuid,
}
use tales.Assertion.Threshold.{
  match_threshold, match_lt, match_lte, match_gt, match_gte, match_between, between_values,
  within_bounds, comparison_error,
}
use tales.Base.Entries.{lookup, All-lookup}
use tales.Assertion.Matcher.{
  Handler, match_exists, match_not_exists, match_is_string, match_is_number, match_is_bool,
  match_is_array, match_is_object, match_contains, match_pattern, match_regex, match_any,
  match_one_of, matcher_handlers, apply_matcher,
}

module _ {V F : Type 0} where
  -- The same outcome at another path.
  abbrev pub at_path : Location → Option (Mismatch V F) → Option (Mismatch V F)
  at_path q none = none
  at_path q (some m) = some (record m { path = q })

module _ {V F : Type 0} (cty : Cty V F) where
  abbrev Relocates : Handler cty → Type 0
  Relocates handler =
      (args : List (String × V)) (actual : V) (p q : Location)
      → handler args actual q ≡ at_path q (handler args actual p)

  match_exists-at : Relocates (match_exists cty)
  unfolding match_exists
  match_exists-at args actual p q = ground arith

  match_not_exists-at : Relocates (match_not_exists cty)
  unfolding match_not_exists
  match_not_exists-at args actual p q = ground arith

  match_is_string-at : Relocates (match_is_string cty)
  unfolding match_is_string
  match_is_string-at args actual p q = ground arith

  match_is_number-at : Relocates (match_is_number cty)
  unfolding match_is_number
  match_is_number-at args actual p q = ground arith

  match_is_bool-at : Relocates (match_is_bool cty)
  unfolding match_is_bool
  match_is_bool-at args actual p q = ground arith

  match_is_array-at : Relocates (match_is_array cty)
  unfolding match_is_array
  match_is_array-at args actual p q = ground arith

  match_is_object-at : Relocates (match_is_object cty)
  unfolding match_is_object
  match_is_object-at args actual p q = ground arith

  match_contains-at : Relocates (match_contains cty)
  unfolding match_contains
  match_contains-at args actual p q = ground arith

  match_any-at : Relocates (match_any cty)
  unfolding match_any
  match_any-at args actual p q = ground arith

  match_one_of-at : Relocates (match_one_of cty)
  unfolding match_one_of
  match_one_of-at args actual p q = ground arith

  match_regex-at : Relocates (match_regex cty)
  unfolding match_regex match_pattern
  match_regex-at args actual p q = ground arith

  validate_uuid-at :
      (lower : Bytes) (original want : String) (p q : Location)
      → validate_uuid {V = V} {F = F} lower original want q
        ≡ at_path q (validate_uuid lower original want p)
  unfolding validate_uuid validate_any_uuid validate_versioned_uuid expect_exact_uuid
  validate_uuid-at lower original want p q = ground arith

  match_uuid-at : Relocates (match_uuid cty)
  unfolding match_uuid
  match_uuid-at args actual p q = ground (
    arith,
    validate_uuid-at (to_lower (codes (cty.as_string actual))) (cty.as_string actual)
        (wanted_version cty args) p q,
  )

  match_threshold-at :
      (args : List (String × V)) (actual : V) (p q : Location) (name op : String)
      (cmp : F → F → Bool)
      → match_threshold cty args actual q name op cmp
        ≡ at_path q (match_threshold cty args actual p name op cmp)
  unfolding match_threshold comparison_error
  match_threshold-at args actual p q name op cmp = ground arith

  match_lt-at : Relocates (match_lt cty)
  unfolding match_lt
  match_lt-at args actual p q = match_threshold-at args actual p q _ _ _

  match_lte-at : Relocates (match_lte cty)
  unfolding match_lte
  match_lte-at args actual p q = match_threshold-at args actual p q _ _ _

  match_gt-at : Relocates (match_gt cty)
  unfolding match_gt
  match_gt-at args actual p q = match_threshold-at args actual p q _ _ _

  match_gte-at : Relocates (match_gte cty)
  unfolding match_gte
  match_gte-at args actual p q = match_threshold-at args actual p q _ _ _

  match_between-at : Relocates (match_between cty)
  unfolding match_between between_values within_bounds
  match_between-at args actual p q = ground arith

  handlers-at : All (λ entry. Relocates entry.1) (matcher_handlers cty)
  unfolding matcher_handlers
  handlers-at = (
    match_exists-at,
    (
      match_not_exists-at,
      (
        match_is_string-at,
        (
          match_is_number-at,
          (
            match_is_bool-at,
            (
              match_is_array-at,
              (
                match_is_object-at,
                (
                  match_contains-at,
                  (
                    match_regex-at,
                    (
                      match_one_of-at,
                      (
                        match_uuid-at,
                        (
                          match_any-at,
                          (
                            match_lt-at,
                            (match_lte-at, (match_gt-at, (match_gte-at, (match_between-at, tt)))),
                          ),
                        ),
                      ),
                    ),
                  ),
                ),
              ),
            ),
          ),
        ),
      ),
    ),
  )

  -- The outcome of a matcher depends on its path only in the path of the error, which is that path:
  -- at another path it is the same outcome with the path replaced.
  pub apply_matcher-at :
      (name : String) (args : List (String × V)) (actual : V) (p q : Location)
      → apply_matcher cty name args actual q ≡ at_path q (apply_matcher cty name args actual p)
  unfolding apply_matcher
  apply_matcher-at name args actual p q = elim (Option-cases (lookup name (matcher_handlers cty))) [
    | inl unknown ↦ rw (unknown, apply_matcher) refl
    | inr (handler, known) ↦
        let local : Relocates handler =
          All-lookup Relocates name (matcher_handlers cty) handlers-at known in
        rw (known, apply_matcher) (local args actual p q)
  ]
