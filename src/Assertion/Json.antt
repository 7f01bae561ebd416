-- ===== src/Assertion/Json.antt =====
-- internal/assertion/json.go: the comparison of a value with an expected subset. The recursion is on
-- fuel; the range over a Go map is that over the list of its entries.
pub mod Fuel
pub mod Accepts
pub mod Paths
pub mod Matches
use tales.Base.{
  ℕ, zero, suc, String, str_eq, List, [], ◌∷◌, Option, none, some, Bool, true, false, ◌&&◌, not,
  if◌then◌else◌, ◌==◌, length, contains,
}
use tales.Base.Entries.{lookup}
use tales.Assertion.{
  Cty, Location, field, item, Mismatch, want_got, text, count, mismatch, is_object_type,
  is_object_or_map, is_tuple_or_list,
}
use tales.Assertion.Matcher.{is_matcher, apply_matcher, field_wrapper}

-- The error that a comparison returns, `exhausted` where the fuel is too small.
pub data Outcome (V F : Type 0) : Type 0 where
  passed : Outcome V F
  failed : Mismatch V F → Outcome V F
  exhausted : Outcome V F

module _ {V F : Type 0} where
  abbrev pub settle : Option (Mismatch V F) → Outcome V F
  settle none = passed
  settle (some m) = failed m

  -- if err != nil { return err }
  infixl 5 ◌and_then◌
  abbrev pub ◌and_then◌ : Outcome V F → Outcome V F → Outcome V F
  passed and_then rest = rest
  failed m and_then rest = failed m
  exhausted and_then rest = exhausted

  -- The loop over the fields of the actual value, in strict mode.
  unfoldable pub check_unexpected : List (String × V) → List String → Location → Outcome V F
  check_unexpected [] allowed path = passed
  check_unexpected ((key, v) ∷ actual) allowed path =
      let rest = check_unexpected actual allowed path in
      if contains key allowed
      then rest
      else settle (mismatch path "object has unexpected field %q" (text key ∷ []))

module _ {V F : Type 0} (cty : Cty V F) where
  -- Equal
  unfoldable pub equal : ℕ → Location → V → V → Outcome V F
  equal zero path expected actual = exhausted
  equal (suc n) path expected actual = elim (field_wrapper cty expected) [
    | some (kind, inner) ↦ equal n path inner actual
    | none ↦ elim (is_matcher cty expected) [
      | some (name, args) ↦ settle (apply_matcher cty name args actual path)
      | none ↦
          if cty.raw_equals expected actual
          then passed
          else failed (record { path = path; problem = want_got expected actual })
    ]
  ]

  -- The target of a field that is there.
  unfoldable pub field_target : V → V
  field_target expected = elim (field_wrapper cty expected) [
    | none ↦ expected
    | some (kind, inner) ↦ inner
  ]

  -- A field that is not there, from its matcher on: the error, if it is one.
  unfoldable pub missing_matcher : V → Location → Option (Mismatch V F)
  missing_matcher expected path = elim (is_matcher cty expected) [
    | none ↦ mismatch path "missing required field" []
    | some (name, args) ↦
        if str_eq name "not_exists"
        then none
        else if str_eq name "exists"
        then mismatch path "value does not exist" []
        else mismatch path "missing required field" []
  ]

  unfoldable pub missing_field : V → Location → Option (Mismatch V F)
  missing_field expected path = elim (field_wrapper cty expected) [
    | none ↦ missing_matcher expected path
    | some (kind, inner) ↦ if str_eq kind "optional" then none else missing_matcher expected path
  ]

  -- The rest of matchJSON, with the comparison of the parts.
  module _ (match : V → V → Location → Outcome V F) where
    -- The loop over the expected fields, with the allowed keys so far.
    unfoldable pub object_loop :
        List (String × V) → List (String × V) → List String → Bool → Location → Outcome V F
    object_loop [] actual allowed strict path =
        if strict then check_unexpected actual allowed path else passed
    object_loop ((key, expected) ∷ fields) actual allowed strict path = elim (lookup key actual) [
      | none ↦
          settle (missing_field expected (field path key))
          and_then object_loop fields actual allowed strict path
      | some found ↦
          match (field_target expected) found (field path key)
          and_then object_loop fields actual (key ∷ allowed) strict path
    ]

    unfoldable pub match_json_object : V → V → Bool → Location → Outcome V F
    match_json_object expected actual strict path =
        if not (is_object_or_map (cty.kind actual))
        then settle (mismatch path "expected object" [])
        else object_loop (cty.attributes expected) (cty.attributes actual) [] strict path

    -- The loop over the items from index i on.
    unfoldable pub array_loop : List V → List V → ℕ → Location → Outcome V F
    array_loop [] actual i path = passed
    array_loop (x ∷ expected) [] i path = passed
    array_loop (x ∷ expected) (y ∷ actual) i path =
        match x y (item path i) and_then array_loop expected actual (suc i) path

    unfoldable pub match_json_array : V → V → Location → Outcome V F
    match_json_array expected actual path =
        if not (is_tuple_or_list (cty.kind actual))
        then settle (mismatch path "expected array" [])
        else if not (length (cty.elements expected) == length (cty.elements actual))
        then settle (
            mismatch path "array length mismatch want=%d got=%d"
              (count (length (cty.elements expected)) ∷ count (length (cty.elements actual)) ∷ []))
        else array_loop (cty.elements expected) (cty.elements actual) 0 path

    -- From the types on: neither value is null.
    unfoldable pub match_by_type : V → V → Bool → Location → Outcome V F
    match_by_type expected actual strict path =
        if is_object_type (cty.kind expected)
        then match_json_object expected actual strict path
        else if is_tuple_or_list (cty.kind expected)
        then match_json_array expected actual path
        else if cty.raw_equals expected actual
        then passed
        else failed (record { path = path; problem = want_got expected actual })

    -- From the null tests on: no matcher is expected.
    unfoldable pub match_plain : V → V → Bool → Location → Outcome V F
    match_plain expected actual strict path =
        if cty.is_null expected
        then if cty.is_null actual then passed else settle (mismatch path "expected null" [])
        else if cty.is_null actual
        then settle (mismatch path "actual value is null" [])
        else match_by_type expected actual strict path

    -- The body of MatchJSON.
    unfoldable pub match_step : V → V → Bool → Location → Outcome V F
    match_step expected actual strict path = elim (field_wrapper cty expected) [
      | some (kind, inner) ↦ match inner actual path
      | none ↦ elim (is_matcher cty expected) [
        | some (name, args) ↦ settle (apply_matcher cty name args actual path)
        | none ↦ match_plain expected actual strict path
      ]
    ]

  unfoldable pub match_json : ℕ → V → V → Bool → Location → Outcome V F
  match_json zero expected actual strict path = exhausted
  match_json (suc n) expected actual strict path =
      match_step (λ e a p. match_json n e a strict p) expected actual strict path
