-- ===== src/Assertion/Matcher.antt =====
-- internal/assertion/matcher.go: matcher values, their handlers, and the wrappers of a field.
pub mod Paths
use tales.Base.{
  String, str_eq, List, [], ◌∷◌, Option, none, some, Bool, true, false, ◌||◌, ◌&&◌, not,
  if◌then◌else◌, ok, err, Bytes, codes, has_prefix,
}
use tales.Base.Entries.{delete, lookup}
use tales.Assertion.{
  Cty, Location, Mismatch, Shown, text, mismatch, is_string_type, is_number_type, is_bool_type,
  is_object_type, is_object_or_map, is_tuple_or_list,
}
use tales.Assertion.Uuid.{match_uuid}
use tales.Assertion.Threshold.{match_lt, match_lte, match_gt, match_gte, match_between}

-- strings.Contains
unfoldable pub text_contains : Bytes → Bytes → Bool
text_contains [] t = has_prefix [] t
text_contains (c ∷ s) t = has_prefix (c ∷ s) t || text_contains s t

module _ {V F : Type 0} (cty : Cty V F) where
  abbrev pub Handler : Type 0
  Handler = List (String × V) → V → Location → Option (Mismatch V F)

  -- The name and the arguments, for a matcher.
  unfoldable pub is_matcher : V → Option (String × List (String × V))
  is_matcher v =
      if not (is_object_type (cty.kind v)) || cty.is_null v
      then none
      else elim (lookup "__tales_matcher" (cty.attributes v)) [
        | none ↦ none
        | some name ↦
            if is_string_type (cty.kind name)
            then some (cty.as_string name, delete "__tales_matcher" (cty.attributes v))
            else none
      ]

  unfoldable pub match_exists : Handler
  match_exists args actual path =
      if cty.is_null actual then mismatch path "value does not exist" [] else none

  unfoldable pub match_not_exists : Handler
  match_not_exists args actual path =
      if cty.is_null actual then none else mismatch path "value exists but should not" []

  unfoldable pub match_is_string : Handler
  match_is_string args actual path =
      if is_string_type (cty.kind actual) then none else mismatch path "value is not a string" []

  unfoldable pub match_is_number : Handler
  match_is_number args actual path =
      if is_number_type (cty.kind actual) then none else mismatch path "value is not a number" []

  unfoldable pub match_is_bool : Handler
  match_is_bool args actual path =
      if is_bool_type (cty.kind actual) then none else mismatch path "value is not a bool" []

  unfoldable pub match_is_array : Handler
  match_is_array args actual path =
      if is_tuple_or_list (cty.kind actual) then none else mismatch path "value is not an array" []

  unfoldable pub match_is_object : Handler
  match_is_object args actual path =
      if is_object_or_map (cty.kind actual) then none else mismatch path "value is not an object" []

  -- Some element is equal to the value, on the left of RawEquals or on its right.
  unfoldable pub any_equals : List V → V → Bool
  any_equals [] needle = false
  any_equals (x ∷ xs) needle = cty.raw_equals x needle || any_equals xs needle

  unfoldable pub match_contains : Handler
  match_contains args actual path = elim (lookup "value" args) [
    | none ↦ mismatch path "contains matcher is missing value" []
    | some needle ↦
        if is_string_type (cty.kind actual) && is_string_type (cty.kind needle)
        then if text_contains (codes (cty.as_string actual)) (codes (cty.as_string needle))
          then none
          else mismatch path "%q does not contain %q"
              (text (cty.as_string actual) ∷ text (cty.as_string needle) ∷ [])
        else if is_tuple_or_list (cty.kind actual)
        then if any_equals (cty.elements actual) needle
          then none
          else mismatch path "array does not contain expected value" []
        else mismatch path "contains matcher requires string or array" []
  ]

  -- From the pattern on.
  unfoldable pub match_pattern : V → V → Location → Option (Mismatch V F)
  match_pattern pattern actual path =
      if not (is_string_type (cty.kind actual))
      then mismatch path "matches matcher requires actual string" []
      else elim (cty.compile (cty.as_string pattern)) [
        | err message ↦ mismatch path message []
        | ok matches ↦
            if matches (cty.as_string actual)
            then none
            else mismatch path "%q does not match %q"
                (text (cty.as_string actual) ∷ text (cty.as_string pattern) ∷ [])
      ]

  unfoldable pub match_regex : Handler
  match_regex args actual path = elim (lookup "value" args) [
    | none ↦ mismatch path "matches matcher requires regex pattern" []
    | some pattern ↦
        if not (is_string_type (cty.kind pattern))
        then mismatch path "matches matcher requires regex pattern" []
        else match_pattern pattern actual path
  ]

  unfoldable pub match_any : Handler
  match_any args actual path = none

  unfoldable pub match_one_of : Handler
  match_one_of args actual path = elim (lookup "value" args) [
    | none ↦ mismatch path "one_of matcher is missing values" []
    | some values ↦
        if not (is_tuple_or_list (cty.kind values))
        then mismatch path "one_of matcher requires list" []
        else if any_equals (cty.elements values) actual
        then none
        else mismatch path "value is not in allowed list" []
  ]

  unfoldable pub matcher_handlers : List (String × Handler)
  matcher_handlers =
      ("exists", match_exists)
      ∷ ("not_exists", match_not_exists)
      ∷ ("is_string", match_is_string)
      ∷ ("is_number", match_is_number)
      ∷ ("is_bool", match_is_bool)
      ∷ ("is_array", match_is_array)
      ∷ ("is_object", match_is_object)
      ∷ ("contains", match_contains)
      ∷ ("matches", match_regex)
      ∷ ("one_of", match_one_of)
      ∷ ("uuid", match_uuid cty)
      ∷ ("any", match_any)
      ∷ ("lt", match_lt cty)
      ∷ ("lte", match_lte cty)
      ∷ ("gt", match_gt cty)
      ∷ ("gte", match_gte cty)
      ∷ ("between", match_between cty)
      ∷ []

  unfoldable pub apply_matcher : String → Handler
  apply_matcher name args actual path = elim (lookup name matcher_handlers) [
    | none ↦ mismatch path "unknown matcher %q" (text name ∷ [])
    | some handler ↦ handler args actual path
  ]

  -- The kind of a wrapper and its inner expectation.
  unfoldable pub field_wrapper : V → Option (String × V)
  field_wrapper v = elim (is_matcher v) [
    | none ↦ none
    | some (name, args) ↦
        if not (str_eq name "optional") && not (str_eq name "required")
        then none
        else elim (lookup "value" args) [ none ↦ none | some inner ↦ some (name, inner) ]
  ]
