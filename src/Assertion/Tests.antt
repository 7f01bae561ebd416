-- ===== src/Assertion/Tests.antt =====
-- internal/assertion: runs at small values, and the theorems applied to them.
use tales.Base.{
  ℕ, ◌<◌, String, List, [], ◌∷◌, none, true, false, ◌≡◌, ◌≢◌, ◌↔◌, refl, arith, err, ltb, leb, ◌==◌,
  All, codes, length, contains,
}
use tales.Assertion.{Kind, string_type, number_type, object_type, Cty, top, message, text}
use tales.Lang.Versions.{
  normalize_uuid_version, find_text, trim_space, trim_left, trim_right, trim_prefix_v, is_space,
}
use tales.Assertion.Uuid.{
  uuid_canonical, match_uuid, uuid_groups, hex_run, hyphen_run, is_hex, same_text, to_lower,
  lower_code, validate_uuid, validate_versioned_uuid, uuid_variant_ok, wanted_version,
}
use tales.Assertion.Uuid.Canonical.{Groups, uuid_canonical-true_iff}
use tales.Assertion.Uuid.Versions.{match_uuid-any}
use tales.Assertion.Threshold.{match_between, match_gte, match_lte, threshold_value}
use tales.Assertion.Threshold.Between.{match_between-gte_lte}
use tales.Assertion.Matcher.{is_matcher, field_wrapper}
use tales.Assertion.Json.{
  passed, failed, exhausted, match_json, match_step, match_plain, match_by_type, match_json_object,
  object_loop, field_target, check_unexpected,
}
use tales.Assertion.Json.Fuel.{Size, match_json-fuel}
use tales.Assertion.Json.Accepts.{Accepts}
use tales.Assertion.Json.Paths.{Located, match_json-Located}
use tales.Assertion.Json.Matches.{match_json-passed_iff, match_json-lenient}

-- A number, the texts of a few cty values, and three objects. The object `expected` wants an id and,
-- where it is there, a name; `answer` has both, and `larger` a field more.
data Value : Type 0 where
  ten word seven identifier four wrapped expected answer larger : Value

abbrev attributes_of : Value → List (String × Value)
attributes_of wrapped = ("__tales_matcher", word) ∷ ("value", seven) ∷ []
attributes_of expected = ("id", ten) ∷ ("name", wrapped) ∷ []
attributes_of answer = ("id", ten) ∷ ("name", seven) ∷ []
attributes_of larger = ("extra", seven) ∷ ("id", ten) ∷ ("name", seven) ∷ []
attributes_of _ = []

abbrev size_of : Value → ℕ
size_of wrapped = 1
size_of expected = 2
size_of answer = 1
size_of larger = 1
size_of _ = 0

abbrev kind_of : Value → Kind
kind_of ten = number_type
kind_of word = string_type
kind_of seven = string_type
kind_of identifier = string_type
kind_of four = string_type
kind_of _ = object_type

abbrev text_of : Value → String
text_of word = "optional"
text_of seven = "7"
text_of identifier = "6f1c8e7a-3b2d-4c5e-9f10-AABBCCDDEEFF"
text_of four = "4"
text_of _ = ""

abbrev number_of : Value → ℕ
number_of ten = 10
number_of word = 1
number_of seven = 2
number_of identifier = 3
number_of four = 4
number_of wrapped = 5
number_of expected = 6
number_of answer = 7
number_of larger = 8

abbrev samples : Cty Value ℕ
samples = record {
  kind = kind_of;
  is_null = λ v. false;
  attributes = attributes_of;
  elements = λ v. [];
  as_string = text_of;
  raw_equals = λ v w. number_of v == number_of w;
  float = number_of;
  parse_duration = λ t. none;
  less = ltb;
  less_equal = leb;
  compile = λ t. err "no pattern";
}

attribute_sizes : (v : Value) → All (λ kv. size_of kv.1 < size_of v) (attributes_of v)
attribute_sizes wrapped = (omega arith, (omega arith, tt))
attribute_sizes expected = (omega arith, (omega arith, tt))
attribute_sizes answer = (omega arith, (omega arith, tt))
attribute_sizes larger = (omega arith, (omega arith, (omega arith, tt)))
attribute_sizes ten = tt
attribute_sizes word = tt
attribute_sizes seven = tt
attribute_sizes identifier = tt
attribute_sizes four = tt

abbrev sizes : Size samples
sizes = record { size = size_of; attribute_size = attribute_sizes; element_size = λ v. tt }

passes : match_json samples 3 expected answer true (top "response") ≡ passed
unfolding match_json match_step match_plain match_by_type match_json_object object_loop
    field_wrapper is_matcher field_target check_unexpected contains
passes = refl

fails :
    match_json samples 3 expected larger true (top "response")
    ≡ failed (record {
      path = top "response";
      problem = message "object has unexpected field %q" (text "extra" ∷ []);
    })
unfolding match_json match_step match_plain match_by_type match_json_object object_loop
    field_wrapper is_matcher field_target check_unexpected contains
fails = refl

match_json-fuel_example :
    (match_json samples 5 expected answer true (top "response") ≢ exhausted)
    × (match_json samples 5 expected answer true (top "response")
        ≡ match_json samples 3 expected answer true (top "response"))
match_json-fuel_example =
    match_json-fuel samples sizes 5 expected answer true (top "response") (omega arith)

match_json-passed_iff_example :
    (match_json samples 3 expected answer true (top "response") ≡ passed)
    ↔ Accepts samples true expected answer
match_json-passed_iff_example =
    match_json-passed_iff samples sizes 3 expected answer true (top "response") (omega arith)

match_json-lenient_example : match_json samples 3 expected answer false (top "response") ≡ passed
match_json-lenient_example =
    match_json-lenient samples sizes 3 expected answer (top "response") (omega arith) passes

match_json-Located_example :
    Located (top "response") (match_json samples 3 expected larger true (top "response"))
match_json-Located_example = match_json-Located samples 3 expected larger true (top "response")

uuid_canonical-true_iff_example :
    ((uuid_canonical (codes "6f1c8e7a-3b2d-4c5e-9f10-AABBCCDDEEFF") ≡ true)
      ↔ Groups (codes "6f1c8e7a-3b2d-4c5e-9f10-AABBCCDDEEFF"))
    × (uuid_canonical (codes "6f1c8e7a-3b2d-4c5e-9f10-AABBCCDDEEFF") ≡ true
        → length (codes "6f1c8e7a-3b2d-4c5e-9f10-AABBCCDDEEFF") ≡ 36)
uuid_canonical-true_iff_example =
    uuid_canonical-true_iff (codes "6f1c8e7a-3b2d-4c5e-9f10-AABBCCDDEEFF")

versioned : match_uuid samples (("version", four) ∷ []) identifier (top "id") ≡ none
unfolding match_uuid uuid_canonical uuid_groups hex_run hyphen_run is_hex wanted_version
    validate_uuid validate_versioned_uuid uuid_variant_ok same_text to_lower lower_code
versioned = refl

match_uuid-any_example : match_uuid samples [] identifier (top "id") ≡ none
unfolding normalize_uuid_version find_text trim_space trim_left trim_right trim_prefix_v is_space
    to_lower lower_code same_text wanted_version
match_uuid-any_example =
    match_uuid-any samples " v4" (("version", four) ∷ []) identifier (top "id") refl refl versioned

match_between-gte_lte_example :
    (match_between samples (("min", ten) ∷ ("max", ten) ∷ []) ten (top "latency") ≡ none) ↔ (
      (match_gte samples (("value", ten) ∷ []) ten (top "latency") ≡ none)
      × (match_lte samples (("value", ten) ∷ []) ten (top "latency") ≡ none))
unfolding threshold_value
match_between-gte_lte_example =
    match_between-gte_lte samples (("min", ten) ∷ ("max", ten) ∷ []) ten ten ten 10 10
      (top "latency") refl refl refl refl refl
