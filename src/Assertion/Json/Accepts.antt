-- ===== src/Assertion/Json/Accepts.antt =====
-- internal/assertion/json.go: which values match which expectations, without paths, fuel and the
-- order of a range over a map.
pub mod Loops
pub mod Sound
pub mod Complete
use tales.Base.{
  ℕ, zero, suc, ◌<◌, String, str_eq, List, [], ◌∷◌, Option, none, some, Bool, true, false, ◌≡◌, ◌≢◌,
  ◌⊎◌, ◌↔◌, inl, inr, refl, sym, ap, ◌∙◌, subst, eq_iff, arith, if◌then◌else◌, Bool-cases,
  Option-cases, contains, not, ◌==◌, length, get_elem?,
}
use tales.Assertion.{
  Cty, Location, top, field, item, Mismatch, is_object_type, is_object_or_map, is_tuple_or_list,
}
use tales.Base.Entries.{lookup, Entry, first, later}
use tales.Assertion.Matcher.{is_matcher, apply_matcher, field_wrapper}
use tales.Assertion.Matcher.Paths.{apply_matcher-at}
use tales.Assertion.Json.{
  Outcome, passed, failed, exhausted, settle, ◌and_then◌, check_unexpected, field_target,
  missing_matcher, missing_field, object_loop, match_json_object, array_loop, match_json_array,
  match_by_type, match_plain, match_step, match_json,
}
use tales.Assertion.Json.Fuel.{Size, field_wrapper-size, field_target-size}

module _ {V F : Type 0} (cty : Cty V F) where
  -- An expected field that may be missing: one wrapped in `optional`, or the matcher `not_exists`.
  abbrev pub MayMiss : V → Type 0
  MayMiss e =
      ((inner : V) × (field_wrapper cty e ≡ some ("optional", inner)))
      ⊎ ((args : List (String × V)) × (is_matcher cty e ≡ some ("not_exists", args)))

  -- The key is that of an entry.
  abbrev pub HasKey : String → List (String × V) → Type 0
  HasKey key m = (v : V) × Entry key v m

  -- The actual value is what is expected.
  pub data Accepts (strict : Bool) : V → V → Type 0 where
    unwrap :
        (e a : V) (kind : String) (inner : V)
        → field_wrapper cty e ≡ some (kind, inner)
        → Accepts strict inner a
        → Accepts strict e a
    by_matcher :
        (e a : V) (name : String) (args : List (String × V))
        → field_wrapper cty e ≡ none
        → is_matcher cty e ≡ some (name, args)
        → ((p : Location) → apply_matcher cty name args a p ≡ none)
        → Accepts strict e a
    both_null :
        (e a : V)
        → is_matcher cty e ≡ none
        → cty.is_null e ≡ true
        → cty.is_null a ≡ true
        → Accepts strict e a
    by_fields :
        (e a : V)
        → is_matcher cty e ≡ none
        → cty.is_null e ≡ false
        → cty.is_null a ≡ false
        → is_object_type (cty.kind e) ≡ true
        → is_object_or_map (cty.kind a) ≡ true
        → ((key : String) (x y : V)
            → Entry key x (cty.attributes e)
            → lookup key (cty.attributes a) ≡ some y
            → Accepts strict (field_target cty x) y)
        → ((key : String) (x : V)
            → Entry key x (cty.attributes e)
            → lookup key (cty.attributes a) ≡ none
            → MayMiss x)
        → (strict ≡ true
            → (key : String) (y : V) → Entry key y (cty.attributes a)
            → HasKey key (cty.attributes e))
        → Accepts strict e a
    by_items :
        (e a : V)
        → is_matcher cty e ≡ none
        → cty.is_null e ≡ false
        → cty.is_null a ≡ false
        → is_object_type (cty.kind e) ≡ false
        → is_tuple_or_list (cty.kind e) ≡ true
        → is_tuple_or_list (cty.kind a) ≡ true
        → length (cty.elements e) ≡ length (cty.elements a)
        → ((i : ℕ) (x y : V)
            → get_elem? (cty.elements e) i ≡ some x
            → get_elem? (cty.elements a) i ≡ some y
            → Accepts strict x y)
        → Accepts strict e a
    by_equality :
        (e a : V)
        → is_matcher cty e ≡ none
        → cty.is_null e ≡ false
        → cty.is_null a ≡ false
        → is_object_type (cty.kind e) ≡ false
        → is_tuple_or_list (cty.kind e) ≡ false
        → cty.raw_equals e a ≡ true
        → Accepts strict e a

module _ {V F : Type 0} (cty : Cty V F) where
  missing_matcher-NotExists :
      (e : V) (p : Location)
      → missing_matcher cty e p ≡ none
      → (args : List (String × V)) × (is_matcher cty e ≡ some ("not_exists", args))
  unfolding missing_matcher
  missing_matcher-NotExists e p h = elim (Option-cases (is_matcher cty e)) [
    | inl none_there ↦ absurd (ground (arith, h, none_there))
    | inr ((name, args), m) ↦ elim (Bool-cases (str_eq name "not_exists")) [
      | inl same ↦ (args, m ∙ ap (λ t. some (t, args)) ((eq_iff name "not_exists").0 same))
      | inr other ↦ absurd (ground (arith, h, m, other))
    ]
  ]

  missing_matcher-none :
      (e : V) (p : Location) (args : List (String × V))
      → is_matcher cty e ≡ some ("not_exists", args)
      → missing_matcher cty e p ≡ none
  unfolding missing_matcher
  missing_matcher-none e p args h = rw (h, missing_matcher) refl

  pub missing_field-MayMiss : (e : V) (p : Location) → missing_field cty e p ≡ none → MayMiss cty e
  unfolding missing_field
  missing_field-MayMiss e p h = elim (Option-cases (field_wrapper cty e)) [
    | inl bare ↦ inr (missing_matcher-NotExists e p (ground (arith, h, bare)))
    | inr ((kind, inner), w) ↦ elim (Bool-cases (str_eq kind "optional")) [
      | inl same ↦ inl (inner, w ∙ ap (λ t. some (t, inner)) ((eq_iff kind "optional").0 same))
      | inr other ↦ inr (missing_matcher-NotExists e p (ground (arith, h, w, other)))
    ]
  ]

  pub missing_field-none : (e : V) (p : Location) → MayMiss cty e → missing_field cty e p ≡ none
  unfolding missing_field
  missing_field-none e p (inl (inner, w)) = rw (w, missing_field) refl
  missing_field-none e p (inr (args, m)) = ground (arith, missing_matcher-none e p args m)
