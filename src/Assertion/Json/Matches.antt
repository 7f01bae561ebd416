-- ===== src/Assertion/Json/Matches.antt =====
-- internal/assertion/json.go: MatchJSON and what it accepts.
use tales.Base.{
  ℕ, ◌<◌, String, none, some, Bool, true, false, ◌≡◌, ◌↔◌, inl, inr, refl, sym, subst, arith,
  Bool-cases, get_elem?,
}
use tales.Assertion.{Kind, Cty, Location, is_object_type, is_object_or_map, is_tuple_or_list}
use tales.Base.Entries.{lookup, Entry, Entry-lookup}
use tales.Assertion.Matcher.{is_matcher}
use tales.Assertion.Json.{passed, field_target, match_json}
use tales.Assertion.Json.Fuel.{Size}
use tales.Assertion.Json.Accepts.{
  Accepts, unwrap, by_matcher, both_null, by_fields, by_items, by_equality,
}
use tales.Assertion.Json.Accepts.Sound.{match_json-Accepts}
use tales.Assertion.Json.Accepts.Complete.{match_json-passed, bare-wrapper}

object-map : (k : Kind) → is_object_type k ≡ true → is_object_or_map k ≡ true
object-map k h = ground arith

module _ {V F : Type 0} (cty : Cty V F) where
  Accepts-lenient : (e a : V) → Accepts cty true e a → Accepts cty false e a
  Accepts-lenient e a (unwrap e' a' kind inner w acc) =
      unwrap e' a' kind inner w (Accepts-lenient inner a' acc)
  Accepts-lenient e a (by_matcher e' a' name args bare m passes) =
      by_matcher e' a' name args bare m passes
  Accepts-lenient e a (both_null e' a' bare null null') = both_null e' a' bare null null'
  Accepts-lenient e a (by_equality e' a' bare t t' o l same) = by_equality e' a' bare t t' o l same
  Accepts-lenient e a (by_items e' a' bare t t' o l l' same items) =
      by_items e' a' bare t t' o l l' same (λ i x y ex ey. Accepts-lenient x y (items i x y ex ey))
  Accepts-lenient e a (by_fields e' a' bare t t' o o' found missing keys) =
      by_fields e' a' bare t t' o o'
        (λ key x y here look. Accepts-lenient (field_target cty x) y (found key x y here look))
        missing (λ off. absurd (cc))

  -- No matcher stands anywhere inside the value.
  pub data Plain : V → Type 0 where
    plain :
        (v : V)
        → is_matcher cty v ≡ none
        → ((key : String) (x : V) → Entry key x (cty.attributes v) → Plain x)
        → ((i : ℕ) (x : V) → get_elem? (cty.elements v) i ≡ some x → Plain x)
        → Plain v

  -- What the comparison relies on of the cty library: RawEquals holds of a value and itself, and a
  -- map has one value for a key.
  pub record Lawful : Type 0 where
    pub reflexive : (v : V) → cty.raw_equals v v ≡ true
    pub unique :
        (v : V) (key : String) (x y : V)
        → Entry key x (cty.attributes v)
        → lookup key (cty.attributes v) ≡ some y
        → x ≡ y

  Plain-bare : (v : V) → Plain v → is_matcher cty v ≡ none
  Plain-bare v (plain v' bare fields items) = bare

  field_target-Plain : (v : V) → Plain v → field_target cty v ≡ v
  unfolding field_target
  field_target-Plain v h = rw (bare-wrapper cty v (Plain-bare v h), field_target) refl

  Plain-Accepts : (v : V) → Lawful → Plain v → Accepts cty true v v
  Plain-Accepts v laws (plain v' bare fields items) = elim (Bool-cases (cty.is_null v')) [
    | inl null ↦ both_null v' v' bare null null
    | inr there ↦ elim (Bool-cases (is_object_type (cty.kind v'))) [
      | inl object ↦
          by_fields v' v' bare there there object (object-map (cty.kind v') object)
            (λ key x y here look.
              subst (λ t. Accepts cty true t y) (sym (field_target-Plain x (fields key x here)))
                (subst (λ t. Accepts cty true x t) (laws.unique v' key x y here look)
                  (Plain-Accepts x laws (fields key x here))))
            (λ key x here look. absurd (Entry-lookup key x _ here look))
            (λ on key y here. (y, here))
      | inr no_object ↦ elim (Bool-cases (is_tuple_or_list (cty.kind v'))) [
        | inl array ↦ by_items v' v' bare there there no_object array array refl (λ i x y ex ey.
            let same : x ≡ y = cc in
            subst (λ t. Accepts cty true x t) same (Plain-Accepts x laws (items i x ex)))
        | inr scalar ↦ by_equality v' v' bare there there no_object scalar (laws.reflexive v')
      ]
    ]
  ]

module _ {V F : Type 0} (cty : Cty V F) (sized : Size cty) where
  open sized use {size}

  -- With more fuel than the size of the expected value, matchJSON returns without an error exactly
  -- if the actual value is accepted.
  pub match_json-passed_iff :
      (n : ℕ) (expected actual : V) (strict : Bool) (path : Location)
      → size expected < n
      → (match_json cty n expected actual strict path ≡ passed) ↔ Accepts cty strict expected actual
  match_json-passed_iff n expected actual strict path enough = (
    match_json-Accepts cty n strict expected actual path,
    λ acc. match_json-passed cty sized n strict expected actual path acc enough,
  )

  -- With more fuel than the size of the expected value: what passes in strict mode passes in the
  -- other mode as well.
  pub match_json-lenient :
      (n : ℕ) (expected actual : V) (path : Location)
      → size expected < n
      → match_json cty n expected actual true path ≡ passed
      → match_json cty n expected actual false path ≡ passed
  match_json-lenient n expected actual path enough run =
      match_json-passed cty sized n false expected actual path
        (Accepts-lenient cty expected actual
          (match_json-Accepts cty n true expected actual path run))
        enough

  -- With more fuel than its size, a value without matchers inside passes against itself, even in
  -- strict mode, where RawEquals is reflexive and a map has one value for a key.
  pub match_json_self :
      (n : ℕ) (v : V) (path : Location)
      → Lawful cty
      → Plain cty v
      → size v < n
      → match_json cty n v v true path ≡ passed
  match_json_self n v path laws h enough =
      match_json-passed cty sized n true v v path (Plain-Accepts cty v laws h) enough
