-- ===== src/Assertion/Json/Accepts/Sound.antt =====
-- internal/assertion/json.go: what passes is accepted.
use tales.Base.{
  ℕ, zero, suc, String, List, [], none, Bool, true, false, ◌≡◌, inl, inr, ap, ◌∙◌, arith,
  Bool-cases, Option-cases, ◌==◌, ==_iff, length,
}
use tales.Assertion.{Cty, Location, is_object_type, is_object_or_map, is_tuple_or_list}
use tales.Assertion.Matcher.{is_matcher, apply_matcher, field_wrapper}
use tales.Assertion.Matcher.Paths.{at_path, apply_matcher-at}
use tales.Assertion.Json.{
  Outcome, passed, object_loop, match_json_object, array_loop, match_json_array, match_by_type,
  match_plain, match_step, match_json,
}
use tales.Assertion.Json.Accepts.{
  Accepts, unwrap, by_matcher, both_null, by_fields, by_items, by_equality,
}
use tales.Assertion.Json.Accepts.Loops.{
  settle-passed, object_loop-found, object_loop-missing, object_loop-HasKey, array_loop-Good,
}

module _ {V F : Type 0} (cty : Cty V F) where
  match_json_object-Accepts :
      (f : V → V → Location → Outcome V F) (strict : Bool) (e a : V) (p : Location)
      → ((x y : V) (q : Location) → f x y q ≡ passed → Accepts cty strict x y)
      → is_matcher cty e ≡ none
      → cty.is_null e ≡ false
      → cty.is_null a ≡ false
      → is_object_type (cty.kind e) ≡ true
      → match_json_object cty f e a strict p ≡ passed
      → Accepts cty strict e a
  unfolding match_json_object
  match_json_object-Accepts f strict e a p sound bare e_there a_there fields run =
      elim (Bool-cases (is_object_or_map (cty.kind a))) [
        | inr other ↦ absurd (ground (arith, run, other))
        | inl shape ↦
            let loop : object_loop cty f (cty.attributes e) (cty.attributes a) [] strict p
                ≡ passed =
              ground (arith, run, shape) in
            by_fields e a bare e_there a_there fields shape
              (λ key x y there found.
                object_loop-found cty f (Accepts cty strict) sound key x y _ _ [] strict p there
                  found loop)
              (λ key x there missing.
                object_loop-missing cty f (Accepts cty strict) sound key x _ _ [] strict p there
                  missing loop)
              (λ on key y there.
                object_loop-HasKey cty f (Accepts cty strict) sound key y _ _ strict p on there
                  loop)
      ]

  match_json_array-Accepts :
      (f : V → V → Location → Outcome V F) (strict : Bool) (e a : V) (p : Location)
      → ((x y : V) (q : Location) → f x y q ≡ passed → Accepts cty strict x y)
      → is_matcher cty e ≡ none
      → cty.is_null e ≡ false
      → cty.is_null a ≡ false
      → is_object_type (cty.kind e) ≡ false
      → is_tuple_or_list (cty.kind e) ≡ true
      → match_json_array cty f e a p ≡ passed
      → Accepts cty strict e a
  unfolding match_json_array
  match_json_array-Accepts f strict e a p sound bare e_there a_there no_object items run =
      let shape : is_tuple_or_list (cty.kind a) ≡ true = ground (arith, run) in
      let same : (length (cty.elements e) == length (cty.elements a)) ≡ true =
        ground (arith, run) in
      let loop : array_loop cty f (cty.elements e) (cty.elements a) 0 p ≡ passed =
        ground (arith, run) in
      by_items e a bare e_there a_there no_object items shape ((==_iff _ _).0 same)
        (λ i x y ex ey. array_loop-Good cty f (Accepts cty strict) sound _ _ 0 i x y p ex ey loop)

  match_by_type-Accepts :
      (f : V → V → Location → Outcome V F) (strict : Bool) (e a : V) (p : Location)
      → ((x y : V) (q : Location) → f x y q ≡ passed → Accepts cty strict x y)
      → is_matcher cty e ≡ none
      → cty.is_null e ≡ false
      → cty.is_null a ≡ false
      → match_by_type cty f e a strict p ≡ passed
      → Accepts cty strict e a
  unfolding match_by_type
  match_by_type-Accepts f strict e a p sound bare e_there a_there run =
      elim (Bool-cases (is_object_type (cty.kind e))) [
        | inl object ↦
            match_json_object-Accepts f strict e a p sound bare e_there a_there object
              (ground (arith, run, object))
        | inr no_object ↦ elim (Bool-cases (is_tuple_or_list (cty.kind e))) [
          | inl items ↦
              match_json_array-Accepts f strict e a p sound bare e_there a_there no_object items
                (ground (arith, run, no_object, items))
          | inr scalar ↦
              by_equality e a bare e_there a_there no_object scalar
                (ground (arith, run, no_object, scalar))
        ]
      ]

  match_plain-Accepts :
      (f : V → V → Location → Outcome V F) (strict : Bool) (e a : V) (p : Location)
      → ((x y : V) (q : Location) → f x y q ≡ passed → Accepts cty strict x y)
      → is_matcher cty e ≡ none
      → match_plain cty f e a strict p ≡ passed
      → Accepts cty strict e a
  unfolding match_plain
  match_plain-Accepts f strict e a p sound bare run = elim (Bool-cases (cty.is_null e)) [
    | inl null ↦ both_null e a bare null (ground (arith, run, null))
    | inr there ↦
        let a_there : cty.is_null a ≡ false = ground (arith, run, there) in
        match_by_type-Accepts f strict e a p sound bare there a_there
          (ground (arith, run, there, a_there))
  ]

  apply_matcher-anywhere :
      (name : String) (args : List (String × V)) (a : V) (p : Location)
      → apply_matcher cty name args a p ≡ none
      → (q : Location) → apply_matcher cty name args a q ≡ none
  apply_matcher-anywhere name args a p h q = apply_matcher-at cty name args a p q ∙ ap (at_path q) h

  pub match_json-Accepts :
      (n : ℕ) (strict : Bool) (e a : V) (p : Location)
      → match_json cty n e a strict p ≡ passed
      → Accepts cty strict e a
  unfolding match_json match_step
  match_json-Accepts zero strict e a p run = absurd (cc)
  match_json-Accepts (suc n) strict e a p run = elim (Option-cases (field_wrapper cty e)) [
    | inr ((kind, inner), w) ↦
        unwrap e a kind inner w (match_json-Accepts n strict inner a p (ground (arith, run, w)))
    | inl bare ↦ elim (Option-cases (is_matcher cty e)) [
      | inr ((name, args), m) ↦
          by_matcher e a name args bare m
            (apply_matcher-anywhere name args a p (settle-passed _ (ground (arith, run, bare, m))))
      | inl plain ↦
          match_plain-Accepts (λ x y q. match_json cty n x y strict q) strict e a p
            (λ x y q passes. match_json-Accepts n strict x y q passes) plain
            (ground (arith, run, bare, plain))
    ]
  ]
