-- ===== src/Assertion/Json/Fuel.antt =====
-- internal/assertion/json.go: the fuel that a comparison takes. The size of a value is a measure of
-- the cty library's values that is smaller for every attribute and every element.
use tales.Base.{
  ℕ, zero, suc, ◌<◌, String, List, [], ◌∷◌, Option, none, some, Bool, true, false, ◌≡◌, ◌≢◌, refl,
  sym, arith, All, Bool-cases, Option-cases, inl, inr, contains,
}
use tales.Assertion.{Cty, Location, field, item, Mismatch}
use tales.Base.Entries.{delete, lookup, All-lookup, All-delete}
use tales.Assertion.Matcher.{is_matcher, apply_matcher, field_wrapper}
use tales.Assertion.Json.{
  Outcome, passed, failed, exhausted, settle, ◌and_then◌, check_unexpected, equal, field_target,
  missing_field, object_loop, match_json_object, array_loop, match_json_array, match_by_type,
  match_plain, match_step, match_json,
}

module _ {V F : Type 0} where
  -- Two comparisons end with the same outcome, which is not that the fuel is used up.
  abbrev Agree : Outcome V F → Outcome V F → Type 0
  Agree o o' = (o ≡ o') × (o ≢ exhausted)

  Agree-settle : (e : Option (Mismatch V F)) → Agree (settle e) (settle e)
  Agree-settle none = (refl, λ h. cc)
  Agree-settle (some m) = (refl, λ h. cc)

  Agree-and_then :
      (o o' r r' : Outcome V F) → Agree o o' → Agree r r' → Agree (o and_then r) (o' and_then r')
  Agree-and_then passed o' r r' (e, h) hr = rw (sym e) hr
  Agree-and_then (failed m) o' r r' (e, h) hr = rw (sym e) (refl, λ x. cc)
  Agree-and_then exhausted o' r r' (e, h) hr = absurd (h refl)

-- A measure of the values that the comparison makes smaller.
pub record Size {V F : Type 0} (cty : Cty V F) : Type 0 where
  pub size : V → ℕ
  pub attribute_size : (v : V) → All (λ kv. size kv.1 < size v) (cty.attributes v)
  pub element_size : (v : V) → All (λ x. size x < size v) (cty.elements v)

module _ {V F : Type 0} (cty : Cty V F) (sized : Size cty) where
  open sized use {size, attribute_size, element_size}

  is_matcher-size :
      (v : V) {name : String} {args : List (String × V)}
      → is_matcher cty v ≡ some (name, args)
      → All (λ kv. size kv.1 < size v) args
  unfolding is_matcher
  is_matcher-size v {args = args} h =
      let same : args ≡ delete "__tales_matcher" (cty.attributes v) = ground (arith, h) in
      rw same
        (All-delete (λ x. size x < size v) "__tales_matcher" (cty.attributes v) (attribute_size v))

  pub field_wrapper-size :
      (v : V) {kind : String} {inner : V}
      → field_wrapper cty v ≡ some (kind, inner)
      → size inner < size v
  unfolding field_wrapper
  field_wrapper-size v {kind = kind} {inner = inner} h = elim (Option-cases (is_matcher cty v)) [
    | inl e ↦ absurd (ground (arith, h, e))
    | inr ((name, args), e) ↦
        let found : lookup "value" args ≡ some inner = ground (arith, h, e) in
        All-lookup (λ x. size x < size v) "value" args (is_matcher-size v e) found
  ]

  pub field_target-size : (v : V) (n : ℕ) → size v < n → size (field_target cty v) < n
  unfolding field_target
  field_target-size v n h = elim (Option-cases (field_wrapper cty v)) [
    | inl e ↦ rw (e, field_target) h
    | inr ((kind, inner), e) ↦ rw (e, field_target) (omega (arith, h, field_wrapper-size v e))
  ]

  module _ (f g : V → V → Location → Outcome V F) (bound : ℕ)
      (agree : (x y : V) (p : Location) → size x < bound → Agree (f x y p) (g x y p)) where
    unexpected-Agree :
        (actual : List (String × V)) (allowed : List String) (p : Location)
        → Agree (check_unexpected {F = F} actual allowed p) (check_unexpected actual allowed p)
    unfolding check_unexpected
    unexpected-Agree [] allowed p = (refl, λ h. cc)
    unexpected-Agree ((key, v) ∷ actual) allowed p = elim (Bool-cases (contains key allowed)) [
      | inl here ↦ rw here (unexpected-Agree actual allowed p)
      | inr absent ↦ rw absent (refl, λ h. cc)
    ]

    object_loop-Agree :
        (fields actual : List (String × V)) (allowed : List String) (strict : Bool) (p : Location)
        → All (λ kv. size kv.1 < bound) fields
        → Agree
            (object_loop cty f fields actual allowed strict p)
            (object_loop cty g fields actual allowed strict p)
    unfolding object_loop
    object_loop-Agree [] actual allowed false p small = (refl, λ h. cc)
    object_loop-Agree [] actual allowed true p small = unexpected-Agree actual allowed p
    object_loop-Agree ((key, e) ∷ fields) actual allowed strict p (he, small) =
        elim (Option-cases (lookup key actual)) [
          | inl missing ↦
              rw (missing, object_loop)
                (Agree-and_then _ _ _ _ (Agree-settle (missing_field cty e (field p key)))
                  (object_loop-Agree fields actual allowed strict p small))
          | inr (x, found) ↦
              rw (found, object_loop)
                (Agree-and_then _ _ _ _
                  (agree (field_target cty e) x (field p key) (field_target-size e bound he))
                  (object_loop-Agree fields actual (key ∷ allowed) strict p small))
        ]

    array_loop-Agree :
        (expected actual : List V) (i : ℕ) (p : Location)
        → All (λ x. size x < bound) expected
        → Agree (array_loop cty f expected actual i p) (array_loop cty g expected actual i p)
    unfolding array_loop
    array_loop-Agree [] actual i p small = (refl, λ h. cc)
    array_loop-Agree (x ∷ expected) [] i p small = (refl, λ h. cc)
    array_loop-Agree (x ∷ expected) (y ∷ actual) i p (hx, small) =
        Agree-and_then _ _ _ _ (agree x y (item p i) hx)
          (array_loop-Agree expected actual (suc i) p small)

    match_by_type-Agree :
        (e a : V) (strict : Bool) (p : Location)
        → All (λ kv. size kv.1 < bound) (cty.attributes e)
        → All (λ x. size x < bound) (cty.elements e)
        → Agree (match_by_type cty f e a strict p) (match_by_type cty g e a strict p)
    unfolding match_by_type match_json_object match_json_array
    match_by_type-Agree e a strict p attrs elems = ground (
      arith,
      object_loop-Agree (cty.attributes e) (cty.attributes a) [] strict p attrs,
      array_loop-Agree (cty.elements e) (cty.elements a) 0 p elems,
    )

    match_plain-Agree :
        (e a : V) (strict : Bool) (p : Location)
        → All (λ kv. size kv.1 < bound) (cty.attributes e)
        → All (λ x. size x < bound) (cty.elements e)
        → Agree (match_plain cty f e a strict p) (match_plain cty g e a strict p)
    unfolding match_plain
    match_plain-Agree e a strict p attrs elems =
        ground (arith, match_by_type-Agree e a strict p attrs elems)

  match_step-Agree :
      (f g : V → V → Location → Outcome V F) (e a : V) (strict : Bool) (p : Location)
      → ((x y : V) (q : Location) → size x < size e → Agree (f x y q) (g x y q))
      → Agree (match_step cty f e a strict p) (match_step cty g e a strict p)
  unfolding match_step
  match_step-Agree f g e a strict p agree = elim (Option-cases (field_wrapper cty e)) [
    | inr ((kind, inner), w) ↦ rw (w, match_step) (agree inner a p (field_wrapper-size e w))
    | inl bare ↦ elim (Option-cases (is_matcher cty e)) [
      | inr ((name, args), m) ↦
          rw (bare, match_step)
            (rw (m, match_step) (Agree-settle (apply_matcher cty name args a p)))
      | inl plain ↦
          rw (bare, match_step)
            (rw (plain, match_step)
              (match_plain-Agree f g (size e) agree e a strict p (attribute_size e)
                (element_size e)))
    ]
  ]

  match_json-Agree :
      (n m : ℕ) (e a : V) (strict : Bool) (p : Location)
      → size e < n
      → size e < m
      → Agree (match_json cty n e a strict p) (match_json cty m e a strict p)
  unfolding match_json
  match_json-Agree zero m e a strict p h h' = absurd (omega (arith, h))
  match_json-Agree (suc n) zero e a strict p h h' = absurd (omega (arith, h'))
  match_json-Agree (suc n) (suc m) e a strict p h h' =
      match_step-Agree (λ x y q. match_json cty n x y strict q)
        (λ x y q. match_json cty m x y strict q) e a strict p
        (λ x y q small.
          match_json-Agree n m x y strict q (omega (arith, small, h)) (omega (arith, small, h')))

  -- With more fuel than the size of the expected value, matchJSON returns, and more fuel than that
  -- changes nothing.
  pub match_json-fuel :
      (n : ℕ) (expected actual : V) (strict : Bool) (path : Location)
      → size expected < n
      → (match_json cty n expected actual strict path ≢ exhausted)
        × (match_json cty n expected actual strict path
            ≡ match_json cty (suc (size expected)) expected actual strict path)
  match_json-fuel n expected actual strict path enough =
      let (same, settled) =
        match_json-Agree n (suc (size expected)) expected actual strict path enough (omega arith) in
      (settled, same)

  -- Equal returns when it has more fuel than the size of the expected value.
  pub equal-fuel :
      (n : ℕ) (path : Location) (expected actual : V)
      → size expected < n
      → equal cty n path expected actual ≢ exhausted
  unfolding equal
  equal-fuel zero path e a h = absurd (omega (arith, h))
  equal-fuel (suc n) path e a h = elim (Option-cases (field_wrapper cty e)) [
    | inr ((kind, inner), w) ↦
        rw (w, equal) (equal-fuel n path inner a (omega (arith, h, field_wrapper-size e w)))
    | inl bare ↦ elim (Option-cases (is_matcher cty e)) [
      | inr ((name, args), m) ↦
          rw (bare, equal) (rw (m, equal) ((Agree-settle (apply_matcher cty name args a path)).1))
      | inl plain ↦ ground (arith, bare, plain)
    ]
  ]
