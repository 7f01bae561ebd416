-- ===== src/Assertion/Json/Accepts/Complete.antt =====
-- internal/assertion/json.go: what is accepted passes, with the fuel that the expected value needs.
use tales.Base.{
  ℕ, zero, suc, ◌<◌, String, List, [], ◌∷◌, none, some, Bool, true, false, ◌≡◌, ◌⊎◌, inl, inr, refl,
  subst, arith, Option-cases, contains, head-contains, tail-contains, ◌==◌, ==_iff, length,
  get_elem?, All,
}
use tales.Assertion.{Cty, Location, field, item}
use tales.Base.Entries.{lookup, Entry, first, later, Entry-inv, Entry-lookup}
use tales.Assertion.Matcher.{is_matcher, apply_matcher, field_wrapper}
use tales.Assertion.Json.{
  Outcome, passed, settle, ◌and_then◌, check_unexpected, field_target, missing_field, object_loop,
  match_json_object, array_loop, match_json_array, match_by_type, match_plain, match_step,
  match_json,
}
use tales.Assertion.Json.Fuel.{Size, field_wrapper-size, field_target-size}
use tales.Assertion.Json.Accepts.{
  MayMiss, HasKey, missing_field-none, Accepts, unwrap, by_matcher, both_null, by_fields, by_items,
  by_equality,
}

module _ {V F : Type 0} where
  both-passed : (o r : Outcome V F) → o ≡ passed → r ≡ passed → (o and_then r) ≡ passed
  both-passed o r ho hr = rw ho hr

  unexpected-passed :
      (actual : List (String × V)) (allowed : List String) (p : Location)
      → ((key : String) (y : V) → Entry key y actual → contains key allowed ≡ true)
      → check_unexpected {F = F} actual allowed p ≡ passed
  unfolding check_unexpected
  unexpected-passed [] allowed p h = refl
  unexpected-passed ((k, v) ∷ actual) allowed p h =
      let known : contains k allowed ≡ true = h k v (first k v actual) in
      let rest : check_unexpected {F = F} actual allowed p ≡ passed =
        unexpected-passed actual allowed p
          (λ key y there. h key y (later key y (k, v) actual there)) in
      ground (arith, known, rest)

module _ {V F : Type 0} (cty : Cty V F) (f : V → V → Location → Outcome V F) where
  -- What lets the loop over the expected fields pass.
  record Passes (fields actual : List (String × V)) (allowed : List String) (strict : Bool)
      (p : Location) : Type 0 where
    found :
        (key : String) (x y : V)
        → Entry key x fields
        → lookup key actual ≡ some y
        → f (field_target cty x) y (field p key) ≡ passed
    missing : (key : String) (x : V) → Entry key x fields → lookup key actual ≡ none → MayMiss cty x
    keys :
        strict ≡ true
        → (key : String) (y : V) → Entry key y actual
        → (contains key allowed ≡ true) ⊎ HasKey cty key fields

  object_loop-passed :
      (fields actual : List (String × V)) (allowed : List String) (strict : Bool) (p : Location)
      → Passes fields actual allowed strict p
      → object_loop cty f fields actual allowed strict p ≡ passed
  unfolding object_loop
  object_loop-passed [] actual allowed false p h = refl
  object_loop-passed [] actual allowed true p h = unexpected-passed actual allowed p (λ key y there.
      elim (h.keys refl key y there) [ inl known ↦ known | inr (v, has) ↦ elim has [ ] ])
  object_loop-passed ((k, e) ∷ fields) actual allowed strict p h =
      elim (Option-cases (lookup k actual)) [
        | inl absent ↦
            let one : settle (missing_field cty e (field p k)) ≡ passed =
              rw (missing_field-none cty e (field p k) (h.missing k e (first k e fields) absent))
                refl in
            let rest : object_loop cty f fields actual allowed strict p ≡ passed =
              object_loop-passed fields actual allowed strict p (record {
                found = λ key x y there. h.found key x y (later _ _ _ _ there);
                missing = λ key x there. h.missing key x (later _ _ _ _ there);
                keys = λ on key y there. elim (h.keys on key y there) [
                  | inl known ↦ inl known
                  | inr (v, has) ↦ elim (Entry-inv key k v e fields has) [
                    | inl same ↦ absurd (
                        Entry-lookup key y actual there
                          (subst (λ t. lookup t actual ≡ none) same absent))
                    | inr has' ↦ inr (v, has')
                  ]
                ];
              }) in
            rw (absent, object_loop) (both-passed _ _ one rest)
        | inr (y', there') ↦
            let one : f (field_target cty e) y' (field p k) ≡ passed =
              h.found k e y' (first k e fields) there' in
            let rest : object_loop cty f fields actual (k ∷ allowed) strict p ≡ passed =
              object_loop-passed fields actual (k ∷ allowed) strict p (record {
                found = λ key x y there. h.found key x y (later _ _ _ _ there);
                missing = λ key x there. h.missing key x (later _ _ _ _ there);
                keys = λ on key y there. elim (h.keys on key y there) [
                  | inl known ↦ inl (tail-contains key k allowed known)
                  | inr (v, has) ↦ elim (Entry-inv key k v e fields has) [
                    | inl same ↦ inl (
                        subst (λ t. contains t (k ∷ allowed) ≡ true) same (head-contains k allowed))
                    | inr has' ↦ inr (v, has')
                  ]
                ];
              }) in
            rw (there', object_loop) (both-passed _ _ one rest)
      ]

  array_loop-passed :
      (expected actual : List V) (i : ℕ) (p : Location)
      → ((j : ℕ) (x y : V) (q : Location)
          → get_elem? expected j ≡ some x
          → get_elem? actual j ≡ some y
          → f x y q ≡ passed)
      → array_loop cty f expected actual i p ≡ passed
  unfolding array_loop
  array_loop-passed [] actual i p h = refl
  array_loop-passed (x ∷ expected) [] i p h = refl
  array_loop-passed (x ∷ expected) (y ∷ actual) i p h =
      both-passed _ _ (h 0 x y (item p i) refl refl)
        (array_loop-passed expected actual (suc i) p (λ j x' y' q ex ey. h (suc j) x' y' q ex ey))

module _ {A : Type 0} (P : A → Type 0) where
  All-Entry :
      (key : String) (x : A) (m : List (String × A)) → All (λ kv. P kv.1) m → Entry key x m → P x
  All-Entry key x m h (first k v m') = h.0
  All-Entry key x m h (later k v kv m' there) = All-Entry k v m' h.1 there

  All-get_elem? : (xs : List A) (i : ℕ) (x : A) → All P xs → get_elem? xs i ≡ some x → P x
  All-get_elem? [] i x h e = cc
  All-get_elem? (y ∷ xs) zero x h e = let same : y ≡ x = cc in subst P same h.0
  All-get_elem? (y ∷ xs) (suc i) x h e = All-get_elem? xs i x h.1 e

module _ {V F : Type 0} (cty : Cty V F) where
  pub bare-wrapper : (e : V) → is_matcher cty e ≡ none → field_wrapper cty e ≡ none
  unfolding field_wrapper
  bare-wrapper e h = rw (h, field_wrapper) refl

  step-passed :
      (n : ℕ) (e a : V) (strict : Bool) (p : Location)
      → is_matcher cty e ≡ none
      → match_plain cty (λ x y q. match_json cty n x y strict q) e a strict p ≡ passed
      → match_json cty (suc n) e a strict p ≡ passed
  unfolding match_json match_step
  step-passed n e a strict p bare plain = ground (arith, bare-wrapper e bare, bare, plain)

module _ {V F : Type 0} (cty : Cty V F) (sized : Size cty) where
  open sized use {size, attribute_size, element_size}

  pub match_json-passed :
      (n : ℕ) (strict : Bool) (e a : V) (p : Location)
      → Accepts cty strict e a
      → size e < n
      → match_json cty n e a strict p ≡ passed
  unfolding match_json match_step match_plain match_by_type match_json_object match_json_array
  match_json-passed zero strict e a p acc h = absurd (omega (arith, h))
  match_json-passed (suc n) strict e a p (unwrap e' a' kind inner w acc) h =
      let one : match_json cty n inner a' strict p ≡ passed =
        match_json-passed n strict inner a' p acc
          (omega (arith, h, field_wrapper-size cty sized e' w)) in
      ground (arith, w, one)
  match_json-passed (suc n) strict e a p (by_matcher e' a' name args bare m passes) h =
      let one : apply_matcher cty name args a' p ≡ none = passes p in ground (arith, bare, m, one)
  match_json-passed (suc n) strict e a p (both_null e' a' bare null null') h =
      step-passed cty n e' a' strict p bare (ground (arith, null, null'))
  match_json-passed (suc n) strict e a p (by_equality e' a' bare there there' o l same) h =
      step-passed cty n e' a' strict p bare (ground (arith, there, there', o, l, same))
  match_json-passed (suc n) strict e a p (by_items e' a' bare there there' o l l' same items) h =
      let loop : array_loop cty (λ x y q. match_json cty n x y strict q) (cty.elements e')
            (cty.elements a') 0 p
          ≡ passed =
        array_loop-passed cty (λ x y q. match_json cty n x y strict q) (cty.elements e')
          (cty.elements a') 0 p
          (λ j x y q ex ey. match_json-passed n strict x y q (items j x y ex ey) (
            omega (
              arith,
              h,
              All-get_elem? (λ x. size x < size e') (cty.elements e') j x (element_size e') ex,
            ))) in
      let same' : (length (cty.elements e') == length (cty.elements a')) ≡ true =
        (==_iff _ _).1 same in
      step-passed cty n e' a' strict p bare (ground (arith, there, there', o, l, l', same', loop))
  match_json-passed (suc n) strict e a p (by_fields e' a' bare there there' o o' found missing keys)
        h =
      let loop : object_loop cty (λ x y q. match_json cty n x y strict q) (cty.attributes e')
            (cty.attributes a') [] strict p
          ≡ passed =
        object_loop-passed cty (λ x y q. match_json cty n x y strict q) (cty.attributes e')
          (cty.attributes a') [] strict p
          (record {
            found = λ key x y here look.
                match_json-passed n strict (field_target cty x) y (field p key)
                  (found key x y here look)
                  (field_target-size cty sized x n (
                    omega (
                      arith,
                      h,
                      All-Entry (λ x. size x < size e') key x (cty.attributes e')
                          (attribute_size e') here,
                    )));
            missing = missing;
            keys = λ on key y here. inr (keys on key y here);
          }) in
      step-passed cty n e' a' strict p bare (ground (arith, there, there', o, o', loop))
