-- ===== src/Assertion/Json/Paths.antt =====
-- internal/assertion/json.go: where a mismatch is found.
use tales.Base.{
  ℕ, zero, suc, String, str_eq, List, [], ◌∷◌, Option, none, some, Bool, true, false, ◌≡◌, inl, inr,
  arith, Bool-cases, Option-cases, contains,
}
use tales.Assertion.{Cty, Location, field, item, Mismatch}
use tales.Base.Entries.{lookup}
use tales.Assertion.Matcher.{is_matcher, field_wrapper}
use tales.Assertion.Matcher.Paths.{at_path, apply_matcher-at}
use tales.Assertion.Json.{
  Outcome, passed, failed, exhausted, settle, ◌and_then◌, check_unexpected, field_target,
  missing_matcher, missing_matcher, missing_field, object_loop, match_json_object, array_loop,
  match_json_array, match_by_type, match_plain, match_step, match_json,
}

-- The path leads to the other one or through it.
pub data Within (root : Location) : Location → Type 0 where
  here : Within root root
  into_field : (p : Location) (key : String) → Within root p → Within root (field p key)
  into_item : (p : Location) (i : ℕ) → Within root p → Within root (item p i)

Within-field :
    (root : Location) (key : String) (p : Location) → Within (field root key) p → Within root p
Within-field root key p here = into_field root key here
Within-field root key p (into_field q k w) = into_field q k (Within-field root key q w)
Within-field root key p (into_item q i w) = into_item q i (Within-field root key q w)

Within-item : (root : Location) (i : ℕ) (p : Location) → Within (item root i) p → Within root p
Within-item root i p here = into_item root i here
Within-item root i p (into_field q k w) = into_field q k (Within-item root i q w)
Within-item root i p (into_item q j w) = into_item q j (Within-item root i q w)

module _ {V F : Type 0} where
  -- The path of a failure lies within the given one.
  abbrev pub Located : Location → Outcome V F → Type 0
  Located root passed = Unit
  Located root exhausted = Unit
  Located root (failed m) = Within root m.path

  Located-and_then :
      (root : Location) (o r : Outcome V F)
      → Located root o
      → Located root r
      → Located root (o and_then r)
  Located-and_then root passed r ho hr = hr
  Located-and_then root exhausted r ho hr = tt
  Located-and_then root (failed m) r ho hr = ho

  Located-field :
      (root : Location) (key : String) (o : Outcome V F)
      → Located (field root key) o
      → Located root o
  Located-field root key passed h = tt
  Located-field root key exhausted h = tt
  Located-field root key (failed m) h = Within-field root key m.path h

  Located-item :
      (root : Location) (i : ℕ) (o : Outcome V F) → Located (item root i) o → Located root o
  Located-item root i passed h = tt
  Located-item root i exhausted h = tt
  Located-item root i (failed m) h = Within-item root i m.path h

module _ {V F : Type 0} (cty : Cty V F) where
  unexpected-Located :
      (actual : List (String × V)) (allowed : List String) (p : Location)
      → Located p (check_unexpected {F = F} actual allowed p)
  unfolding check_unexpected
  unexpected-Located [] allowed p = tt
  unexpected-Located ((k, v) ∷ actual) allowed p = elim (Bool-cases (contains k allowed)) [
    | inl known ↦ rw (known, check_unexpected) (unexpected-Located actual allowed p)
    | inr unknown ↦ rw (unknown, check_unexpected) here
  ]

  missing_matcher-Located : (e : V) (p : Location) → Located p (settle (missing_matcher cty e p))
  unfolding missing_matcher
  missing_matcher-Located e p = elim (Option-cases (is_matcher cty e)) [
    | inl bare ↦ rw (bare, missing_matcher) here
    | inr ((name, args), m) ↦ elim (Bool-cases (str_eq name "not_exists")) [
      | inl not_exists ↦ rw (m, missing_matcher) (rw not_exists tt)
      | inr other ↦ elim (Bool-cases (str_eq name "exists")) [
        | inl exists ↦ rw (m, missing_matcher) (rw other (rw exists here))
        | inr neither ↦ rw (m, missing_matcher) (rw other (rw neither here))
      ]
    ]
  ]

  missing_field-Located : (e : V) (p : Location) → Located p (settle (missing_field cty e p))
  unfolding missing_field
  missing_field-Located e p = elim (Option-cases (field_wrapper cty e)) [
    | inl bare ↦ rw (bare, missing_field) (missing_matcher-Located e p)
    | inr ((kind, inner), w) ↦ elim (Bool-cases (str_eq kind "optional")) [
      | inl optional ↦ rw (w, missing_field) (rw optional tt)
      | inr required ↦ rw (w, missing_field) (rw required (missing_matcher-Located e p))
    ]
  ]

  at_path-Located :
      (o o' : Option (Mismatch V F)) (p : Location) → o ≡ at_path p o' → Located p (settle o)
  at_path-Located o none p h = rw h tt
  at_path-Located o (some m) p h = rw h here

  module _ (f : V → V → Location → Outcome V F)
      (located : (x y : V) (p : Location) → Located p (f x y p)) where
    object_loop-Located :
        (fields actual : List (String × V)) (allowed : List String) (strict : Bool) (p : Location)
        → Located p (object_loop cty f fields actual allowed strict p)
    unfolding object_loop
    object_loop-Located [] actual allowed false p = tt
    object_loop-Located [] actual allowed true p = unexpected-Located actual allowed p
    object_loop-Located ((k, e) ∷ fields) actual allowed strict p =
        elim (Option-cases (lookup k actual)) [
          | inl missing ↦
              rw (missing, object_loop)
                (Located-and_then p _ _ (Located-field p k _ (missing_field-Located e (field p k)))
                  (object_loop-Located fields actual allowed strict p))
          | inr (y, found) ↦
              rw (found, object_loop)
                (Located-and_then p _ _
                  (Located-field p k _ (located (field_target cty e) y (field p k)))
                  (object_loop-Located fields actual (k ∷ allowed) strict p))
        ]

    array_loop-Located :
        (expected actual : List V) (i : ℕ) (p : Location)
        → Located p (array_loop cty f expected actual i p)
    unfolding array_loop
    array_loop-Located [] actual i p = tt
    array_loop-Located (x ∷ expected) [] i p = tt
    array_loop-Located (x ∷ expected) (y ∷ actual) i p =
        Located-and_then p _ _ (Located-item p i _ (located x y (item p i)))
          (array_loop-Located expected actual (suc i) p)

    match_by_type-Located :
        (e a : V) (strict : Bool) (p : Location) → Located p (match_by_type cty f e a strict p)
    unfolding match_by_type match_json_object match_json_array
    match_by_type-Located e a strict p =
        let at : Within p p = here in
        ground (
          arith,
          at,
          object_loop-Located (cty.attributes e) (cty.attributes a) [] strict p,
          array_loop-Located (cty.elements e) (cty.elements a) 0 p,
        )

    match_plain-Located :
        (e a : V) (strict : Bool) (p : Location) → Located p (match_plain cty f e a strict p)
    unfolding match_plain
    match_plain-Located e a strict p =
        let at : Within p p = here in ground (arith, at, match_by_type-Located e a strict p)

  -- Where matchJSON fails, the path of the mismatch starts with the path that it was given.
  pub match_json-Located :
      (n : ℕ) (expected actual : V) (strict : Bool) (path : Location)
      → Located path (match_json cty n expected actual strict path)
  unfolding match_json match_step
  match_json-Located zero e a strict p = tt
  match_json-Located (suc n) e a strict p = elim (Option-cases (field_wrapper cty e)) [
    | inr ((kind, inner), w) ↦ rw (w, match_step) (match_json-Located n inner a strict p)
    | inl bare ↦ elim (Option-cases (is_matcher cty e)) [
      | inr ((name, args), m) ↦
          rw (bare, match_step)
            (rw (m, match_step) (at_path-Located _ _ p (apply_matcher-at cty name args a p p)))
      | inl plain ↦
          rw (bare, match_step)
            (rw (plain, match_step)
              (match_plain-Located (λ x y q. match_json cty n x y strict q)
                (λ x y q. match_json-Located n x y strict q) e a strict p))
    ]
  ]
