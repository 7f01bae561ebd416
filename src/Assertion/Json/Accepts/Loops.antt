-- ===== src/Assertion/Json/Accepts/Loops.antt =====
-- internal/assertion/json.go: the loops over the fields and the items, where they pass.
use tales.Base.{
  ℕ, zero, suc, String, str_eq, List, [], ◌∷◌, Option, none, some, Bool, true, false, ◌≡◌, ◌⊎◌, inl,
  inr, refl, sym, subst, eq_iff, arith, Bool-cases, Option-cases, contains, get_elem?,
}
use tales.Assertion.{Cty, Location, field, Mismatch}
use tales.Base.Entries.{lookup, Entry, first, later}
use tales.Assertion.Json.{
  Outcome, passed, failed, exhausted, settle, ◌and_then◌, check_unexpected, field_target,
  missing_field, object_loop, array_loop,
}
use tales.Assertion.Json.Accepts.{MayMiss, HasKey, missing_field-MayMiss}

module _ {V F : Type 0} where
  pub and_then-passed : (o r : Outcome V F) → (o and_then r) ≡ passed → (o ≡ passed) × (r ≡ passed)
  and_then-passed passed r h = (refl, h)
  and_then-passed (failed m) r h = cc
  and_then-passed exhausted r h = cc

  pub settle-passed : (o : Option (Mismatch V F)) → settle o ≡ passed → o ≡ none
  settle-passed none h = refl
  settle-passed (some m) h = cc

contains-tail :
    (key k : String) (allowed : List String)
    → str_eq k key ≡ false
    → contains key (k ∷ allowed) ≡ true
    → contains key allowed ≡ true
unfolding contains
contains-tail key k allowed other h = ground (arith, other, h)

module _ {V F : Type 0} (cty : Cty V F) (f : V → V → Location → Outcome V F) (Good : V → V → Type 0)
    (sound : (x y : V) (p : Location) → f x y p ≡ passed → Good x y) where
  head_found :
      (key : String) (e : V) (fields actual : List (String × V)) (allowed : List String)
      (strict : Bool) (p : Location) (y : V)
      → lookup key actual ≡ some y
      → object_loop cty f ((key, e) ∷ fields) actual allowed strict p ≡ passed
      → Good (field_target cty e) y
        × (object_loop cty f fields actual (key ∷ allowed) strict p ≡ passed)
  unfolding object_loop
  head_found key e fields actual allowed strict p y found run =
      let joined : (f (field_target cty e) y (field p key)
            and_then object_loop cty f fields actual (key ∷ allowed) strict p)
          ≡ passed =
        ground (arith, run, found) in
      let (one, rest) = and_then-passed _ _ joined in (sound _ _ _ one, rest)

  head_missing :
      (key : String) (e : V) (fields actual : List (String × V)) (allowed : List String)
      (strict : Bool) (p : Location)
      → lookup key actual ≡ none
      → object_loop cty f ((key, e) ∷ fields) actual allowed strict p ≡ passed
      → MayMiss cty e × (object_loop cty f fields actual allowed strict p ≡ passed)
  unfolding object_loop
  head_missing key e fields actual allowed strict p missing run =
      let joined : (settle (missing_field cty e (field p key))
            and_then object_loop cty f fields actual allowed strict p)
          ≡ passed =
        ground (arith, run, missing) in
      let (one, rest) = and_then-passed _ _ joined in
      (missing_field-MayMiss cty e (field p key) (settle-passed _ one), rest)

  pub object_loop-found :
      (key : String) (e y : V) (fields actual : List (String × V)) (allowed : List String)
      (strict : Bool) (p : Location)
      → Entry key e fields
      → lookup key actual ≡ some y
      → object_loop cty f fields actual allowed strict p ≡ passed
      → Good (field_target cty e) y
  object_loop-found key e y fields actual allowed strict p (first k v m) found run =
      (head_found k v m actual allowed strict p y found run).0
  object_loop-found key e y fields actual allowed strict p (later k v (k', v') m there) found run =
      elim (Option-cases (lookup k' actual)) [
        | inl missing ↦
            object_loop-found k v y m actual allowed strict p there found
              (head_missing k' v' m actual allowed strict p missing run).1
        | inr (y', found') ↦
            object_loop-found k v y m actual (k' ∷ allowed) strict p there found
              (head_found k' v' m actual allowed strict p y' found' run).1
      ]

  pub object_loop-missing :
      (key : String) (e : V) (fields actual : List (String × V)) (allowed : List String)
      (strict : Bool) (p : Location)
      → Entry key e fields
      → lookup key actual ≡ none
      → object_loop cty f fields actual allowed strict p ≡ passed
      → MayMiss cty e
  object_loop-missing key e fields actual allowed strict p (first k v m) missing run =
      (head_missing k v m actual allowed strict p missing run).0
  object_loop-missing key e fields actual allowed strict p (later k v (k', v') m there) missing
        run =
      elim (Option-cases (lookup k' actual)) [
        | inl missing' ↦
            object_loop-missing k v m actual allowed strict p there missing
              (head_missing k' v' m actual allowed strict p missing' run).1
        | inr (y', found') ↦
            object_loop-missing k v m actual (k' ∷ allowed) strict p there missing
              (head_found k' v' m actual allowed strict p y' found' run).1
      ]

  unexpected-Allowed :
      (key : String) (y : V) (actual : List (String × V)) (allowed : List String) (p : Location)
      → Entry key y actual
      → check_unexpected {F = F} actual allowed p ≡ passed
      → contains key allowed ≡ true
  unfolding check_unexpected
  unexpected-Allowed key y actual allowed p (first k v m) run = ground (arith, run)
  unexpected-Allowed key y actual allowed p (later k v (k', v') m there) run =
      unexpected-Allowed k v m allowed p there (ground (arith, run))

  pub object_loop-Allowed :
      (key : String) (y : V) (fields actual : List (String × V)) (allowed : List String)
      (p : Location)
      → Entry key y actual
      → object_loop cty f fields actual allowed true p ≡ passed
      → (contains key allowed ≡ true) ⊎ HasKey cty key fields
  unfolding object_loop
  object_loop-Allowed key y [] actual allowed p there run =
      inl (unexpected-Allowed key y actual allowed p there run)
  object_loop-Allowed key y ((k, e) ∷ fields) actual allowed p there run =
      elim (Option-cases (lookup k actual)) [
        | inl missing ↦
            elim (object_loop-Allowed key y fields actual allowed p there
              (head_missing k e fields actual allowed true p missing run).1) [
                | inl old ↦ inl old
                | inr (v, has) ↦ inr (v, later _ _ _ _ has)
              ]
        | inr (y', found) ↦
            elim (object_loop-Allowed key y fields actual (k ∷ allowed) p there
              (head_found k e fields actual allowed true p y' found run).1) [
                | inl known ↦ elim (Bool-cases (str_eq k key)) [
                  | inl same ↦ inr (
                    e,
                    subst (λ t. Entry t e ((k, e) ∷ fields)) ((eq_iff k key).0 same)
                        (first k e fields),
                  )
                  | inr other ↦ inl (contains-tail key k allowed other known)
                ]
                | inr (v, has) ↦ inr (v, later _ _ _ _ has)
              ]
      ]

  pub object_loop-HasKey :
      (key : String) (y : V) (fields actual : List (String × V)) (strict : Bool) (p : Location)
      → strict ≡ true
      → Entry key y actual
      → object_loop cty f fields actual [] strict p ≡ passed
      → HasKey cty key fields
  unfolding contains
  object_loop-HasKey key y fields actual strict p on there run =
      elim (object_loop-Allowed key y fields actual [] p there
        (subst (λ b. object_loop cty f fields actual [] b p ≡ passed) on run)) [
          | inl old ↦ absurd (cc)
          | inr has ↦ has
        ]

  pub array_loop-Good :
      (expected actual : List V) (i j : ℕ) (x y : V) (p : Location)
      → get_elem? expected j ≡ some x
      → get_elem? actual j ≡ some y
      → array_loop cty f expected actual i p ≡ passed
      → Good x y
  unfolding array_loop
  array_loop-Good [] actual i j x y p ex ey run = cc
  array_loop-Good (x' ∷ expected) [] i j x y p ex ey run = cc
  array_loop-Good (x' ∷ expected) (y' ∷ actual) i zero x y p ex ey run =
      let same : x' ≡ x = cc in
      let same' : y' ≡ y = cc in
      rw (sym same) (rw (sym same') (sound x' y' _ (and_then-passed _ _ run).0))
  array_loop-Good (x' ∷ expected) (y' ∷ actual) i (suc j) x y p ex ey run =
      array_loop-Good expected actual (suc i) j x y p ex ey (and_then-passed _ _ run).1
