-- ===== src/Base/Sets.antt =====
-- A Go map[string]struct{} as the list of its keys. The order of a range over such a map is not
-- specified; here it is the order of insertion.
use Prim.Native.String.{String}
use mathlib.Core.Path.{◌≡◌, refl}
use mathlib.Core.Bool.{Bool, true, false, ◌||◌}
use mathlib.Core.List.{List, [], ◌∷◌, ◌++◌}
use mathlib.Core.Logic.{inl, inr}
use native.Mathlib.Omega.{arith}
use text.Mathlib.Text.{◌==◌ as str_eq}
use text.Mathlib.TextEquality.{eq_iff}
use tales.Base.Tests.{if◌then◌else◌, Bool-cases}

unfoldable pub contains : String → List String → Bool
contains x [] = false
contains x (y ∷ ys) = str_eq y x || contains x ys

unfoldable pub insert : String → List String → List String
insert x s = if contains x s then s else s ++ (x ∷ [])

pub contains-append :
    (x : String) (s t : List String) → contains x (s ++ t) ≡ (contains x s || contains x t)
unfolding contains
contains-append x [] t = refl
contains-append x (y ∷ s) t = ground (arith, contains-append x s t)

contains-one : (x y : String) → contains x (y ∷ []) ≡ str_eq y x
unfolding contains
contains-one x y = ground arith

pub contains-insert :
    (x y : String) (s : List String) → contains x (insert y s) ≡ (str_eq y x || contains x s)
unfolding insert
contains-insert x y s = elim (Bool-cases (contains y s)) [
  | inl old ↦ ground (arith, old, eq_iff y x)
  | inr new ↦ ground (arith, new, contains-append x s (y ∷ []), contains-one x y)
]

pub head-contains : (x : String) (xs : List String) → contains x (x ∷ xs) ≡ true
unfolding contains
head-contains x xs = ground (arith, eq_iff x x)

pub tail-contains :
    (x y : String) (xs : List String) → contains x xs ≡ true → contains x (y ∷ xs) ≡ true
unfolding contains
tail-contains x y xs h = ground arith
