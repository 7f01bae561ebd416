-- ===== src/Base/Entries.antt =====
-- A Go map as the list of its entries.
use tales.Base.{
  String, str_eq, List, [], ◌∷◌, Option, none, some, if◌then◌else◌, ◌≡◌, ◌≢◌, ◌⊎◌, refl, Bool-cases,
  inl, inr, eq_iff, arith, subst, sym, All,
}

-- m[key], for the map that has these entries.
abbrev pub lookup : {V : Type 0} → String → List (String × V) → Option V
lookup key [] = none
lookup key ((k, v) ∷ m) = if str_eq k key then some v else lookup key m

-- delete(m, key)
abbrev pub delete : {V : Type 0} → String → List (String × V) → List (String × V)
delete key [] = []
delete key ((k, v) ∷ m) = let rest = delete key m in if str_eq k key then rest else (k, v) ∷ rest

-- An entry of the map.
pub data Entry {V : Type 0} : String → V → List (String × V) → Type 0 where
  first : (k : String) (v : V) (m : List (String × V)) → Entry k v ((k, v) ∷ m)
  later :
      (k : String) (v : V) (kv : String × V) (m : List (String × V))
      → Entry k v m
      → Entry k v (kv ∷ m)

pub lookup-Entry :
    {V : Type 0}
    → (key : String) (m : List (String × V)) {v : V} → lookup key m ≡ some v
    → Entry key v m
lookup-Entry key [] h = cc
lookup-Entry key ((k, x) ∷ m) {v = v} h = elim (Bool-cases (str_eq k key)) [
  | inl same ↦
      let here : some x ≡ some v = ground (arith, h, same) in
      let found : x ≡ v = cc in
      subst (λ t. Entry t v ((k, x) ∷ m)) ((eq_iff k key).0 same)
        (subst (λ t. Entry k t ((k, x) ∷ m)) found (first k x m))
  | inr other ↦ later _ _ _ _ (lookup-Entry key m (ground (arith, h, other)))
]

pub Entry-inv :
    {V : Type 0} (key k : String) (x e : V) (m : List (String × V))
    → Entry key x ((k, e) ∷ m)
    → (k ≡ key) ⊎ Entry key x m
Entry-inv key k x e m (first k' v m') = inl refl
Entry-inv key k x e m (later k' v kv m' there) = inr there

-- A key of an entry is found.
pub Entry-lookup :
    {V : Type 0} (key : String) (x : V) (m : List (String × V))
    → Entry key x m
    → lookup key m ≢ none
Entry-lookup key x m (first k v m') h = absurd (ground (arith, h, eq_iff k k))
Entry-lookup key x m (later k v (k', v') m' there) h = elim (Bool-cases (str_eq k' k)) [
  | inl same ↦ absurd (ground (arith, h, same))
  | inr other ↦ Entry-lookup k v m' there (ground (arith, h, other))
]

module _ {A : Type 0} (P : A → Type 0) where
  pub All-lookup :
      (key : String) (m : List (String × A)) {v : A}
      → All (λ kv. P kv.1) m
      → lookup key m ≡ some v
      → P v
  All-lookup key [] h e = cc
  All-lookup key ((k, x) ∷ m) {v = v} (hx, hm) e = elim (Bool-cases (str_eq k key)) [
    | inl same ↦
        let here : some x ≡ some v = ground (arith, e, same) in
        let found : x ≡ v = cc in rw (sym found) hx
    | inr other ↦ All-lookup key m hm (ground (arith, e, other))
  ]

  pub All-delete :
      (key : String) (m : List (String × A))
      → All (λ kv. P kv.1) m
      → All (λ kv. P kv.1) (delete key m)
  All-delete key [] h = tt
  All-delete key ((k, x) ∷ m) (hx, hm) = elim (Bool-cases (str_eq k key)) [
    | inl same ↦ rw same (All-delete key m hm)
    | inr other ↦ rw other (hx, All-delete key m hm)
  ]
