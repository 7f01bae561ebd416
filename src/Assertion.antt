-- ===== src/Assertion.antt =====
-- internal/assertion: what its checks share. `V` are the values of the cty library and `F` is
-- float64. A mismatch keeps its path as the steps that lead to it, and its message as the format with
-- its arguments.
mod Tests
pub mod Uuid
pub mod Threshold
pub mod Matcher
pub mod Json
use tales.Base.{
  ℕ, String, str_eq, List, [], ◌∷◌, Option, none, some, Bool, true, false, if◌then◌else◌, ◌≡◌,
  Bool-cases, inl, inr, eq_iff, arith, subst, Result,
}

-- The types of cty that the checks tell apart.
pub data Kind : Type 0 where
  string_type number_type bool_type object_type map_type tuple_type list_type other_type : Kind

-- v.Type() == cty.String
abbrev pub is_string_type : Kind → Bool
is_string_type string_type = true
is_string_type _ = false

-- v.Type() == cty.Number
abbrev pub is_number_type : Kind → Bool
is_number_type number_type = true
is_number_type _ = false

-- v.Type() == cty.Bool
abbrev pub is_bool_type : Kind → Bool
is_bool_type bool_type = true
is_bool_type _ = false

-- v.Type().IsObjectType()
abbrev pub is_object_type : Kind → Bool
is_object_type object_type = true
is_object_type _ = false

-- v.Type().IsObjectType() || v.Type().IsMapType()
abbrev pub is_object_or_map : Kind → Bool
is_object_or_map object_type = true
is_object_or_map map_type = true
is_object_or_map _ = false

-- v.Type().IsTupleType() || v.Type().IsListType()
abbrev pub is_tuple_or_list : Kind → Bool
is_tuple_or_list tuple_type = true
is_tuple_or_list list_type = true
is_tuple_or_list _ = false

-- What the checks use of the cty library, and of float64, time.ParseDuration and regexp.
-- `attributes` is AsValueMap, `elements` are those of Index and ElementIterator, `float` is
-- AsBigFloat().Float64(), `parse_duration` gives milliseconds, and `compile` gives MatchString.
pub record Cty (V F : Type 0) : Type 0 where
  pub kind : V → Kind
  pub is_null : V → Bool
  pub attributes : V → List (String × V)
  pub elements : V → List V
  pub as_string : V → String
  pub raw_equals : V → V → Bool
  pub float : V → F
  pub parse_duration : String → Option F
  pub less : F → F → Bool
  pub less_equal : F → F → Bool
  pub compile : String → Result String (String → Bool)

-- The place of a value: a path with ".key" or "[i]" after it.
pub data Location : Type 0 where
  top : String → Location
  field : Location → String → Location
  item : Location → ℕ → Location

-- An argument of a message.
pub data Shown (V F : Type 0) : Type 0 where
  null : Shown V F
  number : F → Shown V F
  text : String → Shown V F
  count : ℕ → Shown V F
  value : V → Shown V F

pub data Problem (V F : Type 0) : Type 0 where
  want_got : V → V → Problem V F
  message : String → List (Shown V F) → Problem V F

pub record Mismatch (V F : Type 0) : Type 0 where
  pub path : Location
  pub problem : Problem V F

module _ {V F : Type 0} where
  abbrev pub mismatch : Location → String → List (Shown V F) → Option (Mismatch V F)
  mismatch path format shown = some (record { path = path; problem = message format shown })
