-- ===== src/Assertion/Uuid.antt =====
-- internal/assertion/uuid.go: the matcher `uuid`. A text is the list of its bytes.
pub mod Canonical
pub mod Versions
use tales.Base.{
  ℕ, zero, suc, ◌+◌, String, str_eq, List, [], ◌∷◌, Option, none, some, Bool, true, false, ◌||◌,
  ◌&&◌, not, if◌then◌else◌, ltb, leb, ◌==◌, get_or, Bytes, codes, map,
}
use tales.Base.Entries.{lookup}
use tales.Assertion.{Cty, Location, Mismatch, mismatch, text, is_string_type}

infixl 5 ◌>>=◌
abbrev pub ◌>>=◌ : {A B : Type 0} → Option A → (A → Option B) → Option B
none >>= next = none
some a >>= next = next a

-- s == t for two texts.
unfoldable pub same_text : Bytes → Bytes → Bool
same_text [] [] = true
same_text [] (d ∷ t) = false
same_text (c ∷ s) [] = false
same_text (c ∷ s) (d ∷ t) = c == d && same_text s t

-- [0-9a-fA-F]
unfoldable pub is_hex : ℕ → Bool
is_hex c = (leb 48 c && leb c 57) || ((leb 97 c && leb c 102) || (leb 65 c && leb c 70))

-- [0-9a-fA-F]{n}, and what follows.
unfoldable pub hex_run : ℕ → Bytes → Option Bytes
hex_run zero s = some s
hex_run (suc n) [] = none
hex_run (suc n) (c ∷ s) = if is_hex c then hex_run n s else none

-- A hyphen and [0-9a-fA-F]{n}, and what follows.
unfoldable pub hyphen_run : ℕ → Bytes → Option Bytes
hyphen_run n [] = none
hyphen_run n (c ∷ s) = if c == 45 then hex_run n s else none

-- The five groups, and what follows.
unfoldable pub uuid_groups : Bytes → Option Bytes
uuid_groups s = do
  s1 ← hex_run 8 s
  s2 ← hyphen_run 4 s1
  s3 ← hyphen_run 4 s2
  s4 ← hyphen_run 4 s3
  hyphen_run 12 s4

-- uuidCanonicalRE.MatchString
unfoldable pub uuid_canonical : Bytes → Bool
uuid_canonical s = elim (uuid_groups s) [ none ↦ false | some [] ↦ true | some (c ∷ rest) ↦ false ]

-- unicode.ToLower where it gives an ASCII letter: of A to Z, U+0130 and U+212A. The checks compare
-- with ASCII texts alone, so that other letters may stay.
unfoldable pub lower_code : ℕ → ℕ
lower_code c =
    if leb 65 c && leb c 90 then c + 32 else if c == 304 then 105 else if c == 8490 then 107 else c

-- strings.ToLower
unfoldable pub to_lower : Bytes → Bytes
to_lower s = map lower_code s

-- lower[i]
abbrev pub byte_at : Bytes → ℕ → ℕ
byte_at s i = get_or s i 0

unfoldable pub uuid_nil_value : Bytes
uuid_nil_value = codes "00000000-0000-0000-0000-000000000000"

unfoldable pub uuid_max_value : Bytes
uuid_max_value = codes "ffffffff-ffff-ffff-ffff-ffffffffffff"

-- One of '8', '9', 'a', 'b'.
unfoldable pub uuid_variant_ok : Bytes → Bool
uuid_variant_ok lower = let c = byte_at lower 19 in (c == 56 || c == 57) || (c == 97 || c == 98)

module _ {V F : Type 0} where
  unfoldable pub expect_exact_uuid :
      Bytes → Bytes → String → String → Location → Option (Mismatch V F)
  expect_exact_uuid lower want original label path =
      if same_text lower want
      then none
      else mismatch path "%q is not the %s UUID" (text original ∷ text label ∷ [])

  unfoldable pub validate_any_uuid : Bytes → String → Location → Option (Mismatch V F)
  validate_any_uuid lower original path =
      if same_text lower uuid_nil_value || same_text lower uuid_max_value
      then none
      else let v = byte_at lower 14 in
        if (ltb v 49 || ltb 56 v) || not (uuid_variant_ok lower)
        then mismatch path "%q is not an official UUID" (text original ∷ [])
        else none

  unfoldable pub validate_versioned_uuid :
      Bytes → String → String → Location → Option (Mismatch V F)
  validate_versioned_uuid lower original want path =
      if not (same_text (byte_at lower 14 ∷ []) (codes want))
      then mismatch path "%q is not a UUID v%s" (text original ∷ text want ∷ [])
      else if not (uuid_variant_ok lower)
      then mismatch path "%q has an invalid UUID variant" (text original ∷ [])
      else none

  -- The version asked for, "" for any.
  unfoldable pub wanted_version : Cty V F → List (String × V) → String
  wanted_version cty args = elim (lookup "version" args) [
    | none ↦ ""
    | some v ↦ if is_string_type (cty.kind v) then cty.as_string v else ""
  ]

  -- The switch over the version.
  unfoldable pub validate_uuid : Bytes → String → String → Location → Option (Mismatch V F)
  validate_uuid lower original want path =
      if str_eq want "nil"
      then expect_exact_uuid lower uuid_nil_value original "nil" path
      else if str_eq want "max"
      then expect_exact_uuid lower uuid_max_value original "max" path
      else if str_eq want ""
      then validate_any_uuid lower original path
      else validate_versioned_uuid lower original want path

  unfoldable pub match_uuid : Cty V F → List (String × V) → V → Location → Option (Mismatch V F)
  match_uuid cty args actual path =
      if cty.is_null actual
      then mismatch path "value does not exist" []
      else if not (is_string_type (cty.kind actual))
      then mismatch path "uuid matcher requires a string value" []
      else let original = cty.as_string actual in
        if not (uuid_canonical (codes original))
        then mismatch path "%q is not a valid UUID" (text original ∷ [])
        else validate_uuid (to_lower (codes original)) original (wanted_version cty args) path
