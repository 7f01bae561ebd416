-- ===== src/Assertion/Threshold.antt =====
-- internal/assertion/threshold.go: the matchers that compare a number or a duration with a threshold.
pub mod Between
use tales.Base.{String, List, [], ◌∷◌, Option, none, some, Bool, if◌then◌else◌, ◌&&◌}
use tales.Base.Entries.{lookup}
use tales.Assertion.{
  string_type, number_type, Cty, Location, Mismatch, Shown, null, number, text, value, mismatch,
}

module _ {V F : Type 0} (cty : Cty V F) where
  unfoldable pub threshold_value : V → Option F
  threshold_value v = if cty.is_null v then none else elim (cty.kind v) [
    | number_type ↦ some (cty.float v)
    | string_type ↦ cty.parse_duration (cty.as_string v)
    | _ ↦ none
  ]

  unfoldable pub format_threshold : V → Shown V F
  format_threshold v = if cty.is_null v then null else elim (cty.kind v) [
    | number_type ↦ number (cty.float v)
    | string_type ↦ text (cty.as_string v)
    | _ ↦ value v
  ]

  unfoldable pub comparison_error : Location → String → V → V → Option (Mismatch V F)
  comparison_error path op actual threshold = elim (threshold_value actual) [
    | none ↦ mismatch path "value is not a number" []
    | some x ↦
        mismatch path "value must be %s %s, got %s"
          (text op ∷ format_threshold threshold ∷ number x ∷ [])
  ]

  unfoldable pub match_threshold :
      List (String × V) → V → Location → String → String → (F → F → Bool) → Option (Mismatch V F)
  match_threshold args actual path name op cmp = elim (lookup "value" args) [
    | none ↦ mismatch path "%s matcher is missing value" (text name ∷ [])
    | some v ↦ elim (threshold_value v) [
      | none ↦
          mismatch path "%s threshold must be number or duration, got %s"
            (text name ∷ format_threshold v ∷ [])
      | some threshold ↦ elim (threshold_value actual) [
        | none ↦ mismatch path "value is not a number" []
        | some x ↦ if cmp x threshold then none else comparison_error path op actual v
      ]
    ]
  ]

  unfoldable pub match_lt : List (String × V) → V → Location → Option (Mismatch V F)
  match_lt args actual path = match_threshold args actual path "lt" "<" (λ a t. cty.less a t)

  unfoldable pub match_lte : List (String × V) → V → Location → Option (Mismatch V F)
  match_lte args actual path =
      match_threshold args actual path "lte" "<=" (λ a t. cty.less_equal a t)

  unfoldable pub match_gt : List (String × V) → V → Location → Option (Mismatch V F)
  match_gt args actual path = match_threshold args actual path "gt" ">" (λ a t. cty.less t a)

  unfoldable pub match_gte : List (String × V) → V → Location → Option (Mismatch V F)
  match_gte args actual path =
      match_threshold args actual path "gte" ">=" (λ a t. cty.less_equal t a)

  -- From the bounds on.
  unfoldable pub within_bounds : V → V → F → F → V → Location → Option (Mismatch V F)
  within_bounds min_val max_val lo hi actual path =
      if cty.less hi lo
      then mismatch path "between min must be <= max" []
      else elim (threshold_value actual) [
        | none ↦ mismatch path "value is not a number" []
        | some x ↦
            if cty.less_equal lo x && cty.less_equal x hi
            then none
            else mismatch path "value must be between %s and %s, got %s"
                (format_threshold min_val ∷ format_threshold max_val ∷ number x ∷ [])
      ]

  -- From the arguments on.
  unfoldable pub between_values : V → V → V → Location → Option (Mismatch V F)
  between_values min_val max_val actual path = elim (threshold_value min_val) [
    | none ↦
        mismatch path "between min must be number or duration, got %s"
          (format_threshold min_val ∷ [])
    | some lo ↦ elim (threshold_value max_val) [
      | none ↦
          mismatch path "between max must be number or duration, got %s"
            (format_threshold max_val ∷ [])
      | some hi ↦ within_bounds min_val max_val lo hi actual path
    ]
  ]

  unfoldable pub match_between : List (String × V) → V → Location → Option (Mismatch V F)
  match_between args actual path = elim (lookup "min" args) [
    | none ↦ mismatch path "between matcher requires min and max" []
    | some min_val ↦ elim (lookup "max" args) [
      | none ↦ mismatch path "between matcher requires min and max" []
      | some max_val ↦ between_values min_val max_val actual path
    ]
  ]
