-- ===== src/Assertion/Threshold/Between.antt =====
-- internal/assertion/threshold.go: `between` and the two comparisons that it stands for.
use tales.Base.{
  String, List, [], ◌∷◌, none, some, Bool, true, false, ◌≡◌, ◌↔◌, ◌≢◌, arith, ◌&&◌, Option-cases,
  inl, inr,
}
use tales.Assertion.{Cty, Location}
use tales.Base.Entries.{lookup}
use tales.Assertion.Threshold.{
  threshold_value, comparison_error, match_threshold, match_gte, match_lte, within_bounds,
  between_values, match_between,
}

module _ {V F : Type 0} (cty : Cty V F) where
  comparison_error-fails :
      (path : Location) (op : String) (actual threshold : V)
      → comparison_error cty path op actual threshold ≢ none
  unfolding comparison_error
  comparison_error-fails path op actual threshold h = absurd (ground (arith, h))

  -- The comparison passes exactly if both values are there and compare.
  Compares : V → V → (F → F → Bool) → Type 0
  Compares actual bound cmp =
      (t : F) × (x : F) × (threshold_value cty bound ≡ some t)
      × (threshold_value cty actual ≡ some x)
      × (cmp x t ≡ true)

  match_threshold-Compares :
      (actual bound : V) (path : Location) (name op : String) (cmp : F → F → Bool)
      → (match_threshold cty (("value", bound) ∷ []) actual path name op cmp ≡ none)
        ↔ Compares actual bound cmp
  unfolding match_threshold Compares
  match_threshold-Compares actual bound path name op cmp =
      let fails = comparison_error-fails path op actual bound in
      elim (Option-cases (threshold_value cty bound)) [
        | inl absent ↦ (
          λ h. absurd (ground (arith, h, absent)),
          λ (t, x, ht, hx, hc). absurd (ground (arith, absent, ht)),
        )
        | inr (t, there) ↦ elim (Option-cases (threshold_value cty actual)) [
          | inl absent ↦ (
            λ h. absurd (ground (arith, h, there, absent)),
            λ (t', x, ht, hx, hc). absurd (ground (arith, absent, hx)),
          )
          | inr (x, there') ↦ (
            λ h. (t, x, there, there', ground (arith, h, there, there', fails)),
            λ (t', x', ht, hx, hc).
                let et : t ≡ t' = cc in
                let ex : x ≡ x' = cc in ground (arith, there, there', et, ex, hc),
          )
        ]
      ]

  match_between-Compares :
      (args : List (String × V)) (min max actual : V) (lo hi : F) (path : Location)
      → lookup "min" args ≡ some min
      → lookup "max" args ≡ some max
      → threshold_value cty min ≡ some lo
      → threshold_value cty max ≡ some hi
      → cty.less hi lo ≡ false
      → (match_between cty args actual path ≡ none) ↔ (
          (x : F) × (threshold_value cty actual ≡ some x)
          × ((cty.less_equal lo x && cty.less_equal x hi) ≡ true))
  unfolding match_between between_values within_bounds
  match_between-Compares args min max actual lo hi path has_min has_max tlo thi ordered =
      elim (Option-cases (threshold_value cty actual)) [
        | inl absent ↦ (
          λ h. absurd (ground (arith, h, has_min, has_max, tlo, thi, ordered, absent)),
          λ (x, hx, hc). absurd (ground (arith, absent, hx)),
        )
        | inr (x, there) ↦ (
          λ h. (x, there, ground (arith, h, has_min, has_max, tlo, thi, ordered, there)),
          λ (x', hx, hc).
              let ex : x ≡ x' = cc in
              ground (arith, has_min, has_max, tlo, thi, ordered, there, ex, hc),
        )
      ]

  -- Where `min` and `max` are numbers or durations and `max` is not the smaller, `between` passes
  -- exactly if both `gte` with `min` and `lte` with `max` pass.
  pub match_between-gte_lte :
      (args : List (String × V)) (min max actual : V) (lo hi : F) (path : Location)
      → lookup "min" args ≡ some min
      → lookup "max" args ≡ some max
      → threshold_value cty min ≡ some lo
      → threshold_value cty max ≡ some hi
      → cty.less hi lo ≡ false
      → (match_between cty args actual path ≡ none) ↔ (
          (match_gte cty (("value", min) ∷ []) actual path ≡ none)
          × (match_lte cty (("value", max) ∷ []) actual path ≡ none))
  unfolding match_gte match_lte Compares
  match_between-gte_lte args min max actual lo hi path has_min has_max tlo thi ordered =
      let between =
        match_between-Compares args min max actual lo hi path has_min has_max tlo thi ordered in
      let gte = match_threshold-Compares actual min path "gte" ">=" (λ a t. cty.less_equal t a) in
      let lte = match_threshold-Compares actual max path "lte" "<=" (λ a t. cty.less_equal a t) in
      (
        λ h.
            let (x, there, both) = between.0 h in
            (
              gte.1 (lo, x, tlo, there, ground (arith, both)),
              lte.1 (hi, x, thi, there, ground (arith, both)),
            ),
        λ (hg, hl).
            let (t, x, ht, hx, c) = gte.0 hg in
            let (t', x', ht', hx', c') = lte.0 hl in
            let e : t ≡ lo = cc in
            let e' : t' ≡ hi = cc in
            let ex : x' ≡ x = cc in between.1 (x, hx, ground (arith, c, c', e, e', ex)),
      )
