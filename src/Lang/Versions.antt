-- ===== src/Lang/Versions.antt =====
-- internal/lang/functions.go: the version that the function `uuid` takes.
use tales.Base.{
  ℕ, String, List, [], ◌∷◌, Option, none, some, Bool, ◌||◌, ◌&&◌, if◌then◌else◌, leb, ◌==◌, Bytes,
  codes, Result, ok, err, ◌≡◌, arith, All, Bool-cases, Option-cases, inl, inr, subst,
}
use tales.Assertion.Uuid.{same_text, to_lower}

-- unicode.IsSpace
unfoldable pub is_space : ℕ → Bool
is_space c =
    (((leb 9 c && leb c 13) || c == 32) || (c == 133 || c == 160))
    || ((c == 5760 || (leb 8192 c && leb c 8202))
        || ((c == 8232 || c == 8233) || ((c == 8239 || c == 8287) || c == 12288)))

-- strings.TrimLeftFunc(s, unicode.IsSpace)
unfoldable pub trim_left : Bytes → Bytes
trim_left [] = []
trim_left (c ∷ s) = let rest = trim_left s in if is_space c then rest else c ∷ s

-- strings.TrimRightFunc(s, unicode.IsSpace): a space goes where nothing is left after it.
unfoldable pub trim_right : Bytes → Bytes
trim_right [] = []
trim_right (c ∷ s) = elim (trim_right s) [
  | [] ↦ if is_space c then [] else c ∷ []
  | (d ∷ rest) ↦ c ∷ (d ∷ rest)
]

unfoldable pub trim_space : Bytes → Bytes
trim_space s = trim_right (trim_left s)

-- strings.TrimPrefix(token, "v")
unfoldable pub trim_prefix_v : Bytes → Bytes
trim_prefix_v [] = []
trim_prefix_v (c ∷ s) = if c == 118 then s else c ∷ s

-- The case of a switch that the text is.
unfoldable pub find_text : Bytes → List String → Option String
find_text token [] = none
find_text token (t ∷ ts) =
    let rest = find_text token ts in if same_text token (codes t) then some t else rest

-- normalizeUUIDVersion, whose error names the text that was given.
unfoldable pub normalize_uuid_version : String → Result String String
normalize_uuid_version raw =
    let token = to_lower (trim_space (codes raw)) in
    elim (find_text token ("nil" ∷ "max" ∷ [])) [
      | some special ↦ ok special
      | none ↦
          elim (find_text (trim_prefix_v token)
            ("1" ∷ "2" ∷ "3" ∷ "4" ∷ "5" ∷ "6" ∷ "7" ∷ "8" ∷ [])) [
              | some digits ↦ ok digits
              | none ↦ err raw
            ]
    ]

module _ (P : String → Type 0) where
  find_text-All :
      (token : Bytes) (ts : List String) {v : String} → All P ts → find_text token ts ≡ some v → P v
  unfolding find_text
  find_text-All token [] h e = cc
  find_text-All token (t ∷ ts) {v = v} (ht, hts) e = elim (Bool-cases (same_text token (codes t))) [
    | inl same ↦
        let here : some t ≡ some v = ground (arith, e, same) in
        let found : t ≡ v = cc in subst P found ht
    | inr other ↦ find_text-All token ts hts (ground (arith, e, other))
  ]

  -- What holds of every version that the language has holds of what the function returns.
  pub normalize_uuid_version-All :
      (raw : String) {v : String}
      → All P ("nil" ∷ "max" ∷ [])
      → All P ("1" ∷ "2" ∷ "3" ∷ "4" ∷ "5" ∷ "6" ∷ "7" ∷ "8" ∷ [])
      → normalize_uuid_version raw ≡ ok v
      → P v
  unfolding normalize_uuid_version
  normalize_uuid_version-All raw {v = v} special digits h =
      elim (Option-cases (find_text (to_lower (trim_space (codes raw))) ("nil" ∷ "max" ∷ []))) [
        | inr (t, e) ↦
            let here : ◌≡◌ {A = Result String String} (ok t) (ok v) = ground (arith, h, e) in
            let found : t ≡ v = cc in subst P found (find_text-All _ _ special e)
        | inl absent ↦
            elim (Option-cases (
              find_text (trim_prefix_v (to_lower (trim_space (codes raw))))
                ("1" ∷ "2" ∷ "3" ∷ "4" ∷ "5" ∷ "6" ∷ "7" ∷ "8" ∷ []))) [
                  | inr (t, e) ↦
                      let here : ◌≡◌ {A = Result String String} (ok t) (ok v) =
                        ground (arith, h, absent, e) in
                      let found : t ≡ v = cc in subst P found (find_text-All _ _ digits e)
                  | inl neither ↦ absurd (ground (arith, h, absent, neither))
                ]
      ]
