-- ===== src/Assertion/Uuid/Canonical.antt =====
-- internal/assertion/uuid.go: the texts that uuidCanonicalRE matches.
use tales.Base.{
  ℕ, zero, suc, [], ◌∷◌, ◌++◌, Option, none, some, true, ◌≡◌, ◌↔◌, refl, sym, ap, ◌∙◌, subst, arith,
  All, Bool-cases, Option-cases, inl, inr, Bytes, length, length-append, ◌==◌, ==_iff,
}
use tales.Assertion.Uuid.{is_hex, hex_run, hyphen_run, uuid_groups, uuid_canonical, ◌>>=◌}

-- A group of hexadecimal digits of this length.
abbrev pub Digits : ℕ → Bytes → Type 0
Digits n s = (length s ≡ n) × All (λ c. is_hex c ≡ true) s

hex_run-Digits :
    (n : ℕ) (s rest : Bytes)
    → hex_run n s ≡ some rest
    → (ds : Bytes) × Digits n ds × (s ≡ ds ++ rest)
unfolding hex_run
hex_run-Digits zero s rest h = ([], (refl, tt), cc)
hex_run-Digits (suc n) [] rest h = cc
hex_run-Digits (suc n) (c ∷ s) rest h = elim (Bool-cases (is_hex c)) [
  | inl hex ↦
      let (ds, (len, all), e) = hex_run-Digits n s rest (ground (arith, h, hex)) in
      (c ∷ ds, (ap suc len, (hex, all)), ap (λ t. c ∷ t) e)
  | inr other ↦ absurd (ground (arith, h, other))
]

Digits-hex_run : (n : ℕ) (ds rest : Bytes) → Digits n ds → hex_run n (ds ++ rest) ≡ some rest
unfolding hex_run
Digits-hex_run zero [] rest h = refl
Digits-hex_run zero (c ∷ ds) rest (len, all) = absurd (omega (arith, len))
Digits-hex_run (suc n) [] rest (len, all) = absurd (omega (arith, len))
Digits-hex_run (suc n) (c ∷ ds) rest (len, (hex, all)) =
    let tail : hex_run n (ds ++ rest) ≡ some rest =
      Digits-hex_run n ds rest (omega (arith, len), all) in
    ground (arith, hex, tail)

hyphen_run-Digits :
    (n : ℕ) (s rest : Bytes)
    → hyphen_run n s ≡ some rest
    → (ds : Bytes) × Digits n ds × (s ≡ 45 ∷ (ds ++ rest))
unfolding hyphen_run
hyphen_run-Digits n [] rest h = cc
hyphen_run-Digits n (c ∷ s) rest h = elim (Bool-cases (c == 45)) [
  | inl hyphen ↦
      let (ds, digits, e) = hex_run-Digits n s rest (ground (arith, h, hyphen)) in
      (ds, digits, ap (λ t. c ∷ t) e ∙ ap (λ t. t ∷ (ds ++ rest)) ((==_iff c 45).0 hyphen))
  | inr other ↦ absurd (ground (arith, h, other))
]

Digits-hyphen_run :
    (n : ℕ) (ds rest : Bytes) → Digits n ds → hyphen_run n (45 ∷ (ds ++ rest)) ≡ some rest
unfolding hyphen_run
Digits-hyphen_run n ds rest h = Digits-hex_run n ds rest h

-- Five groups of hexadecimal digits, 8, 4, 4, 4 and 12 of them, with hyphens between.
pub record Groups (s : Bytes) : Type 0 where
  g1 : Bytes
  g2 : Bytes
  g3 : Bytes
  g4 : Bytes
  g5 : Bytes
  d1 : Digits 8 g1
  d2 : Digits 4 g2
  d3 : Digits 4 g3
  d4 : Digits 4 g4
  d5 : Digits 12 g5
  whole : s ≡ g1 ++ (45 ∷ (g2 ++ (45 ∷ (g3 ++ (45 ∷ (g4 ++ (45 ∷ (g5 ++ []))))))))

bind-some :
    {A B : Type 0} (o : Option A) (next : A → Option B) {b : B}
    → (o >>= next) ≡ some b
    → (a : A) × (o ≡ some a) × (next a ≡ some b)
bind-some none next h = cc
bind-some (some a) next h = (a, refl, h)

Groups-length : (s : Bytes) → Groups s → length s ≡ 36
Groups-length s g =
    ap length g.whole
    ∙ omega (
      arith,
      length-append g.g1 (45 ∷ (g.g2 ++ (45 ∷ (g.g3 ++ (45 ∷ (g.g4 ++ (45 ∷ (g.g5 ++ [])))))))),
      length-append g.g2 (45 ∷ (g.g3 ++ (45 ∷ (g.g4 ++ (45 ∷ (g.g5 ++ [])))))),
      length-append g.g3 (45 ∷ (g.g4 ++ (45 ∷ (g.g5 ++ [])))),
      length-append g.g4 (45 ∷ (g.g5 ++ [])),
      length-append g.g5 [],
      g.d1.0,
      g.d2.0,
      g.d3.0,
      g.d4.0,
      g.d5.0,
    )

canonical-rest : (s : Bytes) → uuid_canonical s ≡ true → uuid_groups s ≡ some []
unfolding uuid_canonical
canonical-rest s h = elim (Option-cases (uuid_groups s)) [
  | inl absent ↦ absurd (ground (arith, h, absent))
  | inr ([], found) ↦ found
  | inr (c ∷ rest, found) ↦ absurd (ground (arith, h, found))
]

canonical-Groups : (s : Bytes) → uuid_canonical s ≡ true → Groups s
unfolding uuid_groups
canonical-Groups s h =
    let (s1, h1, r1) = bind-some _ _ (canonical-rest s h) in
    let (s2, h2, r2) = bind-some _ _ r1 in
    let (s3, h3, r3) = bind-some _ _ r2 in
    let (s4, h4, h5) = bind-some _ _ r3 in
    let (g1, d1, e1) = hex_run-Digits 8 s s1 h1 in
    let (g2, d2, e2) = hyphen_run-Digits 4 s1 s2 h2 in
    let (g3, d3, e3) = hyphen_run-Digits 4 s2 s3 h3 in
    let (g4, d4, e4) = hyphen_run-Digits 4 s3 s4 h4 in
    let (g5, d5, e5) = hyphen_run-Digits 12 s4 [] h5 in
    record {
      g1 = g1;
      g2 = g2;
      g3 = g3;
      g4 = g4;
      g5 = g5;
      d1 = d1;
      d2 = d2;
      d3 = d3;
      d4 = d4;
      d5 = d5;
      whole =
          e1
          ∙ ap (λ t. g1 ++ t)
              (e2
                ∙ ap (λ t. 45 ∷ (g2 ++ t))
                    (e3 ∙ ap (λ t. 45 ∷ (g3 ++ t)) (e4 ∙ ap (λ t. 45 ∷ (g4 ++ t)) e5)));
    }

bind-next :
    {A B : Type 0} (o : Option A) (next : A → Option B) {a : A} {b : B}
    → o ≡ some a
    → next a ≡ some b
    → (o >>= next) ≡ some b
bind-next o next e e' = rw e e'

Groups-rest : (s : Bytes) → Groups s → uuid_groups s ≡ some []
unfolding uuid_groups
Groups-rest s g =
    subst (λ t. uuid_groups t ≡ some []) (sym g.whole)
      (bind-next _ _ (Digits-hex_run 8 g.g1 _ g.d1) (
        bind-next _ _ (Digits-hyphen_run 4 g.g2 _ g.d2) (
          bind-next _ _ (Digits-hyphen_run 4 g.g3 _ g.d3)
            (bind-next _ _ (Digits-hyphen_run 4 g.g4 _ g.d4) (Digits-hyphen_run 12 g.g5 _ g.d5)))))

Groups-canonical : (s : Bytes) → Groups s → uuid_canonical s ≡ true
unfolding uuid_canonical
Groups-canonical s g = rw (Groups-rest s g, uuid_canonical) refl

-- The texts that uuidCanonicalRE matches are five groups of 8, 4, 4, 4 and 12 hexadecimal digits with
-- hyphens between, and these have 36 bytes, so that the indices 14 and 19 are in range.
pub uuid_canonical-true_iff :
    (s : Bytes) → ((uuid_canonical s ≡ true) ↔ Groups s) × (uuid_canonical s ≡ true → length s ≡ 36)
uuid_canonical-true_iff s =
    ((canonical-Groups s, Groups-canonical s), λ h. Groups-length s (canonical-Groups s h))
