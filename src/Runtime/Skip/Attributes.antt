-- ===== src/Runtime/Skip/Attributes.antt =====
-- internal/runtime/skip.go: when the attributes of one rule match.
use tales.Base.{
  String, List, [], ◌∷◌, ◌++◌, Option, none, some, Bool, true, false, ◌&&◌, false≢true, ◌≡◌, refl,
  sym, ap, ◌∙◌, ◌↔◌, ◌⊎◌, inl, inr, Result, ok, err, ◌>>=◌, >>=-inv, ok-injective, All, arith,
  Bool-cases,
}
use tales.Report.{Why}
use tales.Model.Step.{SkipRule}
use tales.Runtime.Skip.{
  SkipError, Context, eval_string_list, missing_of, is_missing, match_os, match_arch, match_env_set,
  match_env, match_condition, attribute_step, match_skip_attributes,
}

Match-cases :
    (m : Result SkipError (Bool × Why))
    → ((holds : Bool) × (why : Why) × (m ≡ ok (holds, why))) ⊎ ((e : SkipError) × (m ≡ err e))
Match-cases (ok (holds, why)) = inl (holds, why, refl)
Match-cases (err e) = inr (e, refl)

module _ {E V : Type 0} (context : Context E V) where
  abbrev pub Matcher : Type 0
  Matcher = E → Result SkipError (Bool × Why)

  -- An attribute that is not populated, or that matches.
  abbrev pub Holds : Matcher → Option E → Type 0
  Holds matcher none = Unit
  Holds matcher (some e) = (why : Why) × (matcher e ≡ ok (true, why))

  attribute_step-ok :
      (name : String) (matcher : Matcher) (e : E) (b holds : Bool) (whys : List Why) (why : Why)
      → matcher e ≡ ok (holds, why)
      → attribute_step context name matcher (some e) (b, whys) ≡ ok (b && holds, whys ++ (why ∷ []))
  unfolding attribute_step
  attribute_step-ok name matcher e b holds whys why m = rw (m, attribute_step) refl

  attribute_step-true :
      (name : String) (matcher : Matcher) (o : Option E) (found next : Bool × List Why)
      → attribute_step context name matcher o found ≡ ok next
      → next.0 ≡ true
      → (found.0 ≡ true) × Holds matcher o
  unfolding attribute_step
  attribute_step-true name matcher none found next h t = (ap (λ p. p.0) (ok-injective h) ∙ t, tt)
  attribute_step-true name matcher (some e) (b, whys) next h t = elim (Match-cases (matcher e)) [
    | inl (holds, why, m) ↦
        let both : (b && holds) ≡ true =
          ap (λ p. p.0)
            (ok-injective (sym (attribute_step-ok name matcher e b holds whys why m) ∙ h))
          ∙ t in
        let t' : holds ≡ true = ground arith in (ground arith, (why, rw t' at m))
    | inr (error, m) ↦ ground arith
  ]

  attribute_step-Holds :
      (name : String) (matcher : Matcher) (o : Option E) (whys : List Why)
      → Holds matcher o
      → (whys' : List Why) × (attribute_step context name matcher o (true, whys) ≡ ok (true, whys'))
  unfolding attribute_step
  attribute_step-Holds name matcher none whys h = (whys, refl)
  attribute_step-Holds name matcher (some e) whys (why, h) =
      (whys ++ (why ∷ []), rw (h, attribute_step) refl)

  -- The attributes of a rule match exactly if each of them that is populated is evaluated and
  -- matches.
  pub match_skip_attributes-true_iff :
      (r : SkipRule E)
      → ((whys : List Why) × (match_skip_attributes context r ≡ ok (true, whys))) ↔ (
          Holds (match_os context) r.os
          × Holds (match_arch context) r.arch
          × Holds (match_env_set context) r.env_set
          × Holds (match_env context) r.env
          × Holds (match_condition context) r.condition)
  unfolding match_skip_attributes
  match_skip_attributes-true_iff r = (
    λ (whys, h).
        let k5 : Bool × List Why → Result SkipError (Bool × List Why) =
          attribute_step context "condition" (match_condition context) r.condition in
        let k4 : Bool × List Why → Result SkipError (Bool × List Why) =
          λ f. attribute_step context "env" (match_env context) r.env f >>= k5 in
        let k3 : Bool × List Why → Result SkipError (Bool × List Why) =
          λ f. attribute_step context "env_set" (match_env_set context) r.env_set f >>= k4 in
        let k2 : Bool × List Why → Result SkipError (Bool × List Why) =
          λ f. attribute_step context "arch" (match_arch context) r.arch f >>= k3 in
        let (f1, e1, h1) =
          >>=-inv (attribute_step context "os" (match_os context) r.os (true, [])) k2 h in
        let (f2, e2, h2) =
          >>=-inv (attribute_step context "arch" (match_arch context) r.arch f1) k3 h1 in
        let (f3, e3, h3) =
          >>=-inv (attribute_step context "env_set" (match_env_set context) r.env_set f2) k4 h2 in
        let (f4, e4, h4) =
          >>=-inv (attribute_step context "env" (match_env context) r.env f3) k5 h3 in
        let (t4, condition) = attribute_step-true _ _ r.condition f4 _ h4 refl in
        let (t3, env) = attribute_step-true _ _ r.env f3 f4 e4 t4 in
        let (t2, set) = attribute_step-true _ _ r.env_set f2 f3 e3 t3 in
        let (t1, arch) = attribute_step-true _ _ r.arch f1 f2 e2 t2 in
        let (t0, os) = attribute_step-true _ _ r.os (true, []) f1 e1 t1 in
        (os, arch, set, env, condition),
    λ (os, arch, set, env, condition).
        let (w1, e1) = attribute_step-Holds "os" (match_os context) r.os [] os in
        let (w2, e2) = attribute_step-Holds "arch" (match_arch context) r.arch w1 arch in
        let (w3, e3) = attribute_step-Holds "env_set" (match_env_set context) r.env_set w2 set in
        let (w4, e4) = attribute_step-Holds "env" (match_env context) r.env w3 env in
        let (w5, e5) =
          attribute_step-Holds "condition" (match_condition context) r.condition w4 condition in
        (w5, rw (e1, e2, e3, e4, e5) refl),
  )

  missing_of-none_iff :
      (names : List String)
      → (missing_of context names ≡ []) ↔ All (λ n. is_missing context n ≡ false) names
  unfolding missing_of
  missing_of-none_iff [] = ((λ h. tt), (λ h. refl))
  missing_of-none_iff (n ∷ names) = elim (Bool-cases (is_missing context n)) [
    | inl m ↦ ((λ h. absurd (ground arith)), λ h. absurd (false≢true (sym h.0 ∙ m)))
    | inr m ↦ (
      λ h. (m, (missing_of-none_iff names).0 (ground arith)),
      λ h. ground (arith, (missing_of-none_iff names).1 h.1),
    )
  ]

  -- `env_set` matches exactly if its value is a list of names and each of them is set in the
  -- environment to a text that is not empty.
  pub match_env_set-true_iff :
      (e : E)
      → ((why : Why) × (match_env_set context e ≡ ok (true, why))) ↔ (
          (names : List String) × (eval_string_list context e ≡ ok names)
          × All (λ n. is_missing context n ≡ false) names)
  unfolding match_env_set
  match_env_set-true_iff e = (
    λ (why, h).
        let (names, read, rest) = >>=-inv (eval_string_list context e) _ h in
        (names, read, (missing_of-none_iff names).0 (ground arith)),
    λ (names, read, set). (
      record { attribute = "env_set"; matched = true; listed = names },
      rw (read, (missing_of-none_iff names).1 set) refl,
    ),
  )
