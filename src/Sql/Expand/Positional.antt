-- ===== src/Sql/Expand/Positional.antt =====
-- internal/provider/sql/expand.go: expandPositional, for drivers whose placeholders are question
-- marks.
use tales.Base.{
  ℕ, zero, suc, ◌+◌, ◌-◌, ◌≤◌, ◌<◌, List, [], ◌∷◌, some, length, get_elem?, ◌≡◌, ap, sym, ◌∙◌,
  arith, ok, >>=-inv, >>=-total, ok-injective, Bytes, ◌↔◌, ◌==◌, false, inl, inr, refl, Bool-cases,
  ==_iff, take, take-length, ◌⊎◌,
}
use tales.Sql.Dialect.{Dialect}
use tales.Sql.Scan.{Placeholder, scan_placeholders}
use tales.Sql.Scan.Sound.{Kinds, IsDollar, IsQuestion, scan_placeholders_sound}
use tales.Sql.Expand.{
  Arg, scalar, list, arg_width, flatten_args, check_empty_lists, width_at, rewrite, placeholder_run,
  expand_positional,
}
use tales.Sql.Expand.Binding.{values, offset, length-flatten_args, get_elem?-flatten_args}

-- Where placeholders carry no number, what is found is a question mark.
pub is_question :
    (d : Dialect) (sql : Bytes) (n : ℕ) (p : Placeholder)
    → d.numbered ≡ false
    → IsDollar d sql p ⊎ IsQuestion d sql n p
    → IsQuestion d sql n p
is_question d sql n p plain (inl h) = absurd (ground (arith, h.dialect))
is_question d sql n p plain (inr h) = h

get_elem?-ordinal :
    (d : Dialect) (sql : Bytes) (n k : ℕ) (found : List Placeholder) (p : Placeholder)
    → d.numbered ≡ false
    → Kinds d sql n found
    → get_elem? found k ≡ some p
    → (p.index ≡ n + k + 1) × (k ≤ length found)
get_elem?-ordinal d sql n k [] p plain h e = cc
get_elem?-ordinal d sql n zero (q ∷ found) p plain h e =
    let same : q ≡ p = cc in
    let i = (is_question d sql n q plain h.0).ordinal in
    (omega (arith, i, ap (λ (t : Placeholder). t.index) same), omega arith)
get_elem?-ordinal d sql n (suc k) (q ∷ found) p plain h e =
    omega (arith, get_elem?-ordinal d sql (n + 1) k found p plain h.1 e)

module _ {ℓ} {V : Type ℓ} where
  abbrev pub NoEmptyList : List (Arg V) → Type 0
  NoEmptyList [] = Unit
  NoEmptyList (arg ∷ args) = (0 < arg_width arg) × NoEmptyList args

  check_empty_lists-ok :
      (i : ℕ) (args : List (Arg V)) → check_empty_lists i args ≡ ok tt → NoEmptyList args
  unfolding check_empty_lists
  check_empty_lists-ok i [] e = tt
  check_empty_lists-ok i (scalar v ∷ args) e = (omega arith, check_empty_lists-ok (i + 1) args e)
  check_empty_lists-ok i (list [] ∷ args) e = cc
  check_empty_lists-ok i (list (v ∷ vs) ∷ args) e =
      (omega arith, check_empty_lists-ok (i + 1) args e)

  check_empty_lists-total :
      (i : ℕ) (args : List (Arg V)) → NoEmptyList args → check_empty_lists i args ≡ ok tt
  unfolding check_empty_lists
  check_empty_lists-total i [] h = refl
  check_empty_lists-total i (scalar v ∷ args) h = check_empty_lists-total (i + 1) args h.1
  check_empty_lists-total i (list [] ∷ args) h = absurd (omega arith)
  check_empty_lists-total i (list (v ∷ vs) ∷ args) h = check_empty_lists-total (i + 1) args h.1

  unfoldable pub marks_for : Dialect → List (Arg V) → Placeholder → Bytes
  marks_for d args p = placeholder_run d 0 (width_at args (p.index - 1))

  pub expand_positional-inv :
      (d : Dialect) (sql : Bytes) (args : List (Arg V)) (found : List Placeholder) (text : Bytes)
      (out : List (Arg V))
      → expand_positional d sql args found ≡ ok (text, out)
      → (length found ≡ length args)
        × (check_empty_lists 0 args ≡ ok tt)
        × (text ≡ rewrite sql found (marks_for d args))
        × (out ≡ flatten_args args)
  unfolding expand_positional marks_for
  expand_positional-inv d sql args found text out e =
      elim (Bool-cases (length found == length args)) [
        | inl same ↦
            let (_, c, e') =
              >>=-inv (check_empty_lists 0 args) _ (rw (same, expand_positional) at e) in
            let q = ok-injective e' in
            (ground (arith, same), c, sym (ap (λ t. t.0) q), sym (ap (λ t. t.1) q))
        | inr other ↦ absurd (ground (arith, e, other))
      ]

  expand_positional-total :
      (d : Dialect) (sql : Bytes) (args : List (Arg V)) (found : List Placeholder)
      → length found ≡ length args
      → NoEmptyList args
      → (out : Bytes × List (Arg V)) × (expand_positional d sql args found ≡ ok out)
  unfolding expand_positional
  expand_positional-total d sql args found same full =
      rw ((==_iff (length found) (length args)).1 same)
        (>>=-total (check_empty_lists 0 args) _ (check_empty_lists-total 0 args full) (_, refl))

  -- The expansion for question marks succeeds exactly when there is one for each argument and no
  -- argument is an empty list.
  pub expand_positional-ok_iff :
      (d : Dialect) (sql : Bytes) (args : List (Arg V)) (found : List Placeholder)
      → ((out : Bytes × List (Arg V)) × (expand_positional d sql args found ≡ ok out))
        ↔ ((length found ≡ length args) × NoEmptyList args)
  expand_positional-ok_iff d sql args found = (accepted, accepts)
    where
      accepted :
          (out : Bytes × List (Arg V)) × (expand_positional d sql args found ≡ ok out)
          → (length found ≡ length args) × NoEmptyList args
      accepted ((text, out), e) =
          let (same, c, _, _) = expand_positional-inv d sql args found text out e in
          (same, check_empty_lists-ok 0 args c)

      accepts :
          (length found ≡ length args) × NoEmptyList args
          → (out : Bytes × List (Arg V)) × (expand_positional d sql args found ≡ ok out)
      accepts (same, full) = expand_positional-total d sql args found same full

  -- The total width of the runs that are written for the placeholders.
  abbrev pub run_widths : List (Arg V) → List Placeholder → ℕ
  run_widths args [] = 0
  run_widths args (p ∷ found) = width_at args (p.index - 1) + run_widths args found

  offset-suc : (args : List (Arg V)) (n : ℕ) → offset args (suc n) ≡ offset args n + width_at args n
  offset-suc [] zero = refl
  offset-suc [] (suc n) = refl
  offset-suc (arg ∷ args) zero = omega arith
  offset-suc (arg ∷ args) (suc n) = omega (arith, offset-suc args n)

  run_widths-take :
      (d : Dialect) (sql : Bytes) (args : List (Arg V)) (n k : ℕ) (found : List Placeholder)
      → d.numbered ≡ false
      → Kinds d sql n found
      → k ≤ length found
      → run_widths args (take k found) + offset args n ≡ offset args (n + k)
  run_widths-take d sql args n zero found plain h le =
      let q : n + 0 ≡ n = omega arith in omega (arith, ap (offset args) q)
  run_widths-take d sql args n (suc k) [] plain h le = absurd (omega arith)
  run_widths-take d sql args n (suc k) (p ∷ found) plain h le =
      let here : p.index - 1 ≡ n = omega (arith, (is_question d sql n p plain h.0).ordinal) in
      let next : n + 1 ≡ suc n = omega arith in
      let total : n + 1 + k ≡ n + suc k = omega arith in
      omega (
        arith,
        run_widths-take d sql args (n + 1) k found plain h.1 (omega arith),
        ap (width_at args) here,
        ap (offset args) next,
        ap (offset args) total,
        offset-suc args n,
      )

  -- The k-th placeholder of a statement, from 0, is written as the run for argument k, the runs
  -- before it are as wide as the arguments before k, all runs together bind every value, and the
  -- values of argument k are those bound from there on.
  pub expand_positional_binds :
      (d : Dialect) (sql : Bytes) (args : List (Arg V)) (text : Bytes) (out : List (Arg V))
      → d.numbered ≡ false
      → expand_positional d sql args (scan_placeholders d sql) ≡ ok (text, out)
      → (text
          ≡ rewrite sql
              (scan_placeholders d sql)
              (λ p. placeholder_run d 0 (width_at args (p.index - 1))))
        × (run_widths args (scan_placeholders d sql) ≡ length out)
        × ((k : ℕ) (p : Placeholder)
            → get_elem? (scan_placeholders d sql) k ≡ some p
            → (p.index ≡ k + 1)
              × (run_widths args (take k (scan_placeholders d sql)) ≡ offset args k))
        × ((k j : ℕ) (arg : Arg V)
            → get_elem? args k ≡ some arg
            → j < arg_width arg
            → get_elem? out (offset args k + j) ≡ get_elem? (values arg) j)
  expand_positional_binds d sql args text out plain e =
      let found = scan_placeholders d sql in
      let (same, c, t, o) = expand_positional-inv d sql args found text out e in
      let kinds = (scan_placeholders_sound d sql).1 in
      let total = run_widths-take d sql args 0 (length found) found plain kinds (omega arith) in
      let q : 0 + length found ≡ length args = omega (arith, same) in
      (
        unfold marks_for in t,
        omega (
          arith,
          total,
          ap (run_widths args) (take-length found),
          ap (offset args) q,
          ap length o,
          length-flatten_args args,
        ),
        λ k p at.
            let (i, le) = get_elem?-ordinal d sql 0 k found p plain kinds at in
            let r : 0 + k ≡ k = omega arith in
            (
              omega (arith, i),
              omega
                  (arith, run_widths-take d sql args 0 k found plain kinds le, ap (offset args) r),
            ),
        λ k j arg at h.
            ap (λ (t : List (Arg V)). get_elem? t (offset args k + j)) o
            ∙ get_elem?-flatten_args args k arg j at h,
      )
