-- ===== src/Sql/Expand/Numbered.antt =====
-- internal/provider/sql/expand.go: expandNumbered, for drivers whose placeholders carry numbers.
use tales.Base.{
  All, ℕ, zero, suc, ◌+◌, ◌-◌, ◌<◌, List, [], ◌∷◌, some, length, get_or, get_elem?, ◌≡◌, ap, sym,
  ◌∙◌, arith, ok, >>=-inv, ok-injective, Bytes,
}
use tales.Sql.Dialect.{Dialect}
use tales.Sql.Scan.{Placeholder}
use tales.Sql.Expand.{
  Arg, arg_width, Counts, count_loop, bases_loop, width_at, rewrite, placeholder_run,
  expand_numbered,
}
use tales.Sql.Expand.Rewrite.{rewrite_ext}
use tales.Sql.Expand.Binding.{
  values, offset, InRange, count_loop-ok, bases_loop-offset, get_elem?-flatten_args,
}

module _ {ℓ} {V : Type ℓ} where
  -- The bases that the code reads are the offsets of the arguments, plus one.
  bases-eq-offsets :
      (d : Dialect) (args : List (Arg V)) (counts : Counts) (bases : List ℕ)
      (found : List Placeholder)
      → bases_loop 0 1 counts args ≡ ok bases
      → InRange (length args) found
      → All
          (λ p.
            placeholder_run d (get_or (0 ∷ bases) p.index 0) (width_at args (p.index - 1))
            ≡ placeholder_run d (1 + offset args (p.index - 1)) (width_at args (p.index - 1)))
          found
  bases-eq-offsets d args counts bases [] e h = tt
  bases-eq-offsets d args counts bases (p ∷ found) e (low, high, h) = (
    ap (λ (b : ℕ). placeholder_run d b (width_at args (p.index - 1)))
        (base_at p.index low
          ∙ bases_loop-offset args 0 1 counts bases (p.index - 1) e (omega arith)),
    bases-eq-offsets d args counts bases found e h,
  )
    where
      base_at : (i : ℕ) → 0 < i → get_or (0 ∷ bases) i 0 ≡ get_or bases (i - 1) 0
      base_at zero h = elim h [ ]
      base_at (suc i) h = ap (λ (t : ℕ). get_or bases t 0) (omega arith)

  -- After a successful expansion for numbered placeholders, the placeholder of argument k + 1 is
  -- written as the run of its width that begins one past the widths of the arguments before it, and
  -- the value that is bound at each place of that run is the value of the argument at that place.
  pub expand_numbered_binds :
      (d : Dialect) (sql : Bytes) (args : List (Arg V)) (found : List Placeholder) (text : Bytes)
      (out : List (Arg V))
      → expand_numbered d sql args found ≡ ok (text, out)
      → (text
          ≡ rewrite sql found (λ p.
            placeholder_run d (1 + offset args (p.index - 1)) (width_at args (p.index - 1))))
        × InRange (length args) found
        × ((k j : ℕ) (arg : Arg V)
            → get_elem? args k ≡ some arg
            → j < arg_width arg
            → get_elem? out (offset args k + j) ≡ get_elem? (values arg) j)
  unfolding expand_numbered
  expand_numbered_binds d sql args found text out e =
      let (counts, c, e') = >>=-inv (count_loop (length args) found (λ _. 0)) _ e in
      let (bases, b, e'') = >>=-inv (bases_loop 0 1 counts args) _ e' in
      let (within, counted) = count_loop-ok (length args) found (λ _. 0) counts c in
      (
        sym (ap (λ t. t.0) (ok-injective e''))
            ∙ rewrite_ext sql found _ _ (bases-eq-offsets d args counts bases found b within),
        within,
        λ k j arg at h.
            ap (λ (t : Bytes × List (Arg V)). get_elem? t.1 (offset args k + j))
              (sym (ok-injective e''))
            ∙ get_elem?-flatten_args args k arg j at h,
      )
