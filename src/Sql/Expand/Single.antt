-- ===== src/Sql/Expand/Single.antt =====
-- internal/provider/sql/expand.go: lists of one value.
use tales.Base.{
  All, ℕ, zero, suc, ◌+◌, ◌-◌, ◌≤◌, ◌<◌, List, [], ◌∷◌, length, ◌≡◌, ap, sym, ◌∙◌, arith, ok, Bytes,
  false, refl, codes,
}
use tales.Sql.Dialect.{Dialect}
use tales.Sql.Skip.{slice}
use tales.Sql.Scan.{Placeholder, scan_placeholders}
use tales.Sql.Scan.Sound.{Located, Located-le, Kinds, scan_placeholders_sound}
use tales.Sql.Expand.{Arg, arg_width, width_at, placeholder_run, expand_positional}
use tales.Sql.Expand.Rewrite.{rewrite_ext, rewrite_same, slice-one}
use tales.Sql.Expand.Positional.{is_question, marks_for, expand_positional-inv}
use tales.Sql.Expand.Binding.{offset, length-flatten_args}

run-one : (d : Dialect) → d.numbered ≡ false → placeholder_run d 0 1 ≡ codes "?"
unfolding placeholder_run
run-one d plain = rw plain

module _ {ℓ} {V : Type ℓ} where
  abbrev pub AllSingle : List (Arg V) → Type 0
  AllSingle [] = Unit
  AllSingle (arg ∷ args) = (arg_width arg ≡ 1) × AllSingle args

  offset-single : (args : List (Arg V)) → AllSingle args → offset args (length args) ≡ length args
  offset-single [] h = refl
  offset-single (arg ∷ args) h = omega (arith, h.0, offset-single args h.1)

  width_at-single :
      (args : List (Arg V)) (i : ℕ) → AllSingle args → i < length args → width_at args i ≡ 1
  width_at-single [] i h lt = elim lt [ ]
  width_at-single (arg ∷ args) zero h lt = h.0
  width_at-single (arg ∷ args) (suc i) h lt = width_at-single args i h.1 (omega arith)

  -- What is written for each placeholder is what stood there.
  marks-same :
      (d : Dialect) (sql : Bytes) (args : List (Arg V)) (lo n : ℕ) (found : List Placeholder)
      → d.numbered ≡ false
      → AllSingle args
      → Located lo (length sql) found
      → Kinds d sql n found
      → n + length found ≤ length args
      → All (λ p. marks_for d args p ≡ slice sql p.start p.end) found
  unfolding marks_for
  marks-same d sql args lo n [] plain single l h le = tt
  marks-same d sql args lo n (p ∷ found) plain single (starts, moves, l) h le =
      let k = is_question d sql n p plain h.0 in
      let inside = Located-le p.end (length sql) found l in
      (
        ap (placeholder_run d 0) (width_at-single args (p.index - 1) single (omega (arith, k)))
            ∙ (run-one d plain
                ∙ sym (
                    ap (slice sql p.start) k.closed
                    ∙ (slice-one sql p.start (omega (arith, inside)) ∙ ap (λ c. c ∷ []) k.opened))),
        marks-same d sql args p.end (n + 1) found plain single l h.1 (omega arith),
      )

  -- If every list has one value, the statement for question marks is not changed.
  pub expand_positional_single :
      (d : Dialect) (sql : Bytes) (args : List (Arg V)) (text : Bytes) (out : List (Arg V))
      → d.numbered ≡ false
      → AllSingle args
      → expand_positional d sql args (scan_placeholders d sql) ≡ ok (text, out)
      → (text ≡ sql) × (length out ≡ length args)
  expand_positional_single d sql args text out plain single e =
      let found = scan_placeholders d sql in
      let (same, c, t, o) = expand_positional-inv d sql args found text out e in
      let (located, kinds) = scan_placeholders_sound d sql in
      (
        t
            ∙ (rewrite_ext sql found (marks_for d args) (λ p. slice sql p.start p.end)
                  (marks-same d sql args 0 0 found plain single located kinds (omega (arith, same)))
                ∙ rewrite_same sql found located),
        omega (arith, ap length o, length-flatten_args args, offset-single args single),
      )
