-- ===== src/Sql/Tests.antt =====
-- internal/provider/sql: runs at the inputs of expand_test.go, and the theorems at concrete inputs.
use tales.Base.{ℕ, List, [], ◌∷◌, map, Bytes, codes, ok, err, ◌≡◌, refl}
use tales.Sql.Dialect.{dialect_for, postgres_dialect, mysql_dialect}
use tales.Sql.Scan.{Placeholder, scan_placeholders}
use tales.Sql.Expand.{
  scalar, list, reused_list, itoa, expand_numbered, expand_positional, expand_list_args,
}

abbrev indices : List Placeholder → List ℕ
indices = map (λ p. p.index)

postgres_quotes : indices (scan_placeholders postgres_dialect (codes "a = $2 -- $3")) ≡ 2 ∷ []
unfolding scan_placeholders
postgres_quotes = refl

postgres_bodies :
    indices (scan_placeholders postgres_dialect (codes "$$x $1$$ /* /* $4 */ $5 */ '$6' $7"))
    ≡ 7 ∷ []
unfolding scan_placeholders
postgres_bodies = refl

mysql_marks :
    indices (scan_placeholders mysql_dialect (codes "a=1--? AND `?` = ? # ?")) ≡ 1 ∷ 2 ∷ []
unfolding scan_placeholders
mysql_marks = refl

abbrev query : Bytes
query = codes "b = $2 AND a IN ($1)"

-- Placeholders out of textual order: both are renumbered.
numbered_example :
    expand_list_args {V = ℕ} "postgres" query (list (7 ∷ 8 ∷ []) ∷ scalar 9 ∷ [])
    ≡ ok (codes "b = $3 AND a IN ($1,$2)", scalar 7 ∷ scalar 8 ∷ scalar 9 ∷ [])
unfolding expand_list_args dialect_for scan_placeholders expand_numbered itoa
numbered_example = refl

reused_example :
    expand_list_args {V = ℕ} "pgx" (codes "a IN ($1) OR b IN ($1)") (list (7 ∷ []) ∷ [])
    ≡ err (reused_list 0 2)
unfolding expand_list_args dialect_for scan_placeholders expand_numbered itoa
reused_example = refl

positional_example :
    expand_list_args {V = ℕ} "mysql"
      (codes "a = ? AND id IN (?)")
      (scalar 5 ∷ list (1 ∷ 2 ∷ []) ∷ [])
    ≡ ok (codes "a = ? AND id IN (?,?)", scalar 5 ∷ scalar 1 ∷ scalar 2 ∷ [])
unfolding expand_list_args dialect_for scan_placeholders expand_positional
positional_example = refl
