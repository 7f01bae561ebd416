-- ===== src/Sql/Examples.antt =====
-- internal/provider/sql: the theorems at the statements of Tests.
use tales.Base.{
  ℕ, ◌+◌, ◌-◌, ◌<◌, List, [], ◌∷◌, some, length, get_elem?, Bytes, codes, ok, ◌≡◌, refl, ◌↔◌,
}
use tales.Sql.Dialect.{postgres_dialect, mysql_dialect}
use tales.Sql.Skip.{skip_non_code, is_line_comment_start, skip_quoted}
use tales.Sql.Scan.{Placeholder, scan_placeholders}
use tales.Sql.Scan.Sound.{Located, Kinds, scan_placeholders_sound}
use tales.Sql.Expand.{
  Arg, count_loop, bases_loop, flatten_args, check_empty_lists, scalar, list, arg_width, itoa,
  placeholder_run, rewrite, width_at, expand_numbered, expand_positional,
}
use tales.Sql.Expand.Binding.{values, offset, InRange}
use tales.Sql.Expand.Numbered.{expand_numbered_binds}
use tales.Sql.Expand.Accepts.{ListsFit, expand_numbered-ok_iff}
use tales.Sql.Expand.Single.{expand_positional_single}

abbrev query : Bytes
query = codes "b = $2 AND a IN ($1)"

abbrev args : List (Arg ℕ)
args = list (7 ∷ 8 ∷ []) ∷ scalar 9 ∷ []

abbrev found : List Placeholder
found = scan_placeholders postgres_dialect query

scan_placeholders_sound_example :
    Located 0 (length query) found × Kinds postgres_dialect query 0 found
scan_placeholders_sound_example = scan_placeholders_sound postgres_dialect query

abbrev quoted : Bytes
quoted = codes "'?' ?"

quoted_test : skip_non_code mysql_dialect quoted 0 ≡ some 3
unfolding skip_non_code is_line_comment_start skip_quoted
quoted_test = refl

expand_numbered-ok_iff_example :
    ((out : Bytes × List (Arg ℕ)) × (expand_numbered postgres_dialect query args found ≡ ok out))
    ↔ (InRange (length args) found × ListsFit args found)
expand_numbered-ok_iff_example = expand_numbered-ok_iff postgres_dialect query args found

abbrev text : Bytes
text = codes "b = $3 AND a IN ($1,$2)"

abbrev out : List (Arg ℕ)
out = scalar 7 ∷ scalar 8 ∷ scalar 9 ∷ []

query_test : expand_numbered postgres_dialect query args found ≡ ok (text, out)
unfolding scan_placeholders expand_numbered itoa count_loop bases_loop rewrite flatten_args
    placeholder_run
query_test = refl

expand_numbered_binds_example :
    (text
      ≡ rewrite query found (λ p.
        placeholder_run postgres_dialect
          (1 + offset args (p.index - 1))
          (width_at args (p.index - 1))))
    × InRange (length args) found
    × ((k j : ℕ) (arg : Arg ℕ)
        → get_elem? args k ≡ some arg
        → j < arg_width arg
        → get_elem? out (offset args k + j) ≡ get_elem? (values arg) j)
expand_numbered_binds_example =
    expand_numbered_binds postgres_dialect query args found text out query_test

abbrev marks : Bytes
marks = codes "a = ? AND id IN (?)"

abbrev mark_args : List (Arg ℕ)
mark_args = scalar 5 ∷ list (1 ∷ 2 ∷ []) ∷ []

abbrev mark_text : Bytes
mark_text = codes "a = ? AND id IN (?,?)"

abbrev mark_out : List (Arg ℕ)
mark_out = scalar 5 ∷ scalar 1 ∷ scalar 2 ∷ []

marks_test :
    expand_positional mysql_dialect marks mark_args (scan_placeholders mysql_dialect marks)
    ≡ ok (mark_text, mark_out)
unfolding scan_placeholders expand_positional check_empty_lists rewrite flatten_args placeholder_run
marks_test = refl

abbrev single_args : List (Arg ℕ)
single_args = scalar 5 ∷ list (1 ∷ []) ∷ []

single_test :
    expand_positional mysql_dialect marks single_args (scan_placeholders mysql_dialect marks)
    ≡ ok (marks, scalar 5 ∷ scalar 1 ∷ [])
unfolding scan_placeholders expand_positional check_empty_lists rewrite flatten_args placeholder_run
single_test = refl

expand_positional_single_example : (marks ≡ marks) × (2 ≡ length single_args)
expand_positional_single_example =
    expand_positional_single mysql_dialect marks single_args marks (scalar 5 ∷ scalar 1 ∷ []) refl
      (refl, (refl, tt)) single_test
