-- ===== src/Sql/Skip/Bounds.antt =====
-- internal/provider/sql/scan.go: every region that is skipped ends inside the statement, past its
-- start.
use tales.Base.{
  ℕ, zero, suc, ◌+◌, ◌-◌, ◌≤◌, ◌<◌, Bool, true, false, ◌||◌, some, [], ◌∷◌, Bytes, codes, length,
  take, drop, has_prefix, ◌≡◌, arith, Option-cases, inl, inr,
}
use tales.Sql.Dialect.{Dialect}
use tales.Sql.Skip.{
  has_prefix_at, index_from, index_at, is_postgres_escape_string, line_comment_loop,
  skip_line_comment, block_comment_loop, skip_block_comment, quoted_loop, skip_quoted, tag_loop,
  slice, dollar_body, skip_dollar_quoted, skip_non_code,
}

length-drop : (n : ℕ) (s : Bytes) → length (drop n s) ≡ length s - n
length-drop zero s = omega arith
length-drop (suc n) [] = omega arith
length-drop (suc n) (c ∷ s) = omega (arith, length-drop n s)

length-take-le : (n : ℕ) (s : Bytes) → length (take n s) ≤ n
length-take-le zero s = omega arith
length-take-le (suc n) [] = omega arith
length-take-le (suc n) (c ∷ s) = omega (arith, length-take-le n s)

pub has_prefix-length : (s p : Bytes) → has_prefix s p ≡ true → length p ≤ length s
has_prefix-length s [] h = omega arith
has_prefix-length [] (c ∷ p) h = cc
has_prefix-length (d ∷ s) (c ∷ p) h = ground (arith, has_prefix-length s p)

prefix_fits :
    (sql : Bytes) (i : ℕ) (p : Bytes)
    → 0 < length p
    → has_prefix_at sql i p ≡ true
    → i + length p ≤ length sql
unfolding has_prefix_at
prefix_fits sql i p pos h = omega (arith, has_prefix-length (drop i sql) p h, length-drop i sql)

line_comment_loop_bounds :
    (fuel : ℕ) (sql : Bytes) (j : ℕ)
    → j ≤ length sql
    → (j ≤ line_comment_loop fuel sql j) × (line_comment_loop fuel sql j ≤ length sql)
unfolding line_comment_loop
line_comment_loop_bounds zero sql j h = omega arith
line_comment_loop_bounds (suc fuel) sql j h =
    ground (arith, line_comment_loop_bounds fuel sql (j + 1))

skip_line_comment_bounds :
    (sql : Bytes) (i : ℕ)
    → i < length sql
    → (i < skip_line_comment sql i) × (skip_line_comment sql i ≤ length sql)
unfolding skip_line_comment
skip_line_comment_bounds [] i h = absurd (omega arith)
skip_line_comment_bounds (c ∷ s) i h =
    ground (arith, line_comment_loop_bounds (length s) (c ∷ s) (i + 1))

block_comment_loop_bounds :
    (fuel : ℕ) (sql : Bytes) (nested : Bool) (depth j : ℕ)
    → j ≤ length sql
    → (j ≤ block_comment_loop fuel sql nested depth j)
      × (block_comment_loop fuel sql nested depth j ≤ length sql)
unfolding block_comment_loop
block_comment_loop_bounds zero sql nested depth j h = omega arith
block_comment_loop_bounds (suc fuel) sql nested depth j h = ground (
  arith,
  prefix_fits sql j (codes "*/"),
  prefix_fits sql j (codes "/*"),
  block_comment_loop_bounds fuel sql nested (depth - 1) (j + 2),
  block_comment_loop_bounds fuel sql nested (depth + 1) (j + 2),
  block_comment_loop_bounds fuel sql nested depth (j + 1),
)

quoted_loop_bounds :
    (fuel : ℕ) (sql : Bytes) (quote : ℕ) (backslash : Bool) (j : ℕ)
    → j ≤ length sql
    → (j ≤ quoted_loop fuel sql quote backslash j)
      × (quoted_loop fuel sql quote backslash j ≤ length sql)
unfolding quoted_loop
quoted_loop_bounds zero sql quote backslash j h = omega arith
quoted_loop_bounds (suc fuel) sql quote backslash j h = ground (
  arith,
  quoted_loop_bounds fuel sql quote backslash (j + 2),
  quoted_loop_bounds fuel sql quote backslash (j + 1),
)

skip_quoted_bounds :
    (sql : Bytes) (i quote : ℕ) (backslash : Bool)
    → i < length sql
    → (i < skip_quoted sql i quote backslash) × (skip_quoted sql i quote backslash ≤ length sql)
unfolding skip_quoted
skip_quoted_bounds sql i quote backslash h =
    omega (arith, quoted_loop_bounds (length sql) sql quote backslash (i + 1) (omega arith))

tag_loop-le : (fuel : ℕ) (sql : Bytes) (j : ℕ) → j ≤ tag_loop fuel sql j
unfolding tag_loop
tag_loop-le zero sql j = omega arith
tag_loop-le (suc fuel) sql j = ground (arith, tag_loop-le fuel sql (j + 1))

index_from_bounds :
    (n : ℕ) (s needle : Bytes) (m : ℕ)
    → index_from n s needle ≡ some m
    → (n ≤ m) × (m + length needle ≤ n + length s)
unfolding index_from
index_from_bounds n [] needle m h = ground (arith, has_prefix-length [] needle)
index_from_bounds n (c ∷ s) needle m h =
    ground (arith, has_prefix-length (c ∷ s) needle, index_from_bounds (n + 1) s needle m)

index_at_bounds :
    (sql : Bytes) (from : ℕ) (needle : Bytes) (m : ℕ)
    → index_at sql from needle ≡ some m
    → (from ≤ m) × (m + length needle ≤ length sql)
unfolding index_at
index_at_bounds sql from needle m e =
    ground (arith, index_from_bounds from (drop from sql) needle m, length-drop from sql)

dollar_body_bounds :
    (sql : Bytes) (from : ℕ) (tag : Bytes)
    → from ≤ length sql
    → (from ≤ dollar_body sql from tag) × (dollar_body sql from tag ≤ length sql)
unfolding dollar_body
dollar_body_bounds sql from tag h = elim (Option-cases (index_at sql from tag)) [
  | inl e ↦ ground (arith, e)
  | inr (m, e) ↦ ground (arith, e, index_at_bounds sql from tag m e)
]

skip_dollar_quoted_bounds :
    (sql : Bytes) (i next : ℕ)
    → i < length sql
    → skip_dollar_quoted sql i ≡ some next
    → (i < next) × (next ≤ length sql)
unfolding skip_dollar_quoted
skip_dollar_quoted_bounds sql i next h e =
    let t = tag_loop (length sql) sql (i + 1) in
    ground (
      arith,
      tag_loop-le (length sql) sql (i + 1),
      dollar_body_bounds sql (t + 1) (slice sql i (t + 1)),
    )

skip_block_comment_bounds :
    (sql : Bytes) (i : ℕ) (nested : Bool)
    → has_prefix_at sql i (codes "/*") ≡ true
    → (i < skip_block_comment sql i nested) × (skip_block_comment sql i nested ≤ length sql)
unfolding skip_block_comment
skip_block_comment_bounds sql i nested e =
    let fits = prefix_fits sql i (codes "/*") (omega arith) e in
    omega (arith, fits, block_comment_loop_bounds (length sql) sql nested 1 (i + 2) fits)

-- A region that is skipped at an offset inside the statement ends past that offset and inside the
-- statement.
pub skip_non_code_bounds :
    (d : Dialect) (sql : Bytes) (i next : ℕ)
    → i < length sql
    → skip_non_code d sql i ≡ some next
    → (i < next) × (next ≤ length sql)
unfolding skip_non_code
skip_non_code_bounds d sql i next h e = ground (
  arith,
  skip_line_comment_bounds sql i,
  skip_block_comment_bounds sql i d.nested_block_comments,
  skip_quoted_bounds sql i 39 (d.backslash_escapes || is_postgres_escape_string d sql i),
  skip_quoted_bounds sql i 34 d.backslash_escapes,
  skip_quoted_bounds sql i 96 false,
  skip_dollar_quoted_bounds sql i next,
)
