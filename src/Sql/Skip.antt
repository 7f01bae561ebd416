-- ===== src/Sql/Skip.antt =====
-- internal/provider/sql/scan.go: the parts of a statement that hold no placeholder. Offsets are
-- numbers, the statement is a list of bytes, and each `for` loop takes the length of the statement
-- as fuel; it advances by one byte at least, so its guard fails before the fuel is spent.
pub mod Bounds
use tales.Base.{
  ℕ, zero, suc, ◌+◌, ◌-◌, Bool, true, false, ◌&&◌, ◌||◌, not, if◌then◌else◌, Option, none, some, [],
  ◌∷◌, Bytes, codes, length, get_or, take, drop, has_prefix, ltb, leb, ◌==◌,
}
use tales.Sql.Dialect.{Dialect}

-- sql[i]. The source reads inside the bounds only; 256 is no byte, so it passes no test.
abbrev pub byte_at : Bytes → ℕ → ℕ
byte_at sql i = get_or sql i 256

unfoldable pub has_prefix_at : Bytes → ℕ → Bytes → Bool
has_prefix_at sql i prefix = has_prefix (drop i sql) prefix

abbrev pub is_digit_byte : ℕ → Bool
is_digit_byte b = leb b'0' b && leb b b'9'

unfoldable pub is_ident_byte : ℕ → Bool
is_ident_byte b =
    b == b'_'
    || ((leb b'0' b && leb b b'9') || ((leb b'a' b && leb b b'z') || (leb b'A' b && leb b b'Z')))

-- strings.Index(s, needle), counted from `n`.
index_from : ℕ → Bytes → Bytes → Option ℕ
index_from n [] needle = if has_prefix [] needle then some n else none
index_from n (c ∷ s) needle =
    let rest = index_from (n + 1) s needle in if has_prefix (c ∷ s) needle then some n else rest

-- `none` is the -1 of the source.
unfoldable pub index_at : Bytes → ℕ → Bytes → Option ℕ
unfolding index_from
index_at sql from needle =
    if leb (length sql) from then none else index_from from (drop from sql) needle

unfoldable pub is_line_comment_start : Dialect → Bytes → ℕ → Bool
unfolding has_prefix_at
is_line_comment_start d sql i =
    if d.hash_line_comment && byte_at sql i == b'#'
    then true
    else if not (has_prefix_at sql i (codes "--"))
    then false
    else if not d.dash_dash_needs_space
    then true
    else if leb (length sql) (i + 2)
    then true
    else byte_at sql (i + 2) == b' '
      || (byte_at sql (i + 2) == 9 || (byte_at sql (i + 2) == 10 || byte_at sql (i + 2) == 13))

-- for j := i; j < len(sql); j++
line_comment_loop : ℕ → Bytes → ℕ → ℕ
line_comment_loop zero sql j = length sql
line_comment_loop (suc fuel) sql j =
    let rest = line_comment_loop fuel sql (j + 1) in
    if leb (length sql) j then length sql else if byte_at sql j == 10 then j + 1 else rest

unfoldable pub skip_line_comment : Bytes → ℕ → ℕ
unfolding line_comment_loop
skip_line_comment sql i = line_comment_loop (length sql) sql i

-- for j < len(sql), with the depth of the open comments
block_comment_loop : ℕ → Bytes → Bool → ℕ → ℕ → ℕ
unfolding has_prefix_at
block_comment_loop zero sql nested depth j = length sql
block_comment_loop (suc fuel) sql nested depth j =
    let closed = block_comment_loop fuel sql nested (depth - 1) (j + 2) in
    let opened = block_comment_loop fuel sql nested (depth + 1) (j + 2) in
    let rest = block_comment_loop fuel sql nested depth (j + 1) in
    if leb (length sql) j
    then length sql
    else if has_prefix_at sql j (codes "*/")
    then (if depth - 1 == 0 then j + 2 else closed)
    else if nested && has_prefix_at sql j (codes "/*")
    then opened
    else rest

unfoldable pub skip_block_comment : Bytes → ℕ → Bool → ℕ
unfolding block_comment_loop
skip_block_comment sql i nested = block_comment_loop (length sql) sql nested 1 (i + 2)

quoted_loop : ℕ → Bytes → ℕ → Bool → ℕ → ℕ
quoted_loop zero sql quote backslash j = length sql
quoted_loop (suc fuel) sql quote backslash j =
    let two = quoted_loop fuel sql quote backslash (j + 2) in
    let one = quoted_loop fuel sql quote backslash (j + 1) in
    if leb (length sql) j
    then length sql
    else if backslash && (byte_at sql j == 92 && ltb (j + 1) (length sql))
    then two
    else if not (byte_at sql j == quote)
    then one
    else if ltb (j + 1) (length sql) && byte_at sql (j + 1) == quote
    then two
    else j + 1

unfoldable pub skip_quoted : Bytes → ℕ → ℕ → Bool → ℕ
unfolding quoted_loop
skip_quoted sql i quote backslash = quoted_loop (length sql) sql quote backslash (i + 1)

unfoldable pub is_postgres_escape_string : Dialect → Bytes → ℕ → Bool
unfolding is_ident_byte
is_postgres_escape_string d sql i =
    if not d.dollar_quoting || i == 0
    then false
    else if not (byte_at sql (i - 1) == b'E') && not (byte_at sql (i - 1) == b'e')
    then false
    else if i == 1
    then true
    else not (is_ident_byte (byte_at sql (i - 2)))

-- for tagEnd < len(sql) && isIdentByte(sql[tagEnd]) && !isDigitByte(sql[tagEnd])
tag_loop : ℕ → Bytes → ℕ → ℕ
unfolding is_ident_byte
tag_loop zero sql tag_end = tag_end
tag_loop (suc fuel) sql tag_end =
    let rest = tag_loop fuel sql (tag_end + 1) in
    if ltb tag_end (length sql)
      && (is_ident_byte (byte_at sql tag_end) && not (is_digit_byte (byte_at sql tag_end)))
    then rest
    else tag_end

-- sql[from:to]
abbrev pub slice : Bytes → ℕ → ℕ → Bytes
slice sql from to = take (to - from) (drop from sql)

-- the end of the body that the tag opens
dollar_body : Bytes → ℕ → Bytes → ℕ
dollar_body sql from tag = elim (index_at sql from tag) [
  | none ↦ length sql
  | some closing ↦ closing + length tag
]

-- `none` is the false of the source, which comes with the offset unchanged.
unfoldable pub skip_dollar_quoted : Bytes → ℕ → Option ℕ
unfolding tag_loop dollar_body index_at
skip_dollar_quoted sql i =
    let tag_end = tag_loop (length sql) sql (i + 1) in
    if leb (length sql) tag_end || not (byte_at sql tag_end == b'$')
    then none
    else some (dollar_body sql (tag_end + 1) (slice sql i (tag_end + 1)))

unfoldable pub skip_non_code : Dialect → Bytes → ℕ → Option ℕ
skip_non_code d sql i =
    if is_line_comment_start d sql i
    then some (skip_line_comment sql i)
    else if has_prefix_at sql i (codes "/*")
    then some (skip_block_comment sql i d.nested_block_comments)
    else if byte_at sql i == 39
    then some (skip_quoted sql i 39 (d.backslash_escapes || is_postgres_escape_string d sql i))
    else if byte_at sql i == 34
    then some (skip_quoted sql i 34 d.backslash_escapes)
    else if d.backtick_ident && byte_at sql i == 96
    then some (skip_quoted sql i 96 false)
    else if d.dollar_quoting && byte_at sql i == b'$'
    then skip_dollar_quoted sql i
    else none
