-- ===== src/Sql/Scan.antt =====
-- internal/provider/sql/scan.go: the placeholders of a statement.
pub mod Sound
use tales.Base.{
  ℕ, zero, suc, ◌+◌, ◌-◌, ◌*◌, ◌^◌, ◌&&◌, if◌then◌else◌, Option, none, some, List, [], ◌∷◌, ◌++◌,
  Bytes, length, ltb, leb, ◌==◌,
}
use tales.Sql.Dialect.{Dialect}
use tales.Sql.Skip.{
  byte_at, is_digit_byte, slice, skip_non_code, is_line_comment_start, has_prefix_at,
  skip_line_comment, skip_block_comment, skip_quoted, is_postgres_escape_string, skip_dollar_quoted,
}

pub record Placeholder : Type 0 where
  pub start : ℕ
  pub end : ℕ
  pub index : ℕ

-- math.MaxInt64
abbrev pub max_int : ℕ
max_int = 2 ^ 63 - 1

decimal : Bytes → ℕ → ℕ
decimal [] n = n
decimal (c ∷ s) n = decimal s (n * 10 + (c - b'0'))

-- strconv.Atoi on digits: an error out of the range of an int.
unfoldable pub atoi : Bytes → Option ℕ
unfolding decimal
atoi digits = if ltb max_int (decimal digits 0) then none else some (decimal digits 0)

-- for j < len(sql) && isDigitByte(sql[j])
digits_loop : ℕ → Bytes → ℕ → ℕ
digits_loop zero sql j = j
digits_loop (suc fuel) sql j =
    let rest = digits_loop fuel sql (j + 1) in
    if ltb j (length sql) && is_digit_byte (byte_at sql j) then rest else j

numbered_of : ℕ → ℕ → Option ℕ → Option Placeholder
numbered_of i j none = none
numbered_of i j (some n) = some (record { start = i; end = j; index = n })

-- `none` is the false of the source.
unfoldable pub read_numbered : Bytes → ℕ → Option Placeholder
unfolding digits_loop atoi numbered_of
read_numbered sql i =
    let j = digits_loop (length sql) sql (i + 1) in
    if j == i + 1 then none else numbered_of i j (atoi (slice sql (i + 1) j))

-- The body of the loop: the next offset, and the placeholder that is appended if one is found. `n`
-- is len(found).
unfoldable pub scan_step : Dialect → Bytes → ℕ → ℕ → ℕ × Option Placeholder
scan_step d sql i n = elim (skip_non_code d sql i) [
  | some next ↦ (next, none)
  | none ↦
      if d.numbered && byte_at sql i == b'$'
      then elim (read_numbered sql i) [ none ↦ (i + 1, none) | some p ↦ (p.end, some p) ]
      else if d.positional && byte_at sql i == b'?'
      then (i + 1, some (record { start = i; end = i + 1; index = n + 1 }))
      else (i + 1, none)
]

abbrev pub append : List Placeholder → Option Placeholder → List Placeholder
append found none = found
append found (some p) = found ++ (p ∷ [])

-- for i < len(sql), with what was found so far
unfoldable pub scan_loop : ℕ → Dialect → Bytes → ℕ → List Placeholder → List Placeholder
scan_loop zero d sql i found = found
scan_loop (suc fuel) d sql i found =
    let round = scan_step d sql i (length found) in
    let rest = scan_loop fuel d sql round.0 (append found round.1) in
    if leb (length sql) i then found else rest

unfoldable pub scan_placeholders : Dialect → Bytes → List Placeholder
unfolding scan_loop scan_step skip_non_code read_numbered is_line_comment_start has_prefix_at
    skip_line_comment skip_block_comment skip_quoted is_postgres_escape_string skip_dollar_quoted
scan_placeholders d sql = scan_loop (length sql) d sql 0 []
