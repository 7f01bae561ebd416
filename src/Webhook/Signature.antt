-- ===== src/Webhook/Signature.antt =====
-- internal/provider/webhook/signature.go: the comparison of signatures and the check of their times.
-- An int64 is its two's complement, a number below 2 ^ 64; a text is its code points.
pub mod Tolerance
use tales.Base.{
  ℕ, zero, suc, ◌+◌, ◌-◌, ◌*◌, ◌%◌, List, [], ◌∷◌, Option, none, some, Bool, true, false, ◌&&◌,
  if◌then◌else◌, leb, ltb, ◌==◌, Bytes, Result, ok, err,
}
use tales.Assertion.Uuid.{same_text, to_lower}
use tales.Lang.Versions.{trim_space}

-- a - b
unfoldable pub int64_sub : ℕ → ℕ → ℕ
int64_sub a b = (a + (18446744073709551616 - b)) % 18446744073709551616

-- a * b
unfoldable pub int64_mul : ℕ → ℕ → ℕ
int64_mul a b = (a * b) % 18446744073709551616

-- a < 0
abbrev pub is_negative : ℕ → Bool
is_negative a = leb 9223372036854775808 a

-- a <= b, of the numbers that the complements stand for.
unfoldable pub int64_leb : ℕ → ℕ → Bool
int64_leb a b =
    leb ((a + 9223372036854775808) % 18446744073709551616)
      ((b + 9223372036854775808) % 18446744073709551616)

-- The digits of a number, with the value so far; none where there is something else.
unfoldable pub read_digits : Bytes → ℕ → Option ℕ
read_digits [] value = some value
read_digits (c ∷ s) value =
    let rest = read_digits s (value * 10 + (c - 48)) in if leb 48 c && leb c 57 then rest else none

-- A number with a digit at least, not above the limit.
unfoldable pub read_number : ℕ → Bytes → Option ℕ
read_number limit [] = none
read_number limit (c ∷ s) = elim (read_digits (c ∷ s) 0) [
  | none ↦ none
  | some value ↦ if leb value limit then some value else none
]

-- strconv.ParseInt(s, 10, 64), of which an error is none.
unfoldable pub parse_int : Bytes → Option ℕ
parse_int [] = none
parse_int (c ∷ s) =
    let negative : Option ℕ = elim (read_number 9223372036854775808 s) [
      | none ↦ none
      | some value ↦ some (int64_sub 0 value)
    ] in
    if c == 45
    then negative
    else if c == 43
    then read_number 9223372036854775807 s
    else read_number 9223372036854775807 (c ∷ s)

-- hmac.Equal of the two digests in lower case.
unfoldable pub signatures_equal : Bytes → Bytes → Bool
signatures_equal a b = same_text (to_lower a) (to_lower b)

-- From the parsed timestamp on; both times are in seconds, the tolerance in nanoseconds.
unfoldable pub within_tolerance : ℕ → ℕ → ℕ → Bool
within_tolerance ts now tolerance =
    let delta = int64_sub now ts in
    let distance = if is_negative delta then int64_sub 0 delta else delta in
    int64_leb (int64_mul distance 1000000000) tolerance

-- The error is that the timestamp is not a unix timestamp.
unfoldable pub timestamp_within_tolerance : Bytes → ℕ → ℕ → Result (Unit {0}) Bool
timestamp_within_tolerance timestamp now tolerance =
    if int64_leb tolerance 0 then ok true else elim (parse_int (trim_space timestamp)) [
      | none ↦ err tt
      | some ts ↦ ok (within_tolerance ts now tolerance)
    ]
