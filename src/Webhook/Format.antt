-- ===== src/Webhook/Format.antt =====
-- internal/provider/webhook/signature.go: the formats of signature headers. The regular expression that
-- the source builds from a format is the list of its parts; its match is the first of Go's regexp, which
-- prefers longer runs.
pub mod Filled
use tales.Base.{
  ℕ, zero, suc, List, [], ◌∷◌, ◌++◌, Option, none, some, Bool, true, false, not, if◌then◌else◌,
  ◌==◌, Bytes, codes, has_prefix, length, Result, ok, err,
}
use tales.Assertion.Uuid.{is_hex}
use tales.Lang.Versions.{trim_space}

-- A character as it is, (?P<timestamp>[^,]+), or (?P<signature>[A-Fa-f0-9]+).
pub data Segment : Type 0 where
  literal : ℕ → Segment
  timestamp : Segment
  signature : Segment

pub data FormatError : Type 0 where
  empty_format two_timestamps two_signatures no_signature : FormatError

-- The placeholders from the left, after `skip` characters of the last one; either has 11.
unfoldable pub segments : ℕ → Bytes → List Segment
segments skip [] = []
segments (suc skip) (c ∷ format) = segments skip format
segments zero (c ∷ format) =
    let placeholder = segments 10 format in
    let plain = segments zero format in
    if has_prefix (c ∷ format) (codes "{timestamp}")
    then timestamp ∷ placeholder
    else if has_prefix (c ∷ format) (codes "{signature}")
    then signature ∷ placeholder
    else literal c ∷ plain

-- The tests of the loop and after it, with HasTimestamp and HasSignature so far; HasTimestamp at the end.
unfoldable pub check_segments : List Segment → Bool → Bool → Result FormatError Bool
check_segments [] has_timestamp has_signature =
    if has_signature then ok has_timestamp else err no_signature
check_segments (literal c ∷ parts) has_timestamp has_signature =
    check_segments parts has_timestamp has_signature
check_segments (timestamp ∷ parts) has_timestamp has_signature =
    let rest = check_segments parts true has_signature in
    if has_timestamp then err two_timestamps else rest
check_segments (signature ∷ parts) has_timestamp has_signature =
    let rest = check_segments parts has_timestamp true in
    if has_signature then err two_signatures else rest

pub record SignatureFormat : Type 0 where
  pub parts : List Segment
  pub has_timestamp : Bool

unfoldable pub parse_signature_format : Bytes → Result FormatError SignatureFormat
parse_signature_format format =
    if length (trim_space format) == 0
    then err empty_format
    else elim (check_segments (segments 0 format) false false) [
      | err e ↦ err e
      | ok has ↦ ok (record { parts = segments 0 format; has_timestamp = has })
    ]

-- A run of one character of the class or more, as long as what follows still matches.
unfoldable pub run_of : {A : Type 0} → (ℕ → Bool) → (Bytes → Option A) → Bytes → Option (Bytes × A)
run_of class next [] = none
run_of class next (c ∷ s) =
    let longer = run_of class next s in
    if class c
    then elim longer [
      | some (run, a) ↦ some (c ∷ run, a)
      | none ↦ elim (next s) [ none ↦ none | some a ↦ some (c ∷ [], a) ]
    ]
    else none

abbrev pub no_comma : ℕ → Bool
no_comma c = not (c == 44)

-- The timestamp and the signature of a text that matches the parts.
unfoldable pub match_parts : List Segment → Bytes → Option (Bytes × Bytes)
match_parts [] [] = some ([], [])
match_parts [] (c ∷ s) = none
match_parts (literal l ∷ parts) [] = none
match_parts (literal l ∷ parts) (c ∷ s) =
    let rest = match_parts parts s in if l == c then rest else none
match_parts (timestamp ∷ parts) s = elim (run_of no_comma (λ t. match_parts parts t) s) [
  | none ↦ none
  | some (run, (ts, sig)) ↦ some (run, sig)
]
match_parts (signature ∷ parts) s = elim (run_of is_hex (λ t. match_parts parts t) s) [
  | none ↦ none
  | some (run, (ts, sig)) ↦ some (ts, run)
]

-- (f *SignatureFormat) Parse
unfoldable pub parse : SignatureFormat → Bytes → Option (Bytes × Bytes)
parse f header = match_parts f.parts header
