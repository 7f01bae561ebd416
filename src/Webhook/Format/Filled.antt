-- ===== src/Webhook/Format/Filled.antt =====
-- internal/provider/webhook/signature.go: a header that is made from a format is read back.
use tales.Base.{
  ℕ, List, [], ◌∷◌, ◌++◌, Option, none, some, Bool, true, false, ==_iff, Bytes, ◌≡◌, ◌≢◌, refl,
  arith, All,
}
use tales.Assertion.Uuid.{is_hex}
use tales.Webhook.Format.{
  Segment, literal, timestamp, signature, SignatureFormat, run_of, no_comma, match_parts, parse,
}

-- The header of a sender: the parts of the format with the values in their places.
unfoldable pub fill_parts : List Segment → Bytes → Bytes → Bytes
fill_parts [] ts sig = []
fill_parts (literal c ∷ parts) ts sig = c ∷ fill_parts parts ts sig
fill_parts (timestamp ∷ parts) ts sig = ts ++ fill_parts parts ts sig
fill_parts (signature ∷ parts) ts sig = sig ++ fill_parts parts ts sig

-- The values that the parts hold.
abbrev pub held_timestamp : List Segment → Bytes → Bytes
held_timestamp [] ts = []
held_timestamp (timestamp ∷ parts) ts = ts
held_timestamp (literal c ∷ parts) ts = held_timestamp parts ts
held_timestamp (signature ∷ parts) ts = held_timestamp parts ts

abbrev pub held_signature : List Segment → Bytes → Bytes
held_signature [] sig = []
held_signature (signature ∷ parts) sig = sig
held_signature (literal c ∷ parts) sig = held_signature parts sig
held_signature (timestamp ∷ parts) sig = held_signature parts sig

-- A run of the class ends here: at the end, or at a character outside the class.
abbrev pub Stops : (ℕ → Bool) → List Segment → Type 0
Stops class [] = Unit
Stops class (literal c ∷ parts) = class c ≡ false
Stops class (timestamp ∷ parts) = true ≡ false
Stops class (signature ∷ parts) = true ≡ false

-- Every placeholder is followed by a character that its value cannot have, or by nothing.
abbrev pub Separated : List Segment → Type 0
Separated [] = Unit
Separated (literal c ∷ parts) = Separated parts
Separated (timestamp ∷ parts) = Stops no_comma parts × Separated parts
Separated (signature ∷ parts) = Stops is_hex parts × Separated parts

-- A value of characters of the class, one at least.
abbrev pub Value : (ℕ → Bool) → Bytes → Type 0
Value class v = (v ≢ []) × All (λ c. class c ≡ true) v

module _ {A : Type 0} (class : ℕ → Bool) (next : Bytes → Option A) where
  run_of-stop :
      (parts : List Segment) (ts sig : Bytes)
      → Stops class parts
      → run_of class next (fill_parts parts ts sig) ≡ none
  unfolding run_of fill_parts
  run_of-stop [] ts sig h = refl
  run_of-stop (literal c ∷ parts) ts sig h = rw h refl
  run_of-stop (timestamp ∷ parts) ts sig h = cc
  run_of-stop (signature ∷ parts) ts sig h = cc

  run_of-Value :
      (v rest : Bytes) (a : A)
      → Value class v
      → run_of class next rest ≡ none
      → next rest ≡ some a
      → run_of class next (v ++ rest) ≡ some (v, a)
  unfolding run_of
  run_of-Value [] rest a (some_there, all) stop found = absurd (some_there refl)
  run_of-Value (c ∷ []) rest a (there, (hc, all)) stop found = ground (arith, hc, stop, found)
  run_of-Value (c ∷ (d ∷ v)) rest a (there, (hc, all)) stop found =
      let longer : run_of class next ((d ∷ v) ++ rest) ≡ some (d ∷ v, a) =
        run_of-Value (d ∷ v) rest a ((λ e. cc), all) stop found in
      rw hc (rw longer refl)

match_parts-fill :
    (parts : List Segment) (ts sig : Bytes)
    → Separated parts
    → Value no_comma ts
    → Value is_hex sig
    → match_parts parts (fill_parts parts ts sig)
      ≡ some (held_timestamp parts ts, held_signature parts sig)
unfolding match_parts fill_parts
match_parts-fill [] ts sig sep ht hs = refl
match_parts-fill (literal c ∷ parts) ts sig sep ht hs =
    rw ((==_iff c c).1 refl) (match_parts-fill parts ts sig sep ht hs)
match_parts-fill (timestamp ∷ parts) ts sig (stop, sep) ht hs =
    let inner = match_parts-fill parts ts sig sep ht hs in
    let run : run_of no_comma (λ t. match_parts parts t) (ts ++ fill_parts parts ts sig)
        ≡ some (ts, (held_timestamp parts ts, held_signature parts sig)) =
      run_of-Value no_comma (λ t. match_parts parts t) ts (fill_parts parts ts sig) _ ht
        (run_of-stop no_comma (λ t. match_parts parts t) parts ts sig stop) inner in
    rw (run, match_parts) refl
match_parts-fill (signature ∷ parts) ts sig (stop, sep) ht hs =
    let inner = match_parts-fill parts ts sig sep ht hs in
    let run : run_of is_hex (λ t. match_parts parts t) (sig ++ fill_parts parts ts sig)
        ≡ some (sig, (held_timestamp parts ts, held_signature parts sig)) =
      run_of-Value is_hex (λ t. match_parts parts t) sig (fill_parts parts ts sig) _ hs
        (run_of-stop is_hex (λ t. match_parts parts t) parts ts sig stop) inner in
    rw (run, match_parts) refl

-- The header that a sender makes from a format is parsed back to its timestamp and its signature: for a
-- timestamp without commas and a hexadecimal signature, neither empty, and a format in which each
-- placeholder is followed by nothing or by a character that its value cannot have.
pub parse-fill :
    (f : SignatureFormat) (ts sig : Bytes)
    → Separated f.parts
    → Value no_comma ts
    → Value is_hex sig
    → parse f (fill_parts f.parts ts sig)
      ≡ some (held_timestamp f.parts ts, held_signature f.parts sig)
unfolding parse
parse-fill f ts sig sep ht hs = match_parts-fill f.parts ts sig sep ht hs
