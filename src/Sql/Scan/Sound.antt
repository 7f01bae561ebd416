-- ===== src/Sql/Scan/Sound.antt =====
-- internal/provider/sql/scan.go: what is found are placeholders of the dialect, in textual order.
use tales.Base.{
  ℕ, zero, suc, ◌+◌, ◌≤◌, ◌<◌, true, ◌≢◌, ◌⊎◌, inl, inr, Option, none, some, List, [], ◌∷◌, ◌++◌,
  Bytes, length, leb, ◌==◌, ◌≡◌, refl, arith, Option-cases, Bool-cases, subst,
}
use tales.Sql.Dialect.{Dialect}
use tales.Sql.Skip.{byte_at, is_digit_byte, slice, skip_non_code}
use tales.Sql.Skip.Bounds.{skip_non_code_bounds}
use tales.Sql.Scan.{
  Placeholder, atoi, digits_loop, read_numbered, scan_step, append, scan_loop, scan_placeholders,
}

-- The offsets lie between two bounds, in order and without overlap.
abbrev pub Located : ℕ → ℕ → List Placeholder → Type 0
Located lo hi [] = lo ≤ hi
Located lo hi (p ∷ ps) = (lo ≤ p.start) × (p.start < p.end) × Located p.end hi ps

-- A run of digits after a dollar, with the number that it prints.
pub record IsDollar (d : Dialect) (sql : Bytes) (p : Placeholder) : Type 0 where
  pub dialect : d.numbered ≡ true
  pub opened : byte_at sql p.start ≡ b'$'
  pub nonempty : p.start + 1 < p.end
  pub digits : (k : ℕ) → p.start < k → k < p.end → is_digit_byte (byte_at sql k) ≡ true
  pub value : atoi (slice sql (p.start + 1) p.end) ≡ some p.index

-- A question mark, with the number of placeholders before it plus one.
pub record IsQuestion (d : Dialect) (sql : Bytes) (n : ℕ) (p : Placeholder) : Type 0 where
  pub dialect : d.positional ≡ true
  pub opened : byte_at sql p.start ≡ b'?'
  pub closed : p.end ≡ p.start + 1
  pub ordinal : p.index ≡ n + 1

pub Located-le : (lo hi : ℕ) (ps : List Placeholder) → Located lo hi ps → lo ≤ hi
Located-le lo hi [] h = h
Located-le lo hi (p ∷ ps) h = omega (arith, h, Located-le p.end hi ps h.2)

Located-widen :
    (lo mid hi : ℕ) (ps : List Placeholder) → mid ≤ hi → Located lo mid ps → Located lo hi ps
Located-widen lo mid hi [] w h = omega arith
Located-widen lo mid hi (p ∷ ps) w h = (h.0, h.1, Located-widen p.end mid hi ps w h.2)

Located-snoc :
    (lo mid hi : ℕ) (ps : List Placeholder) (p : Placeholder)
    → Located lo mid ps
    → mid ≤ p.start
    → p.start < p.end
    → p.end ≤ hi
    → Located lo hi (ps ++ (p ∷ []))
Located-snoc lo mid hi [] p h a b c = (omega arith, b, c)
Located-snoc lo mid hi (q ∷ ps) p h a b c = (h.0, h.1, Located-snoc q.end mid hi ps p h.2 a b c)

digits_loop_bounds :
    (fuel : ℕ) (sql : Bytes) (j : ℕ)
    → j ≤ length sql
    → (j ≤ digits_loop fuel sql j) × (digits_loop fuel sql j ≤ length sql)
unfolding digits_loop
digits_loop_bounds zero sql j h = omega arith
digits_loop_bounds (suc fuel) sql j h = ground (arith, digits_loop_bounds fuel sql (j + 1))

digits_loop-digits :
    (fuel : ℕ) (sql : Bytes) (j k : ℕ)
    → j ≤ k
    → k < digits_loop fuel sql j
    → is_digit_byte (byte_at sql k) ≡ true
unfolding digits_loop
digits_loop-digits zero sql j k a b = absurd (omega arith)
digits_loop-digits (suc fuel) sql j k a b = elim (Bool-cases (j == k)) [
  | inl e ↦ ground (arith, e)
  | inr e ↦ ground (arith, digits_loop-digits fuel sql (j + 1) k)
]

abbrev digits_end : Bytes → ℕ → ℕ
digits_end sql i = digits_loop (length sql) sql (i + 1)

read_numbered-inv :
    (sql : Bytes) (i : ℕ) (p : Placeholder)
    → read_numbered sql i ≡ some p
    → (p.start ≡ i)
      × (p.end ≡ digits_end sql i)
      × (p.end ≢ i + 1)
      × (atoi (slice sql (i + 1) (digits_end sql i)) ≡ some p.index)
unfolding read_numbered
read_numbered-inv sql i p e = ground arith

read_numbered_lem :
    (d : Dialect) (sql : Bytes) (i : ℕ) (p : Placeholder)
    → i < length sql
    → d.numbered ≡ true
    → byte_at sql i ≡ b'$'
    → read_numbered sql i ≡ some p
    → (p.start ≡ i) × (i < p.end) × (p.end ≤ length sql) × IsDollar d sql p
read_numbered_lem d sql i p h n c e =
    let (starts, ends, moved, v) = read_numbered-inv sql i p e in
    let within = digits_loop_bounds (length sql) sql (i + 1) (omega arith) in
    (
      starts,
      omega (arith, within, ends),
      omega (arith, within, ends),
      record {
        dialect = n;
        opened = rw starts c;
        nonempty = omega (arith, within, ends, moved, starts);
        digits = λ k a b.
            digits_loop-digits (length sql) sql (i + 1) k (omega (arith, starts))
              (omega (arith, ends));
        value = rw (starts, ends) v;
      },
    )

-- What one round gives at an offset inside the statement, with `n` placeholders before it.
abbrev Round : Dialect → Bytes → ℕ → ℕ → ℕ → Option Placeholder → Type 0
Round d sql i n next none = (i < next) × (next ≤ length sql)
Round d sql i n next (some p) =
    (i ≤ p.start)
    × (p.start < p.end)
    × (p.end ≡ next)
    × (next ≤ length sql)
    × (IsDollar d sql p ⊎ IsQuestion d sql n p)

Round-skipped :
    (d : Dialect) (sql : Bytes) (i n next : ℕ)
    → i < length sql
    → skip_non_code d sql i ≡ some next
    → Round d sql i n (scan_step d sql i n).0 (scan_step d sql i n).1
unfolding scan_step
Round-skipped d sql i n next h e = rw (e, scan_step) (skip_non_code_bounds d sql i next h e)

Round-code :
    (d : Dialect) (sql : Bytes) (i n : ℕ)
    → i < length sql
    → skip_non_code d sql i ≡ none
    → Round d sql i n (scan_step d sql i n).0 (scan_step d sql i n).1
unfolding scan_step
Round-code d sql i n h e = elim (Option-cases (read_numbered sql i)) [
  | inl r ↦ rw (e, scan_step) (ground (arith, r))
  | inr (p, r) ↦ rw (e, scan_step) (ground (arith, r, read_numbered_lem d sql i p))
]

scan_step_lem :
    (d : Dialect) (sql : Bytes) (i n : ℕ)
    → i < length sql
    → Round d sql i n (scan_step d sql i n).0 (scan_step d sql i n).1
scan_step_lem d sql i n h = elim (Option-cases (skip_non_code d sql i)) [
  | inl e ↦ Round-code d sql i n h e
  | inr (next, e) ↦ Round-skipped d sql i n next h e
]

-- Each placeholder is one of the dialect's, the first with `n` before it.
abbrev pub Kinds : Dialect → Bytes → ℕ → List Placeholder → Type 0
Kinds d sql n [] = Unit
Kinds d sql n (p ∷ ps) = (IsDollar d sql p ⊎ IsQuestion d sql n p) × Kinds d sql (n + 1) ps

Kinds-snoc :
    (d : Dialect) (sql : Bytes) (n : ℕ) (ps : List Placeholder) (p : Placeholder) (m : ℕ)
    → m ≡ n + length ps
    → Kinds d sql n ps
    → IsDollar d sql p ⊎ IsQuestion d sql m p
    → Kinds d sql n (ps ++ (p ∷ []))
Kinds-snoc d sql n [] p m e h k =
    let at : m ≡ n = omega arith in (subst (λ t. IsDollar d sql p ⊎ IsQuestion d sql t p) at k, tt)
Kinds-snoc d sql n (q ∷ ps) p m e h k = (h.0, Kinds-snoc d sql (n + 1) ps p m (omega arith) h.1 k)

-- What is known of the placeholders that were found before `i`.
record Found (d : Dialect) (sql : Bytes) (i : ℕ) (ps : List Placeholder) : Type 0 where
  located : Located 0 i ps
  kinds : Kinds d sql 0 ps

append-Found :
    (d : Dialect) (sql : Bytes) (i next : ℕ) (ps : List Placeholder) (o : Option Placeholder)
    → Found d sql i ps
    → Round d sql i (length ps) next o
    → Found d sql next (append ps o)
append-Found d sql i next ps none f r = record {
  located = Located-widen 0 i next ps (omega arith) f.located;
  kinds = f.kinds;
}
append-Found d sql i next ps (some p) f (starts, moves, ends, fits, kind) = record {
  located = Located-snoc 0 i next ps p f.located starts moves (omega arith);
  kinds = Kinds-snoc d sql 0 ps p (length ps) (omega arith) f.kinds kind;
}

Round-bounds :
    (d : Dialect) (sql : Bytes) (i n next : ℕ) (o : Option Placeholder)
    → Round d sql i n next o
    → (i < next) × (next ≤ length sql)
Round-bounds d sql i n next none r = r
Round-bounds d sql i n next (some p) r = omega arith

scan_loop-Found :
    (fuel : ℕ) (d : Dialect) (sql : Bytes) (i : ℕ) (ps : List Placeholder)
    → i ≤ length sql
    → Found d sql i ps
    → Found d sql (length sql) (scan_loop fuel d sql i ps)
unfolding scan_loop
scan_loop-Found zero d sql i ps h f = record {
  located = Located-widen 0 i (length sql) ps h f.located;
  kinds = f.kinds;
}
scan_loop-Found (suc fuel) d sql i ps h f = elim (Bool-cases (leb (length sql) i)) [
  | inl stop ↦
      rw stop (record { located = Located-widen 0 i (length sql) ps h f.located; kinds = f.kinds })
  | inr more ↦
      let inside : i < length sql = ground arith in
      let round = scan_step d sql i (length ps) in
      let r = scan_step_lem d sql i (length ps) inside in
      rw more (
        scan_loop-Found fuel d sql round.0 (append ps round.1)
          (Round-bounds d sql i (length ps) round.0 round.1 r).1
          (append-Found d sql i round.0 ps round.1 f r))
]

-- The placeholders of a statement lie inside it, in textual order and without overlap. Each is a
-- dollar with digits that print its index, or a question mark whose index is its ordinal.
pub scan_placeholders_sound :
    (d : Dialect) (sql : Bytes)
    → Located 0 (length sql) (scan_placeholders d sql) × Kinds d sql 0 (scan_placeholders d sql)
unfolding scan_placeholders
scan_placeholders_sound d sql =
    let f =
      scan_loop-Found (length sql) d sql 0 [] (omega arith)
        (record { located = omega arith; kinds = tt }) in
    (f.located, f.kinds)

-- Rounds beyond the length of the statement change nothing: the loop ends by its test.
pub scan_loop_fuel :
    (f g : ℕ) (d : Dialect) (sql : Bytes) (i : ℕ) (ps : List Placeholder)
    → length sql ≤ i + f
    → length sql ≤ i + g
    → scan_loop f d sql i ps ≡ scan_loop g d sql i ps
unfolding scan_loop
scan_loop_fuel zero zero d sql i ps hf hg = refl
scan_loop_fuel zero (suc g) d sql i ps hf hg = ground arith
scan_loop_fuel (suc f) zero d sql i ps hf hg = ground arith
scan_loop_fuel (suc f) (suc g) d sql i ps hf hg = elim (Bool-cases (leb (length sql) i)) [
  | inl stop ↦ rw stop
  | inr more ↦
      let inside : i < length sql = ground arith in
      let round = scan_step d sql i (length ps) in
      let b =
        Round-bounds d sql i (length ps) round.0 round.1
          (scan_step_lem d sql i (length ps) inside) in
      rw more
        (scan_loop_fuel f g d sql round.0 (append ps round.1) (omega (arith, b)) (omega (arith, b)))
]
