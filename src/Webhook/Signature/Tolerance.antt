-- ===== src/Webhook/Signature/Tolerance.antt =====
-- internal/provider/webhook/signature.go: which timestamps are within the tolerance.
use tales.Base.{
  ℕ, ◌+◌, ◌-◌, ◌*◌, ◌<◌, ◌≤◌, true, false, if◌then◌else◌, leb, ◌≡◌, ◌↔◌, arith, ok, ok-injective,
  Bytes, some, Bool, Bool-cases, Option-cases, ◌⊎◌, ltb, ◌&&◌, inl, inr, ap, ◌∙◌, sym,
}
use tales.Webhook.Signature.{
  int64_sub, int64_mul, int64_leb, is_negative, within_tolerance, parse_int,
  timestamp_within_tolerance,
}
use tales.Lang.Versions.{trim_space}

sub-small :
    (a b : ℕ) → a < 9223372036854775808 → b < 9223372036854775808 → b ≤ a → int64_sub a b ≡ a - b
unfolding int64_sub
sub-small a b ha hb le = omega arith

sub-negative :
    (a b : ℕ)
    → a < 9223372036854775808
    → b < 9223372036854775808
    → a < b
    → int64_sub a b ≡ 18446744073709551616 - (b - a)
unfolding int64_sub
sub-negative a b ha hb lt = omega arith

neg-negative :
    (d : ℕ) → 0 < d → d < 9223372036854775808 → int64_sub 0 (18446744073709551616 - d) ≡ d
unfolding int64_sub
neg-negative d pos small = omega arith

leb-small : (a b : ℕ) → a < 9223372036854775808 → b < 9223372036854775808 → int64_leb a b ≡ leb a b
unfolding int64_leb
leb-small a b ha hb = ground arith

mul-small : (a : ℕ) → a * 1000000000 < 9223372036854775808 → int64_mul a 1000000000 ≡ a * 1000000000
unfolding int64_mul
mul-small a h = omega arith

-- The distance of the two times, in either order, in seconds.
abbrev pub apart : ℕ → ℕ → ℕ
apart a b = (a - b) + (b - a)

distance-apart :
    (ts now : ℕ)
    → now < 9223372036854775808
    → ts < 9223372036854775808
    → (if is_negative (int64_sub now ts) then int64_sub 0 (int64_sub now ts) else int64_sub now ts)
      ≡ apart now ts
distance-apart ts now hn ht = elim (Bool-cases (leb ts now)) [
  | inl le ↦
      let e : int64_sub now ts ≡ now - ts = sub-small now ts hn ht (ground (arith, le)) in
      rw e (ground (arith, le, hn))
  | inr gt ↦
      let lt : now < ts = ground (arith, gt) in
      let e : int64_sub now ts ≡ 18446744073709551616 - (ts - now) = sub-negative now ts hn ht lt in
      let n : int64_sub 0 (18446744073709551616 - (ts - now)) ≡ ts - now =
        neg-negative (ts - now) (omega (arith, lt)) (omega (arith, ht)) in
      rw e (ground (arith, n, lt, ht))
]

within_tolerance-true_iff :
    (ts now tolerance : ℕ)
    → now < 9223372036854775808
    → ts < 9223372036854775808
    → tolerance < 9223372036854775808
    → apart now ts * 1000000000 < 9223372036854775808
    → (within_tolerance ts now tolerance ≡ true) ↔ (apart now ts * 1000000000 ≤ tolerance)
unfolding within_tolerance
within_tolerance-true_iff ts now tolerance hn ht hl small =
    rw (distance-apart ts now hn ht, within_tolerance)
      (rw (mul-small (apart now ts) small)
        (rw (leb-small (apart now ts * 1000000000) tolerance small hl) (ground arith)))

-- A timestamp that is a number of seconds passes the check exactly if it is no further from the time
-- than the tolerance, before or after it: for a positive tolerance, times that are not negative, and
-- a distance of less than 2 ^ 63 nanoseconds, which is 292 years.
pub timestamp_within_tolerance-true_iff :
    (timestamp : Bytes) (ts now tolerance : ℕ)
    → parse_int (trim_space timestamp) ≡ some ts
    → ts < 9223372036854775808
    → now < 9223372036854775808
    → 0 < tolerance
    → tolerance < 9223372036854775808
    → apart now ts * 1000000000 < 9223372036854775808
    → (timestamp_within_tolerance timestamp now tolerance ≡ ok true)
      ↔ (apart now ts * 1000000000 ≤ tolerance)
unfolding timestamp_within_tolerance
timestamp_within_tolerance-true_iff timestamp ts now tolerance parsed ht hn some_tolerance hl
      small =
    let iff = within_tolerance-true_iff ts now tolerance hn ht hl small in
    let on : int64_leb tolerance 0 ≡ false =
      leb-small tolerance 0 hl (omega arith) ∙ ground (arith, some_tolerance) in
    let value : timestamp_within_tolerance timestamp now tolerance
        ≡ ok (within_tolerance ts now tolerance) =
      ground (arith, on, parsed) in
    (λ h. iff.0 (ok-injective (sym value ∙ h)), λ le. value ∙ ap ok (iff.1 le))

-- None of the numbers that the check computes leaves an int64.
abbrev pub no_overflow : ℕ → ℕ → ℕ → Bool
no_overflow ts now tolerance =
    ltb ts 9223372036854775808
    && (ltb now 9223372036854775808
        && (ltb tolerance 9223372036854775808
            && ltb (apart now ts * 1000000000) 9223372036854775808))

-- The timestamp is a number of seconds that is no further from the time than the tolerance, or its
-- distance or the tolerance leaves an int64.
abbrev pub Close : Bytes → ℕ → ℕ → Type 0
Close timestamp now tolerance =
    (9223372036854775808 ≤ tolerance)
    ⊎ ((ts : ℕ) × (parse_int (trim_space timestamp) ≡ some ts)
        × ((apart now ts * 1000000000 ≤ tolerance) ⊎ (no_overflow ts now tolerance ≡ false)))

-- A timestamp passes the check for a positive tolerance only if it is close to the time.
pub timestamp_within_tolerance-Close :
    (timestamp : Bytes) (now tolerance : ℕ)
    → 0 < tolerance
    → timestamp_within_tolerance timestamp now tolerance ≡ ok true
    → Close timestamp now tolerance
unfolding timestamp_within_tolerance
timestamp_within_tolerance-Close timestamp now tolerance positive h =
    elim (Bool-cases (leb 9223372036854775808 tolerance)) [
      | inl large ↦ inl (ground (arith, large))
      | inr small ↦
          let hl : tolerance < 9223372036854775808 = ground (arith, small) in
          let on : int64_leb tolerance 0 ≡ false =
            leb-small tolerance 0 hl (omega arith) ∙ ground (arith, positive) in
          elim (Option-cases (parse_int (trim_space timestamp))) [
            | inl e ↦ absurd (ground (arith, h, on, e))
            | inr (ts, parsed) ↦ inr (
              ts,
              parsed,
              elim (Bool-cases (no_overflow ts now tolerance)) [
                | inr over ↦ inr over
                | inl fits ↦ inl (
                    (timestamp_within_tolerance-true_iff timestamp ts now tolerance parsed
                        (ground (arith, fits)) (ground (arith, fits)) positive hl
                        (ground (arith, fits))).0
                      h)
              ],
            )
          ]
    ]
