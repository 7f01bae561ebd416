-- ===== src/Sql/Expand/Accepts.antt =====
-- internal/provider/sql/expand.go: which statements and arguments expandNumbered accepts.
use tales.Base.{
  ℕ, zero, suc, ◌+◌, ◌<◌, List, [], ◌∷◌, some, length, get_elem?, ◌≡◌, ap, sym, ◌∙◌, refl, arith,
  ok, >>=-inv, >>=-total, Bytes, ◌↔◌,
}
use tales.Sql.Dialect.{Dialect}
use tales.Sql.Scan.{Placeholder}
use tales.Sql.Expand.{
  Arg, scalar, list, arg_width, Counts, bump, count_loop, check_numbered_list_arg, bases_loop,
  expand_numbered,
}
use tales.Sql.Expand.Binding.{InRange, occurrences, count_loop-ok, bases_loop-inv}

count_loop-total :
    (n : ℕ) (found : List Placeholder) (counts : Counts)
    → InRange n found
    → (out : Counts) × (count_loop n found counts ≡ ok out)
unfolding count_loop
count_loop-total n [] counts h = (counts, refl)
count_loop-total n (p ∷ found) counts (low, high, h) =
    let (out, e) = count_loop-total n found (bump counts p.index) h in (out, ground (arith, e))

module _ {ℓ} {V : Type ℓ} where
  -- What a list argument needs: a value, and one placeholder.
  abbrev pub ListsFit : List (Arg V) → List Placeholder → Type ℓ
  ListsFit args found =
      (k : ℕ) (vs : List V)
      → get_elem? args k ≡ some (list vs)
      → (0 < length vs) × (occurrences (k + 1) found ≡ 1)

  check_list-ok :
      (i : ℕ) (vs : List V) (n : ℕ)
      → check_numbered_list_arg i (list vs) n ≡ ok tt
      → (0 < length vs) × (n ≡ 1)
  unfolding check_numbered_list_arg
  check_list-ok i [] n e = cc
  check_list-ok i (v ∷ vs) n e = ground arith

  check_arg-total :
      (i : ℕ) (arg : Arg V) (n : ℕ)
      → ((vs : List V) → arg ≡ list vs → (0 < length vs) × (n ≡ 1))
      → check_numbered_list_arg i arg n ≡ ok tt
  unfolding check_numbered_list_arg
  check_arg-total i (scalar v) n h = refl
  check_arg-total i (list []) n h = absurd (omega (arith, (h [] refl).0))
  check_arg-total i (list (v ∷ vs)) n h = ground (arith, (h (v ∷ vs) refl).1)

  bases_loop-lists :
      (args : List (Arg V)) (i next : ℕ) (counts : Counts) (bases : List ℕ)
      → bases_loop i next counts args ≡ ok bases
      → (k : ℕ) (vs : List V) → get_elem? args k ≡ some (list vs)
      → (0 < length vs) × (counts (i + k + 1) ≡ 1)
  bases_loop-lists [] i next counts bases e k vs at = cc
  bases_loop-lists (arg ∷ args) i next counts bases e zero vs at =
      let (rest, b, c, r) = bases_loop-inv arg args i next counts bases e in
      let same : arg ≡ list vs = cc in
      let q : i + 1 ≡ i + zero + 1 = omega arith in
      let (some_value, once) =
        check_list-ok i vs (counts (i + 1))
          (ap (λ a. check_numbered_list_arg i a (counts (i + 1))) (sym same) ∙ c) in
      (some_value, ap counts (sym q) ∙ once)
  bases_loop-lists (arg ∷ args) i next counts bases e (suc k) vs at =
      let (rest, b, c, r) = bases_loop-inv arg args i next counts bases e in
      let q : i + suc k + 1 ≡ i + 1 + k + 1 = omega arith in
      let (some_value, once) =
        bases_loop-lists args (i + 1) (next + arg_width arg) counts rest r k vs at in
      (some_value, ap counts q ∙ once)

  bases_loop-total :
      (args : List (Arg V)) (i next : ℕ) (counts : Counts)
      → ((k : ℕ) (vs : List V)
          → get_elem? args k ≡ some (list vs)
          → (0 < length vs) × (counts (i + k + 1) ≡ 1))
      → (bases : List ℕ) × (bases_loop i next counts args ≡ ok bases)
  unfolding bases_loop
  bases_loop-total [] i next counts h = ([], refl)
  bases_loop-total (arg ∷ args) i next counts h =
      let p : i + zero + 1 ≡ i + 1 = omega arith in
      let checked =
        check_arg-total i arg (counts (i + 1))
          λ vs e. let fits = h zero vs (ap some e) in (fits.0, ap counts (sym p) ∙ fits.1) in
      let (bases, e) = bases_loop-total args (i + 1) (next + arg_width arg) counts λ k vs at.
        let q : i + 1 + k + 1 ≡ i + suc k + 1 = omega arith in
        let fits = h (suc k) vs at in (fits.0, ap counts q ∙ fits.1) in
      (next ∷ bases, rw checked (rw e))

  -- The expansion for numbered placeholders succeeds exactly when every index names an argument,
  -- and every list argument has a value and is named by exactly one placeholder.
  pub expand_numbered-ok_iff :
      (d : Dialect) (sql : Bytes) (args : List (Arg V)) (found : List Placeholder)
      → ((out : Bytes × List (Arg V)) × (expand_numbered d sql args found ≡ ok out))
        ↔ (InRange (length args) found × ListsFit args found)
  unfolding expand_numbered
  expand_numbered-ok_iff d sql args found = (accepted, accepts)
    where
      accepted :
          (out : Bytes × List (Arg V)) × (expand_numbered d sql args found ≡ ok out)
          → InRange (length args) found × ListsFit args found
      accepted (out, e) =
          let (counts, c, e') = >>=-inv (count_loop (length args) found (λ _. 0)) _ e in
          let (bases, b, e'') = >>=-inv (bases_loop 0 1 counts args) _ e' in
          let (within, counted) = count_loop-ok (length args) found (λ _. 0) counts c in
          (
            within,
            λ k vs at.
                let (some_value, once) = bases_loop-lists args 0 1 counts bases b k vs at in
                let q : k + 1 ≡ 0 + k + 1 = omega arith in
                (some_value, omega (arith, once, counted (k + 1), ap counts q)),
          )

      accepts :
          InRange (length args) found × ListsFit args found
          → (out : Bytes × List (Arg V)) × (expand_numbered d sql args found ≡ ok out)
      accepts (within, fit) =
          let (counts, c) = count_loop-total (length args) found (λ _. 0) within in
          let (_, counted) = count_loop-ok (length args) found (λ _. 0) counts c in
          let (bases, b) = bases_loop-total args 0 1 counts λ k vs at.
            let (some_value, once) = fit k vs at in
            let q : k + 1 ≡ 0 + k + 1 = omega arith in
            (some_value, omega (arith, once, counted (k + 1), ap counts q)) in
          >>=-total (count_loop (length args) found (λ _. 0)) _ c
            (>>=-total (bases_loop 0 1 counts args) _ b (_, refl))
