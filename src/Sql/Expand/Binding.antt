-- ===== src/Sql/Expand/Binding.antt =====
-- internal/provider/sql/expand.go: where the values of an argument stand after the expansion, and
-- which run of placeholders binds them.
use tales.Base.{
  ℕ, zero, suc, ◌+◌, ◌≤◌, ◌<◌, List, [], ◌∷◌, ◌++◌, map, some, length, get_or, get_elem?, ◌≡◌, refl,
  sym, ap, ◌∙◌, arith, append_assoc, append-nil, length-append, ok, ◌>>=◌, get_elem?-append_left,
  get_elem?-append_right, >>=-inv, ok-injective, if◌then◌else◌, ◌==◌,
}
use tales.Sql.Scan.{Placeholder}
use tales.Sql.Expand.{
  bump, Arg, scalar, list, arg_width, flatten_loop, flatten_args, Counts, count_loop,
  check_numbered_list_arg, bases_loop,
}

module _ {ℓ} {V : Type ℓ} where
  -- What the driver binds for one argument.
  abbrev pub values : Arg V → List (Arg V)
  values (scalar v) = scalar v ∷ []
  values (list vs) = map Arg.scalar vs

  -- The number of values before argument `k`.
  abbrev pub offset : List (Arg V) → ℕ → ℕ
  offset args zero = 0
  offset [] (suc k) = 0
  offset (arg ∷ args) (suc k) = arg_width arg + offset args k

  abbrev flat : List (Arg V) → List (Arg V)
  flat [] = []
  flat (arg ∷ args) = values arg ++ flat args

  length-map_scalar : (vs : List V) → length (map Arg.scalar vs) ≡ length vs
  length-map_scalar [] = refl
  length-map_scalar (v ∷ vs) = ap suc (length-map_scalar vs)

  length-values : (arg : Arg V) → length (values arg) ≡ arg_width arg
  length-values (scalar v) = refl
  length-values (list vs) = length-map_scalar vs

  flatten_loop-flat : (args out : List (Arg V)) → flatten_loop args out ≡ out ++ flat args
  unfolding flatten_loop
  flatten_loop-flat [] out = sym (append-nil out)
  flatten_loop-flat (scalar v ∷ args) out =
      flatten_loop-flat args (out ++ (scalar v ∷ [])) ∙ append_assoc out (scalar v ∷ []) (flat args)
  flatten_loop-flat (list vs ∷ args) out =
      flatten_loop-flat args (out ++ map Arg.scalar vs)
      ∙ append_assoc out (map Arg.scalar vs) (flat args)

  flatten_args-flat : (args : List (Arg V)) → flatten_args args ≡ flat args
  unfolding flatten_args
  flatten_args-flat args = flatten_loop-flat args []

  length-flat : (args : List (Arg V)) → length (flat args) ≡ offset args (length args)
  length-flat [] = refl
  length-flat (a ∷ args) =
      omega (arith, length-append (values a) (flat args), length-values a, length-flat args)

  get_elem?-flat :
      (args : List (Arg V)) (k : ℕ) (arg : Arg V) (j : ℕ)
      → get_elem? args k ≡ some arg
      → j < arg_width arg
      → get_elem? (flat args) (offset args k + j) ≡ get_elem? (values arg) j
  get_elem?-flat [] k arg j e h = cc
  get_elem?-flat (a ∷ args) zero arg j e h =
      let same : a ≡ arg = cc in
      let short : j < length (values a) = omega (arith, length-values a, ap arg_width same) in
      ap (get_elem? (values a ++ flat args)) (omega arith)
      ∙ (get_elem?-append_left (values a) (flat args) j short
          ∙ ap (λ t. get_elem? (values t) j) same)
  get_elem?-flat (a ∷ args) (suc k) arg j e h =
      get_elem?-append_right (values a) (flat args) (offset (a ∷ args) (suc k) + j)
        (offset args k + j) (omega (arith, length-values a))
      ∙ get_elem?-flat args k arg j e h

  -- The values of an argument stand in order behind those of the arguments before it.
  pub get_elem?-flatten_args :
      (args : List (Arg V)) (k : ℕ) (arg : Arg V) (j : ℕ)
      → get_elem? args k ≡ some arg
      → j < arg_width arg
      → get_elem? (flatten_args args) (offset args k + j) ≡ get_elem? (values arg) j
  get_elem?-flatten_args args k arg j e h = rw flatten_args-flat (get_elem?-flat args k arg j e h)

  pub length-flatten_args :
      (args : List (Arg V)) → length (flatten_args args) ≡ offset args (length args)
  length-flatten_args args = rw flatten_args-flat (length-flat args)

  pub bases_loop-inv :
      (arg : Arg V) (args : List (Arg V)) (i next : ℕ) (counts : Counts) (bases : List ℕ)
      → bases_loop i next counts (arg ∷ args) ≡ ok bases
      → (rest : List ℕ) × (bases ≡ next ∷ rest)
        × (check_numbered_list_arg i arg (counts (i + 1)) ≡ ok tt)
        × (bases_loop (i + 1) (next + arg_width arg) counts args ≡ ok rest)
  unfolding bases_loop
  bases_loop-inv arg args i next counts bases e =
      let (checked, c, e') =
        >>=-inv (check_numbered_list_arg i arg (counts (i + 1)))
          (λ (_ : Unit {0}).
            bases_loop (i + 1) (next + arg_width arg) counts args >>= λ bs. ok (next ∷ bs))
          e in
      let (rest, r, e'') =
        >>=-inv (bases_loop (i + 1) (next + arg_width arg) counts args)
          (λ (bs : List ℕ). ok (next ∷ bs)) e' in
      (rest, sym (ok-injective e''), c, r)

  -- An entry of `bases` is the first index after the widths of the arguments before it.
  pub bases_loop-offset :
      (args : List (Arg V)) (i next : ℕ) (counts : Counts) (bases : List ℕ) (k : ℕ)
      → bases_loop i next counts args ≡ ok bases
      → k < length args
      → get_or bases k 0 ≡ next + offset args k
  bases_loop-offset [] i next counts bases k e h = elim h [ ]
  bases_loop-offset (arg ∷ args) i next counts bases zero e h =
      let (rest, b, c, r) = bases_loop-inv arg args i next counts bases e in rw b (omega arith)
  bases_loop-offset (arg ∷ args) i next counts bases (suc k) e h =
      let (rest, b, c, r) = bases_loop-inv arg args i next counts bases e in
      rw b (
        omega (
          arith,
          bases_loop-offset args (i + 1) (next + arg_width arg) counts rest k r (omega arith),
        ))

-- Every index lies in the range of the arguments.
abbrev pub InRange : ℕ → List Placeholder → Type 0
InRange n [] = Unit
InRange n (p ∷ found) = (0 < p.index) × (p.index ≤ n) × InRange n found

-- How often an index is used.
abbrev pub occurrences : ℕ → List Placeholder → ℕ
occurrences k [] = 0
occurrences k (p ∷ found) = if k == p.index then suc (occurrences k found) else occurrences k found

count_loop-inv :
    (n : ℕ) (p : Placeholder) (found : List Placeholder) (counts out : Counts)
    → count_loop n (p ∷ found) counts ≡ ok out
    → (0 < p.index) × (p.index ≤ n) × (count_loop n found (bump counts p.index) ≡ ok out)
unfolding count_loop
count_loop-inv n p found counts out e = ground arith

pub count_loop-ok :
    (n : ℕ) (found : List Placeholder) (counts out : Counts)
    → count_loop n found counts ≡ ok out
    → InRange n found × ((k : ℕ) → out k ≡ counts k + occurrences k found)
unfolding count_loop
count_loop-ok n [] counts out e =
    (tt, λ k. omega (arith, ap (λ (f : Counts). f k) (ok-injective e)))
count_loop-ok n (p ∷ found) counts out e =
    let (low, high, rest) = count_loop-inv n p found counts out e in
    let (within, counted) = count_loop-ok n found (bump counts p.index) out rest in
    ((low, high, within), λ k. ground (arith, counted k))
