-- ===== src/Sql/Expand.antt =====
-- internal/provider/sql/expand.go: a list argument becomes a run of placeholders. `V` is the type of
-- the values that a driver binds; an `error` keeps the numbers that its message prints.
pub mod Rewrite
pub mod Binding
pub mod Numbered
pub mod Accepts
pub mod Positional
pub mod Single
use tales.Base.{
  ℕ, zero, suc, ◌+◌, ◌-◌, ◌/◌, ◌%◌, Bool, true, false, ◌||◌, not, if◌then◌else◌, none, some, List,
  [], ◌∷◌, ◌++◌, map, String, Bytes, codes, join, length, get_or, get_elem?, drop, ltb, ◌==◌,
  Result, ok, err, ◌>>=◌,
}
use tales.Sql.Dialect.{Dialect, DriverError, dialect_for}
use tales.Sql.Skip.{slice}
use tales.Sql.Scan.{Placeholder, scan_placeholders}

-- An argument: a value, or what the source marks as a ListArg.
pub data Arg {ℓ} (V : Type ℓ) : Type ℓ where
  scalar : V → Arg V
  list : List V → Arg V

pub data ExpandError : Type 0 where
  driver : DriverError → ExpandError
  out_of_range : ℕ → ℕ → ExpandError
  empty_list : ℕ → ExpandError
  unused_list : ℕ → ExpandError
  reused_list : ℕ → ℕ → ExpandError
  count_mismatch : ℕ → ℕ → ExpandError

module _ {ℓ} {V : Type ℓ} where
  unfoldable pub has_list_arg : List (Arg V) → Bool
  has_list_arg [] = false
  has_list_arg (list _ ∷ args) = true
  has_list_arg (scalar _ ∷ args) = has_list_arg args

  abbrev pub arg_width : Arg V → ℕ
  arg_width (scalar _) = 1
  arg_width (list vs) = length vs

  -- `out` is what was appended so far.
  flatten_loop : List (Arg V) → List (Arg V) → List (Arg V)
  flatten_loop [] out = out
  flatten_loop (scalar v ∷ args) out = flatten_loop args (out ++ (scalar v ∷ []))
  flatten_loop (list vs ∷ args) out = flatten_loop args (out ++ map scalar vs)

  unfoldable pub flatten_args : List (Arg V) → List (Arg V)
  unfolding flatten_loop
  flatten_args args = flatten_loop args []

-- The digits of `n` before `out`. `n + 1` rounds are enough: each divides by ten.
itoa_loop : ℕ → ℕ → Bytes → Bytes
itoa_loop zero n out = out
itoa_loop (suc fuel) n out =
    let rest = itoa_loop fuel (n / 10) ((b'0' + n % 10) ∷ out) in
    if ltb n 10 then (b'0' + n) ∷ out else rest

-- strconv.Itoa of a number that is not negative
unfoldable pub itoa : ℕ → Bytes
unfolding itoa_loop
itoa n = itoa_loop (suc n) n []

abbrev pub mark : Dialect → ℕ → Bytes
mark d n = if d.numbered then b'$' ∷ itoa n else codes "?"

-- for i := range width
run_parts : Dialect → ℕ → ℕ → ℕ → List Bytes
run_parts d base i zero = []
run_parts d base i (suc width) = mark d (base + i) ∷ run_parts d base (i + 1) width

unfoldable pub placeholder_run : Dialect → ℕ → ℕ → Bytes
unfolding run_parts join
placeholder_run d base width = join (codes ",") (run_parts d base 0 width)

-- The loop over `found`, then what follows the last placeholder.
unfoldable pub rewrite_loop : Bytes → ℕ → List Placeholder → (Placeholder → Bytes) → Bytes
rewrite_loop sql cursor [] render = drop cursor sql
rewrite_loop sql cursor (p ∷ found) render =
    slice sql cursor p.start ++ (render p ++ rewrite_loop sql p.end found render)

unfoldable pub rewrite : Bytes → List Placeholder → (Placeholder → Bytes) → Bytes
unfolding rewrite_loop
rewrite sql found render = rewrite_loop sql 0 found render

-- The error of dialectFor is passed on.
pub lift_driver {ℓ} : {A : Type ℓ} → Result DriverError A → Result ExpandError A
lift_driver (ok a) = ok a
lift_driver (err e) = err (driver e)

-- The map from an index to the number of its placeholders.
abbrev pub Counts : Type 0
Counts = ℕ → ℕ

abbrev pub bump : Counts → ℕ → Counts
bump counts k j = if j == k then counts j + 1 else counts j

-- The first loop of expandNumbered.
unfoldable pub count_loop : ℕ → List Placeholder → Counts → Result ExpandError Counts
count_loop n [] counts = ok counts
count_loop n (p ∷ found) counts =
    let rest = count_loop n found (bump counts p.index) in
    if ltb p.index 1 || ltb n p.index then err (out_of_range p.index n) else rest

module _ {ℓ} {V : Type ℓ} where
  unfoldable pub check_numbered_list_arg : ℕ → Arg V → ℕ → Result ExpandError (Unit {0})
  check_numbered_list_arg index (scalar _) occurrences = ok tt
  check_numbered_list_arg index (list vs) occurrences =
      if length vs == 0
      then err (empty_list index)
      else if occurrences == 0
      then err (unused_list index)
      else if ltb 1 occurrences
      then err (reused_list index occurrences)
      else ok tt

  -- The second loop: the entries of `bases` from `i + 1` on.
  unfoldable pub bases_loop : ℕ → ℕ → Counts → List (Arg V) → Result ExpandError (List ℕ)
  unfolding check_numbered_list_arg
  bases_loop i next counts [] = ok []
  bases_loop i next counts (arg ∷ args) =
      let rest = bases_loop (i + 1) (next + arg_width arg) counts args in
      do checked ← check_numbered_list_arg i arg (counts (i + 1)); bases ← rest; ok (next ∷ bases)

  -- argWidth(args[i])
  abbrev pub width_at : List (Arg V) → ℕ → ℕ
  width_at args i = elim (get_elem? args i) [ none ↦ 0 | some arg ↦ arg_width arg ]

  unfoldable pub expand_numbered :
      Dialect → Bytes → List (Arg V) → List Placeholder → Result ExpandError (Bytes × List (Arg V))
  expand_numbered d sql args found = do
    counts ← count_loop (length args) found (λ _. 0)
    bases ← bases_loop 0 1 counts args
    ok (
      rewrite sql found
          (λ p. placeholder_run d (get_or (0 ∷ bases) p.index 0) (width_at args (p.index - 1))),
      flatten_args args,
    )

  unfoldable pub check_empty_lists : ℕ → List (Arg V) → Result ExpandError (Unit {0})
  check_empty_lists i [] = ok tt
  check_empty_lists i (scalar _ ∷ args) = check_empty_lists (i + 1) args
  check_empty_lists i (list [] ∷ args) = err (empty_list i)
  check_empty_lists i (list (_ ∷ _) ∷ args) = check_empty_lists (i + 1) args

  unfoldable pub expand_positional :
      Dialect → Bytes → List (Arg V) → List Placeholder → Result ExpandError (Bytes × List (Arg V))
  expand_positional d sql args found =
      if not (length found == length args)
      then err (count_mismatch (length found) (length args))
      else do
        checked ← check_empty_lists 0 args
        ok (
          rewrite sql found (λ p. placeholder_run d 0 (width_at args (p.index - 1))),
          flatten_args args,
        )

  unfoldable pub expand_list_args :
      String → Bytes → List (Arg V) → Result ExpandError (Bytes × List (Arg V))
  unfolding has_list_arg lift_driver count_loop bases_loop check_empty_lists rewrite placeholder_run
      flatten_args
  expand_list_args driver_alias sql args = if not (has_list_arg args) then ok (sql, args) else do
    d ← lift_driver (dialect_for driver_alias)
    let found = scan_placeholders d sql
    if d.numbered then expand_numbered d sql args found else expand_positional d sql args found
