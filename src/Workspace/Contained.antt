-- ===== src/Workspace/Contained.antt =====
-- internal/workspace/resolver.go: the resolved paths lie under the roots.
use tales.Base.{
  String, List, ◌++◌, Option, some, true, ◌≡◌, ◌↔◌, sym, ap, ◌∙◌, subst, arith, All, Bool-cases,
  Option-cases, inl, inr, ◌⊎◌, Result, ok, ok-injective,
}
use tales.Workspace.{
  FilePath, in_project, clean_abs, resolve_existing, contained, Resolver, resolve_output,
  resolve_input,
}
use tales.Workspace.Clean.{Proper, clean-Proper, clean_idem, Under, rel_inside-Under}

module _ (eval_symlinks : List String → Option (List String)) where
  -- The path lies under the root as it is written, and after the links of both are followed.
  abbrev pub Holds : List String → List String → Type 0
  Holds root target =
      Under root target
      × Under (resolve_existing eval_symlinks root) (resolve_existing eval_symlinks target)

  contained-Holds :
      (root target : List String) → (contained eval_symlinks root target ≡ true) ↔ Holds root target
  unfolding contained
  contained-Holds root target =
      let written = rel_inside-Under root target in
      let real =
        rel_inside-Under (resolve_existing eval_symlinks root)
          (resolve_existing eval_symlinks target) in
      (
        λ h. (written.0 (ground (arith, h)), real.0 (ground (arith, h))),
        λ (w, r). ground (arith, written.1 w, real.1 r),
      )

  clean_abs-Proper : (base : List String) (p : FilePath) → All Proper (clean_abs base p)
  unfolding clean_abs
  clean_abs-Proper base p = elim (Bool-cases p.absolute) [
    | inl abs ↦ rw (abs, clean_abs) (clean-Proper p.elements)
    | inr rel ↦ rw (rel, clean_abs) (clean-Proper (base ++ p.elements))
  ]

  -- A path for output is resolved exactly if it lies under the workspace of the scenario, as it is
  -- written and after its links are followed; the result is the path made absolute, and clean.
  pub resolve_output-ok_iff :
      (r : Resolver) (p : FilePath) (target : List String)
      → (resolve_output eval_symlinks r p ≡ ok target)
        ↔ ((target ≡ clean_abs r.workdir p) × Holds r.workdir target × All Proper target)
  unfolding resolve_output
  resolve_output-ok_iff r p target =
      let holds = contained-Holds r.workdir (clean_abs r.workdir p) in
      (
        λ h. elim (Bool-cases (contained eval_symlinks r.workdir (clean_abs r.workdir p))) [
          | inr outside ↦ absurd (ground (arith, h, outside))
          | inl inside ↦
              let run : ◌≡◌ {A = Result FilePath (List String)} (ok (clean_abs r.workdir p))
                  (ok target) =
                ground (arith, h, inside) in
              let same : clean_abs r.workdir p ≡ target = ok-injective run in
              (
                sym same,
                subst (Holds r.workdir) same (holds.0 inside),
                subst (All Proper) same (clean_abs-Proper r.workdir p),
              )
        ],
        λ (same, inside, proper).
            let there : contained eval_symlinks r.workdir (clean_abs r.workdir p) ≡ true =
              holds.1 (subst (Holds r.workdir) same inside) in
            let run : resolve_output eval_symlinks r p ≡ ok (clean_abs r.workdir p) =
              ground (arith, there) in
            run ∙ ap ok (sym same),
      )

  made : {a b : List String} → ◌≡◌ {A = Result FilePath (List String)} (ok a) (ok b) → a ≡ b
  made h = ok-injective h

  -- A path for input that is resolved lies under the workspace or under the project directory, as it is
  -- written and after its links are followed.
  pub resolve_input-Holds :
      (r : Resolver) (p : FilePath) (target : List String)
      → resolve_input eval_symlinks r p ≡ ok target
      → Holds r.workdir target
        ⊎ ((root : List String) × (r.project_dir ≡ some root) × Holds root target)
  unfolding resolve_input in_project
  resolve_input-Holds r p target h =
      elim (Bool-cases (contained eval_symlinks r.workdir (clean_abs r.workdir p))) [
        | inl inside ↦
            let same : clean_abs r.workdir p ≡ target = made (ground (arith, h, inside)) in
            inl (
              subst (Holds r.workdir) same
                ((contained-Holds r.workdir (clean_abs r.workdir p)).0 inside))
        | inr outside ↦ elim (Option-cases r.project_dir) [
          | inl absent ↦ absurd (ground (arith, h, outside, absent))
          | inr (root, there) ↦
              elim (Bool-cases (contained eval_symlinks root (clean_abs r.workdir p))) [
                | inl inside ↦
                    let same : clean_abs r.workdir p ≡ target =
                      made (ground (arith, h, outside, there, inside)) in
                    inr (
                      root,
                      there,
                      subst (Holds root) same
                          ((contained-Holds root (clean_abs r.workdir p)).0 inside),
                    )
                | inr nowhere ↦ absurd (ground (arith, h, outside, there, nowhere))
              ]
        ]
      ]

  -- What was resolved for output is resolved again to itself.
  pub resolve_output-again :
      (r : Resolver) (p : FilePath) (target : List String)
      → resolve_output eval_symlinks r p ≡ ok target
      → resolve_output eval_symlinks r (record { absolute = true; elements = target }) ≡ ok target
  unfolding clean_abs
  resolve_output-again r p target h =
      let (same, inside, proper) = (resolve_output-ok_iff r p target).0 h in
      (resolve_output-ok_iff r (record { absolute = true; elements = target }) target).1
        (sym (clean_idem target proper), inside, proper)
