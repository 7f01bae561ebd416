-- ===== src/Workspace/Tests.antt =====
-- internal/workspace/resolver.go: a workspace in which one directory is a link to the outside.
use tales.Base.{
  String, str_eq, List, [], ◌∷◌, Option, none, some, true, false, ◌≡◌, ◌↔◌, ◌⊎◌, refl, All, ok, err,
  if◌then◌else◌,
}
use tales.Workspace.{
  FilePath, clean, clean_loop, unwind, clean_abs, rel_elements, rel_inside, resolve_loop,
  resolve_existing, contained, Resolver, in_project, resolve_output, resolve_input,
}
use tales.Workspace.Clean.{Proper}
use tales.Workspace.Contained.{
  Holds, resolve_output-ok_iff, resolve_input-Holds, resolve_output-again,
}

-- Only /work/link is a link, to /etc, and only /work and it exist.
abbrev links : List String → Option (List String)
links [] = some []
links (a ∷ []) = some (a ∷ [])
links (a ∷ (b ∷ [])) = if str_eq b "link" then some ("etc" ∷ []) else none
links (a ∷ (b ∷ (c ∷ p))) = none

abbrev roots : Resolver
roots = record { workdir = "work" ∷ []; project_dir = some ("project" ∷ []) }

abbrev report_file : FilePath
report_file = record { absolute = false; elements = "out" ∷ "." ∷ "report.pdf" ∷ [] }

resolved : resolve_output links roots report_file ≡ ok ("work" ∷ "out" ∷ "report.pdf" ∷ [])
unfolding resolve_output contained clean_abs clean clean_loop unwind rel_inside rel_elements
    resolve_existing resolve_loop
resolved = refl

-- The link leads out.
link_test :
    resolve_output links roots (record { absolute = false; elements = "link" ∷ "passwd" ∷ [] })
    ≡ err (record { absolute = false; elements = "link" ∷ "passwd" ∷ [] })
unfolding resolve_output contained clean_abs clean clean_loop unwind rel_inside rel_elements
    resolve_existing resolve_loop
link_test = refl

up_test :
    resolve_output links roots
      (record { absolute = false; elements = "a" ∷ ".." ∷ ".." ∷ "x" ∷ [] })
    ≡ err (record { absolute = false; elements = "a" ∷ ".." ∷ ".." ∷ "x" ∷ [] })
unfolding resolve_output contained clean_abs clean clean_loop unwind rel_inside rel_elements
    resolve_existing resolve_loop
up_test = refl

abbrev fixture : FilePath
fixture = record { absolute = true; elements = "project" ∷ "fixture" ∷ [] }

found : resolve_input links roots fixture ≡ ok ("project" ∷ "fixture" ∷ [])
unfolding resolve_input in_project contained clean_abs clean clean_loop unwind rel_inside
    rel_elements resolve_existing resolve_loop
found = refl

resolve_output-ok_iff_example :
    (resolve_output links roots report_file ≡ ok ("work" ∷ "out" ∷ "report.pdf" ∷ [])) ↔ (
      (("work" ∷ "out" ∷ "report.pdf" ∷ []) ≡ clean_abs ("work" ∷ []) report_file)
      × Holds links ("work" ∷ []) ("work" ∷ "out" ∷ "report.pdf" ∷ [])
      × All Proper ("work" ∷ "out" ∷ "report.pdf" ∷ []))
resolve_output-ok_iff_example =
    resolve_output-ok_iff links roots report_file ("work" ∷ "out" ∷ "report.pdf" ∷ [])

resolve_input-Holds_example :
    Holds links ("work" ∷ []) ("project" ∷ "fixture" ∷ [])
    ⊎ ((root : List String) × (◌≡◌ {A = Option (List String)} (some ("project" ∷ [])) (some root))
        × Holds links root ("project" ∷ "fixture" ∷ []))
resolve_input-Holds_example =
    resolve_input-Holds links roots fixture ("project" ∷ "fixture" ∷ []) found

resolve_output-again_example :
    resolve_output links roots
      (record { absolute = true; elements = "work" ∷ "out" ∷ "report.pdf" ∷ [] })
    ≡ ok ("work" ∷ "out" ∷ "report.pdf" ∷ [])
resolve_output-again_example =
    resolve_output-again links roots report_file ("work" ∷ "out" ∷ "report.pdf" ∷ []) resolved
