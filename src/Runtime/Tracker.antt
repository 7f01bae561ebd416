-- ===== src/Runtime/Tracker.antt =====
-- internal/runtime/tracker.go: which steps failed and which were skipped.
use tales.Base.{
  String, List, [], ◌∷◌, Option, none, some, Bool, true, false, contains, insert, if◌then◌else◌,
}

pub record DepTracker : Type 0 where
  pub failed : List String
  pub skipped : List String

abbrev pub new_dep_tracker : DepTracker
new_dep_tracker = record { failed = []; skipped = [] }

unfoldable pub mark_failed : String → DepTracker → DepTracker
mark_failed name t = record t { failed = insert name t.failed }

unfoldable pub mark_skipped : String → DepTracker → DepTracker
mark_skipped name t = record t { skipped = insert name t.skipped }

-- The blocker, with whether it failed. The source ranges over a map, so which of several blockers is
-- returned is not specified.
unfoldable pub dependency_blocker : DepTracker → List String → Option (String × Bool)
dependency_blocker t [] = none
dependency_blocker t (dep ∷ deps) =
    let rest = dependency_blocker t deps in
    if contains dep t.failed
    then some (dep, true)
    else if contains dep t.skipped
    then some (dep, false)
    else rest
