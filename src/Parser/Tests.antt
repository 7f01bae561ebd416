-- ===== src/Parser/Tests.antt =====
-- internal/parser/order.go: a case between two steps.
use mathlib.Core.List.Permᴰ.{swap}
use tales.Base.{ℕ, String, List, [], ◌∷◌, map, ◌≡◌, refl}
use tales.Parser.Order.{
  StepKey, SourceStep, Decoded, reorder_steps_by_source, has_duplicate, reorder_loop, find_step,
  set_line,
}
use tales.Parser.Order.Permuted.{Permuted, reorder_steps_by_source-Permuted}

abbrev key : String → StepKey
key name = record { provider = "http"; name = name }

abbrev decoded : List (Decoded ℕ)
decoded =
    record { key = key "login"; line = 0; body = 1 }
    ∷ record { key = key "pay"; line = 0; body = 2 }
    ∷ []

abbrev source_order : List SourceStep
source_order = record { key = key "pay"; line = 3 } ∷ record { key = key "login"; line = 9 } ∷ []

reorder_test : map (λ s. s.line) (reorder_steps_by_source decoded source_order) ≡ 3 ∷ 9 ∷ []
unfolding reorder_steps_by_source has_duplicate reorder_loop find_step set_line
reorder_test = refl

reorder_steps_by_source_example :
    Permuted decoded source_order (reorder_steps_by_source decoded source_order)
reorder_steps_by_source_example =
    reorder_steps_by_source-Permuted decoded source_order (swap refl refl)
