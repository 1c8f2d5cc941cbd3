-- ===== src/Report/Examples.antt =====
-- Tests of a report with a provisional result, and the theorem at such an input.
use long_haul.Prelude.{ℕ, ◌≤◌, ◌≡◌, refl, [], ◌∷◌, length}
use long_haul.Report.{LayerResult, LayerState, unknown, pass, fail_runtime, set_layer, record_layer}
use long_haul.Report.Laws.{results_of, set_all, set_all-last}

abbrev result : ℕ → LayerState → LayerResult
result layer state = record { layer = layer; state = state; detail = [] }

replaced :
    set_layer (record_layer (record_layer [] (result 0 unknown)) (result 1 pass)) (result 0 pass)
    ≡ result 0 pass ∷ result 1 pass ∷ []
unfolding set_layer record_layer
replaced = refl

set_all-last_example :
    (results_of 1 (set_all [] (result 0 pass ∷ result 1 unknown ∷ result 1 fail_runtime ∷ []))
      ≡ result 1 fail_runtime ∷ [])
    × (length (results_of 1 (set_all [] (result 0 pass ∷ result 1 unknown ∷ []))) ≤ 1)
set_all-last_example =
    set_all-last (result 0 pass ∷ result 1 unknown ∷ []) (result 1 fail_runtime) 1
