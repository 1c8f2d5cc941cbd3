-- ===== src/Report.antt =====
-- The layer results of a reference run (src/long_haul/validation.py).
-- The time, the environment and the saving of a report are left out.
pub mod Laws
mod Examples
use long_haul.Prelude.{
  ℕ, zero, suc, ◌+◌, ◌-◌, ◌*◌, ◌/◌, ◌%◌, ◌≤◌, ◌<◌, min, max, ◌≡◌, refl, sym, ap, ◌∙◌, ◌≢◌, ◌↔◌, ◌⊎◌,
  inl, inr, Bool, true, false, not, ◌&&◌, ◌||◌, Option, none, some, List, [], ◌∷◌, ◌++◌, map, arith,
  ltb, leb, nat_eq, if◌then◌else◌, nat_eq_iff, Bool-cases, Option-cases, is_some, is_none, length,
  take, drop, last_items, drop-append, drop-drop, drop-nil, last_items-window, All, select, any,
  all, length-append, length-drop, length-take-le, length-last_items-le, length-select-le,
  any-append, all-append, Text, codes, ◌==◌, ==_refl, eq_of_==, eq_iff, contains, is_distinct,
  contains-append,
}

pub data LayerState : Type 0 where
  pass unsupported unknown fail_system fail_runtime fail_artifact fail_resource : LayerState

pub record LayerResult : Type 0 where
  pub layer : ℕ
  pub state : LayerState
  pub detail : Text

-- ReferenceReport.record
unfoldable pub record_layer : List LayerResult → LayerResult → List LayerResult
record_layer layers result = layers ++ result ∷ []

-- ReferenceReport.set_layer: the first result of the layer is replaced
unfoldable pub set_layer : List LayerResult → LayerResult → List LayerResult
set_layer [] result = result ∷ []
set_layer (existing ∷ layers) result =
    let rest = set_layer layers result in
    if nat_eq existing.layer result.layer then result ∷ layers else existing ∷ rest
