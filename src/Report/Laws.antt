-- ===== src/Report/Laws.antt =====
-- A report has one result for each layer.
use long_haul.Prelude.{
  ℕ, ◌≤◌, ◌≡◌, refl, inl, inr, List, [], ◌∷◌, ◌++◌, arith, nat_eq, if◌then◌else◌, nat_eq_iff,
  Bool-cases, length, select,
}
use long_haul.Report.{LayerResult, set_layer}

-- The results of one layer, in order.
unfoldable pub results_of : ℕ → List LayerResult → List LayerResult
results_of n layers = select (λ r. nat_eq r.layer n) layers

-- No layer has two results.
abbrev pub IsSingle : List LayerResult → Type 0
IsSingle layers = (n : ℕ) → length (results_of n layers) ≤ 1

tail-IsSingle :
    (r : LayerResult) (layers : List LayerResult) → IsSingle (r ∷ layers) → IsSingle layers
unfolding results_of
tail-IsSingle r layers h n = ground (arith, h n)

no_items : (layers : List LayerResult) → length layers ≤ 0 → layers ≡ []
no_items [] h = refl
no_items (r ∷ layers) h = absurd (ground arith)

-- Setting a layer's result in a report with at most one result for each layer makes it the only
-- result of that layer, and keeps the results of all other layers.
pub results_of-set_layer :
    (layers : List LayerResult) (result : LayerResult) (n : ℕ)
    → IsSingle layers
    → results_of n (set_layer layers result)
      ≡ (if nat_eq result.layer n then result ∷ [] else results_of n layers)
unfolding results_of set_layer
results_of-set_layer [] result n h = refl
results_of-set_layer (r ∷ layers) result n h = elim (Bool-cases (nat_eq r.layer result.layer)) [
  | inl same ↦ ground (
    arith,
    nat_eq_iff r.layer n,
    nat_eq_iff r.layer result.layer,
    nat_eq_iff result.layer n,
    h n,
    no_items (results_of n layers),
  )
  | inr other ↦ ground (
    arith,
    nat_eq_iff r.layer n,
    nat_eq_iff r.layer result.layer,
    nat_eq_iff result.layer n,
    results_of-set_layer layers result n (tail-IsSingle r layers h),
  )
]

set_layer-IsSingle :
    (layers : List LayerResult) (result : LayerResult)
    → IsSingle layers
    → IsSingle (set_layer layers result)
set_layer-IsSingle layers result h n = ground (arith, results_of-set_layer layers result n h, h n)

-- The report after results were set one after the other.
unfoldable pub set_all : List LayerResult → List LayerResult → List LayerResult
unfolding set_layer
set_all layers [] = layers
set_all layers (result ∷ results) = set_all (set_layer layers result) results

set_all-IsSingle :
    (layers results : List LayerResult) → IsSingle layers → IsSingle (set_all layers results)
unfolding set_all
set_all-IsSingle layers [] h = h
set_all-IsSingle layers (result ∷ results) h =
    set_all-IsSingle (set_layer layers result) results (set_layer-IsSingle layers result h)

empty-IsSingle : IsSingle []
unfolding results_of
empty-IsSingle n = omega arith

set_all-append :
    (layers results : List LayerResult) (last : LayerResult)
    → set_all layers (results ++ last ∷ []) ≡ set_layer (set_all layers results) last
unfolding set_all
set_all-append layers [] last = refl
set_all-append layers (result ∷ results) last =
    set_all-append (set_layer layers result) results last

-- In a new report, whatever results are set, the last one that is set is the only result of its
-- layer; the results of every other layer are those from before, of which there is at most one.
pub set_all-last :
    (results : List LayerResult) (last : LayerResult) (n : ℕ)
    → (results_of n (set_all [] (results ++ last ∷ []))
        ≡ (if nat_eq last.layer n then last ∷ [] else results_of n (set_all [] results)))
      × (length (results_of n (set_all [] results)) ≤ 1)
set_all-last results last n =
    let single = set_all-IsSingle [] results empty-IsSingle in
    (
      rw (set_all-append [] results last) (results_of-set_layer (set_all [] results) last n single),
      single n,
    )
