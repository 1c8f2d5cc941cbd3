-- ===== src/Prelude/Dict.antt =====
-- Python's `dict` with text keys, as the list of its items in insertion order.
use long_haul.Prelude.Tests.{if◌then◌else◌}
use long_haul.Prelude.Texts.{Text, ◌==◌, eq_iff, contains}
use mathlib.Core.Path.{◌≡◌, refl}
use mathlib.Core.Bool.{false, ◌||◌}
use mathlib.Core.Option.{Option, none, some}
use mathlib.Core.List.{List, [], ◌∷◌, map}
use native.Mathlib.Omega.{arith}

abbrev pub Dict {ℓ} : Type ℓ → Type ℓ
Dict V = List (Text × V)

module _ {ℓ} {V : Type ℓ} where
  -- d.get(k)
  unfoldable pub get : Dict V → Text → Option V
  get [] k = none
  get ((j, v) ∷ d) k = if j == k then some v else get d k

  -- d[k] = v, which keeps the place of a key that is there
  unfoldable pub put : Dict V → Text → V → Dict V
  put [] k v = (k, v) ∷ []
  put ((j, w) ∷ d) k v = if j == k then (j, v) ∷ d else (j, w) ∷ put d k v

  -- d.pop(k, None)
  unfoldable pub pop : Dict V → Text → Dict V
  pop [] k = []
  pop ((j, w) ∷ d) k = let rest = pop d k in if j == k then rest else (j, w) ∷ rest

  -- d.values()
  abbrev pub values : Dict V → List V
  values d = map (λ item. item.1) d

  -- What a dictionary holds under j after an assignment under k.
  pub get-put :
      (d : Dict V) (k : Text) (j : Text) (v : V)
      → get (put d k v) j ≡ (if k == j then some v else get d j)
  unfolding put get
  get-put [] k j v = refl
  get-put ((i, w) ∷ d) k j v = ground (arith, eq_iff k j, eq_iff i k, eq_iff i j, get-put d k j v)

  pub get-pop : (d : Dict V) (k j : Text) → get (pop d k) j ≡ (if k == j then none else get d j)
  unfolding get pop
  get-pop [] k j = ground arith
  get-pop ((i, w) ∷ d) k j = ground (arith, eq_iff k j, eq_iff i k, eq_iff i j, get-pop d k j)

  abbrev pub keys : Dict V → List Text
  keys d = map (λ item. item.0) d

  pub contains-keys-put :
      (d : Dict V) (k j : Text) (v : V)
      → contains j (keys (put d k v)) ≡ ((k == j) || contains j (keys d))
  unfolding put contains
  contains-keys-put [] k j v = ground arith
  contains-keys-put ((i, w) ∷ d) k j v =
      ground (arith, eq_iff i k, eq_iff k j, eq_iff i j, contains-keys-put d k j v)

  pub get-absent : (d : Dict V) (k : Text) → contains k (keys d) ≡ false → get d k ≡ none
  unfolding get contains
  get-absent [] k h = refl
  get-absent ((i, w) ∷ d) k h = ground (arith, get-absent d k)
