-- ===== src/Prelude/Sorting.antt =====
-- Python's sorted(xs, key=…), for a test `lt` of two items' keys, and the first item that passes.
use Prim.Native.Nat.{ℕ, ◌≤◌}
use mathlib.Core.Path.{◌≡◌, refl, subst}
use mathlib.Core.Logic.{inl, inr}
use mathlib.Core.Bool.{Bool, true, false, ◌||◌}
use mathlib.Core.Option.{Option, none, some}
use mathlib.Core.List.{List, [], ◌∷◌}
use native.Mathlib.Omega.{arith}
use long_haul.Prelude.Tests.{if◌then◌else◌, Bool-cases, is_some}
use long_haul.Prelude.Lists.{All, any}

-- next(x for x in xs if p(x))
abbrev pub first_where : {A : Type 0} → (A → Bool) → List A → Option A
first_where p [] = none
first_where p (x ∷ xs) = let rest = first_where p xs in if p x then some x else rest

module _ {A : Type 0} (lt : A → A → Bool) where
  -- An item goes in front of the first that is not before it.
  unfoldable pub insert_by : A → List A → List A
  insert_by a [] = a ∷ []
  insert_by a (x ∷ xs) = let rest = insert_by a xs in if lt x a then x ∷ rest else a ∷ x ∷ xs

  unfoldable pub sorted_by : List A → List A
  unfolding insert_by
  sorted_by [] = []
  sorted_by (x ∷ xs) = insert_by x (sorted_by xs)

  module _ (P : A → Type 0) where
    All-insert_by : (a : A) (xs : List A) → P a → All P xs → All P (insert_by a xs)
    unfolding insert_by
    All-insert_by a [] h all = (h, tt)
    All-insert_by a (x ∷ xs) h all = elim (Bool-cases (lt x a)) [
      | inl before ↦ rw before (all.0, All-insert_by a xs h all.1)
      | inr after ↦ rw after (h, all)
    ]

    -- What holds of all items holds of all sorted items, and of the first that passes a test.
    pub All-sorted_by : (xs : List A) → All P xs → All P (sorted_by xs)
    unfolding sorted_by
    All-sorted_by [] all = tt
    All-sorted_by (x ∷ xs) all = All-insert_by x (sorted_by xs) all.0 (All-sorted_by xs all.1)

    All-of_insert_by : (a : A) (xs : List A) → All P (insert_by a xs) → P a × All P xs
    unfolding insert_by
    All-of_insert_by a [] all = all
    All-of_insert_by a (x ∷ xs) all = elim (Bool-cases (lt x a)) [
      | inl before ↦
          let split = rw before at all in
          let rest = All-of_insert_by a xs split.1 in (rest.0, (split.0, rest.1))
      | inr after ↦ rw after at all
    ]

    -- What holds of all sorted items holds of all items.
    pub All-of_sorted_by : (xs : List A) → All P (sorted_by xs) → All P xs
    unfolding sorted_by
    All-of_sorted_by [] all = tt
    All-of_sorted_by (x ∷ xs) all =
        let split = All-of_insert_by x (sorted_by xs) all in (split.0, All-of_sorted_by xs split.1)

  module _ (priority : A → ℕ) where
    -- Each item's priority is at most that of every later one.
    abbrev pub Ascending : List A → Type 0
    Ascending [] = Unit
    Ascending (x ∷ xs) = All (λ y. priority x ≤ priority y) xs × Ascending xs

    All-weaken :
        (x y : A) (zs : List A)
        → priority x ≤ priority y
        → All (λ z. priority y ≤ priority z) zs
        → All (λ z. priority x ≤ priority z) zs
    All-weaken x y [] le all = tt
    All-weaken x y (z ∷ zs) le all = (omega (arith, le, all.0), All-weaken x y zs le all.1)

    -- An order that a priority follows on the items of Q.
    module _ (Q : A → Type 0)
        (below : (x y : A) → Q x → Q y → lt x y ≡ true → priority x ≤ priority y)
        (above : (x y : A) → Q x → Q y → lt x y ≡ false → priority y ≤ priority x) where
      insert_by-Ascending :
          (a : A) (xs : List A) → Q a → All Q xs → Ascending xs → Ascending (insert_by a xs)
      unfolding insert_by
      insert_by-Ascending a [] q qs up = (tt, tt)
      insert_by-Ascending a (x ∷ xs) q qs up = elim (Bool-cases (lt x a)) [
        | inl before ↦ rw before (
          All-insert_by (λ y. priority x ≤ priority y) a xs (below x a qs.0 q before) up.0,
          insert_by-Ascending a xs q qs.1 up.1,
        )
        | inr after ↦
            let le = above x a qs.0 q after in rw after ((le, All-weaken a x xs le up.0), up)
      ]

      -- Sorting by the order sorts by the priority.
      pub sorted_by-Ascending : (xs : List A) → All Q xs → Ascending (sorted_by xs)
      unfolding sorted_by
      sorted_by-Ascending [] qs = tt
      sorted_by-Ascending (x ∷ xs) qs =
          insert_by-Ascending x (sorted_by xs) qs.0 (All-sorted_by Q xs qs.1)
            (sorted_by-Ascending xs qs.1)

  any-insert_by : (p : A → Bool) (a : A) (xs : List A) → any p (insert_by a xs) ≡ (p a || any p xs)
  unfolding insert_by
  any-insert_by p a [] = refl
  any-insert_by p a (x ∷ xs) = ground (arith, any-insert_by p a xs)

  pub any-sorted_by : (p : A → Bool) (xs : List A) → any p (sorted_by xs) ≡ any p xs
  unfolding sorted_by
  any-sorted_by p [] = refl
  any-sorted_by p (x ∷ xs) = ground (arith, any-insert_by p x (sorted_by xs), any-sorted_by p xs)

pub is_some-first_where :
    {A : Type 0} (p : A → Bool) (xs : List A) → is_some (first_where p xs) ≡ any p xs
is_some-first_where p [] = refl
is_some-first_where p (x ∷ xs) = ground (arith, is_some-first_where p xs)

-- The first item that passes passes, and has what all items have.
pub first_where-All :
    {A : Type 0} (p : A → Bool) (P : A → Type 0) (xs : List A) (a : A)
    → first_where p xs ≡ some a
    → All P xs
    → (p a ≡ true) × P a
first_where-All p P [] a h all = absurd (ground arith)
first_where-All p P (x ∷ xs) a h all = elim (Bool-cases (p x)) [
  | inl passes ↦
      let same : x ≡ a = ground (arith, h) in
      (subst (λ z. p z ≡ true) same passes, subst P same all.0)
  | inr fails ↦ first_where-All p P xs a (ground (arith, h)) all.1
]
