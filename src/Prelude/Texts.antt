-- ===== src/Prelude/Texts.antt =====
-- Python's `str` as its list of code points. Literals of the source are written `codes "…"`.
use Prim.Native.Nat.{ℕ}
use Prim.Native.Char.{code}
use Prim.Native.String.{String}
use mathlib.Core.Path.{◌≡◌, refl}
use mathlib.Core.Logic.{◌↔◌}
use mathlib.Core.Bool.{Bool, true, false, not, ◌&&◌, ◌||◌}
use mathlib.Core.List.{List, [], ◌∷◌, ◌++◌}
use native.Mathlib.Omega.{arith}
use long_haul.Prelude.Tests.{nat_eq}

abbrev pub Text : Type 0
Text = List ℕ

abbrev pub codes : String → Text
codes String.[] = []
codes (String.◌∷◌ c s) = code c ∷ codes s

-- a == b
infix 50 ◌==◌
unfoldable pub ◌==◌ : Text → Text → Bool
[] == [] = true
(x ∷ xs) == (y ∷ ys) = nat_eq x y && (xs == ys)
_ == _ = false

pub ==_refl : (a : Text) → (a == a) ≡ true
unfolding ◌==◌
==_refl [] = refl
==_refl (x ∷ xs) = ground (arith, ==_refl xs)

pub eq_of_== : (a b : Text) → (a == b) ≡ true → a ≡ b
unfolding ◌==◌
eq_of_== [] [] h = refl
eq_of_== [] (y ∷ ys) h = ground arith
eq_of_== (x ∷ xs) [] h = ground arith
eq_of_== (x ∷ xs) (y ∷ ys) h = ground (arith, eq_of_== xs ys)

pub eq_iff : (a b : Text) → ((a == b) ≡ true) ↔ (a ≡ b)
eq_iff a b = (eq_of_== a b, λ e. ground (arith, ==_refl a))

-- a in xs
unfoldable pub contains : Text → List Text → Bool
contains a [] = false
contains a (x ∷ xs) = (x == a) || contains a xs

-- len(set(xs)) == len(xs)
unfoldable pub is_distinct : List Text → Bool
unfolding contains
is_distinct [] = true
is_distinct (x ∷ xs) = not (contains x xs) && is_distinct xs

pub contains-append :
    (a : Text) (xs ys : List Text) → contains a (xs ++ ys) ≡ (contains a xs || contains a ys)
unfolding contains
contains-append a [] ys = refl
contains-append a (x ∷ xs) ys = ground (arith, contains-append a xs ys)

pub is_distinct-append :
    (xs : List Text) (a : Text)
    → is_distinct (xs ++ a ∷ []) ≡ (is_distinct xs && not (contains a xs))
unfolding is_distinct contains
is_distinct-append [] a = refl
is_distinct-append (x ∷ xs) a =
    ground (arith, is_distinct-append xs a, contains-append x xs (a ∷ []), eq_iff x a, eq_iff a x)
