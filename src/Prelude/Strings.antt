-- ===== src/Prelude/Strings.antt =====
-- Methods of Python's `str` that the source calls: strip, rstrip, replace, startswith, sorted.
use Prim.Native.Nat.{ℕ}
use mathlib.Core.Bool.{Bool, true, false, ◌&&◌, ◌||◌}
use mathlib.Core.List.{List, [], ◌∷◌, map, reverse}
use long_haul.Prelude.Tests.{ltb, leb, nat_eq, if◌then◌else◌}
use long_haul.Prelude.Texts.{Text, contains}

-- str.isspace of one code point
unfoldable pub is_space : ℕ → Bool
is_space c =
    (leb 9 c && leb c 13)
    || (leb 28 c && leb c 32)
    || nat_eq c 0x85
    || nat_eq c 0xa0
    || nat_eq c 0x1680
    || (leb 0x2000 c && leb c 0x200a)
    || nat_eq c 0x2028
    || nat_eq c 0x2029
    || nat_eq c 0x202f
    || nat_eq c 0x205f
    || nat_eq c 0x3000

unfoldable pub drop_while : (ℕ → Bool) → Text → Text
drop_while p [] = []
drop_while p (x ∷ xs) = let rest = drop_while p xs in if p x then rest else x ∷ xs

-- str.rstrip of the characters that pass p
unfoldable pub rstrip : (ℕ → Bool) → Text → Text
unfolding drop_while
rstrip p s = reverse (drop_while p (reverse s))

-- str.strip()
unfoldable pub strip : Text → Text
unfolding drop_while rstrip is_space
strip s = rstrip is_space (drop_while is_space s)

-- s.replace(a, b) for two characters
unfoldable pub replace : ℕ → ℕ → Text → Text
replace a b s = map (λ c. if nat_eq c a then b else c) s

-- s.startswith(p)
unfoldable pub starts_with : Text → Text → Bool
starts_with [] s = true
starts_with (p ∷ ps) [] = false
starts_with (p ∷ ps) (c ∷ s) = nat_eq p c && starts_with ps s

-- The first piece of a split text grows by one character.
abbrev pub add_first : ℕ → List Text → List Text
add_first x [] = (x ∷ []) ∷ []
add_first x (piece ∷ pieces) = (x ∷ piece) ∷ pieces

-- s.split(c)
unfoldable pub split_on : ℕ → Text → List Text
split_on c [] = [] ∷ []
split_on c (x ∷ xs) = let rest = split_on c xs in if nat_eq x c then [] ∷ rest else add_first x rest

-- str.splitlines breaks lines at these
abbrev pub is_line_break : ℕ → Bool
is_line_break c =
    (leb 10 c && leb c 13)
    || (leb 28 c && leb c 30)
    || nat_eq c 0x85
    || nat_eq c 0x2028
    || nat_eq c 0x2029

-- The lines of a text, and empty ones at its end and inside "\r\n", which the callers drop.
unfoldable pub split_lines : Text → List Text
split_lines [] = [] ∷ []
split_lines (c ∷ cs) =
    let rest = split_lines cs in if is_line_break c then [] ∷ rest else add_first c rest

-- a < b, by code points
unfoldable pub text_lt : Text → Text → Bool
text_lt a [] = false
text_lt [] (y ∷ ys) = true
text_lt (x ∷ xs) (y ∷ ys) = ltb x y || (nat_eq x y && text_lt xs ys)

unfoldable pub insert_sorted : Text → List Text → List Text
insert_sorted a [] = a ∷ []
insert_sorted a (x ∷ xs) =
    let rest = insert_sorted a xs in if text_lt a x then a ∷ x ∷ xs else x ∷ rest

-- sorted(xs), a stable sort
unfoldable pub sorted : List Text → List Text
unfolding insert_sorted text_lt
sorted [] = []
sorted (x ∷ xs) = insert_sorted x (sorted xs)

-- list(set(xs)), with each item at its last place
unfoldable pub to_set : List Text → List Text
unfolding contains
to_set [] = []
to_set (x ∷ xs) = let rest = to_set xs in if contains x xs then rest else x ∷ rest
