-- ===== src/Flash/Clock.antt =====
-- The injected clock, and the methods of an object that reads it.
-- A clock is a parameter: `clock n` is the n-th value that it returns. Nothing is assumed of it but
-- what a theorem names.
use long_haul.Prelude.{ℕ, ◌≤◌}
use long_haul.Prelude.Results.{Result}

abbrev pub Clock : Type 0
Clock = ℕ → ℕ

-- Later readings are not earlier: the clock never runs backwards.
abbrev pub IsMonotone : Clock → Type 0
IsMonotone clock = (m n : ℕ) → m ≤ n → clock m ≤ clock n

-- A method of an object of type S: the exception or the result, and the object afterwards.
abbrev pub Exec : Type 0 → Type 0 → Type 0
Exec S A = S → Result A × S
