-- ===== src/Work/Checkpoints/Digest/Laws.antt =====
-- The bound of a digest, and the account of its items.
use long_haul.Prelude.{ℕ, ◌≤◌, ◌≡◌, List, ◌∷◌, length, Text}
use long_haul.Work.Checkpoints.Digest.{join_lines, Draft}

-- The draft has a first line, and its text fits.
abbrev Within : ℕ → Draft → Type 0
Within max_chars d =
    (l : Text) × (ls : List Text) × (d.lines ≡ l ∷ ls) × (length (join_lines d.lines) ≤ max_chars)
