-- ===== src/Work/Checkpoints/Digest.antt =====
-- render_digest: the newest items that fit a bound of characters
-- (src/long_haul/work/checkpoints.py).
pub mod Laws
use long_haul.Prelude.{
  ℕ, zero, suc, ◌+◌, ◌-◌, ◌*◌, ◌/◌, ◌%◌, ◌≤◌, ◌<◌, min, max, ◌≡◌, refl, sym, ap, ◌∙◌, ◌≢◌, ◌↔◌, ◌⊎◌,
  inl, inr, Bool, true, false, not, ◌&&◌, ◌||◌, Option, none, some, List, [], ◌∷◌, ◌++◌, map, arith,
  ltb, leb, nat_eq, if◌then◌else◌, nat_eq_iff, Bool-cases, Option-cases, is_some, is_none, length,
  take, drop, last_items, drop-append, drop-drop, drop-nil, last_items-window, All, select, any,
  all, length-append, length-drop, length-take-le, length-last_items-le, length-select-le,
  any-append, all-append, Text, codes, ◌==◌, ==_refl, eq_of_==, eq_iff, contains, is_distinct,
  contains-append,
}
use long_haul.Prelude.Results.{
  Fault, Result, ok, err, value_error, key_error, type_error, runtime_error, lease_error,
  verification_error, lifecycle_error, service_error, ◌>>=◌, ◌>>◌, raise_if, >>=-eq-ok,
  raise_if-eq-ok, Result-cases, is_ok, passed,
}
use mathlib.Core.List.{reverse}
use long_haul.Prelude.Strings.{rstrip}
use long_haul.Work.Checkpoints.{CheckpointFact, ArtifactState, WorkCheckpoint}

pub record TaskDigest : Type 0 where
  pub contract_id : Text
  pub text : Text
  pub max_chars : ℕ
  pub truncated : Bool
  pub omitted_items : ℕ

abbrev pub newline : Text
newline = 10 ∷ []

-- "\n".join(lines)
unfoldable pub join_lines : List Text → Text
join_lines [] = []
join_lines (l ∷ []) = l
join_lines (l ∷ m ∷ ls) = l ++ newline ++ join_lines (m ∷ ls)

-- The variables of the two loops.
pub record Draft : Type 0 where
  pub lines : List Text
  pub omitted : ℕ
  pub title_added : Bool

-- prefix + "- " + item, and the lines that the source appends if that fits
abbrev pub item_line : Text → Text
item_line item = codes "- " ++ item

abbrev pub title_line : Text → Text
title_line title = title ++ codes ":"

abbrev pub candidate_line : Text → Bool → Text → Text
candidate_line title true item = item_line item
candidate_line title false item = title_line title ++ newline ++ item_line item

abbrev pub new_lines : Text → Bool → Text → List Text
new_lines title true item = item_line item ∷ []
new_lines title false item = title_line title ∷ item_line item ∷ []

-- The body of the inner loop.
unfoldable pub add_item : ℕ → Text → Draft → Text → Draft
unfolding join_lines
add_item max_chars title d item =
    let candidate = join_lines (d.lines ++ candidate_line title d.title_added item ∷ []) in
    if leb (length candidate) max_chars
    then record d { lines = d.lines ++ new_lines title d.title_added item; title_added = true }
    else record d { omitted = d.omitted + 1 }

unfoldable pub add_items : ℕ → Text → Draft → List Text → Draft
unfolding add_item
add_items max_chars title d [] = d
add_items max_chars title d (item ∷ items) =
    add_items max_chars title (add_item max_chars title d item) items

-- The outer loop; a section without items adds nothing.
unfoldable pub add_sections : ℕ → Draft → List (Text × List Text) → Draft
unfolding add_items
add_sections max_chars d [] = d
add_sections max_chars d ((title, items) ∷ sections) =
    add_sections max_chars
      (add_items max_chars title (record d { title_added = false }) (reverse items)) sections

abbrev artifact_items : Option ArtifactState → List Text
artifact_items none = []
artifact_items (some a) =
    rstrip (λ c. nat_eq c 32 || nat_eq c 0x2014) (a.fingerprint ++ codes " — " ++ a.description)
    ∷ []

unfoldable pub sections_of : WorkCheckpoint → List (Text × List Text)
unfolding rstrip
sections_of c =
    (codes "Verified artifact", artifact_items c.artifact)
    ∷ (codes "Active constraints", c.active_constraints)
    ∷ (codes "Unresolved failures", c.unresolved_failures)
    ∷ (codes "Remaining subgoals", c.remaining_subgoals)
    ∷ (codes "Completed subgoals", c.completed_subgoals)
    ∷ (codes "Facts", map (λ f. f.text) c.facts)
    ∷ []

abbrev pub header : WorkCheckpoint → Text
header c = codes "Work contract: " ++ c.contract_id

abbrev pub start : WorkCheckpoint → Draft
start c = record { lines = header c ∷ []; omitted = 0; title_added = false }

-- text[:max_chars] if it is longer
abbrev pub cut : ℕ → Text → Text
cut max_chars text = if ltb max_chars (length text) then take max_chars text else text

unfoldable pub render_digest : WorkCheckpoint → ℕ → Result TaskDigest
unfolding add_sections sections_of join_lines
render_digest c max_chars =
    let d = add_sections max_chars (start c) (sections_of c) in
    (raise_if (leb max_chars 0) value_error) >>= λ _. ok (record {
      contract_id = c.contract_id;
      text = cut max_chars (join_lines d.lines);
      max_chars = max_chars;
      truncated = ltb 0 d.omitted;
      omitted_items = d.omitted;
    })
