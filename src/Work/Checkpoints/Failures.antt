-- ===== src/Work/Checkpoints/Failures.antt =====
-- Unresolved failures under their recording and their resolution.
use long_haul.Prelude.{
  ◌≡◌, refl, ◌∙◌, true, false, not, ◌&&◌, ◌||◌, some, List, [], ◌∷◌, ◌++◌, arith, Text, codes, ◌==◌,
  eq_iff, contains, contains-append,
}
use mathlib.Core.List.{append_assoc}
use long_haul.Prelude.Strings.{strip, starts_with}
use long_haul.Fleet.Events.{Event, item_or}
use long_haul.Work.Checkpoints.{
  WorkCheckpoint, apply_failure, apply_failure_resolution, without_failure, failure_line,
}

starts_with-append : (p q : Text) → starts_with p (p ++ q) ≡ true
unfolding starts_with
starts_with-append [] q = refl
starts_with-append (x ∷ p) q = ground (arith, starts_with-append p q)

contains-without_failure :
    (a line : Text) (lines : List Text)
    → contains line (without_failure a lines)
      ≡ (contains line lines && not (starts_with (a ++ codes ":") line))
unfolding without_failure contains
contains-without_failure a line [] = refl
contains-without_failure a line (x ∷ xs) =
    ground (arith, eq_iff x line, contains-without_failure a line xs)

-- Recording a failure lists its line, and keeps exactly those earlier lines that do not start with
-- its id and a colon; resolving it keeps the same lines and adds none.
pub contains-apply_failure :
    (c : WorkCheckpoint) (e : Event) (a line : Text)
    → e.payload.failure_id ≡ some a
    → (contains line (apply_failure c e).unresolved_failures ≡ (
        (contains line c.unresolved_failures && not (starts_with (a ++ codes ":") line))
        || (failure_line a (strip (item_or e.payload.detail a)) == line)))
      × (contains line (apply_failure_resolution c e).unresolved_failures
          ≡ (contains line c.unresolved_failures && not (starts_with (a ++ codes ":") line)))
unfolding apply_failure apply_failure_resolution contains
contains-apply_failure c e a line h = rw h (
  contains-append line (without_failure a c.unresolved_failures) _
      ∙ ground (arith, contains-without_failure a line c.unresolved_failures),
  contains-without_failure a line c.unresolved_failures,
)

failure_line-prefix :
    (a b detail : Text)
    → starts_with (a ++ codes ":") (failure_line (a ++ codes ":" ++ b) detail) ≡ true
failure_line-prefix a b detail =
    let e : failure_line (a ++ codes ":" ++ b) detail
        ≡ (a ++ codes ":") ++ (b ++ codes ": " ++ detail) =
      simp append_assoc in
    rw e (starts_with-append (a ++ codes ":") (b ++ codes ": " ++ detail))

-- Resolving a failure also drops the unresolved failures of every other id that begins with its id
-- and a colon, whatever the checkpoint held.
pub resolution_drops_longer_ids :
    (c : WorkCheckpoint) (e : Event) (a b detail : Text)
    → e.payload.failure_id ≡ some a
    → contains
        (failure_line (a ++ codes ":" ++ b) detail)
        (apply_failure_resolution c e).unresolved_failures
      ≡ false
resolution_drops_longer_ids c e a b detail h =
    (contains-apply_failure c e a (failure_line (a ++ codes ":" ++ b) detail) h).1
    ∙ rw (failure_line-prefix a b detail) (ground arith)
