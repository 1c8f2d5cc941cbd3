-- ===== src/Work/Checkpoints/Examples.antt =====
-- Tests of a checkpoint and its digest on one short log, and the theorems at such inputs.
use long_haul.Prelude.{
  ℕ, ◌≡◌, refl, true, false, not, ◌&&◌, ◌||◌, none, some, [], ◌∷◌, ◌++◌, ltb, select, Text, codes,
  ◌==◌, contains,
}
use long_haul.Prelude.Results.{ok}
use long_haul.Prelude.Strings.{starts_with, strip}
use long_haul.Fleet.Events.{
  Event, EventType, Payload, no_payload, item_or, work_fact, work_failure, work_failure_resolved,
}
use long_haul.Work.Checkpoints.{
  WorkCheckpoint, materialize_checkpoint, apply_fact, apply_failure, apply_failure_resolution,
  failure_line, is_for,
}
use long_haul.Work.Checkpoints.Tidy.{
  IsTidy, materialize_checkpoint-IsTidy, materialize_checkpoint-own,
}
use long_haul.Work.Checkpoints.Failures.{contains-apply_failure, resolution_drops_longer_ids}
use long_haul.Work.Checkpoints.Digest.{TaskDigest, join_lines, render_digest}

abbrev event : Text → EventType → Payload → Event
event id event_type payload = record {
  id = id;
  timestamp = record { instant = 0; is_aware = true };
  event_type = event_type;
  payload = record payload { contract_id = some (codes "c") };
}

abbrev fact : Event
fact = event (codes "e1") work_fact (record no_payload { text = some (codes "f") })

abbrev failed : Event
failed =
    event (codes "e2") work_failure
      (record no_payload { failure_id = some (codes "a:b"); detail = some (codes "d") })

abbrev resolved : Event
resolved =
    event (codes "e3") work_failure_resolved (record no_payload { failure_id = some (codes "a") })

abbrev foreign : Event
foreign = record fact { payload = no_payload }

abbrev noted : WorkCheckpoint
noted = record {
  contract_id = codes "c";
  facts = record { text = codes "f"; source_event_id = codes "e1" } ∷ [];
  active_constraints = [];
  completed_subgoals = [];
  remaining_subgoals = [];
  unresolved_failures = codes "a:b: d" ∷ [];
  artifact = none;
  through_event_id = some (codes "e2");
}

-- The second fact has the text of the first.
noted_test : materialize_checkpoint (codes "c") (fact ∷ foreign ∷ fact ∷ failed ∷ []) ≡ ok noted
unfolding materialize_checkpoint apply_fact apply_failure strip starts_with ◌==◌
noted_test = refl

materialize_checkpoint-IsTidy_example : IsTidy noted
materialize_checkpoint-IsTidy_example =
    materialize_checkpoint-IsTidy (codes "c") (fact ∷ foreign ∷ fact ∷ failed ∷ []) noted noted_test

materialize_checkpoint-own_example :
    materialize_checkpoint (codes "c") (foreign ∷ fact ∷ [])
    ≡ materialize_checkpoint (codes "c") (select (is_for (codes "c")) (foreign ∷ fact ∷ []))
materialize_checkpoint-own_example = materialize_checkpoint-own (codes "c") (foreign ∷ fact ∷ [])

contains-apply_failure_example :
    (contains (codes "l") (apply_failure noted failed).unresolved_failures ≡ (
      (contains (codes "l") noted.unresolved_failures
        && not (starts_with (codes "a:b" ++ codes ":") (codes "l")))
      || (failure_line (codes "a:b") (strip (item_or failed.payload.detail (codes "a:b")))
          == codes "l")))
    × (contains (codes "l") (apply_failure_resolution noted failed).unresolved_failures ≡ (
        contains (codes "l") noted.unresolved_failures
        && not (starts_with (codes "a:b" ++ codes ":") (codes "l"))))
contains-apply_failure_example = contains-apply_failure noted failed (codes "a:b") (codes "l") refl

resolution_drops_longer_ids_example :
    contains (codes "a:b: d") (apply_failure_resolution noted resolved).unresolved_failures ≡ false
resolution_drops_longer_ids_example =
    resolution_drops_longer_ids noted resolved (codes "a") (codes "b") (codes "d") refl

abbrev digest : ℕ → Text → ℕ → TaskDigest
digest max_chars text omitted = record {
  contract_id = codes "c";
  text = text;
  max_chars = max_chars;
  truncated = ltb 0 omitted;
  omitted_items = omitted;
}

-- Both items fit 80 characters; 30 leave room for neither of them.
whole_digest :
    render_digest noted 80
    ≡ ok (
        digest 80
          (join_lines (
            codes "Work contract: c"
            ∷ codes "Unresolved failures:"
            ∷ codes "- a:b: d"
            ∷ codes "Facts:"
            ∷ codes "- f"
            ∷ []))
          0)
unfolding render_digest
whole_digest = refl

short_digest : render_digest noted 18 ≡ ok (digest 18 (codes "Work contract: c") 2)
unfolding render_digest
short_digest = refl
