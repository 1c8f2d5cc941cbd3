-- ===== src/Work/Checkpoints.antt =====
-- Event-derived checkpoints of bounded work sessions (src/long_haul/work/checkpoints.py).
-- Payload values are texts, as the writers give them, so `str` leaves them alone.
pub mod Digest
pub mod Tidy
pub mod Failures
mod Examples
use long_haul.Prelude.{
  ℕ, zero, suc, ◌+◌, ◌-◌, ◌*◌, ◌/◌, ◌%◌, ◌≤◌, ◌<◌, min, max, ◌≡◌, refl, sym, ap, ◌∙◌, ◌≢◌, ◌↔◌, ◌⊎◌,
  inl, inr, Bool, true, false, not, ◌&&◌, ◌||◌, Option, none, some, List, [], ◌∷◌, ◌++◌, map, arith,
  ltb, leb, nat_eq, if◌then◌else◌, nat_eq_iff, Bool-cases, Option-cases, is_some, is_none, length,
  take, drop, last_items, drop-append, drop-drop, drop-nil, last_items-window, All, select, any,
  all, length-append, length-drop, length-take-le, length-last_items-le, length-select-le,
  any-append, all-append, Text, codes, ◌==◌, ==_refl, eq_of_==, eq_iff, contains, is_distinct,
  contains-append,
}
use long_haul.Prelude.Results.{
  Fault, Result, ok, err, value_error, key_error, type_error, runtime_error, lease_error,
  verification_error, lifecycle_error, service_error, ◌>>=◌, ◌>>◌, raise_if, >>=-eq-ok,
  raise_if-eq-ok, Result-cases, is_ok, passed,
}
use long_haul.Prelude.Strings.{strip, starts_with}
use long_haul.Fleet.Events.{
  Event, EventType, Payload, item_or, work_fact, work_constraint, work_subgoal, work_failure,
  work_failure_resolved, work_artifact_verified,
}

pub record CheckpointFact : Type 0 where
  pub text : Text
  pub source_event_id : Text

pub record ArtifactState : Type 0 where
  pub fingerprint : Text
  pub description : Text
  pub source_event_id : Text

pub record WorkCheckpoint : Type 0 where
  pub contract_id : Text
  pub facts : List CheckpointFact
  pub active_constraints : List Text
  pub completed_subgoals : List Text
  pub remaining_subgoals : List Text
  pub unresolved_failures : List Text
  pub artifact : Option ArtifactState
  pub through_event_id : Option Text

pub record WorkSession : Type 0 where
  pub session_id : Text
  pub contract_id : Text
  pub crew_id : Option Text
  pub execution_plan_id : Option Text
  pub resumed_from_session_id : Option Text
  pub checkpoint_through_event_id : Option Text

-- resume_session; the new session's uuid4 is an argument
unfoldable pub resume_session : Text → WorkSession → WorkCheckpoint → Result WorkSession
resume_session new_id previous checkpoint = do
  raise_if (not (previous.contract_id == checkpoint.contract_id)) value_error
  ok (record {
    session_id = new_id;
    contract_id = previous.contract_id;
    crew_id = previous.crew_id;
    execution_plan_id = previous.execution_plan_id;
    resumed_from_session_id = some previous.session_id;
    checkpoint_through_event_id = checkpoint.through_event_id;
  })

abbrev pub is_empty : Text → Bool
is_empty [] = true
is_empty (c ∷ cs) = false

-- _append_unique
unfoldable pub append_unique : List Text → Text → List Text
unfolding contains
append_unique values text =
    if not (is_empty text) && not (contains text values) then values ++ text ∷ [] else values

abbrev pub stripped : Option Text → Text
stripped text = strip (item_or text [])

-- The checkpoint under construction, and the set fact_keys.
pub record Draft : Type 0 where
  pub checkpoint : WorkCheckpoint
  pub fact_keys : List Text

-- _apply_fact; a fact must name a source event
unfoldable pub apply_fact : Draft → Event → Result Draft
unfolding contains
apply_fact d event =
    let text = stripped event.payload.text in
    let c = d.checkpoint in
    let fact : CheckpointFact = record { text = text; source_event_id = event.id } in
    if not (is_empty text) && not (contains text d.fact_keys)
    then (if is_empty event.id
        then err value_error
        else ok (record {
          checkpoint = record c { facts = c.facts ++ fact ∷ [] };
          fact_keys = text ∷ d.fact_keys;
        }))
    else ok d

-- _apply_constraint
unfoldable pub apply_constraint : WorkCheckpoint → Event → WorkCheckpoint
unfolding append_unique
apply_constraint c event = record c {
  active_constraints = append_unique c.active_constraints (stripped event.payload.text);
}

abbrev pub state_is : Option Text → Text → Bool
state_is none s = false
state_is (some a) s = a == s

unfoldable pub subgoal_branch : WorkCheckpoint → Option Text → Text → WorkCheckpoint
unfolding append_unique contains
subgoal_branch c state text =
    if state_is state (codes "completed")
    then record c {
      completed_subgoals = append_unique c.completed_subgoals text;
      remaining_subgoals = select (λ item. not (item == text)) c.remaining_subgoals;
    }
    else if state_is state (codes "remaining") && not (contains text c.completed_subgoals)
    then record c { remaining_subgoals = append_unique c.remaining_subgoals text }
    else c

-- _apply_subgoal
unfoldable pub apply_subgoal : WorkCheckpoint → Event → WorkCheckpoint
unfolding subgoal_branch
apply_subgoal c event =
    let text = stripped event.payload.text in
    if is_empty text then c else subgoal_branch c event.payload.state text

-- [item for item in items if not item.startswith(f"{failure_id}:")]
unfoldable pub without_failure : Text → List Text → List Text
unfolding starts_with
without_failure failure_id items =
    select (λ item. not (starts_with (failure_id ++ codes ":") item)) items

-- f"{failure_id}: {detail}"
abbrev pub failure_line : Text → Text → Text
failure_line failure_id detail = failure_id ++ codes ": " ++ detail

-- _apply_failure
unfoldable pub apply_failure : WorkCheckpoint → Event → WorkCheckpoint
unfolding without_failure
apply_failure c event =
    let failure_id = item_or event.payload.failure_id event.id in
    let detail = strip (item_or event.payload.detail failure_id) in
    record c {
      unresolved_failures =
          without_failure failure_id c.unresolved_failures ++ failure_line failure_id detail ∷ [];
    }

-- _apply_failure_resolution
unfoldable pub apply_failure_resolution : WorkCheckpoint → Event → WorkCheckpoint
unfolding without_failure
apply_failure_resolution c event = record c {
  unresolved_failures = without_failure (item_or event.payload.failure_id []) c.unresolved_failures;
}

-- _apply_artifact; an artifact must name a source event
unfoldable pub apply_artifact : WorkCheckpoint → Event → Result WorkCheckpoint
apply_artifact c event =
    let fingerprint = stripped event.payload.fingerprint in
    let artifact : ArtifactState = record {
      fingerprint = fingerprint;
      description = item_or event.payload.description [];
      source_event_id = event.id;
    } in
    if is_empty fingerprint
    then ok c
    else if is_empty event.id
    then err value_error
    else ok (record c { artifact = some artifact })

abbrev pub with_checkpoint : Draft → WorkCheckpoint → Draft
with_checkpoint d c = record d { checkpoint = c }

-- _apply_event
unfoldable pub apply_kind : EventType → Draft → Event → Result Draft
apply_kind work_fact d event = apply_fact d event
apply_kind work_constraint d event = ok (with_checkpoint d (apply_constraint d.checkpoint event))
apply_kind work_subgoal d event = ok (with_checkpoint d (apply_subgoal d.checkpoint event))
apply_kind work_failure d event = ok (with_checkpoint d (apply_failure d.checkpoint event))
apply_kind work_failure_resolved d event =
    ok (with_checkpoint d (apply_failure_resolution d.checkpoint event))
apply_kind work_artifact_verified d event = do
  c ← apply_artifact d.checkpoint event
  ok (with_checkpoint d c)
apply_kind _ d event = ok d

abbrev pub is_for : Text → Event → Bool
is_for contract_id event = state_is event.payload.contract_id contract_id

-- The body of the loop of materialize_checkpoint.
unfoldable pub visit : Text → Draft → Event → Result Draft
unfolding apply_kind
visit contract_id d event =
    let marked = with_checkpoint d (record d.checkpoint { through_event_id = some event.id }) in
    if is_for contract_id event then apply_kind event.event_type marked event else ok d

unfoldable pub visit_all : Text → Draft → List Event → Result Draft
unfolding visit
visit_all contract_id d [] = ok d
visit_all contract_id d (event ∷ events) = do
  d' ← visit contract_id d event
  visit_all contract_id d' events

abbrev pub empty_draft : Text → Draft
empty_draft contract_id = record {
  checkpoint = record {
    contract_id = contract_id;
    facts = [];
    active_constraints = [];
    completed_subgoals = [];
    remaining_subgoals = [];
    unresolved_failures = [];
    artifact = none;
    through_event_id = none;
  };
  fact_keys = [];
}

unfoldable pub materialize_checkpoint : Text → List Event → Result WorkCheckpoint
unfolding visit_all
materialize_checkpoint contract_id events = do
  raise_if (is_empty contract_id) value_error
  d ← visit_all contract_id (empty_draft contract_id) events
  ok d.checkpoint
