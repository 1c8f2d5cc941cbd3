-- ===== src/Fleet/Controller.antt =====
-- FleetLeaseController (src/long_haul/ephemeral.py) and EventStore (src/long_haul/events/store.py).
-- The store's file is its text, which is read line by line; pydantic's conversion of one event to
-- JSON and back is the parameter `codec`. The system's clock and the fresh event id are arguments
-- of every method.
pub mod Log
pub mod Relation
pub mod Coherence
pub mod Steps
pub mod History
mod Examples
pub mod Effects
use long_haul.Prelude.{
  ℕ, zero, suc, ◌+◌, ◌-◌, ◌*◌, ◌/◌, ◌%◌, ◌≤◌, ◌<◌, min, max, ◌≡◌, refl, sym, ap, ◌∙◌, ◌≢◌, ◌↔◌, ◌⊎◌,
  inl, inr, Bool, true, false, not, ◌&&◌, ◌||◌, Option, none, some, List, [], ◌∷◌, ◌++◌, map, arith,
  ltb, leb, nat_eq, if◌then◌else◌, nat_eq_iff, Bool-cases, Option-cases, is_some, is_none, length,
  take, drop, last_items, All, select, any, all, length-append, length-drop, length-take-le,
  length-last_items-le, length-select-le, any-append, all-append, Text, codes, ◌==◌, ==_refl,
  eq_of_==, eq_iff, contains, is_distinct,
}
use long_haul.Prelude.Results.{
  Fault, Result, ok, err, value_error, key_error, type_error, runtime_error, lease_error,
  verification_error, lifecycle_error, service_error, ◌>>=◌, ◌>>◌, raise_if, >>=-eq-ok,
  raise_if-eq-ok, Result-cases, is_ok,
}
use long_haul.Prelude.Strings.{strip, split_lines}
use long_haul.Prelude.Dict.{Dict, get, put, pop, values, get-put, get-pop}
use long_haul.Fleet.Lease.{
  Datetime, ResourceLease, VesselLifecycle, persistent, AttemptTermination, lease_lost,
  runner_interrupted, execution_timeout, WorkAttempt, is_running, instant_of, covers,
}
use long_haul.Fleet.Models.{Vessel}
use long_haul.Fleet.Events.{
  Event, EventType, Payload, no_payload, FleetState, resource_admitted, resource_lease_renewed,
  resource_disappeared, work_attempt_started, work_attempt_timed_out,
}
use long_haul.Fleet.Replay.{materialize}

-- Event.model_dump_json and Event.model_validate_json
pub record Codec : Type 0 where
  pub dump : Event → Text
  pub parse : Text → Result Event

-- The text of the file; a file that does not exist has no line.
abbrev pub EventStore : Type 0
EventStore = Text

abbrev pub is_blank : Text → Bool
is_blank [] = true
is_blank (c ∷ cs) = false

abbrev pub has_content : Text → Bool
has_content line = not (is_blank (strip line))

unfoldable pub parse_lines : Codec → List Text → Result (List Event)
parse_lines codec [] = ok []
parse_lines codec (line ∷ lines) = do
  event ← codec.parse line
  events ← parse_lines codec lines
  ok (event ∷ events)

-- EventStore.events
unfoldable pub read_events : Codec → EventStore → Result (List Event)
unfolding parse_lines split_lines strip
read_events codec store = parse_lines codec (select has_content (split_lines store))

-- EventStore.append
abbrev pub written : Codec → EventStore → Event → EventStore
written codec store event = store ++ (codec.dump event ++ 10 ∷ [])

unfoldable pub export_events : Codec → List Event → Text
export_events codec [] = []
export_events codec (event ∷ events) = codec.dump event ++ 10 ∷ export_events codec events

-- EventStore.export_jsonl
unfoldable pub export_jsonl : Codec → EventStore → Result Text
unfolding read_events export_events
export_jsonl codec store = do events ← read_events codec store; ok (export_events codec events)

-- What a call is given from outside: datetime.now(UTC) and uuid4().
pub record Ambient : Type 0 where
  pub system : Datetime
  pub event_id : Text

-- state
unfoldable pub state_of : Codec → EventStore → Result FleetState
unfolding materialize read_events
state_of codec store = do events ← read_events codec store; materialize events [] []

abbrev pub new_event : Ambient → Datetime → EventType → Payload → Event
new_event ambient at event_type payload = record {
  id = ambient.event_id;
  timestamp = at;
  event_type = event_type;
  payload = payload;
}

-- _append: the event, and the store with its line at the end
abbrev pub append :
    Codec → Ambient → EventStore → EventType → Payload → Datetime → Event × EventStore
append codec ambient store event_type payload at =
    let event = new_event ambient at event_type payload in (event, written codec store event)

abbrev is_persistent : VesselLifecycle → Bool
is_persistent persistent = true
is_persistent _ = false

abbrev pub admission : Vessel → Payload
admission vessel = record no_payload { vessel = some vessel }

-- vessel.lifecycle is PERSISTENT or vessel.lease is None, and otherwise the lease
abbrev leased : VesselLifecycle → Option ResourceLease → Result ResourceLease
leased persistent lease = err lifecycle_error
leased _ none = err lifecycle_error
leased _ (some lease) = ok lease

unfoldable pub is_admitted : FleetState → Text → Bool
unfolding get
is_admitted current vessel_id =
    is_some (get current.vessels vessel_id) && is_none (get current.unavailable_vessels vessel_id)

unfoldable pub admit :
    Codec → Ambient → EventStore → Vessel → Option Datetime → Result (Event × EventStore)
unfolding state_of instant_of covers is_admitted
admit codec ambient store vessel at = do
  instant ← instant_of ambient.system at
  lease ← leased vessel.lifecycle vessel.lease
  raise_if (not (covers lease instant)) lifecycle_error
  current ← state_of codec store
  raise_if (is_admitted current vessel.id) lifecycle_error
  ok (append codec ambient store resource_admitted (admission vessel) instant)

abbrev lease_of : Option Vessel → Option ResourceLease
lease_of none = none
lease_of (some vessel) = vessel.lease

abbrev matching : Text → Option ResourceLease → Result ResourceLease
matching lease_id none = err lifecycle_error
matching lease_id (some lease) = if lease.id == lease_id then ok lease else err lifecycle_error

-- The available vessel's lease, if it is the named one; the guard that three methods share.
unfoldable pub current_lease : FleetState → Text → Text → Result ResourceLease
unfolding get
current_lease current vessel_id lease_id = do
  raise_if (is_some (get current.unavailable_vessels vessel_id)) lifecycle_error
  matching lease_id (lease_of (get current.vessels vessel_id))

abbrev pub not_extending : Option Datetime → Datetime → Bool
not_extending none end = false
not_extending (some e) end = leb end.instant e.instant

abbrev pub renewed : ResourceLease → Datetime → ResourceLease
renewed lease end = record lease { expires_at = some end }

abbrev pub renewal : Text → ResourceLease → Payload
renewal vessel_id lease = record no_payload { vessel_id = some vessel_id; lease = some lease }

unfoldable pub renew :
    Codec
    → Ambient
    → EventStore
    → Text
    → Text
    → Datetime
    → Option Datetime
    → Result (Event × EventStore)
unfolding state_of instant_of covers current_lease
renew codec ambient store vessel_id lease_id expires_at at = do
  instant ← instant_of ambient.system at
  end ← instant_of ambient.system (some expires_at)
  current ← state_of codec store
  lease ← current_lease current vessel_id lease_id
  raise_if (not lease.renewable) lifecycle_error
  raise_if (not (covers lease instant) || leb end.instant instant.instant) lifecycle_error
  raise_if (not_extending lease.expires_at end) lifecycle_error
  ok (
      append codec ambient store resource_lease_renewed (renewal vessel_id (renewed lease end))
        instant)

pub record AttemptRequest : Type 0 where
  pub attempt_id : Text
  pub mission_id : Text
  pub vessel_id : Text
  pub lease_id : Text
  pub restartable : Bool

abbrev pub starting : AttemptRequest → Payload
starting r = record no_payload {
  attempt_id = some r.attempt_id;
  mission_id = some r.mission_id;
  vessel_id = some r.vessel_id;
  lease_id = some r.lease_id;
  restartable = some r.restartable;
}

unfoldable pub start_attempt :
    Codec → Ambient → EventStore → AttemptRequest → Option Datetime → Result (Event × EventStore)
unfolding state_of instant_of covers current_lease get
start_attempt codec ambient store r at = do
  instant ← instant_of ambient.system at
  current ← state_of codec store
  lease ← current_lease current r.vessel_id r.lease_id
  raise_if (not (covers lease instant)) lifecycle_error
  raise_if (is_some (get current.attempts r.attempt_id)) lifecycle_error
  ok (append codec ambient store work_attempt_started (starting r) instant)

-- attempt.status is RUNNING and it runs on that vessel under that lease
abbrev pub runs_on : Text → Text → WorkAttempt → Bool
runs_on vessel_id lease_id a =
    is_running a.status && (a.vessel_id == vessel_id) && (a.lease_id == lease_id)

abbrev pub interrupted : FleetState → Text → Text → List Text
interrupted current vessel_id lease_id =
    map (λ a. a.attempt_id) (select (runs_on vessel_id lease_id) (values current.attempts))

abbrev pub is_loss : AttemptTermination → Bool
is_loss execution_timeout = false
is_loss _ = true

-- reason.value
abbrev pub reason_text : AttemptTermination → Text
reason_text lease_lost = codes "lease_lost"
reason_text runner_interrupted = codes "runner_interrupted"
reason_text execution_timeout = codes "execution_timeout"

abbrev pub disappearance : Text → Text → AttemptTermination → List Text → Payload
disappearance vessel_id lease_id reason ids = record no_payload {
  vessel_id = some vessel_id;
  lease_id = some lease_id;
  reason = some (reason_text reason);
  interrupted_attempt_ids = some ids;
}

unfoldable pub disappear :
    Codec
    → Ambient
    → EventStore
    → Text
    → Text
    → AttemptTermination
    → Option Datetime
    → Result (Event × EventStore)
unfolding state_of instant_of current_lease
disappear codec ambient store vessel_id lease_id reason at = do
  instant ← instant_of ambient.system at
  raise_if (not (is_loss reason)) lifecycle_error
  current ← state_of codec store
  lease ← current_lease current vessel_id lease_id
  let ids = interrupted current vessel_id lease_id
  ok (
      append codec ambient store resource_disappeared (disappearance vessel_id lease_id reason ids)
        instant)

abbrev pub found_running : Option WorkAttempt → Bool
found_running none = false
found_running (some a) = is_running a.status

abbrev pub timing_out : Text → Payload
timing_out attempt_id = record no_payload {
  attempt_id = some attempt_id;
  reason = some (reason_text execution_timeout);
}

unfoldable pub record_execution_timeout :
    Codec → Ambient → EventStore → Text → Option Datetime → Result (Event × EventStore)
unfolding state_of instant_of get
record_execution_timeout codec ambient store attempt_id at = do
  instant ← instant_of ambient.system at
  current ← state_of codec store
  raise_if (not (found_running (get current.attempts attempt_id))) lifecycle_error
  ok (append codec ambient store work_attempt_timed_out (timing_out attempt_id) instant)
