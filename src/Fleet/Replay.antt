-- ===== src/Fleet/Replay.antt =====
-- The handlers of the events and materialize (src/long_haul/events/store.py).
pub mod Attempts
pub mod Keyed
pub mod Missions
use long_haul.Prelude.{
  ℕ, zero, suc, ◌+◌, ◌-◌, ◌*◌, ◌/◌, ◌%◌, ◌≤◌, ◌<◌, min, max, ◌≡◌, refl, sym, ap, ◌∙◌, ◌≢◌, ◌↔◌, ◌⊎◌,
  inl, inr, Bool, true, false, not, ◌&&◌, ◌||◌, Option, none, some, List, [], ◌∷◌, ◌++◌, map, arith,
  ltb, leb, nat_eq, if◌then◌else◌, nat_eq_iff, Bool-cases, Option-cases, is_some, is_none, length,
  take, drop, last_items, All, select, any, all, length-append, length-drop, length-take-le,
  length-last_items-le, length-select-le, any-append, all-append, Text, codes, ◌==◌, ==_refl,
  eq_of_==, eq_iff, contains, is_distinct,
}
use long_haul.Prelude.Results.{
  Fault, Result, ok, err, value_error, key_error, type_error, runtime_error, lease_error,
  verification_error, lifecycle_error, service_error, ◌>>=◌, ◌>>◌, raise_if, >>=-eq-ok,
  raise_if-eq-ok, Result-cases, is_ok,
}
use long_haul.Prelude.Dict.{Dict, get, put, pop, values, get-put, get-pop}
use long_haul.Fleet.Lease.{
  Datetime, ResourceLease, AttemptStatus, running, inconclusive, timed_out, AttemptTermination,
  lease_lost, runner_interrupted, execution_timeout, MissionRunStatus, active, replan_required,
  MissionRun, WorkAttempt, is_running, validate_lease, or_now, covers,
}
use long_haul.Fleet.Models.{Vessel, validate_vessel}
use long_haul.Fleet.Events.{
  CrewMember, Competence, Event, EventType, Payload, FleetState, item, item_or, migrate_model,
  embodiment_change, competence_update, rupture, repair, resource_admitted, resource_lease_renewed,
  resource_disappeared, work_attempt_started, work_attempt_completed, work_attempt_interrupted,
  work_attempt_timed_out,
}

abbrev new_mission : Text → MissionRun
new_mission mission_id = record {
  mission_id = mission_id;
  status = active;
  attempt_ids = [];
  active_attempt_ids = [];
}

-- _mission: the entry, or a new one; the caller stores what it makes of it
unfoldable pub mission_of : FleetState → Text → MissionRun
unfolding get
mission_of state mission_id = elim (get state.missions mission_id) [
  | none ↦ new_mission mission_id
  | some m ↦ m
]

-- AttemptTermination(value)
unfoldable pub termination_of : Text → Result AttemptTermination
termination_of value =
    if value == codes "lease_lost"
    then ok lease_lost
    else if value == codes "runner_interrupted"
    then ok runner_interrupted
    else if value == codes "execution_timeout"
    then ok execution_timeout
    else err value_error

abbrev not_timeout : AttemptTermination → Result AttemptTermination
not_timeout execution_timeout = err value_error
not_timeout reason = ok reason

-- _interruption_reason
unfoldable pub interruption_reason : Text → Result AttemptTermination
unfolding termination_of
interruption_reason value = do reason ← termination_of value; not_timeout reason

-- The mission's status once its active attempts are known.
abbrev pub status_after : List Text → AttemptStatus → MissionRunStatus
status_after (a ∷ as') status = active
status_after [] AttemptStatus.completed = MissionRunStatus.completed
status_after [] _ = replan_required

abbrev pub without : Text → List Text → List Text
without a xs = select (λ x. not (x == a)) xs

abbrev pub ended : WorkAttempt → Event → AttemptStatus → Option AttemptTermination → WorkAttempt
ended attempt event status termination = record attempt {
  status = status;
  termination = termination;
  ended_at = some event.timestamp;
  end_event_id = some event.id;
}

abbrev pub mission_after : MissionRun → Text → AttemptStatus → MissionRun
mission_after m attempt_id status =
    let left = without attempt_id m.active_attempt_ids in
    record m { active_attempt_ids = left; status = status_after left status }

abbrev end_running :
    FleetState → Text → Event → AttemptStatus → Option AttemptTermination → WorkAttempt → FleetState
end_running state attempt_id event status termination attempt = record state {
  attempts = put state.attempts attempt_id (ended attempt event status termination);
  missions =
      put state.missions attempt.mission_id
        (mission_after (mission_of state attempt.mission_id) attempt_id status);
}

abbrev end_found :
    FleetState
    → Text
    → Event
    → AttemptStatus
    → Option AttemptTermination
    → Option WorkAttempt
    → FleetState
end_found state attempt_id event status termination none = state
end_found state attempt_id event status termination (some attempt) =
    if is_running attempt.status
    then end_running state attempt_id event status termination attempt
    else state

-- _end_attempt
unfoldable pub end_attempt :
    FleetState → Text → Event → AttemptStatus → Option AttemptTermination → FleetState
unfolding get put mission_of
end_attempt state attempt_id event status termination =
    end_found state attempt_id event status termination (get state.attempts attempt_id)

-- _apply_embodiment_change
unfoldable pub apply_embodiment_change : FleetState → Event → Result FleetState
unfolding get put migrate_model
apply_embodiment_change state event = do
  crew_id ← item event.payload.crew_id
  member ← item (get state.crew crew_id)
  given ← item event.payload.embodiment
  embodiment ← migrate_model given
  let generation = item_or event.payload.generation (member.generation + 1)
  ok (record state {
    crew =
        put state.crew crew_id
          (record member { embodiment = some embodiment; generation = generation });
  })

-- _apply_competence_update
unfoldable pub apply_competence_update : FleetState → Event → Result FleetState
unfolding get put
apply_competence_update state event = do
  crew_id ← item event.payload.crew_id
  member ← item (get state.crew crew_id)
  competence ← item event.payload.competence
  ok (record state { crew = put state.crew crew_id (record member { competence = competence }) })

-- _apply_rupture
abbrev pub apply_rupture : FleetState → Event → FleetState
apply_rupture state event = record state { ruptures = state.ruptures ++ event.payload ∷ [] }

abbrev pub same_id : Option Text → Option Text → Bool
same_id none none = true
same_id (some a) (some b) = a == b
same_id _ _ = false

-- _apply_repair
abbrev pub apply_repair : FleetState → Event → FleetState
apply_repair state event = record state {
  ruptures = select (λ r. not (same_id r.id event.payload.rupture_id)) state.ruptures;
}

-- _apply_resource_admitted
unfoldable pub apply_resource_admitted : FleetState → Event → Result FleetState
unfolding put pop validate_vessel
apply_resource_admitted state event = do
  given ← item event.payload.vessel
  vessel ← validate_vessel given
  ok (record state {
    vessels = put state.vessels vessel.id vessel;
    unavailable_vessels = pop state.unavailable_vessels vessel.id;
  })

abbrev renew_found : FleetState → Event → Text → Option Vessel → Result FleetState
renew_found state event vessel_id none = ok state
renew_found state event vessel_id (some vessel) = do
  given ← item event.payload.lease
  lease ← validate_lease given
  ok (record state { vessels = put state.vessels vessel_id (record vessel { lease = some lease }) })

-- _apply_resource_lease_renewed
unfoldable pub apply_resource_lease_renewed : FleetState → Event → Result FleetState
unfolding get put validate_lease
apply_resource_lease_renewed state event = do
  vessel_id ← item event.payload.vessel_id
  renew_found state event vessel_id (get state.vessels vessel_id)

-- The loop over the interrupted attempts.
unfoldable pub end_all : FleetState → List Text → Event → AttemptTermination → FleetState
unfolding end_attempt
end_all state [] event reason = state
end_all state (attempt_id ∷ ids) event reason =
    end_all (end_attempt state attempt_id event inconclusive (some reason)) ids event reason

-- _apply_resource_disappeared
unfoldable pub apply_resource_disappeared : FleetState → Event → Result FleetState
unfolding put interruption_reason end_all
apply_resource_disappeared state event = do
  vessel_id ← item event.payload.vessel_id
  lease_id ← item event.payload.lease_id
  let gone = record state { unavailable_vessels = put state.unavailable_vessels vessel_id lease_id }
  value ← item event.payload.reason
  reason ← interruption_reason value
  ok (end_all gone (item_or event.payload.interrupted_attempt_ids []) event reason)

abbrev pub new_attempt : Event → Text → Text → Text → Text → WorkAttempt
new_attempt event attempt_id mission_id vessel_id lease_id = record {
  attempt_id = attempt_id;
  mission_id = mission_id;
  vessel_id = vessel_id;
  lease_id = lease_id;
  restartable = item_or event.payload.restartable false;
  status = running;
  termination = none;
  started_at = event.timestamp;
  ended_at = none;
  start_event_id = event.id;
  end_event_id = none;
}

abbrev pub mission_with : MissionRun → Text → MissionRun
mission_with m attempt_id = record m {
  status = active;
  attempt_ids = m.attempt_ids ++ attempt_id ∷ [];
  active_attempt_ids = m.active_attempt_ids ++ attempt_id ∷ [];
}

unfoldable pub start : FleetState → WorkAttempt → FleetState
unfolding put mission_of
start state attempt = record state {
  attempts = put state.attempts attempt.attempt_id attempt;
  missions =
      put state.missions attempt.mission_id
        (mission_with (mission_of state attempt.mission_id) attempt.attempt_id);
}

-- _apply_work_attempt_started
unfoldable pub apply_work_attempt_started : FleetState → Event → Result FleetState
unfolding start
apply_work_attempt_started state event = do
  attempt_id ← item event.payload.attempt_id
  mission_id ← item event.payload.mission_id
  vessel_id ← item event.payload.vessel_id
  lease_id ← item event.payload.lease_id
  ok (start state (new_attempt event attempt_id mission_id vessel_id lease_id))

-- _apply_work_attempt_interrupted
unfoldable pub apply_work_attempt_interrupted : FleetState → Event → Result FleetState
unfolding end_attempt interruption_reason
apply_work_attempt_interrupted state event = do
  attempt_id ← item event.payload.attempt_id
  value ← item event.payload.reason
  reason ← interruption_reason value
  ok (end_attempt state attempt_id event inconclusive (some reason))

-- _apply_work_attempt_timed_out
unfoldable pub apply_work_attempt_timed_out : FleetState → Event → Result FleetState
unfolding end_attempt
apply_work_attempt_timed_out state event = do
  attempt_id ← item event.payload.attempt_id
  ok (end_attempt state attempt_id event timed_out (some execution_timeout))

abbrev complete_found : FleetState → Event → Option Text → FleetState
complete_found state event none = state
complete_found state event (some attempt_id) =
    end_attempt state attempt_id event AttemptStatus.completed none

-- _apply_work_attempt_completed
unfoldable pub apply_work_attempt_completed : FleetState → Event → FleetState
unfolding end_attempt
apply_work_attempt_completed state event = complete_found state event event.payload.attempt_id

-- The dispatch table _EVENT_HANDLERS.
unfoldable pub handle : EventType → FleetState → Event → Result FleetState
unfolding apply_embodiment_change apply_competence_update apply_resource_admitted
    apply_resource_lease_renewed apply_resource_disappeared apply_work_attempt_started
    apply_work_attempt_interrupted apply_work_attempt_timed_out apply_work_attempt_completed
handle embodiment_change state event = apply_embodiment_change state event
handle competence_update state event = apply_competence_update state event
handle rupture state event = ok (apply_rupture state event)
handle repair state event = ok (apply_repair state event)
handle resource_admitted state event = apply_resource_admitted state event
handle resource_lease_renewed state event = apply_resource_lease_renewed state event
handle resource_disappeared state event = apply_resource_disappeared state event
handle work_attempt_started state event = apply_work_attempt_started state event
handle work_attempt_interrupted state event = apply_work_attempt_interrupted state event
handle work_attempt_timed_out state event = apply_work_attempt_timed_out state event
handle work_attempt_completed state event = ok (apply_work_attempt_completed state event)
handle _ state event = ok state

-- _apply_event
unfoldable pub apply_event : FleetState → Event → Result FleetState
unfolding handle
apply_event state event = handle event.event_type state event

-- The loop of materialize.
unfoldable pub replay : FleetState → List Event → Result FleetState
unfolding apply_event
replay state [] = ok state
replay state (event ∷ events) = do state' ← apply_event state event; replay state' events

-- {item.id: item for item in items}, continued from d
unfoldable pub index_crew : Dict CrewMember → List CrewMember → Dict CrewMember
unfolding put
index_crew d [] = d
index_crew d (m ∷ ms) = index_crew (put d m.crew_id m) ms

unfoldable pub index_vessels : Dict Vessel → List Vessel → Dict Vessel
unfolding put
index_vessels d [] = d
index_vessels d (v ∷ vs) = index_vessels (put d v.id v) vs

abbrev pub initial : List CrewMember → List Vessel → FleetState
initial crew vessels = record {
  crew = index_crew [] crew;
  ruptures = [];
  vessels = index_vessels [] vessels;
  unavailable_vessels = [];
  attempts = [];
  missions = [];
}

unfoldable pub materialize : List Event → List CrewMember → List Vessel → Result FleetState
unfolding replay index_crew index_vessels
materialize events crew vessels = replay (initial crew vessels) events
