-- ===== src/Fleet/Events.antt =====
-- Events, the fleet state that they materialize to, and each event's handler
-- (src/long_haul/events/store.py).
-- A payload is the keys that the code reads, `none` for a missing key, with values of the JSON type
-- that the writers give them; the conversion of the models nested in a payload
-- to JSON and back is the identity. Fleet.Controller has the file and its lines.
-- A handler that raises loses the state that it was building, so a handler returns a `Result`.
use long_haul.Prelude.{
  ℕ, Bool, true, Option, none, some, List, [], ◌∷◌, ◌&&◌, is_none, select, Text,
}
use long_haul.Prelude.Results.{Result, ok, err, value_error, key_error, ◌>>=◌}
use long_haul.Prelude.Dict.{Dict, get, values}
use long_haul.Fleet.Lease.{Datetime, ResourceLease, MissionRun, WorkAttempt, covers, instant_of}
use long_haul.Fleet.Models.{Vessel}

pub record Competence : Type 0 where
  pub domain : Text
  pub sample_count : ℕ

-- `artifact` is the foundation of the model artifact, `model` the legacy field.
pub record Embodiment : Type 0 where
  pub artifact : Option Text
  pub model : Option Text
  pub vessel : Text
  pub inference_profile_id : Option Text

abbrev truthy : Option Text → Option Text
truthy none = none
truthy (some []) = none
truthy (some (c ∷ cs)) = some (c ∷ cs)

abbrev with_artifact : Embodiment → Option Text → Option Text → Result Embodiment
with_artifact e (some a) m = ok e
with_artifact e none (some m) = ok (record e { artifact = some m })
with_artifact e none none = err value_error

-- Embodiment.migrate_model
unfoldable pub migrate_model : Embodiment → Result Embodiment
migrate_model e = with_artifact e e.artifact (truthy e.model)

pub record CrewMember : Type 0 where
  pub crew_id : Text
  pub callsign : Text
  pub primary_role : Text
  pub embodiment : Option Embodiment
  pub competence : List Competence
  pub generation : ℕ

pub data EventType : Type 0 where
  observation self_report inference unknown request decision : EventType
  embodiment_change competence_update rupture repair : EventType
  resource_admitted resource_lease_renewed resource_disappeared : EventType
  work_contract_created work_attempt_started work_attempt_completed : EventType
  work_attempt_interrupted work_attempt_timed_out work_evidence : EventType
  work_disposition work_fact work_constraint work_subgoal : EventType
  work_failure work_failure_resolved work_artifact_verified : EventType
  evaluation_started evaluation_evidence evaluation_regression : EventType
  work_progress_intervention work_attempt_handed_back : EventType

pub record Payload : Type 0 where
  pub contract_id : Option Text
  pub crew_id : Option Text
  pub embodiment : Option Embodiment
  pub generation : Option ℕ
  pub competence : Option (List Competence)
  pub id : Option Text
  pub rupture_id : Option Text
  pub vessel : Option Vessel
  pub vessel_id : Option Text
  pub lease : Option ResourceLease
  pub lease_id : Option Text
  pub reason : Option Text
  pub interrupted_attempt_ids : Option (List Text)
  pub attempt_id : Option Text
  pub mission_id : Option Text
  pub restartable : Option Bool
  pub text : Option Text
  pub state : Option Text
  pub failure_id : Option Text
  pub detail : Option Text
  pub fingerprint : Option Text
  pub description : Option Text

abbrev pub no_payload : Payload
no_payload = record {
  contract_id = none;
  crew_id = none;
  embodiment = none;
  generation = none;
  competence = none;
  id = none;
  rupture_id = none;
  vessel = none;
  vessel_id = none;
  lease = none;
  lease_id = none;
  reason = none;
  interrupted_attempt_ids = none;
  attempt_id = none;
  mission_id = none;
  restartable = none;
  text = none;
  state = none;
  failure_id = none;
  detail = none;
  fingerprint = none;
  description = none;
}

pub record Event : Type 0 where
  pub id : Text
  pub timestamp : Datetime
  pub event_type : EventType
  pub payload : Payload

pub record FleetState : Type 0 where
  pub crew : Dict CrewMember
  pub ruptures : List Payload
  pub vessels : Dict Vessel
  pub unavailable_vessels : Dict Text
  pub attempts : Dict WorkAttempt
  pub missions : Dict MissionRun

-- vessel.id not in self.unavailable_vessels and (vessel.lease is None or vessel.lease.active(now))
unfoldable pub is_active : FleetState → Datetime → Vessel → Bool
unfolding covers get
is_active s now vessel =
    is_none (get s.unavailable_vessels vessel.id)
    && elim vessel.lease [ none ↦ true | some lease ↦ covers lease now ]

-- FleetState.active_vessels
unfoldable pub active_vessels : Datetime → FleetState → Option Datetime → Result (List Vessel)
unfolding is_active instant_of
active_vessels system s now = do
  instant ← instant_of system now
  ok (select (is_active s instant) (values s.vessels))

-- payload[key]
abbrev pub item {ℓ} : {A : Type ℓ} → Option A → Result A
item none = err key_error
item (some a) = ok a

-- payload.get(key, default)
abbrev pub item_or {ℓ} : {A : Type ℓ} → Option A → A → A
item_or none d = d
item_or (some a) d = a
