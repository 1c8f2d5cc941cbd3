-- ===== src/Fleet/Lease.antt =====
-- Leases, attempts and missions (the data types of src/long_haul/ephemeral.py).
-- A datetime is a number of ticks with its timezone-awareness; two datetimes are compared only
-- where the source has checked that both are aware. `cost_metadata` is left out.
use long_haul.Prelude.{ℕ, Bool, true, false, not, ◌&&◌, Option, none, some, List, ltb, leb, Text}
use long_haul.Prelude.Results.{Result, ok, value_error, ◌>>◌, raise_if}

pub record Datetime : Type 0 where
  pub instant : ℕ
  pub is_aware : Bool

pub data VesselLifecycle : Type 0 where
  persistent ephemeral external : VesselLifecycle

pub data AttemptStatus : Type 0 where
  running inconclusive timed_out completed : AttemptStatus

pub data AttemptTermination : Type 0 where
  lease_lost runner_interrupted execution_timeout : AttemptTermination

pub data MissionRunStatus : Type 0 where
  active replan_required completed : MissionRunStatus

pub record ResourceLease : Type 0 where
  pub id : Text
  pub acquired_at : Datetime
  pub expires_at : Option Datetime
  pub preemptible : Bool
  pub renewable : Bool
  pub trust_domain : Text
  pub durable_state : Bool

abbrev validate_expiry : ResourceLease → Option Datetime → Result ResourceLease
validate_expiry l none = ok l
validate_expiry l (some e) = do
  raise_if (not e.is_aware) value_error
  raise_if (leb e.instant l.acquired_at.instant) value_error
  ok l

-- ResourceLease.validate_lease
unfoldable pub validate_lease : ResourceLease → Result ResourceLease
validate_lease l = do
  raise_if (not l.acquired_at.is_aware) value_error
  validate_expiry l l.expires_at

-- now or datetime.now(UTC), with the system's clock as an argument
abbrev pub or_now : Datetime → Option Datetime → Datetime
or_now system none = system
or_now system (some now) = now

abbrev pub before_expiry : Option Datetime → Datetime → Bool
before_expiry none now = true
before_expiry (some e) now = ltb now.instant e.instant

-- The result of ResourceLease.active at an aware time.
unfoldable pub covers : ResourceLease → Datetime → Bool
covers l now = leb l.acquired_at.instant now.instant && before_expiry l.expires_at now

-- ResourceLease.active
unfoldable pub active_at : Datetime → ResourceLease → Option Datetime → Result Bool
unfolding covers
active_at system l now = do
  raise_if (not (or_now system now).is_aware) value_error
  ok (covers l (or_now system now))

pub record WorkAttempt : Type 0 where
  pub attempt_id : Text
  pub mission_id : Text
  pub vessel_id : Text
  pub lease_id : Text
  pub restartable : Bool
  pub status : AttemptStatus
  pub termination : Option AttemptTermination
  pub started_at : Datetime
  pub ended_at : Option Datetime
  pub start_event_id : Text
  pub end_event_id : Option Text

pub record MissionRun : Type 0 where
  pub mission_id : Text
  pub status : MissionRunStatus
  pub attempt_ids : List Text
  pub active_attempt_ids : List Text

abbrev pub is_running : AttemptStatus → Bool
is_running running = true
is_running _ = false

-- _instant
unfoldable pub instant_of : Datetime → Option Datetime → Result Datetime
instant_of system value = do
  raise_if (not (or_now system value).is_aware) value_error
  ok (or_now system value)
