-- ===== src/Fleet/Controller/Relation.antt =====
-- The fleet as a transition system: one constructor for each event that the controller appends, and
-- one for an attempt that is ended (by a timeout, or by a completion or an interruption that its
-- runner appends). Other events leave vessels, attempts and missions alone and are not steps.
use long_haul.Prelude.{
  ◌<◌, ◌≡◌, inl, inr, Bool, true, false, not, ◌&&◌, ◌||◌, Option, none, some, [], arith,
  Option-cases, is_none, Text, ◌==◌, eq_iff,
}
use long_haul.Prelude.Results.{ok}
use long_haul.Prelude.Dict.{get, put, pop}
use long_haul.Fleet.Lease.{
  Datetime, ResourceLease, AttemptStatus, running, AttemptTermination, WorkAttempt, is_running,
  validate_lease, covers,
}
use long_haul.Fleet.Models.{Vessel, validate_vessel}
use long_haul.Fleet.Events.{Event, FleetState}
use long_haul.Fleet.Replay.{end_attempt, end_all, start, initial}
use long_haul.Fleet.Replay.Missions.{Agrees}
use long_haul.Fleet.Controller.{current_lease, is_admitted, interrupted, renewed, is_loss, lease_of}

abbrev pub admitted : FleetState → Vessel → FleetState
admitted s v = record s {
  vessels = put s.vessels v.id v;
  unavailable_vessels = pop s.unavailable_vessels v.id;
}

abbrev pub extended : FleetState → Text → Vessel → ResourceLease → FleetState
extended s vessel_id v lease = record s {
  vessels = put s.vessels vessel_id (record v { lease = some lease });
}

abbrev pub lost : FleetState → Text → Text → Event → AttemptTermination → FleetState
lost s vessel_id lease_id event reason =
    end_all (record s { unavailable_vessels = put s.unavailable_vessels vessel_id lease_id })
      (interrupted s vessel_id lease_id) event reason

pub data Step (s : FleetState) : FleetState → Type 0 where
  admits :
      (v : Vessel) (l : ResourceLease) (now : Datetime)
      → validate_vessel v ≡ ok v
      → v.lease ≡ some l
      → covers l now ≡ true
      → is_admitted s v.id ≡ false
      → Step s (admitted s v)
  renews :
      (vessel_id lease_id : Text) (v : Vessel) (l : ResourceLease) (end now : Datetime)
      → get s.vessels vessel_id ≡ some v
      → current_lease s vessel_id lease_id ≡ ok l
      → covers l now ≡ true
      → now.instant < end.instant
      → end.is_aware ≡ true
      → Step s (extended s vessel_id v (renewed l end))
  starts :
      (w : WorkAttempt) (l : ResourceLease)
      → w.status ≡ running
      → current_lease s w.vessel_id w.lease_id ≡ ok l
      → covers l w.started_at ≡ true
      → get s.attempts w.attempt_id ≡ none
      → Step s (start s w)
  disappears :
      (vessel_id lease_id : Text) (l : ResourceLease) (event : Event) (reason : AttemptTermination)
      → current_lease s vessel_id lease_id ≡ ok l
      → is_loss reason ≡ true
      → Step s (lost s vessel_id lease_id event reason)
  closes :
      (attempt_id : Text) (event : Event) (status : AttemptStatus) (t : Option AttemptTermination)
      → is_running status ≡ false
      → Step s (end_attempt s attempt_id event status t)

-- The states that steps lead to from the empty fleet.
pub data Reach : FleetState → Type 0 where
  empty : Reach (initial [] [])
  next : {s t : FleetState} → Reach s → Step s t → Reach t

unfoldable pub lease_is : Text → Option Vessel → Bool
lease_is lease_id none = false
lease_is lease_id (some v) = elim v.lease [ none ↦ false | some l ↦ l.id == lease_id ]

-- The attempt is over, or its vessel is available under the lease that it was started with.
unfoldable pub is_supported : FleetState → Option WorkAttempt → Bool
unfolding lease_is
is_supported s none = true
is_supported s (some w) =
    not (is_running w.status)
    || (is_none (get s.unavailable_vessels w.vessel_id)
        && lease_is w.lease_id (get s.vessels w.vessel_id))

abbrev pub ValidLease : Option ResourceLease → Type 0
ValidLease none = Unit
ValidLease (some l) = validate_lease l ≡ ok l

abbrev pub ValidVessel : Option Vessel → Type 0
ValidVessel none = Unit
ValidVessel (some v) = ValidLease v.lease

pub record IsCoherent (s : FleetState) : Type 0 where
  pub agrees : Agrees s
  pub supported : (a : Text) → is_supported s (get s.attempts a) ≡ true
  pub valid : (k : Text) → ValidVessel (get s.vessels k)

pub current_lease-ok :
    (s : FleetState) (vessel_id lease_id : Text) (l : ResourceLease)
    → current_lease s vessel_id lease_id ≡ ok l
    → (get s.unavailable_vessels vessel_id ≡ none)
      × (lease_of (get s.vessels vessel_id) ≡ some l)
      × (l.id ≡ lease_id)
unfolding current_lease
current_lease-ok s vessel_id lease_id l h =
    elim (Option-cases (get s.unavailable_vessels vessel_id)) [
      | inl available ↦ elim (Option-cases (lease_of (get s.vessels vessel_id))) [
        | inl nothing ↦ absurd (ground arith)
        | inr (l', there) ↦ (
          available,
          ground (arith, eq_iff l'.id lease_id),
          ground (arith, eq_iff l'.id lease_id),
        )
      ]
      | inr (x, gone) ↦ absurd (ground arith)
    ]
