-- ===== src/Fleet/Controller/Steps.antt =====
-- Each method of the controller: what it appends replays, and is one step of the fleet.
use mathlib.Core.Path.{subst}
use long_haul.Prelude.{
  sym, ap, ◌<◌, ◌≡◌, refl, ◌∙◌, inl, inr, true, not, ◌||◌, Option, none, some, arith, leb,
  Option-cases, is_some, Text, ◌==◌,
}
use long_haul.Prelude.Results.{ok, lifecycle_error, >>=-eq-ok, passed}
use long_haul.Prelude.Dict.{get}
use long_haul.Fleet.Lease.{
  Datetime, VesselLifecycle, persistent, ephemeral, external, ResourceLease, timed_out,
  AttemptTermination, lease_lost, runner_interrupted, execution_timeout, instant_of, covers,
  validate_lease,
}
use long_haul.Fleet.Models.{Vessel, validate_vessel}
use long_haul.Fleet.Events.{
  Event, FleetState, resource_admitted, resource_lease_renewed, resource_disappeared,
  work_attempt_started, work_attempt_timed_out,
}
use long_haul.Fleet.Replay.{
  apply_event, handle, new_attempt, interruption_reason, apply_resource_admitted,
  apply_resource_lease_renewed, apply_resource_disappeared, apply_work_attempt_started,
  apply_work_attempt_timed_out, start, end_attempt,
}
use long_haul.Fleet.Controller.{
  Codec, written, EventStore, Ambient, AttemptRequest, state_of, admit, renew, start_attempt,
  disappear, record_execution_timeout, current_lease, interrupted, renewed, reason_text, is_loss,
  new_event, admission, renewal, starting, disappearance, timing_out, leased, is_admitted,
  found_running, not_extending,
}
use long_haul.Fleet.Controller.Coherence.{lease_valid-renewed}
use long_haul.Fleet.Controller.Relation.{
  ValidVessel, Step, admits, renews, starts, disappears, closes, current_lease-ok, admitted,
  extended, lost,
}

-- The call wrote one event, which is a step from the fleet before it.
abbrev pub Advances : Codec → EventStore → FleetState → Event × EventStore → Type 0
Advances codec store s (e, store') =
    (store' ≡ written codec store e) × ((t : FleetState) × (apply_event s e ≡ ok t) × Step s t)

leased-ok :
    (c : VesselLifecycle) (o : Option ResourceLease) (l : ResourceLease)
    → leased c o ≡ ok l
    → o ≡ some l
leased-ok persistent o l h = cc
leased-ok ephemeral none l h = cc
leased-ok ephemeral (some l') l h = cc
leased-ok external none l h = cc
leased-ok external (some l') l h = cc

instant_of-aware :
    (system : Datetime) (at : Option Datetime) (instant : Datetime)
    → instant_of system at ≡ ok instant
    → instant.is_aware ≡ true
unfolding instant_of
instant_of-aware system at instant h = ground arith

vessel-current_lease :
    (s : FleetState) (vessel_id lease_id : Text) (l : ResourceLease)
    → current_lease s vessel_id lease_id ≡ ok l
    → (v : Vessel) × (get s.vessels vessel_id ≡ some v) × (v.lease ≡ some l)
vessel-current_lease s vessel_id lease_id l h =
    let (available, found, same) = current_lease-ok s vessel_id lease_id l h in
    elim (Option-cases (get s.vessels vessel_id)) [
      | inl nothing ↦ absurd (ground arith)
      | inr (v, there) ↦ (v, there, ground arith)
    ]

interruption_reason-text :
    (reason : AttemptTermination)
    → is_loss reason ≡ true
    → interruption_reason (reason_text reason) ≡ ok reason
unfolding interruption_reason ◌==◌
interruption_reason-text lease_lost h = refl
interruption_reason-text runner_interrupted h = refl
interruption_reason-text execution_timeout h = cc

advance :
    (codec : Codec) (store : EventStore) (s t : FleetState) (e : Event)
    → apply_event s e ≡ ok t
    → Step s t
    → Advances codec store s (e, written codec store e)
advance codec store s t e ran st = (refl, (t, ran, st))

module _ (codec : Codec) (ambient : Ambient) (store : EventStore) (s : FleetState)
    (now : state_of codec store ≡ ok s) where
  pub admit-Advances :
      (v : Vessel) (at : Option Datetime) (out : Event × EventStore)
      → validate_vessel v ≡ ok v
      → admit codec ambient store v at ≡ ok out
      → Advances codec store s out
  unfolding admit apply_event handle apply_resource_admitted
  admit-Advances v at out sound h =
      let (instant, is_instant, h1) = >>=-eq-ok (instant_of ambient.system at) _ h in
      let (l, has_lease, h2) = >>=-eq-ok (leased v.lifecycle v.lease) _ h1 in
      let (is_covered, h3) = passed (not (covers l instant)) lifecycle_error _ h2 in
      let (current, is_current, h4) = >>=-eq-ok (state_of codec store) _ h3 in
      let same : current ≡ s = ground arith in
      let (is_new, h5) = passed (is_admitted current v.id) lifecycle_error _ h4 in
      let e = new_event ambient instant resource_admitted (admission v) in
      let out_is : (e, written codec store e) ≡ out = cc h5 in
      let ran : apply_event s e ≡ ok (admitted s v) = rw sound refl in
      let leased_by = leased-ok v.lifecycle v.lease l has_lease in
      rw (← out_is) (
        advance codec store s (admitted s v) e ran
          (admits v l instant sound leased_by (ground arith) (rw (← same) is_new)))

  pub start_attempt-Advances :
      (r : AttemptRequest) (at : Option Datetime) (out : Event × EventStore)
      → start_attempt codec ambient store r at ≡ ok out
      → Advances codec store s out
  unfolding start_attempt apply_event handle apply_work_attempt_started
  start_attempt-Advances r at out h =
      let (instant, is_instant, h1) = >>=-eq-ok (instant_of ambient.system at) _ h in
      let (current, is_current, h2) = >>=-eq-ok (state_of codec store) _ h1 in
      let same : current ≡ s = ground arith in
      let (l, has_lease, h3) = >>=-eq-ok (current_lease current r.vessel_id r.lease_id) _ h2 in
      let (is_covered, h4) = passed (not (covers l instant)) lifecycle_error _ h3 in
      let (is_new, h5) =
        passed (is_some (get current.attempts r.attempt_id)) lifecycle_error _ h4 in
      let e = new_event ambient instant work_attempt_started (starting r) in
      let w = new_attempt e r.attempt_id r.mission_id r.vessel_id r.lease_id in
      let out_is : (e, written codec store e) ≡ out = cc h5 in
      rw (← out_is) (
        advance codec store s (start s w) e refl
          (starts w l refl (rw (← same) has_lease) (ground arith) (ground arith)))

  -- What disappear appends, and what its handler makes of the fleet.
  pub disappear-lost :
      (vessel_id lease_id : Text) (reason : AttemptTermination) (at : Option Datetime) (e : Event)
      (store' : EventStore)
      → disappear codec ambient store vessel_id lease_id reason at ≡ ok (e, store')
      → (l : ResourceLease) × (store' ≡ written codec store e)
        × (apply_event s e ≡ ok (lost s vessel_id lease_id e reason))
        × (current_lease s vessel_id lease_id ≡ ok l)
        × (is_loss reason ≡ true)
  unfolding disappear apply_event handle apply_resource_disappeared interruption_reason
  disappear-lost vessel_id lease_id reason at e store' h =
      let (instant, is_instant, h1) = >>=-eq-ok (instant_of ambient.system at) _ h in
      let (is_lost, h2) = passed (not (is_loss reason)) lifecycle_error _ h1 in
      let (current, is_current, h3) = >>=-eq-ok (state_of codec store) _ h2 in
      let same : current ≡ s = ground arith in
      let (l, has_lease, h4) = >>=-eq-ok (current_lease current vessel_id lease_id) _ h3 in
      let payload = disappearance vessel_id lease_id reason (interrupted s vessel_id lease_id) in
      let made = new_event ambient instant resource_disappeared payload in
      let event_is : made ≡ e = cc (h4, same) in
      let store_is : written codec store made ≡ store' = cc (h4, same) in
      let loss : is_loss reason ≡ true = ground arith in
      let ran : apply_event s made ≡ ok (lost s vessel_id lease_id made reason) =
        rw (interruption_reason-text reason loss) refl in
      (
        l,
        sym store_is ∙ ap (written codec store) event_is,
        subst (λ (x : Event). apply_event s x ≡ ok (lost s vessel_id lease_id x reason)) event_is
            ran,
        rw (← same) has_lease,
        loss,
      )

  pub disappear-Advances :
      (vessel_id lease_id : Text) (reason : AttemptTermination) (at : Option Datetime)
      (out : Event × EventStore)
      → disappear codec ambient store vessel_id lease_id reason at ≡ ok out
      → Advances codec store s out
  disappear-Advances vessel_id lease_id reason at (e, store') h =
      let (l, grown, ran, held, loss) = disappear-lost vessel_id lease_id reason at e store' h in
      (
        grown,
        (
          lost s vessel_id lease_id e reason,
          ran,
          disappears vessel_id lease_id l e reason held loss,
        ),
      )

  pub record_execution_timeout-Advances :
      (attempt_id : Text) (at : Option Datetime) (out : Event × EventStore)
      → record_execution_timeout codec ambient store attempt_id at ≡ ok out
      → Advances codec store s out
  unfolding record_execution_timeout apply_event handle apply_work_attempt_timed_out
  record_execution_timeout-Advances attempt_id at out h =
      let (instant, is_instant, h1) = >>=-eq-ok (instant_of ambient.system at) _ h in
      let (current, is_current, h2) = >>=-eq-ok (state_of codec store) _ h1 in
      let same : current ≡ s = ground arith in
      let (runs, h3) =
        passed (not (found_running (get current.attempts attempt_id))) lifecycle_error _ h2 in
      let e = new_event ambient instant work_attempt_timed_out (timing_out attempt_id) in
      let out_is : (e, written codec store e) ≡ out = cc h3 in
      rw (← out_is) (
        advance codec store s (end_attempt s attempt_id e timed_out (some execution_timeout)) e refl
          (closes attempt_id e timed_out (some execution_timeout) refl))

  pub renew-Advances :
      (vessel_id lease_id : Text) (expires_at : Datetime) (at : Option Datetime)
      (out : Event × EventStore)
      → ((k : Text) → ValidVessel (get s.vessels k))
      → renew codec ambient store vessel_id lease_id expires_at at ≡ ok out
      → Advances codec store s out
  unfolding renew apply_event handle apply_resource_lease_renewed
  renew-Advances vessel_id lease_id expires_at at out valid h =
      let (instant, is_instant, h1) = >>=-eq-ok (instant_of ambient.system at) _ h in
      let (end, is_end, h2) = >>=-eq-ok (instant_of ambient.system (some expires_at)) _ h1 in
      let (current, is_current, h3) = >>=-eq-ok (state_of codec store) _ h2 in
      let same : current ≡ s = ground arith in
      let (l, has_lease, h4) = >>=-eq-ok (current_lease current vessel_id lease_id) _ h3 in
      let (may_renew, h5) = passed (not l.renewable) lifecycle_error _ h4 in
      let (is_covered, h6) =
        passed (not (covers l instant) || leb end.instant instant.instant) lifecycle_error _ h5 in
      let (extends, h7) = passed (not_extending l.expires_at end) lifecycle_error _ h6 in
      let e =
        new_event ambient instant resource_lease_renewed (renewal vessel_id (renewed l end)) in
      let out_is : (e, written codec store e) ≡ out = cc h7 in
      let held : current_lease s vessel_id lease_id ≡ ok l = rw (← same) has_lease in
      let (v, there, leased_by) = vessel-current_lease s vessel_id lease_id l held in
      let aware = instant_of-aware ambient.system (some expires_at) end is_end in
      let covered : covers l instant ≡ true = ground arith in
      let later : instant.instant < end.instant = ground arith in
      let sound : validate_lease l ≡ ok l = ground (arith, valid vessel_id) in
      let kept = lease_valid-renewed l end instant sound covered later aware in
      let ran : apply_event s e ≡ ok (extended s vessel_id v (renewed l end)) =
        rw there (rw kept refl) in
      rw (← out_is) (
        advance codec store s (extended s vessel_id v (renewed l end)) e ran
          (renews vessel_id lease_id v l end instant there held covered later aware))
