-- ===== src/Fleet/Controller/Coherence.antt =====
-- Every step keeps the fleet coherent.
use long_haul.Prelude.{
  ◌<◌, ◌≡◌, refl, ◌∙◌, inl, inr, true, false, Option, none, some, List, [], ◌∷◌, arith,
  if◌then◌else◌, Bool-cases, Option-cases, Text, ◌==◌, eq_iff, contains,
}
use long_haul.Prelude.Results.{ok, Result-cases}
use long_haul.Prelude.Dict.{get, put, get-put, get-pop}
use long_haul.Fleet.Lease.{
  Datetime, ResourceLease, AttemptStatus, running, inconclusive, AttemptTermination, WorkAttempt,
  is_running, validate_lease, covers,
}
use long_haul.Fleet.Models.{Vessel, validate_vessel, validate_resources}
use long_haul.Fleet.Events.{Event, FleetState}
use long_haul.Fleet.Replay.{end_attempt, end_all, start, initial, index_vessels}
use long_haul.Fleet.Replay.Attempts.{attempts-end_attempt, attempts-end_all, end_of}
use long_haul.Fleet.Replay.Keyed.{contains-ids, holds}
use long_haul.Fleet.Replay.Missions.{end_attempt-Agrees, end_all-Agrees, start-Agrees}
use long_haul.Fleet.Controller.{current_lease, is_admitted, interrupted, runs_on, renewed}
use long_haul.Fleet.Controller.Relation.{
  Step, admits, renews, starts, disappears, closes, Reach, empty, next, is_supported, lease_is,
  IsCoherent, current_lease-ok, admitted, extended, lost,
}

initial-IsCoherent : IsCoherent (initial [] [])
unfolding get contains is_supported index_vessels
initial-IsCoherent = record {
  agrees = record { active_exact = λ m a. refl; status_exact = λ m. refl; keyed = tt };
  supported = λ a. refl;
  valid = λ k. tt;
}

-- Neither table that support reads is changed by ending attempts.
vessels-end_attempt :
    (s : FleetState) (x : Text) (e : Event) (status : AttemptStatus) (t : Option AttemptTermination)
    → ((end_attempt s x e status t).vessels ≡ s.vessels)
      × ((end_attempt s x e status t).unavailable_vessels ≡ s.unavailable_vessels)
unfolding end_attempt
vessels-end_attempt s x e status t = ground arith

pub vessels-end_all :
    (s : FleetState) (ids : List Text) (e : Event) (r : AttemptTermination)
    → ((end_all s ids e r).vessels ≡ s.vessels)
      × ((end_all s ids e r).unavailable_vessels ≡ s.unavailable_vessels)
unfolding end_all
vessels-end_all s [] e r = (refl, refl)
vessels-end_all s (x ∷ ids) e r =
    let step = vessels-end_attempt s x e inconclusive (some r) in
    let rest = vessels-end_all (end_attempt s x e inconclusive (some r)) ids e r in
    (rest.0 ∙ step.0, rest.1 ∙ step.1)

closes-IsCoherent :
    (s : FleetState) (x : Text) (e : Event) (status : AttemptStatus) (t : Option AttemptTermination)
    → is_running status ≡ false
    → IsCoherent s
    → IsCoherent (end_attempt s x e status t)
unfolding is_supported
closes-IsCoherent s x e status t over h =
    let same = vessels-end_attempt s x e status t in
    record {
      agrees = end_attempt-Agrees s x e status t over h.agrees;
      supported =
          λ a. rw (attempts-end_attempt s x e status t a) (ground (arith, h.supported a, same));
      valid = λ k. rw (same.0) (h.valid k);
    }

supported-admitted :
    (s : FleetState) (v : Vessel) (o : Option WorkAttempt)
    → is_admitted s v.id ≡ false
    → is_supported s o ≡ true
    → is_supported (admitted s v) o ≡ true
unfolding is_supported is_admitted
supported-admitted s v none absent h = refl
supported-admitted s v (some w) absent h = ground (
  arith,
  eq_iff v.id w.vessel_id,
  get-put s.vessels v.id w.vessel_id v,
  get-pop s.unavailable_vessels v.id w.vessel_id,
)

supported-extended :
    (s : FleetState) (vessel_id : Text) (v : Vessel) (l : ResourceLease) (end : Datetime)
    (o : Option WorkAttempt)
    → get s.vessels vessel_id ≡ some v
    → v.lease ≡ some l
    → is_supported s o ≡ true
    → is_supported (extended s vessel_id v (renewed l end)) o ≡ true
unfolding is_supported lease_is
supported-extended s vessel_id v l end none there leased h = refl
supported-extended s vessel_id v l end (some w) there leased h = ground (
  arith,
  eq_iff vessel_id w.vessel_id,
  get-put s.vessels vessel_id w.vessel_id (record v { lease = some (renewed l end) }),
)

supported-started :
    (s : FleetState) (w : WorkAttempt) (l : ResourceLease)
    → current_lease s w.vessel_id w.lease_id ≡ ok l
    → is_supported s (some w) ≡ true
unfolding is_supported
supported-started s w l lease =
    let (available, there, same) = current_lease-ok s w.vessel_id w.lease_id l lease in
    elim (Option-cases (get s.vessels w.vessel_id)) [
      | inl nothing ↦ absurd (ground arith)
      | inr (v, found) ↦ ground (arith, eq_iff l.id w.lease_id)
    ]

starts-supported :
    (s : FleetState) (w : WorkAttempt) (o : Option WorkAttempt)
    → is_supported (start s w) o ≡ is_supported s o
unfolding is_supported start
starts-supported s w none = refl
starts-supported s w (some x) = refl

-- After a disappearance an attempt that is left running was on another vessel.
supported-lost :
    (s : FleetState) (vessel_id lease_id : Text) (l : ResourceLease) (e : Event)
    (r : AttemptTermination) (a : Text) (o : Option WorkAttempt)
    → current_lease s vessel_id lease_id ≡ ok l
    → is_supported s o ≡ true
    → is_supported
        (lost s vessel_id lease_id e r)
        (if holds (runs_on vessel_id lease_id) o then end_of e inconclusive (some r) o else o)
      ≡ true
unfolding is_supported
supported-lost s vessel_id lease_id l e r a none lease h = refl
supported-lost s vessel_id lease_id l e r a (some w) lease h =
    let (available, there, same) = current_lease-ok s vessel_id lease_id l lease in
    let gone = record s { unavailable_vessels = put s.unavailable_vessels vessel_id lease_id } in
    ground (
      arith,
      eq_iff vessel_id w.vessel_id,
      eq_iff w.vessel_id vessel_id,
      eq_iff w.lease_id lease_id,
      eq_iff l.id w.lease_id,
      get-put s.unavailable_vessels vessel_id w.vessel_id lease_id,
      vessels-end_all gone (interrupted s vessel_id lease_id) e r,
    )

admits-IsCoherent :
    (s : FleetState) (v : Vessel) (l : ResourceLease)
    → v.lease ≡ some l
    → validate_lease l ≡ ok l
    → is_admitted s v.id ≡ false
    → IsCoherent s
    → IsCoherent (admitted s v)
admits-IsCoherent s v l leased sound absent h = record {
  agrees = record {
    active_exact = h.agrees.active_exact;
    status_exact = h.agrees.status_exact;
    keyed = h.agrees.keyed;
  };
  supported = λ a. supported-admitted s v (get s.attempts a) absent (h.supported a);
  valid = λ k. rw get-put (ground (arith, h.valid k));
}

renews-IsCoherent :
    (s : FleetState) (vessel_id lease_id : Text) (v : Vessel) (l : ResourceLease) (end : Datetime)
    → get s.vessels vessel_id ≡ some v
    → v.lease ≡ some l
    → validate_lease (renewed l end) ≡ ok (renewed l end)
    → IsCoherent s
    → IsCoherent (extended s vessel_id v (renewed l end))
renews-IsCoherent s vessel_id lease_id v l end there leased sound h = record {
  agrees = record {
    active_exact = h.agrees.active_exact;
    status_exact = h.agrees.status_exact;
    keyed = h.agrees.keyed;
  };
  supported =
      λ a. supported-extended s vessel_id v l end (get s.attempts a) there leased (h.supported a);
  valid = λ k. rw get-put (ground (arith, h.valid k));
}

starts-IsCoherent :
    (s : FleetState) (w : WorkAttempt) (l : ResourceLease)
    → w.status ≡ running
    → current_lease s w.vessel_id w.lease_id ≡ ok l
    → get s.attempts w.attempt_id ≡ none
    → IsCoherent s
    → IsCoherent (start s w)
unfolding start
starts-IsCoherent s w l runs lease fresh h = record {
  agrees = start-Agrees s w fresh runs h.agrees;
  supported = λ a. rw (get-put s.attempts w.attempt_id a w) (elim (Bool-cases (w.attempt_id == a)) [
    | inl same ↦ rw same (starts-supported s w (some w) ∙ supported-started s w l lease)
    | inr other ↦ rw other (starts-supported s w (get s.attempts a) ∙ h.supported a)
  ]);
  valid = h.valid;
}

disappears-IsCoherent :
    (s : FleetState) (vessel_id lease_id : Text) (l : ResourceLease) (e : Event)
    (r : AttemptTermination)
    → current_lease s vessel_id lease_id ≡ ok l
    → IsCoherent s
    → IsCoherent (lost s vessel_id lease_id e r)
disappears-IsCoherent s vessel_id lease_id l e r lease h =
    let gone = record s { unavailable_vessels = put s.unavailable_vessels vessel_id lease_id } in
    let ids = interrupted s vessel_id lease_id in
    record {
      agrees = end_all-Agrees gone ids e r (record {
        active_exact = h.agrees.active_exact;
        status_exact = h.agrees.status_exact;
        keyed = h.agrees.keyed;
      });
      supported = λ a. rw (attempts-end_all gone ids e r a) (
          rw (contains-ids (runs_on vessel_id lease_id) s.attempts a h.agrees.keyed)
            (supported-lost s vessel_id lease_id l e r a (get s.attempts a) lease (h.supported a)));
      valid = λ k. rw (vessels-end_all gone ids e r).0 (h.valid k);
    }

lease-validate_lease : (l l' : ResourceLease) → validate_lease l ≡ ok l' → l' ≡ l
unfolding validate_lease
lease-validate_lease l l' h = ground arith

lease_valid-vessel :
    (v : Vessel) (l : ResourceLease)
    → validate_vessel v ≡ ok v
    → v.lease ≡ some l
    → validate_lease l ≡ ok l
unfolding validate_vessel
lease_valid-vessel v l sound leased = elim (Result-cases (validate_resources v.resources)) [
  | inr (f, e) ↦ absurd (ground arith)
  | inl (rs, e) ↦ elim (Result-cases (validate_lease l)) [
    | inl (l', valid) ↦ ground (arith, lease-validate_lease l l' valid)
    | inr (f, invalid) ↦ absurd (ground arith)
  ]
]

pub lease_valid-renewed :
    (l : ResourceLease) (end now : Datetime)
    → validate_lease l ≡ ok l
    → covers l now ≡ true
    → now.instant < end.instant
    → end.is_aware ≡ true
    → validate_lease (renewed l end) ≡ ok (renewed l end)
unfolding validate_lease covers
lease_valid-renewed l end now sound covered later aware = ground arith

-- A coherent fleet stays coherent under every step.
Step-IsCoherent : {s t : FleetState} → Step s t → IsCoherent s → IsCoherent t
Step-IsCoherent {s} (admits v l now sound leased covered absent) h =
    admits-IsCoherent s v l leased (lease_valid-vessel v l sound leased) absent h
Step-IsCoherent {s} (renews vessel_id lease_id v l end now there lease covered later aware) h =
    let (available, found, same) = current_lease-ok s vessel_id lease_id l lease in
    let leased : v.lease ≡ some l = ground arith in
    let valid : validate_lease l ≡ ok l = ground (arith, h.valid vessel_id) in
    renews-IsCoherent s vessel_id lease_id v l end there leased
      (lease_valid-renewed l end now valid covered later aware) h
Step-IsCoherent {s} (starts w l runs lease covered fresh) h =
    starts-IsCoherent s w l runs lease fresh h
Step-IsCoherent {s} (disappears vessel_id lease_id l e r lease loss) h =
    disappears-IsCoherent s vessel_id lease_id l e r lease h
Step-IsCoherent {s} (closes x e status t over) h = closes-IsCoherent s x e status t over h

-- In every fleet that steps lead to from the empty one: a mission's active attempts are exactly the
-- running attempts of that mission, a mission is ACTIVE exactly if it has one, a running attempt's
-- vessel is available under the lease that the attempt was started with, and every lease is valid.
pub Reach-IsCoherent : {s : FleetState} → Reach s → IsCoherent s
Reach-IsCoherent empty = initial-IsCoherent
Reach-IsCoherent (next r st) = Step-IsCoherent st (Reach-IsCoherent r)
