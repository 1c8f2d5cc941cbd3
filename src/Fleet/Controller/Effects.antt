-- ===== src/Fleet/Controller/Effects.antt =====
-- What calls of the controller do to the attempts, and what no call undoes.
use mathlib.Core.Path.{subst}
use long_haul.Prelude.{
  ◌≡◌, refl, sym, ap, ◌∙◌, inl, inr, true, false, ◌&&◌, Option, none, some, List, [], arith,
  if◌then◌else◌, Bool-cases, All, Text, ◌==◌, ==_refl, eq_iff,
}
use long_haul.Prelude.Results.{ok}
use long_haul.Prelude.Dict.{Dict, get, put, get-put}
use long_haul.Fleet.Lease.{Datetime, inconclusive, AttemptTermination, WorkAttempt, is_running}
use long_haul.Fleet.Events.{Event, FleetState}
use long_haul.Fleet.Replay.Attempts.{attempts-end_attempt, attempts-end_all, attempts-start, end_of}
use long_haul.Fleet.Replay.Keyed.{contains-ids, holds}
use long_haul.Fleet.Controller.{
  Codec, Ambient, EventStore, written, state_of, interrupted, runs_on, disappear,
}
use long_haul.Fleet.Controller.Log.{IsLine, Logs, Logs-state_of, Logs-written}
use long_haul.Fleet.Controller.Relation.{
  Step, admits, renews, starts, disappears, closes, Reach, empty, IsCoherent, lost, is_supported,
  lease_is,
}
use long_haul.Fleet.Controller.Coherence.{Reach-IsCoherent, vessels-end_all}
use long_haul.Fleet.Controller.Steps.{disappear-lost}
use long_haul.Fleet.Controller.History.{
  Request, serve, IsBuilt, AreWritten, Steps, done, first, Reach-Steps, serve-Continues,
  start-Continues,
}

-- The loss of a vessel's lease makes exactly the running attempts on that vessel under that lease
-- inconclusive, with the given reason and the event's time and id; every other attempt is kept.
attempts-lost :
    (s : FleetState) (vessel_id lease_id : Text) (e : Event) (r : AttemptTermination) (a : Text)
    → IsCoherent s
    → get (lost s vessel_id lease_id e r).attempts a ≡ (
        if holds (runs_on vessel_id lease_id) (get s.attempts a)
        then end_of e inconclusive (some r) (get s.attempts a)
        else get s.attempts a)
attempts-lost s vessel_id lease_id e r a h =
    rw
      (attempts-end_all
        (record s { unavailable_vessels = put s.unavailable_vessels vessel_id lease_id })
        (interrupted s vessel_id lease_id) e r a)
      (rw (contains-ids (runs_on vessel_id lease_id) s.attempts a h.agrees.keyed) refl)

-- An attempt that is over is never changed by a step, so its outcome is final.
Step-final :
    {s t : FleetState} (a : Text) (w : WorkAttempt)
    → Step s t
    → get s.attempts a ≡ some w
    → is_running w.status ≡ false
    → get t.attempts a ≡ some w
Step-final {s} a w (admits v l now sound leased covered absent) there over = there
Step-final {s} a w (renews vessel_id lease_id v l end now found lease covered later aware) there
      over =
    there
Step-final {s} a w (starts x l runs lease covered fresh) there over =
    rw (attempts-start s x a) (ground (arith, eq_iff x.attempt_id a))
Step-final {s} a w (disappears vessel_id lease_id l e r lease loss) there over =
    rw
      (attempts-end_all
        (record s { unavailable_vessels = put s.unavailable_vessels vessel_id lease_id })
        (interrupted s vessel_id lease_id) e r a)
      (ground arith)
Step-final {s} a w (closes x e status t over') there over =
    rw (attempts-end_attempt s x e status t a) (ground arith)

Steps-final :
    {s t : FleetState} (a : Text) (w : WorkAttempt)
    → Steps s t
    → get s.attempts a ≡ some w
    → is_running w.status ≡ false
    → get t.attempts a ≡ some w
Steps-final a w done there over = there
Steps-final a w (first st sts) there over = Steps-final a w sts (Step-final a w st there over) over

-- A running attempt on that vessel under that lease is ended as inconclusive, with the reason and
-- the event's time and id; another attempt is kept.
abbrev pub after_loss : Text → Text → AttemptTermination → Event → WorkAttempt → WorkAttempt
after_loss vessel_id lease_id reason e w =
    if is_running w.status && (w.vessel_id == vessel_id) && (w.lease_id == lease_id)
    then record w {
      status = inconclusive;
      termination = some reason;
      ended_at = some e.timestamp;
      end_event_id = some e.id;
    }
    else w

abbrev pub map_found : (WorkAttempt → WorkAttempt) → Option WorkAttempt → Option WorkAttempt
map_found f none = none
map_found f (some w) = some (f w)

lost-after_loss :
    (vessel_id lease_id : Text) (e : Event) (r : AttemptTermination) (o : Option WorkAttempt)
    → (if holds (runs_on vessel_id lease_id) o then end_of e inconclusive (some r) o else o)
      ≡ map_found (after_loss vessel_id lease_id r e) o
lost-after_loss vessel_id lease_id e r none = refl
lost-after_loss vessel_id lease_id e r (some w) = elim (Bool-cases (is_running w.status)) [
  | inr over ↦ rw over refl
  | inl runs ↦ elim (Bool-cases ((w.vessel_id == vessel_id) && (w.lease_id == lease_id))) [
    | inl here ↦ rw runs (rw here refl)
    | inr elsewhere ↦ rw runs (rw elsewhere refl)
  ]
]

ok-eq : (s t : FleetState) → ok s ≡ ok t → s ≡ t
ok-eq s t h = cc

module _ (codec : Codec) (requests : List (Ambient × Request)) (built : All IsBuilt requests)
    (lines : AreWritten codec [] requests) (s : FleetState)
    (now : state_of codec (serve codec [] requests) ≡ ok s) where
  Logs-now : Logs codec (serve codec [] requests) s
  Logs-now =
      let run = start-Continues codec requests built lines in
      subst (Logs codec (serve codec [] requests))
        (ok-eq run.fleet s
          (sym (Logs-state_of codec (serve codec [] requests) run.fleet run.logs) ∙ now))
        run.logs

  Reach-now : Reach s
  Reach-now =
      let run = start-Continues codec requests built lines in
      subst Reach
        (ok-eq run.fleet s
          (sym (Logs-state_of codec (serve codec [] requests) run.fleet run.logs) ∙ now))
        (Reach-Steps empty run.steps)

  -- After any calls from an empty store, written line by line: a call of disappear that returns
  -- makes the log replay to a fleet in which exactly the running attempts on that vessel under that
  -- lease have become inconclusive, with the call's reason and its event's time and id; every other
  -- attempt is kept, and the vessel is unavailable.
  pub disappear-attempts :
      (ambient : Ambient) (vessel_id lease_id : Text) (reason : AttemptTermination)
      (at : Option Datetime) (e : Event) (store : EventStore) (a : Text)
      → disappear codec ambient (serve codec [] requests) vessel_id lease_id reason at
        ≡ ok (e, store)
      → IsLine codec e
      → (t : FleetState) × (state_of codec store ≡ ok t)
        × (get t.attempts a ≡ map_found (after_loss vessel_id lease_id reason e) (get s.attempts a))
        × (get t.unavailable_vessels vessel_id ≡ some lease_id)
  disappear-attempts ambient vessel_id lease_id reason at e store a ran line =
      let (l, grown, applied, held, loss) =
        disappear-lost codec ambient (serve codec [] requests) s now vessel_id lease_id reason at e
          store ran in
      let t = lost s vessel_id lease_id e reason in
      let logs = Logs-written codec (serve codec [] requests) s t e Logs-now line applied in
      (
        t,
        ap (state_of codec) grown
            ∙ Logs-state_of codec (written codec (serve codec [] requests) e) t logs,
        attempts-lost s vessel_id lease_id e reason a (Reach-IsCoherent Reach-now)
            ∙ lost-after_loss vessel_id lease_id e reason (get s.attempts a),
        ap (λ (d : Dict Text). get d vessel_id)
              ((vessels-end_all
                (record s { unavailable_vessels = put s.unavailable_vessels vessel_id lease_id })
                (interrupted s vessel_id lease_id) e reason).1)
            ∙ rw (get-put s.unavailable_vessels vessel_id vessel_id lease_id)
                (rw (==_refl vessel_id) refl),
      )

  -- After any calls from an empty store, written line by line: an attempt that is over is stored
  -- unchanged after any further calls, so its outcome is final.
  pub serve-final :
      (later : List (Ambient × Request)) (a : Text) (w : WorkAttempt)
      → All IsBuilt later
      → AreWritten codec (serve codec [] requests) later
      → get s.attempts a ≡ some w
      → is_running w.status ≡ false
      → (t : FleetState) × (state_of codec (serve codec (serve codec [] requests) later) ≡ ok t)
        × (get t.attempts a ≡ some w)
  serve-final later a w built' lines' there over =
      let run =
        serve-Continues codec (serve codec [] requests) s later built' lines' Logs-now Reach-now in
      (
        run.fleet,
        Logs-state_of codec (serve codec (serve codec [] requests) later) run.fleet run.logs,
        Steps-final a w run.steps there over,
      )

  -- After any calls from an empty store, written line by line, no attempt is running on a vessel
  -- that is unavailable, or under another lease than its vessel's.
  pub serve-no_orphan :
      (a : Text) (w : WorkAttempt)
      → get s.attempts a ≡ some w
      → is_running w.status ≡ true
      → (get s.unavailable_vessels w.vessel_id ≡ none)
        × (lease_is w.lease_id (get s.vessels w.vessel_id) ≡ true)
  unfolding is_supported
  serve-no_orphan a w there runs =
      let supported = (Reach-IsCoherent Reach-now).supported a in
      (ground (arith, supported), ground (arith, supported))
