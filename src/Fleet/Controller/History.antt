-- ===== src/Fleet/Controller/History.antt =====
-- Whole histories of calls of the controller on an empty store.
use long_haul.Prelude.{◌≡◌, refl, sym, inl, inr, Option, List, [], ◌∷◌, All, Text}
use long_haul.Prelude.Results.{Result, ok, err, Result-cases}
use long_haul.Fleet.Lease.{Datetime, AttemptTermination}
use long_haul.Fleet.Models.{Vessel, validate_vessel}
use long_haul.Fleet.Events.{Event, FleetState}
use long_haul.Fleet.Replay.{materialize, initial}
use long_haul.Fleet.Controller.Log.{IsLine, Logs, Logs-state_of, Logs-written}
use mathlib.Core.Path.{subst}
use long_haul.Fleet.Controller.{
  Codec, export_events, EventStore, Ambient, AttemptRequest, state_of, admit, renew, start_attempt,
  disappear, record_execution_timeout,
}
use long_haul.Fleet.Controller.Relation.{Step, Reach, empty, next, IsCoherent}
use long_haul.Fleet.Controller.Coherence.{Reach-IsCoherent}
use long_haul.Fleet.Controller.Steps.{
  Advances, admit-Advances, start_attempt-Advances, disappear-Advances,
  record_execution_timeout-Advances, renew-Advances,
}

pub data Request : Type 0 where
  admitting : Vessel → Option Datetime → Request
  renewing : Text → Text → Datetime → Option Datetime → Request
  starting_attempt : AttemptRequest → Option Datetime → Request
  disappearing : Text → Text → AttemptTermination → Option Datetime → Request
  timing_out : Text → Option Datetime → Request

unfoldable pub call : Codec → Ambient → EventStore → Request → Result (Event × EventStore)
unfolding admit renew start_attempt disappear record_execution_timeout
call codec ambient store (admitting v at) = admit codec ambient store v at
call codec ambient store (renewing v l end at) = renew codec ambient store v l end at
call codec ambient store (starting_attempt r at) = start_attempt codec ambient store r at
call codec ambient store (disappearing v l reason at) = disappear codec ambient store v l reason at
call codec ambient store (timing_out a at) = record_execution_timeout codec ambient store a at

-- A call that raises appends nothing.
abbrev pub kept_store : EventStore → Result (Event × EventStore) → EventStore
kept_store store (ok (e, store')) = store'
kept_store store (err f) = store

unfoldable pub serve : Codec → EventStore → List (Ambient × Request) → EventStore
unfolding call
serve codec store [] = store
serve codec store ((ambient, request) ∷ requests) =
    serve codec (kept_store store (call codec ambient store request)) requests

-- A vessel object comes from its validator.
abbrev pub IsBuilt : Ambient × Request → Type 0
IsBuilt (ambient, admitting v at) = validate_vessel v ≡ ok v
IsBuilt (ambient, _) = Unit

-- What a call appends is one line that reads back; pydantic leaves U+0085, U+2028 and U+2029 in a
-- text as they are, at which the reader breaks lines, so this is a condition on the texts.
abbrev pub IsWritten : Codec → Result (Event × EventStore) → Type 0
IsWritten codec (err f) = Unit
IsWritten codec (ok (e, store)) = IsLine codec e

unfoldable pub AreWritten : Codec → EventStore → List (Ambient × Request) → Type 0
unfolding call
AreWritten codec store [] = Unit
AreWritten codec store ((ambient, request) ∷ requests) =
    IsWritten codec (call codec ambient store request)
    × AreWritten codec (kept_store store (call codec ambient store request)) requests

call-Advances :
    (codec : Codec) (ambient : Ambient) (store : EventStore) (s : FleetState) (request : Request)
    (out : Event × EventStore)
    → state_of codec store ≡ ok s
    → IsBuilt (ambient, request)
    → IsCoherent s
    → call codec ambient store request ≡ ok out
    → Advances codec store s out
unfolding call
call-Advances codec ambient store s (admitting v at) out now built h ran =
    admit-Advances codec ambient store s now v at out built ran
call-Advances codec ambient store s (renewing v l end at) out now built h ran =
    renew-Advances codec ambient store s now v l end at out h.valid ran
call-Advances codec ambient store s (starting_attempt r at) out now built h ran =
    start_attempt-Advances codec ambient store s now r at out ran
call-Advances codec ambient store s (disappearing v l reason at) out now built h ran =
    disappear-Advances codec ambient store s now v l reason at out ran
call-Advances codec ambient store s (timing_out a at) out now built h ran =
    record_execution_timeout-Advances codec ambient store s now a at out ran

-- The steps of a history.
pub data Steps : FleetState → FleetState → Type 0 where
  done : {s : FleetState} → Steps s s
  first : {s t u : FleetState} → Step s t → Steps t u → Steps s u

append-Steps : {s t u : FleetState} → Steps s t → Steps t u → Steps s u
append-Steps done sts = sts
append-Steps (first st rest) sts = first st (append-Steps rest sts)

pub Reach-Steps : {s t : FleetState} → Reach s → Steps s t → Reach t
Reach-Steps r done = r
Reach-Steps r (first st sts) = Reach-Steps (next r st) sts

-- The store holds the log of a fleet that steps lead to.
pub record Continues (codec : Codec) (s : FleetState) (store : EventStore) : Type 0 where
  pub fleet : FleetState
  pub logs : Logs codec store fleet
  pub steps : Steps s fleet

call-Continues :
    (codec : Codec) (ambient : Ambient) (store : EventStore) (s : FleetState) (request : Request)
    → IsBuilt (ambient, request)
    → IsWritten codec (call codec ambient store request)
    → Logs codec store s
    → IsCoherent s
    → Continues codec s (kept_store store (call codec ambient store request))
call-Continues codec ambient store s request built line logs h =
    elim (Result-cases (call codec ambient store request)) [
      | inr (f, e) ↦ rw e (record { fleet = s; logs = logs; steps = done })
      | inl ((event, store'), e) ↦
          let (grown, (t, ran, st)) =
            call-Advances codec ambient store s request (event, store')
              (Logs-state_of codec store s logs) built h e in
          let kept : Logs codec store' t =
            subst (λ (text : EventStore). Logs codec text t) (sym grown)
              (Logs-written codec store s t event logs (rw e at line) ran) in
          rw e (record { fleet = t; logs = kept; steps = first st done })
    ]

pub serve-Continues :
    (codec : Codec) (store : EventStore) (s : FleetState) (requests : List (Ambient × Request))
    → All IsBuilt requests
    → AreWritten codec store requests
    → Logs codec store s
    → Reach s
    → Continues codec s (serve codec store requests)
unfolding serve AreWritten
serve-Continues codec store s [] built lines logs r = record {
  fleet = s;
  logs = logs;
  steps = done;
}
serve-Continues codec store s ((ambient, request) ∷ requests) built lines logs r =
    let one =
      call-Continues codec ambient store s request built.0 lines.0 logs (Reach-IsCoherent r) in
    let rest =
      serve-Continues codec (kept_store store (call codec ambient store request)) one.fleet requests
        built.1 lines.1 one.logs (Reach-Steps r one.steps) in
    record { fleet = rest.fleet; logs = rest.logs; steps = append-Steps one.steps rest.steps }

empty-Logs : (codec : Codec) → Logs codec [] (initial [] [])
unfolding materialize export_events
empty-Logs codec = record { events = []; text = refl; lines = tt; replays = refl }

-- From an empty store.
pub start-Continues :
    (codec : Codec) (requests : List (Ambient × Request))
    → All IsBuilt requests
    → AreWritten codec [] requests
    → Continues codec (initial [] []) (serve codec [] requests)
start-Continues codec requests built lines =
    serve-Continues codec [] (initial [] []) requests built lines (empty-Logs codec) empty

-- Whatever calls the controller gets, in whatever order, with vessels that passed their validator:
-- if each event that it appends is written as one line that reads back as that event, then the
-- file replays without an error, to a coherent fleet.
pub serve-IsCoherent :
    (codec : Codec) (requests : List (Ambient × Request))
    → All IsBuilt requests
    → AreWritten codec [] requests
    → (s : FleetState) × (state_of codec (serve codec [] requests) ≡ ok s) × IsCoherent s
serve-IsCoherent codec requests built lines =
    let run = start-Continues codec requests built lines in
    (
      run.fleet,
      Logs-state_of codec (serve codec [] requests) run.fleet run.logs,
      Reach-IsCoherent (Reach-Steps empty run.steps),
    )
