-- ===== src/Fleet/Controller/Examples.antt =====
-- A fleet of one vessel: it is admitted, runs an attempt, and loses its lease.
use long_haul.Prelude.{
  ℕ, ◌≡◌, refl, true, none, some, false, nat_eq, All, List, [], ◌∷◌, if◌then◌else◌, Text, codes,
  ◌==◌,
}
use long_haul.Prelude.Results.{Result, ok, err, value_error}
use long_haul.Prelude.Dict.{get, put, pop}
use long_haul.Prelude.Strings.{strip}
use long_haul.Fleet.Lease.{Datetime, ResourceLease, ephemeral, running, lease_lost, WorkAttempt}
use long_haul.Fleet.Models.{Vessel, VesselClass, validate_vessel}
use long_haul.Fleet.Events.{
  Event, FleetState, resource_admitted, resource_disappeared, work_attempt_started,
}
use long_haul.Fleet.Replay.{initial, start, end_attempt, end_all}
use long_haul.Fleet.Controller.{
  Codec, Ambient, AttemptRequest, state_of, new_event, admission, starting, disappearance, written,
  disappear,
}
use long_haul.Fleet.Controller.Log.{IsLine}
use long_haul.Fleet.Controller.Relation.{IsCoherent, admitted, lost, lease_is}
use long_haul.Fleet.Controller.History.{
  IsBuilt, Request, admitting, starting_attempt, disappearing, serve, AreWritten, serve-IsCoherent,
}
use long_haul.Fleet.Controller.Effects.{
  disappear-attempts, serve-final, serve-no_orphan, after_loss,
}

abbrev at : ℕ → Datetime
at n = record { instant = n; is_aware = true }

abbrev lease : ResourceLease
lease = record {
  id = codes "l";
  acquired_at = at 1;
  expires_at = some (at 50);
  preemptible = true;
  renewable = true;
  trust_domain = codes "x";
  durable_state = false;
}

abbrev vessel : Vessel
vessel = record {
  id = codes "v";
  name = codes "v";
  class_name = VesselClass.ship;
  resources = [];
  links = [];
  lifecycle = ephemeral;
  lease = some lease;
}

abbrev ambient : ℕ → Ambient
ambient n = record { system = at n; event_id = n ∷ [] }

abbrev attempt_request : AttemptRequest
attempt_request = record {
  attempt_id = codes "a";
  mission_id = codes "m";
  vessel_id = codes "v";
  lease_id = codes "l";
  restartable = true;
}

built : validate_vessel vessel ≡ ok vessel
unfolding validate_vessel
built = refl

abbrev first_event : Event
first_event = new_event (ambient 2) (at 2) resource_admitted (admission vessel)

abbrev second_event : Event
second_event = new_event (ambient 3) (at 3) work_attempt_started (starting attempt_request)

abbrev third_event : Event
third_event =
    new_event (ambient 4) (at 4) resource_disappeared
      (disappearance (codes "v") (codes "l") lease_lost (codes "a" ∷ []))

abbrev by_id : ℕ → Result Event
by_id n =
    if nat_eq n 2
    then ok first_event
    else if nat_eq n 3
    then ok second_event
    else if nat_eq n 4
    then ok third_event
    else err value_error

-- A codec for these events: a line is the event's id.
abbrev parse_line : Text → Result Event
parse_line [] = err value_error
parse_line (c ∷ cs) = by_id c

abbrev codec : Codec
codec = record { dump = λ e. e.id; parse = parse_line }

abbrev work : List (Ambient × Request)
work = (ambient 2, admitting vessel none) ∷ (ambient 3, starting_attempt attempt_request none) ∷ []

abbrev loss : List (Ambient × Request)
loss = (ambient 4, disappearing (codes "v") (codes "l") lease_lost none) ∷ []

-- The two calls append their events, and both are there when the file is read back.
two_lines : serve codec [] work ≡ 2 ∷ 10 ∷ 3 ∷ 10 ∷ []
unfolding serve validate_vessel get put pop ◌==◌
two_lines = refl

work-IsBuilt : All IsBuilt work
work-IsBuilt = (built, (tt, tt))

first-IsLine : IsLine codec first_event
unfolding strip
first-IsLine = record { one_line = refl; not_blank = refl; reads_back = refl }

second-IsLine : IsLine codec second_event
unfolding strip
second-IsLine = record { one_line = refl; not_blank = refl; reads_back = refl }

third-IsLine : IsLine codec third_event
unfolding strip
third-IsLine = record { one_line = refl; not_blank = refl; reads_back = refl }

work_lines : AreWritten codec [] work
unfolding AreWritten serve validate_vessel get put pop ◌==◌
work_lines = (first-IsLine, (second-IsLine, tt))

loss_lines : AreWritten codec (serve codec [] work) loss
unfolding AreWritten serve validate_vessel get put pop ◌==◌
loss_lines = (third-IsLine, tt)

serve-IsCoherent_example :
    (s : FleetState) × (state_of codec (serve codec [] work) ≡ ok s) × IsCoherent s
serve-IsCoherent_example = serve-IsCoherent codec work work-IsBuilt work_lines

abbrev attempt : WorkAttempt
attempt = record {
  attempt_id = codes "a";
  mission_id = codes "m";
  vessel_id = codes "v";
  lease_id = codes "l";
  restartable = true;
  status = running;
  termination = none;
  started_at = at 3;
  ended_at = none;
  start_event_id = 3 ∷ [];
  end_event_id = none;
}

abbrev working : FleetState
working = start (admitted (initial [] []) vessel) attempt

now_working : state_of codec (serve codec [] work) ≡ ok working
unfolding state_of serve validate_vessel get put pop ◌==◌
now_working = refl

abbrev lost_work : WorkAttempt
lost_work = after_loss (codes "v") (codes "l") lease_lost third_event attempt

disappear_call :
    disappear codec (ambient 4) (serve codec [] work) (codes "v") (codes "l") lease_lost none
    ≡ ok (third_event, written codec (serve codec [] work) third_event)
unfolding disappear state_of serve validate_vessel get put pop ◌==◌
disappear_call = refl

disappear-attempts_example :
    (t : FleetState) × (state_of codec (written codec (serve codec [] work) third_event) ≡ ok t)
    × (get t.attempts (codes "a") ≡ some lost_work)
    × (get t.unavailable_vessels (codes "v") ≡ some (codes "l"))
unfolding start get put ◌==◌
disappear-attempts_example =
    disappear-attempts codec work work-IsBuilt work_lines working now_working (ambient 4)
      (codes "v") (codes "l") lease_lost none third_event
      (written codec (serve codec [] work) third_event) (codes "a") disappear_call third-IsLine

stored : get working.attempts (codes "a") ≡ some attempt
unfolding start get put ◌==◌
stored = refl

serve-no_orphan_example :
    (get working.unavailable_vessels (codes "v") ≡ none)
    × (lease_is (codes "l") (get working.vessels (codes "v")) ≡ true)
serve-no_orphan_example =
    serve-no_orphan codec work work-IsBuilt work_lines working now_working (codes "a") attempt
      stored refl

-- The same calls, the loss included, in one history; afterwards the attempt is started again.
abbrev all_calls : List (Ambient × Request)
all_calls =
    (ambient 2, admitting vessel none)
    ∷ (ambient 3, starting_attempt attempt_request none)
    ∷ (ambient 4, disappearing (codes "v") (codes "l") lease_lost none)
    ∷ []

abbrev again : List (Ambient × Request)
again = (ambient 3, starting_attempt attempt_request none) ∷ []

abbrev after : FleetState
after = lost working (codes "v") (codes "l") third_event lease_lost

all_lines : AreWritten codec [] all_calls
unfolding AreWritten serve validate_vessel get put pop ◌==◌
all_lines = (first-IsLine, (second-IsLine, (third-IsLine, tt)))

now_after : state_of codec (serve codec [] all_calls) ≡ ok after
unfolding state_of serve validate_vessel get put pop ◌==◌
now_after = refl

again_lines : AreWritten codec (serve codec [] all_calls) again
unfolding AreWritten serve validate_vessel get put pop ◌==◌
again_lines = (tt, tt)

stored_after : get after.attempts (codes "a") ≡ some lost_work
unfolding start end_attempt end_all get put ◌==◌
stored_after = refl

serve-final_example :
    (t : FleetState) × (state_of codec (serve codec (serve codec [] all_calls) again) ≡ ok t)
    × (get t.attempts (codes "a") ≡ some lost_work)
unfolding ◌==◌
serve-final_example =
    serve-final codec all_calls (built, (tt, (tt, tt))) all_lines after now_after again (codes "a")
      lost_work (tt, tt) again_lines stored_after refl
