-- ===== src/Fleet/Replay/Attempts.antt =====
-- What starting and ending an attempt does to the attempts and the missions of a fleet state.
use long_haul.Prelude.{
  ◌≡◌, refl, inl, inr, Option, none, some, List, [], ◌∷◌, arith, if◌then◌else◌, Option-cases, Text,
  ◌==◌, eq_iff, contains,
}
use long_haul.Prelude.Dict.{get, get-put}
use long_haul.Fleet.Lease.{AttemptStatus, inconclusive, AttemptTermination, WorkAttempt, is_running}
use long_haul.Fleet.Events.{Event, FleetState}
use long_haul.Fleet.Replay.{ended, end_attempt, end_all, start}

-- An attempt that is running ends; any other stays as it is.
abbrev pub end_of :
    Event → AttemptStatus → Option AttemptTermination → Option WorkAttempt → Option WorkAttempt
end_of event status termination none = none
end_of event status termination (some w) =
    some (if is_running w.status then ended w event status termination else w)

pub attempts-end_attempt :
    (s : FleetState) (x : Text) (e : Event) (status : AttemptStatus) (t : Option AttemptTermination)
    (a : Text)
    → get (end_attempt s x e status t).attempts a
      ≡ (if x == a then end_of e status t (get s.attempts a) else get s.attempts a)
unfolding end_attempt
attempts-end_attempt s x e status t a = elim (Option-cases (get s.attempts x)) [
  | inl absent ↦ rw absent (ground (arith, eq_iff x a))
  | inr (w, there) ↦
      rw there (ground (arith, eq_iff x a, get-put s.attempts x a (ended w e status t)))
]

pub attempts-end_all :
    (s : FleetState) (ids : List Text) (e : Event) (r : AttemptTermination) (a : Text)
    → get (end_all s ids e r).attempts a ≡ (
        if contains a ids
        then end_of e inconclusive (some r) (get s.attempts a)
        else get s.attempts a)
unfolding end_all contains
attempts-end_all s [] e r a = refl
attempts-end_all s (x ∷ ids) e r a =
    let s' = end_attempt s x e inconclusive (some r) in
    ground
      (arith, attempts-end_all s' ids e r a, attempts-end_attempt s x e inconclusive (some r) a)

pub attempts-start :
    (s : FleetState) (w : WorkAttempt) (a : Text)
    → get (start s w).attempts a ≡ (if w.attempt_id == a then some w else get s.attempts a)
unfolding start
attempts-start s w a = get-put s.attempts w.attempt_id a w
