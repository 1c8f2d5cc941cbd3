-- ===== src/Fleet/Replay/Missions.antt =====
-- Missions and their active attempts under the starting and ending of attempts.
use long_haul.Prelude.{
  ◌≡◌, refl, inl, inr, Bool, true, false, not, ◌&&◌, Option, none, some, List, [], ◌∷◌, ◌++◌, arith,
  if◌then◌else◌, Bool-cases, Option-cases, Text, ◌==◌, eq_iff, contains, contains-append,
}
use long_haul.Prelude.Dict.{get, get-put}
use long_haul.Fleet.Lease.{
  AttemptStatus, running, inconclusive, AttemptTermination, MissionRunStatus, active, MissionRun,
  WorkAttempt, is_running,
}
use long_haul.Fleet.Events.{Event, FleetState}
use long_haul.Fleet.Replay.{
  mission_of, status_after, without, ended, mission_after, mission_with, end_attempt, end_all,
  start,
}
use long_haul.Fleet.Replay.Attempts.{attempts-end_attempt}
use long_haul.Fleet.Replay.Keyed.{Keyed, put-Keyed, get-Keyed}

abbrev pub active_ids : Option MissionRun → List Text
active_ids none = []
active_ids (some m) = m.active_attempt_ids

abbrev pub runs_in : Text → Option WorkAttempt → Bool
runs_in mission_id none = false
runs_in mission_id (some w) = is_running w.status && (w.mission_id == mission_id)

abbrev is_active : MissionRunStatus → Bool
is_active active = true
is_active _ = false

abbrev fits : List Text → MissionRunStatus → Bool
fits [] status = not (is_active status)
fits (_ ∷ _) status = is_active status

-- A mission is ACTIVE exactly if it has active attempts.
abbrev pub status_fits : Option MissionRun → Bool
status_fits none = true
status_fits (some m) = fits m.active_attempt_ids m.status

-- The attempts and the missions of a fleet agree.
pub record Agrees (s : FleetState) : Type 0 where
  pub active_exact :
      (m a : Text) → contains a (active_ids (get s.missions m)) ≡ runs_in m (get s.attempts a)
  pub status_exact : (m : Text) → status_fits (get s.missions m) ≡ true
  pub keyed : Keyed s.attempts

contains-without :
    (x a : Text) (xs : List Text) → contains a (without x xs) ≡ (not (x == a) && contains a xs)
unfolding contains
contains-without x a [] = ground arith
contains-without x a (y ∷ ys) =
    ground (arith, eq_iff y x, eq_iff x a, eq_iff y a, contains-without x a ys)

active_ids-mission_of :
    (s : FleetState) (m : Text)
    → (mission_of s m).active_attempt_ids ≡ active_ids (get s.missions m)
unfolding mission_of
active_ids-mission_of s m = ground arith

fits-after :
    (left : List Text) (status : AttemptStatus) → fits left (status_after left status) ≡ true
fits-after [] AttemptStatus.completed = refl
fits-after [] _ = refl
fits-after (y ∷ ys) status = refl

fits-with : (xs : List Text) (x : Text) → fits (xs ++ x ∷ []) active ≡ true
fits-with [] x = refl
fits-with (y ∷ ys) x = refl

status_fits-after :
    (m : MissionRun) (x : Text) (status : AttemptStatus)
    → status_fits (some (mission_after m x status)) ≡ true
status_fits-after m x status = fits-after (without x m.active_attempt_ids) status

status_fits-with : (m : MissionRun) (x : Text) → status_fits (some (mission_with m x)) ≡ true
status_fits-with m x = fits-with m.active_attempt_ids x

module _ (s : FleetState) (x : Text) (e : Event) (status : AttemptStatus)
    (t : Option AttemptTermination) where
  -- The mission table after an attempt that is found running has ended.
  missions-ended :
      (w : WorkAttempt) (m : Text)
      → get s.attempts x ≡ some w
      → is_running w.status ≡ true
      → get (end_attempt s x e status t).missions m ≡ (
          if w.mission_id == m
          then some (mission_after (mission_of s w.mission_id) x status)
          else get s.missions m)
  unfolding end_attempt
  missions-ended w m there runs = rw there (rw runs (rw get-put refl))

  unchanged_if_idle :
      (w : WorkAttempt)
      → get s.attempts x ≡ some w
      → is_running w.status ≡ false
      → end_attempt s x e status t ≡ s
  unfolding end_attempt
  unchanged_if_idle w there idle = rw there (rw idle refl)

  unchanged_if_absent : get s.attempts x ≡ none → end_attempt s x e status t ≡ s
  unfolding end_attempt
  unchanged_if_absent absent = rw absent refl

  module _ (w : WorkAttempt) (there : get s.attempts x ≡ some w) (runs : is_running w.status ≡ true)
      (over : is_running status ≡ false) (h : Agrees s) where
    ended-active :
        (m a : Text)
        → contains a (active_ids (get (end_attempt s x e status t).missions m))
          ≡ runs_in m (get (end_attempt s x e status t).attempts a)
    ended-active m a = rw (missions-ended w m there runs) (
        rw (attempts-end_attempt s x e status t a) (
          ground (
            arith,
            eq_iff x a,
            eq_iff w.mission_id m,
            h.active_exact m a,
            there,
            contains-without x a (mission_of s w.mission_id).active_attempt_ids,
            active_ids-mission_of s w.mission_id,
          )))

    ended-status : (m : Text) → status_fits (get (end_attempt s x e status t).missions m) ≡ true
    ended-status m = rw (missions-ended w m there runs) (elim (Bool-cases (w.mission_id == m)) [
      | inl same ↦ rw same (status_fits-after (mission_of s w.mission_id) x status)
      | inr other ↦ rw other (h.status_exact m)
    ])

    ended-Keyed : Keyed (end_attempt s x e status t).attempts
    unfolding end_attempt
    ended-Keyed = rw there (
        rw runs (
          put-Keyed s.attempts x (ended w e status t) (get-Keyed s.attempts x w h.keyed there)
            h.keyed))

  -- Ending an attempt keeps the attempts and the missions in agreement.
  pub end_attempt-Agrees :
      is_running status ≡ false → Agrees s → Agrees (end_attempt s x e status t)
  end_attempt-Agrees over h = elim (Option-cases (get s.attempts x)) [
    | inl absent ↦ rw (unchanged_if_absent absent) h
    | inr (w, there) ↦ elim (Bool-cases (is_running w.status)) [
      | inl runs ↦ record {
        active_exact = ended-active w there runs over h;
        status_exact = ended-status w there runs over h;
        keyed = ended-Keyed w there runs over h;
      }
      | inr idle ↦ rw (unchanged_if_idle w there idle) h
    ]
  ]

pub end_all-Agrees :
    (s : FleetState) (ids : List Text) (e : Event) (r : AttemptTermination)
    → Agrees s
    → Agrees (end_all s ids e r)
unfolding end_all
end_all-Agrees s [] e r h = h
end_all-Agrees s (x ∷ ids) e r h =
    end_all-Agrees (end_attempt s x e inconclusive (some r)) ids e r
      (end_attempt-Agrees s x e inconclusive (some r) refl h)

-- Starting an attempt under a new id keeps the attempts and the missions in agreement.
pub start-Agrees :
    (s : FleetState) (w : WorkAttempt)
    → get s.attempts w.attempt_id ≡ none
    → w.status ≡ running
    → Agrees s
    → Agrees (start s w)
unfolding start contains
start-Agrees s w fresh runs h = record {
  active_exact = λ m a. rw (get-put s.missions w.mission_id m) (
      rw (get-put s.attempts w.attempt_id a w) (
        ground (
          arith,
          eq_iff w.attempt_id a,
          eq_iff w.mission_id m,
          h.active_exact m a,
          fresh,
          contains-append a (mission_of s w.mission_id).active_attempt_ids (w.attempt_id ∷ []),
          active_ids-mission_of s w.mission_id,
        )));
  status_exact = λ m.
      rw (get-put s.missions w.mission_id m) (elim (Bool-cases (w.mission_id == m)) [
        | inl same ↦ rw same (status_fits-with (mission_of s w.mission_id) w.attempt_id)
        | inr other ↦ rw other (h.status_exact m)
      ]);
  keyed = put-Keyed s.attempts w.attempt_id w refl h.keyed;
}
