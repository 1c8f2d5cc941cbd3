-- ===== src/Work/Progress/Windows.antt =====
-- The monitor's state as a function of the steps that it has observed.
use long_haul.Prelude.{
  ℕ, ◌+◌, ◌-◌, ◌≡◌, refl, sym, ◌∙◌, true, false, Option, none, some, List, [], ◌∷◌, ◌++◌, map,
  arith, if◌then◌else◌, last_items, drop-nil, last_items-window, Text, ◌==◌, ==_refl, eq_iff,
}
use mathlib.Core.List.{append-nil, append_assoc}
use long_haul.Work.Progress.{
  AttemptStep, ProgressPolicy, ProgressState, InterventionReason, new_state, is_last, signature_of,
  failure_pair_signature, note_step, note_failure, reason_for, intervene, observe, recent_count_of,
}

-- The number of equal signatures at the end of a history.
unfoldable pub trailing : Text → List Text → ℕ → ℕ
trailing a [] n = n
trailing a (x ∷ xs) n = trailing a xs (if x == a then n + 1 else 0)

module _ {Arguments : Type 0} (dumps : Arguments → Text) (sha256 : Text → Text)
    (policy : ProgressPolicy) where
  -- The state after the steps, in order.
  unfoldable pub observe_all : List (AttemptStep Arguments) → ProgressState → ProgressState
  unfolding observe
  observe_all [] s = s
  observe_all (step ∷ steps) s = observe_all steps (observe dumps sha256 policy step s).1

  abbrev pub signatures_of : List (AttemptStep Arguments) → List Text
  signatures_of steps = map (signature_of dumps sha256) steps

  -- What a later block of observe leaves as note_step made it.
  pub record Noted (s t : ProgressState) : Type 0 where
    pub signatures : t.signatures ≡ s.signatures
    pub last_signature : t.last_signature ≡ s.last_signature
    pub consecutive_count : t.consecutive_count ≡ s.consecutive_count
    pub no_progress_steps : t.no_progress_steps ≡ s.no_progress_steps

  note_failure-Noted : (o : Option Text) (s : ProgressState) → Noted s (note_failure policy o s).1
  unfolding note_failure
  note_failure-Noted none s = ground arith
  note_failure-Noted (some pair) s = ground arith

  intervene-Noted :
      (a : Text) (n : ℕ) (s : ProgressState) (o : Option InterventionReason)
      → Noted s (intervene policy a n s o).1
  intervene-Noted a n s none = ground arith
  intervene-Noted a n s (some reason) = ground arith

  pub observe-Noted :
      (step : AttemptStep Arguments) (s : ProgressState)
      → Noted (note_step dumps sha256 policy step s) (observe dumps sha256 policy step s).1
  unfolding observe
  observe-Noted step s =
      let noted = note_step dumps sha256 policy step s in
      let pair = failure_pair_signature dumps sha256 step in
      let out = note_failure policy pair noted in
      let first = note_failure-Noted pair noted in
      let second =
        intervene-Noted (signature_of dumps sha256 step)
          (recent_count_of dumps sha256 policy step s) out.1
          (reason_for policy step.progress out.0 (recent_count_of dumps sha256 policy step s)
            out.1) in
      record {
        signatures = second.signatures ∙ first.signatures;
        last_signature = second.last_signature ∙ first.last_signature;
        consecutive_count = second.consecutive_count ∙ first.consecutive_count;
        no_progress_steps = second.no_progress_steps ∙ first.no_progress_steps;
      }

  -- The state agrees with the history of signatures so far.
  record Follows (history : List Text) (s : ProgressState) : Type 0 where
    window : s.signatures ≡ last_items policy.recent_window history
    trails :
        (a : Text) → is_last s.last_signature a ≡ true → trailing a history 0 ≡ s.consecutive_count
    breaks : (a : Text) → is_last s.last_signature a ≡ false → trailing a history 0 ≡ 0

  trailing-append :
      (a b : Text) (xs : List Text) (n : ℕ)
      → trailing a (xs ++ b ∷ []) n ≡ (if b == a then trailing a xs n + 1 else 0)
  unfolding trailing
  trailing-append a b [] n = refl
  trailing-append a b (x ∷ xs) n = trailing-append a b xs (if x == a then n + 1 else 0)

  observe-Follows :
      (step : AttemptStep Arguments) (history : List Text) (s : ProgressState)
      → Follows history s
      → Follows
          (history ++ signature_of dumps sha256 step ∷ [])
          (observe dumps sha256 policy step s).1
  unfolding note_step
  observe-Follows step history s h =
      let sig = signature_of dumps sha256 step in
      let noted = observe-Noted step s in
      record {
        window =
            noted.signatures ∙ rw h.window (last_items-window policy.recent_window history sig);
        trails = λ a same.
            let here : sig ≡ a = ground (arith, noted.last_signature, eq_iff a sig) in
            rw (← here) (
              rw (trailing-append sig sig history 0)
                (ground (arith, ==_refl sig, noted.consecutive_count, h.trails sig, h.breaks sig)));
        breaks = λ a other.
            rw (trailing-append a sig history 0)
              (ground (arith, noted.last_signature, eq_iff a sig, eq_iff sig a));
      }

  start-Follows : Follows [] new_state
  unfolding trailing
  start-Follows = record {
    window = sym (drop-nil (0 - policy.recent_window) [] refl);
    trails = λ a h. absurd (ground arith);
    breaks = λ a h. refl;
  }

  observe_all-Follows :
      (steps : List (AttemptStep Arguments)) (history : List Text) (s : ProgressState)
      → Follows history s
      → Follows (history ++ signatures_of steps) (observe_all steps s)
  unfolding observe_all
  observe_all-Follows [] history s h = rw append-nil h
  observe_all-Follows (step ∷ steps) history s h =
      let next =
        observe_all-Follows steps (history ++ signature_of dumps sha256 step ∷ []) _
          (observe-Follows step history s h) in
      rw append_assoc at next

  pub observe_all-append :
      (steps : List (AttemptStep Arguments)) (step : AttemptStep Arguments) (s : ProgressState)
      → observe_all (steps ++ step ∷ []) s
        ≡ (observe dumps sha256 policy step (observe_all steps s)).1
  unfolding observe_all
  observe_all-append [] step s = refl
  observe_all-append (first ∷ steps) step s =
      observe_all-append steps step (observe dumps sha256 policy first s).1

  -- After any steps the monitor's window is the last recent_window signatures of all steps, and for
  -- the last step's signature the consecutive count is the number of steps with that signature at
  -- the end of the history.
  pub observe_all-window :
      (steps : List (AttemptStep Arguments)) (step : AttemptStep Arguments)
      → ((observe_all (steps ++ step ∷ []) new_state).signatures
          ≡ last_items policy.recent_window (signatures_of (steps ++ step ∷ [])))
        × ((observe_all (steps ++ step ∷ []) new_state).consecutive_count
            ≡ trailing (signature_of dumps sha256 step) (signatures_of (steps ++ step ∷ [])) 0)
  observe_all-window steps step =
      let s = observe_all steps new_state in
      let h = observe_all-Follows (steps ++ step ∷ []) [] new_state start-Follows in
      let sig = signature_of dumps sha256 step in
      let end = observe_all-append steps step new_state in
      let last : (observe_all (steps ++ step ∷ []) new_state).last_signature ≡ some sig =
        rw end ((observe-Noted step s).last_signature ∙ unfold note_step in refl) in
      (h.window, sym (h.trails sig (rw last (==_refl sig))))
