-- ===== src/Work/Progress/Budget.antt =====
-- When the monitor intervenes, and when it ends the attempt.
use long_haul.Prelude.{
  ℕ, ◌+◌, ◌≤◌, ◌≡◌, refl, ap, ◌∙◌, Bool, true, false, not, Option, none, some, List, [], ◌∷◌, ◌++◌,
  arith, leb, if◌then◌else◌, is_some, length, all, Text,
}
use long_haul.Work.Progress.{
  AttemptStep, ProgressPolicy, ProgressState, ProgressIntervention, InterventionReason,
  ProgressKind, new_state, resets, signature_of, failure_pair_signature, note_step, note_failure,
  reason_for, intervene, observe, recent_count_of,
}
use long_haul.Work.Progress.Windows.{
  observe_all, observe_all-append, observe-Noted, trailing, observe_all-window, signatures_of,
}

abbrev pub terminates : Option ProgressIntervention → Bool
terminates none = false
terminates (some i) = i.terminate_attempt

module _ {Arguments : Type 0} (dumps : Arguments → Text) (sha256 : Text → Text)
    (policy : ProgressPolicy) where
  abbrev pub is_idle : AttemptStep Arguments → Bool
  is_idle step = not (resets step.progress step.outcome)

  note_failure-idle :
      (o : Option Text) (s : ProgressState)
      → ((note_failure policy o s).1.no_progress_steps ≡ s.no_progress_steps)
        × ((note_failure policy o s).1.consecutive_count ≡ s.consecutive_count)
  unfolding note_failure
  note_failure-idle none s = (refl, refl)
  note_failure-idle (some pair) s = (refl, refl)

  terminates-intervene :
      (a : Text) (n : ℕ) (s : ProgressState) (r : ℕ) (step : AttemptStep Arguments)
      → terminates (intervene policy a n s (reason_for policy step.progress r n s)).0
        ≡ leb policy.max_no_progress_steps s.no_progress_steps
  unfolding reason_for
  terminates-intervene a n s r step = ground arith

  -- An observation tells the caller to end the attempt exactly if the steps without progress,
  -- this one included, have used up the policy's budget.
  pub observe-terminates :
      (step : AttemptStep Arguments) (s : ProgressState)
      → terminates (observe dumps sha256 policy step s).0
        ≡ leb policy.max_no_progress_steps (if is_idle step then s.no_progress_steps + 1 else 0)
  unfolding observe note_step
  observe-terminates step s =
      let noted = note_step dumps sha256 policy step s in
      let pair = failure_pair_signature dumps sha256 step in
      let out = note_failure policy pair noted in
      let recent = recent_count_of dumps sha256 policy step s in
      terminates-intervene (signature_of dumps sha256 step) recent out.1 out.0 step
      ∙ ground (arith, note_failure-idle pair noted)

  idle_steps :
      (steps : List (AttemptStep Arguments)) (s : ProgressState)
      → all is_idle steps ≡ true
      → (observe_all dumps sha256 policy steps s).no_progress_steps
        ≡ s.no_progress_steps + length steps
  unfolding observe_all note_step
  idle_steps [] s h = omega arith
  idle_steps (step ∷ steps) s h = ground (
    arith,
    (observe-Noted dumps sha256 policy step s).no_progress_steps,
    idle_steps steps (observe dumps sha256 policy step s).1,
  )

  -- An attempt that makes no progress is ended in time: after any idle steps, the observation of one
  -- more idle step that brings their number to the budget says to terminate, whatever came before.
  pub idle_run-terminates :
      (steps : List (AttemptStep Arguments)) (step : AttemptStep Arguments) (s : ProgressState)
      → all is_idle steps ≡ true
      → is_idle step ≡ true
      → policy.max_no_progress_steps ≤ length steps + 1
      → terminates (observe dumps sha256 policy step (observe_all dumps sha256 policy steps s)).0
        ≡ true
  idle_run-terminates steps step s idle last enough =
      observe-terminates step (observe_all dumps sha256 policy steps s)
      ∙ ground (arith, idle_steps steps s idle)

  some-reason_for :
      (kind : ProgressKind) (r n : ℕ) (s : ProgressState)
      → policy.consecutive_limit ≤ s.consecutive_count
      → is_some (reason_for policy kind r n s) ≡ true
  unfolding reason_for
  some-reason_for kind r n s h = ground arith

  some-intervene :
      (a : Text) (n : ℕ) (s : ProgressState) (o : Option InterventionReason)
      → is_some (intervene policy a n s o).0 ≡ is_some o
  some-intervene a n s none = refl
  some-intervene a n s (some reason) = refl

  some-observe :
      (step : AttemptStep Arguments) (s : ProgressState)
      → policy.consecutive_limit ≤ (observe dumps sha256 policy step s).1.consecutive_count
      → is_some (observe dumps sha256 policy step s).0 ≡ true
  unfolding observe
  some-observe step s h =
      let noted = note_step dumps sha256 policy step s in
      let pair = failure_pair_signature dumps sha256 step in
      let out = note_failure policy pair noted in
      let recent = recent_count_of dumps sha256 policy step s in
      let count = (observe-Noted dumps sha256 policy step s).consecutive_count in
      let limit : policy.consecutive_limit ≤ out.1.consecutive_count =
        ground (arith, note_failure-idle pair noted, count) in
      some-intervene (signature_of dumps sha256 step) recent out.1 _
      ∙ some-reason_for step.progress out.0 recent out.1 limit

  -- From a new monitor, a step whose call ends a run of at least consecutive_limit equal calls
  -- always brings an intervention, whatever its outcome and progress.
  pub repetition-intervenes :
      (steps : List (AttemptStep Arguments)) (step : AttemptStep Arguments)
      → policy.consecutive_limit
        ≤ trailing
            (signature_of dumps sha256 step)
            (signatures_of dumps sha256 policy (steps ++ step ∷ []))
            0
      → is_some
          (observe dumps sha256 policy step (observe_all dumps sha256 policy steps new_state)).0
        ≡ true
  repetition-intervenes steps step h =
      let run = (observe_all-window dumps sha256 policy steps step).1 in
      let same =
        ap (λ (s : ProgressState). s.consecutive_count)
          (observe_all-append dumps sha256 policy steps step new_state) in
      some-observe step (observe_all dumps sha256 policy steps new_state) (omega (arith, run, same))
