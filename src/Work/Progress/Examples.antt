-- ===== src/Work/Progress/Examples.antt =====
-- Tests of the monitor on one repeated call, and the theorems at such inputs.
use long_haul.Prelude.{
  ◌≡◌, refl, true, none, [], ◌∷◌, arith, is_some, last_items, Text, codes, ◌==◌,
}
use long_haul.Work.Progress.{
  AttemptStep, ProgressPolicy, ProgressKind, StepOutcome, new_state, observe, signature_of,
  stable_signature,
}
use long_haul.Work.Progress.Windows.{observe_all, trailing, observe_all-window, signatures_of}
use long_haul.Work.Progress.Budget.{terminates, idle_run-terminates, repetition-intervenes}

abbrev dumps : Text → Text
dumps arguments = arguments

-- A stand-in for the digest: its argument.
abbrev sha256 : Text → Text
sha256 text = text

abbrev policy : ProgressPolicy
policy = record {
  recent_window = 4;
  repeated_call_limit = 3;
  consecutive_limit = 2;
  repeated_failure_limit = 3;
  max_no_progress_steps = 3;
}

abbrev step : AttemptStep Text
step = record {
  step_id = codes "s";
  action = codes "run";
  arguments = codes "x";
  outcome = StepOutcome.success;
  progress = ProgressKind.no_progress;
  result_fingerprint = none;
}

terminates_test :
    terminates
      (observe dumps sha256 policy step
        (observe_all dumps sha256 policy (step ∷ step ∷ []) new_state)).0
    ≡ true
unfolding observe_all observe stable_signature ◌==◌
terminates_test = refl

observe_all-window_example :
    ((observe_all dumps sha256 policy (step ∷ step ∷ []) new_state).signatures
      ≡ last_items 4 (signatures_of dumps sha256 policy (step ∷ step ∷ [])))
    × ((observe_all dumps sha256 policy (step ∷ step ∷ []) new_state).consecutive_count
        ≡ trailing
            (signature_of dumps sha256 step)
            (signatures_of dumps sha256 policy (step ∷ step ∷ []))
            0)
observe_all-window_example = observe_all-window dumps sha256 policy (step ∷ []) step

idle_run-terminates_example :
    terminates
      (observe dumps sha256 policy step
        (observe_all dumps sha256 policy (step ∷ step ∷ []) new_state)).0
    ≡ true
idle_run-terminates_example =
    idle_run-terminates dumps sha256 policy (step ∷ step ∷ []) step new_state refl refl
      (omega arith)

repetition-intervenes_example :
    is_some
      (observe dumps sha256 policy step (observe_all dumps sha256 policy (step ∷ []) new_state)).0
    ≡ true
unfolding stable_signature
repetition-intervenes_example =
    repetition-intervenes dumps sha256 policy (step ∷ []) step (unfold trailing ◌==◌ in omega arith)
