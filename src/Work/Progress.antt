-- ===== src/Work/Progress.antt =====
-- The progress monitor (src/long_haul/work/progress.py).
-- `json.dumps` of the arguments and SHA-256 are parameters.
pub mod Windows
pub mod Budget
mod Examples
use long_haul.Prelude.{
  ℕ, zero, suc, ◌+◌, ◌-◌, ◌*◌, ◌/◌, ◌%◌, ◌≤◌, ◌<◌, min, max, ◌≡◌, refl, sym, ap, ◌∙◌, ◌≢◌, ◌↔◌, ◌⊎◌,
  inl, inr, Bool, true, false, not, ◌&&◌, ◌||◌, Option, none, some, List, [], ◌∷◌, ◌++◌, map, arith,
  ltb, leb, nat_eq, if◌then◌else◌, nat_eq_iff, Bool-cases, Option-cases, is_some, is_none, length,
  take, drop, last_items, drop-append, drop-drop, last_items-window, All, select, any, all,
  length-append, length-drop, length-take-le, length-last_items-le, length-select-le, any-append,
  all-append, Text, codes, ◌==◌, ==_refl, eq_of_==, eq_iff, contains, is_distinct, contains-append,
}

pub data ProgressKind : Type 0 where
  information state_change verification recovery no_progress : ProgressKind

pub data StepOutcome : Type 0 where
  success failure unknown : StepOutcome

pub record AttemptStep (Arguments : Type 0) : Type 0 where
  pub step_id : Text
  pub action : Text
  pub arguments : Arguments
  pub outcome : StepOutcome
  pub progress : ProgressKind
  pub result_fingerprint : Option Text

pub record ProgressPolicy : Type 0 where
  pub recent_window : ℕ
  pub repeated_call_limit : ℕ
  pub consecutive_limit : ℕ
  pub repeated_failure_limit : ℕ
  pub max_no_progress_steps : ℕ

pub data InterventionReason : Type 0 where
  repeated_failure_pair consecutive_repeated_action : InterventionReason
  repeated_action no_progress_budget_exhausted : InterventionReason

pub record ProgressIntervention : Type 0 where
  pub reason : InterventionReason
  pub signature : Text
  pub recent_count : ℕ
  pub consecutive_count : ℕ
  pub no_progress_steps : ℕ
  pub terminate_attempt : Bool

pub record ProgressState : Type 0 where
  pub signatures : List Text
  pub last_signature : Option Text
  pub consecutive_count : ℕ
  pub no_progress_steps : ℕ
  pub failure_pairs : List Text
  pub interventions : ℕ

abbrev pub new_state : ProgressState
new_state = record {
  signatures = [];
  last_signature = none;
  consecutive_count = 0;
  no_progress_steps = 0;
  failure_pairs = [];
  interventions = 0;
}

-- xs.count(a)
unfoldable pub count : Text → List Text → ℕ
count a [] = 0
count a (x ∷ xs) = if x == a then suc (count a xs) else count a xs

abbrev pub is_last : Option Text → Text → Bool
is_last none a = false
is_last (some b) a = a == b

-- The branch that resets the count of steps without progress.
abbrev pub resets : ProgressKind → StepOutcome → Bool
resets state_change outcome = true
resets recovery outcome = true
resets verification success = true
resets _ _ = false

abbrev pub is_verification : ProgressKind → Bool
is_verification verification = true
is_verification _ = false

abbrev pub is_failure : StepOutcome → Bool
is_failure failure = true
is_failure _ = false

-- result_fingerprint or 'unknown'
abbrev fingerprint_or_unknown : Option Text → Text
fingerprint_or_unknown none = codes "unknown"
fingerprint_or_unknown (some []) = codes "unknown"
fingerprint_or_unknown (some (c ∷ cs)) = c ∷ cs

-- failure_pairs and repeated_failures
unfoldable pub note_failure : ProgressPolicy → Option Text → ProgressState → ℕ × ProgressState
unfolding count
note_failure policy none s = (0, s)
note_failure policy (some pair) s =
    let pairs = last_items policy.recent_window (s.failure_pairs ++ pair ∷ []) in
    (count pair pairs, record s { failure_pairs = pairs })

-- The ladder of reasons; recent_count was taken before the window was cut.
unfoldable pub reason_for :
    ProgressPolicy → ProgressKind → ℕ → ℕ → ProgressState → Option InterventionReason
reason_for policy kind repeated_failures recent_count s =
    if leb policy.repeated_failure_limit repeated_failures
    then some repeated_failure_pair
    else if leb policy.consecutive_limit s.consecutive_count
    then some consecutive_repeated_action
    else if leb policy.repeated_call_limit recent_count && not (is_verification kind)
    then some repeated_action
    else if leb policy.max_no_progress_steps s.no_progress_steps
    then some no_progress_budget_exhausted
    else none

abbrev pub intervene :
    ProgressPolicy
    → Text
    → ℕ
    → ProgressState
    → Option InterventionReason
    → Option ProgressIntervention × ProgressState
intervene policy signature recent_count s none = (none, s)
intervene policy signature recent_count s (some reason) =
    let intervention : ProgressIntervention = record {
      reason = reason;
      signature = signature;
      recent_count = recent_count;
      consecutive_count = s.consecutive_count;
      no_progress_steps = s.no_progress_steps;
      terminate_attempt = leb policy.max_no_progress_steps s.no_progress_steps;
    } in
    (some intervention, record s { interventions = s.interventions + 1 })

-- The entries of the payload; `reason` keeps its type.
pub record RecoveryPayload : Type 0 where
  pub contract_id : Text
  pub attempt_id : Text
  pub intervention : ProgressIntervention
  pub intervention_count : ℕ

unfoldable pub recovery_event_payload :
    Text → Text → ProgressIntervention → ProgressState → RecoveryPayload
recovery_event_payload contract_id attempt_id intervention s = record {
  contract_id = contract_id;
  attempt_id = attempt_id;
  intervention = intervention;
  intervention_count = s.interventions;
}

module _ {Arguments : Type 0} (dumps : Arguments → Text) (sha256 : Text → Text) where
  unfoldable pub stable_signature : Text → Arguments → Text
  stable_signature action arguments = sha256 (action ++ codes ":" ++ dumps arguments)

  abbrev pub signature_of : AttemptStep Arguments → Text
  signature_of step = stable_signature step.action step.arguments

  unfoldable pub failure_pair_signature : AttemptStep Arguments → Option Text
  failure_pair_signature step =
      if is_failure step.outcome
      then some (signature_of step ++ codes ":" ++ fingerprint_or_unknown step.result_fingerprint)
      else none

  -- The first two blocks of observe: the windows and the counters.
  unfoldable pub note_step : ProgressPolicy → AttemptStep Arguments → ProgressState → ProgressState
  note_step policy step s =
      let signature = signature_of step in
      record s {
        signatures = last_items policy.recent_window (s.signatures ++ signature ∷ []);
        last_signature = some signature;
        consecutive_count =
            if is_last s.last_signature signature then s.consecutive_count + 1 else 1;
        no_progress_steps =
            if resets step.progress step.outcome then 0 else s.no_progress_steps + 1;
      }

  abbrev pub recent_count_of : ProgressPolicy → AttemptStep Arguments → ProgressState → ℕ
  recent_count_of policy step s =
      count (signature_of step) (last_items policy.recent_window s.signatures) + 1

  unfoldable pub observe :
      ProgressPolicy
      → AttemptStep Arguments
      → ProgressState
      → Option ProgressIntervention × ProgressState
  unfolding note_step note_failure reason_for failure_pair_signature count
  observe policy step s =
      let recent_count = recent_count_of policy step s in
      let noted = note_step policy step s in
      let (repeated_failures, s') = note_failure policy (failure_pair_signature step) noted in
      intervene policy (signature_of step) recent_count s'
        (reason_for policy step.progress repeated_failures recent_count s')
