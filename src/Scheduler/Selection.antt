-- ===== src/Scheduler/Selection.antt =====
-- The evidence for a plan and its evaluation (src/long_haul/scheduler/core.py); Ranks has the choice.
-- Parameters: the JSON texts of the records, the identity of a profile, and the order and the
-- validity of metrics (floats).
pub mod Ranks
use long_haul.Prelude.{
  ℕ, Bool, true, false, not, ◌&&◌, ◌||◌, Option, none, some, List, [], ◌∷◌, ◌++◌, map, ltb, nat_eq,
  if◌then◌else◌, is_some, is_none, select, any, all, Text, ◌==◌,
}
use long_haul.Prelude.Results.{Result, ok, err, value_error, key_error, ◌>>=◌}
use long_haul.Prelude.Dict.{Dict, get, put, values}
use long_haul.Prelude.Strings.{text_lt}
use long_haul.Prelude.Sorting.{sorted_by, first_where}
use long_haul.Fleet.Lease.{Datetime}
use long_haul.Fleet.Models.{ExecutionMode, pipeline, Vessel}
use long_haul.Runtime.{
  ValidationState, supported, unsupported, unknown, RuntimeIdentity, ProfileValidation,
  same_runtime, same_texts,
}
use long_haul.Benchmarks.{
  Workload, BenchmarkObservation, NetworkValue, number, word, evidence_is_fresh, is_measured,
  same_execution_mode, same_workload, ran_on,
}
use long_haul.Scheduler.{
  MissionRequirements, PreemptionPolicy, prefer, InferenceProfile, ExecutionPlan, Scheduler,
  generate, Reason, placement_reasons,
}

pub record Given (Metric : Type 0) : Type 0 where
  pub dump_validation : ProfileValidation → Text
  pub dump_observation : BenchmarkObservation Metric → Text
  pub identity : InferenceProfile → Text
  pub is_valid : Metric → Bool
  pub is_less : Metric → Metric → Bool
  pub zero_metric : Metric
  pub utc_now : ℕ

-- The rest of the scheduler's attributes.
pub record Records (Metric : Type 0) : Type 0 where
  pub benchmarks : List (BenchmarkObservation Metric)
  pub validations : List ProfileValidation
  pub current_runtimes : List RuntimeIdentity

pub data Finding : Type 0 where
  no_validation runtime_unsupported runtime_unknown no_evidence : Finding
  placement : Reason → Finding

-- The rank's parts that vary, each so that the smaller goes first; of throughputs the larger does.
pub record Rank (Metric : Type 0) : Type 0 where
  pub unmeasured : ℕ
  pub preemption_preference : ℕ
  pub discontinuity : ℕ
  pub throughput : Metric

pub record CandidateResult (Metric : Type 0) : Type 0 where
  pub plan : ExecutionPlan
  pub eligible : Bool
  pub reasons : List Finding
  pub evidence : Option (BenchmarkObservation Metric)
  pub preemption_preference : ℕ
  pub rank : Option (Rank Metric)

-- The runtime of a group whose members are all equal.
abbrev pub agreed : List RuntimeIdentity → Option RuntimeIdentity
agreed [] = none
agreed (r ∷ rs) = if all (λ x. same_runtime x r) rs then some r else none

-- self.current_runtimes.get(id), on the groups that __init__ forms
unfoldable pub current_runtime : List RuntimeIdentity → Text → Option RuntimeIdentity
unfolding same_runtime ◌==◌
current_runtime runtimes id = agreed (select (λ r. r.runtime_id == id) runtimes)

abbrev pub is_named : Option Text → Bool
is_named none = false
is_named (some []) = false
is_named (some (c ∷ cs)) = true

abbrev pub only_item : {A : Type 0} → Dict A → Option A
only_item [] = none
only_item ((k, a) ∷ []) = some a
only_item ((k, a) ∷ item ∷ items) = none

-- {key(x): x for x in xs}
unfoldable pub index_by : {A : Type 0} → (A → Text) → List A → Dict A → Dict A
unfolding put
index_by key [] d = d
index_by key (x ∷ xs) d = index_by key xs (put d (key x) x)

-- The one record, unless records differ.
unfoldable pub unique : {A : Type 0} → (A → Text) → List A → Option A
unfolding index_by
unique key xs = only_item (index_by key xs [])

abbrev pub matches_profile : InferenceProfile → RuntimeIdentity → ProfileValidation → Bool
matches_profile profile runtime v =
    v.profile_id == profile.id
    && same_runtime v.runtime runtime
    && v.artifact_key == profile.artifact_key
    && same_texts v.resources profile.participating_resources
    && v.strategy == profile.strategy
    && v.options == profile.options

abbrev pub is_pipeline : ExecutionMode → Bool
is_pipeline pipeline = true
is_pipeline _ = false

abbrev pub is_prefer : PreemptionPolicy → Bool
is_prefer prefer = true
is_prefer _ = false

abbrev pub is_preemptible : Option Vessel → Bool
is_preemptible none = false
is_preemptible (some v) = elim v.lease [ none ↦ false | some l ↦ l.preemptible ]

abbrev pub state_findings : MissionRequirements → ValidationState → List Finding
state_findings m supported = []
state_findings m unsupported = runtime_unsupported ∷ []
state_findings m unknown = if m.allow_unknown_runtime then [] else runtime_unknown ∷ []

abbrev pub validation_findings : MissionRequirements → Option ProfileValidation → List Finding
validation_findings m none = no_validation ∷ []
validation_findings m (some v) = state_findings m v.state

-- not reasons or reasons == ["no comparable benchmark evidence; uncertainty retained"]
abbrev pub is_eligible : List Finding → Bool
is_eligible [] = true
is_eligible (no_evidence ∷ []) = true
is_eligible _ = false

abbrev pub number_if : Bool → ℕ
number_if true = 1
number_if false = 0

-- The comparison of two numbers, and of the rest when they are equal.
abbrev pub then_by : ℕ → ℕ → Bool → Bool
then_by a b rest = ltb a b || (nat_eq a b && rest)

module _ {Metric : Type 0} (given : Given Metric) (records : Records Metric) where
  -- _validation
  abbrev pub validation_on : InferenceProfile → Option RuntimeIdentity → Option ProfileValidation
  validation_on profile none = none
  validation_on profile (some runtime) =
      if is_named runtime.version || is_named runtime.build_id
      then unique given.dump_validation
          (select (matches_profile profile runtime) records.validations)
      else none

  unfoldable pub validation : InferenceProfile → Option ProfileValidation
  unfolding current_runtime unique same_runtime ◌==◌
  validation profile =
      validation_on profile (current_runtime records.current_runtimes profile.runtime_id)

  abbrev pub valid_option : Option Metric → Bool
  valid_option none = true
  valid_option (some value) = given.is_valid value

  abbrev pub valid_network : NetworkValue Metric → Bool
  valid_network (number value) = given.is_valid value
  valid_network (word text) = true

  -- The throughput that counts for the workload.
  abbrev pub throughput_of : BenchmarkObservation Metric → Option Metric
  throughput_of b =
      if not (nat_eq b.workload.prompt_tokens 0) && nat_eq b.workload.output_tokens 0
      then b.prefill_tps
      else b.decode_tps

  -- _valid_metrics
  unfoldable pub valid_metrics : BenchmarkObservation Metric → Bool
  valid_metrics b =
      is_some (throughput_of b)
      && valid_option b.load_seconds
      && valid_option b.ttft_seconds
      && valid_option b.prefill_tps
      && valid_option b.decode_tps
      && valid_option b.power_watts
      && all given.is_valid (values b.residency_mib)
      && all given.is_valid (values b.utilization)
      && all valid_network (values b.network)

  -- _compatible_observation
  unfoldable pub compatible_observation :
      Workload
      → ExecutionPlan
      → InferenceProfile
      → RuntimeIdentity
      → BenchmarkObservation Metric
      → Bool
  unfolding same_runtime same_workload ◌==◌
  compatible_observation workload plan profile runtime b =
      b.profile_identity == given.identity profile
      && same_execution_mode b.plan_mode plan.mode
      && same_texts b.resources plan.resources
      && same_workload b.workload workload
      && ran_on runtime b.runtime
      && is_none b.error
      && is_measured b.provenance

  abbrev pub by_id : BenchmarkObservation Metric → BenchmarkObservation Metric → Bool
  by_id a b = text_lt a.id b.id

  abbrev pub evidence_for :
      ExecutionPlan
      → InferenceProfile
      → Option RuntimeIdentity
      → Option Workload
      → Option Datetime
      → Option (BenchmarkObservation Metric)
  evidence_for plan profile (some runtime) (some workload) (some cutoff) =
      if cutoff.is_aware
      then unique given.dump_observation (
          sorted_by by_id (
            select
              (λ b.
                compatible_observation workload plan profile runtime b
                && evidence_is_fresh given.utc_now b.timestamp cutoff
                && valid_metrics b)
              records.benchmarks))
      else none
  evidence_for plan profile _ _ _ = none

  -- _evidence
  unfoldable pub evidence :
      MissionRequirements → ExecutionPlan → InferenceProfile → Option (BenchmarkObservation Metric)
  unfolding current_runtime unique sorted_by text_lt compatible_observation evidence_is_fresh
      valid_metrics
  evidence m plan profile =
      evidence_for plan profile (current_runtime records.current_runtimes profile.runtime_id)
        m.workload m.evidence_not_before

  abbrev pub evidence_findings : Option (BenchmarkObservation Metric) → List Finding
  evidence_findings none = no_evidence ∷ []
  evidence_findings (some b) = []

  abbrev pub preference : Scheduler → MissionRequirements → ExecutionPlan → ℕ
  preference s m plan = number_if (
      is_prefer m.preemption_policy
      && not (any (λ id. is_preemptible (get s.vessels_by_id id)) plan.vessels))

  -- The result of evaluate on what its parts found.
  abbrev pub candidate :
      ExecutionPlan
      → List Finding
      → Option (BenchmarkObservation Metric)
      → ℕ
      → CandidateResult Metric
  candidate plan reasons found preferred = record {
    plan = plan;
    eligible = is_eligible reasons;
    reasons = reasons;
    evidence = found;
    preemption_preference = preferred;
    rank = none;
  }

  unfoldable pub evaluate :
      Scheduler
      → MissionRequirements
      → ExecutionPlan
      → InferenceProfile
      → Result (CandidateResult Metric)
  unfolding validation placement_reasons evidence get
  evaluate s m plan profile = do
    against ← placement_reasons s m plan profile
    let found = evidence m plan profile
    let reasons =
        validation_findings m (validation profile)
        ++ (map placement against ++ evidence_findings found)
    ok (candidate plan reasons found (preference s m plan))
