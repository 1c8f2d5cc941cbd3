-- ===== src/Scheduler/Selection/Ranks.antt =====
-- rank and select of src/long_haul/scheduler/core.py.
use long_haul.Prelude.{
  Bool, true, false, not, ◌&&◌, ◌||◌, Option, none, some, List, [], ◌∷◌, map, if◌then◌else◌,
}
use long_haul.Prelude.Results.{Result, ok, err, value_error, key_error, ◌>>=◌}
use long_haul.Prelude.Dict.{Dict, get, values}
use long_haul.Prelude.Strings.{text_lt}
use long_haul.Prelude.Sorting.{sorted_by, first_where}
use long_haul.Benchmarks.{BenchmarkObservation, is_measured}
use long_haul.Scheduler.{MissionRequirements, InferenceProfile, ExecutionPlan, Scheduler, generate}
use long_haul.Scheduler.Selection.{
  Given, Records, Rank, CandidateResult, index_by, is_pipeline, number_if, then_by, throughput_of,
  evaluate,
}

module _ {Metric : Type 0} (given : Given Metric) (records : Records Metric) where
  abbrev pub is_measured_evidence : Option (BenchmarkObservation Metric) → Bool
  is_measured_evidence none = false
  is_measured_evidence (some b) = is_measured b.provenance

  -- throughput or 0.0
  abbrev pub or_zero : Option Metric → Metric
  or_zero none = given.zero_metric
  or_zero (some value) = value

  abbrev pub throughput_in : Option (BenchmarkObservation Metric) → Metric
  throughput_in none = given.zero_metric
  throughput_in (some b) = or_zero (throughput_of given records b)

  abbrev pub rank_of : CandidateResult Metric → Rank Metric
  rank_of c = record {
    unmeasured = number_if (not (is_measured_evidence c.evidence));
    preemption_preference = c.preemption_preference;
    discontinuity = number_if (is_pipeline c.plan.mode);
    throughput = throughput_in c.evidence;
  }

  abbrev pub ranked : CandidateResult Metric → CandidateResult Metric
  ranked c = if c.eligible then record c { rank = some (rank_of c) } else c

  abbrev pub rank_lt : Rank Metric → Rank Metric → Bool → Bool
  rank_lt a b rest = then_by a.unmeasured b.unmeasured (
      then_by a.preemption_preference b.preemption_preference (
        then_by a.discontinuity b.discontinuity (
          given.is_less b.throughput a.throughput
          || (not (given.is_less a.throughput b.throughput) && rest))))

  -- A missing rank is (99,) * 6, which goes last.
  abbrev pub rank_option_lt : Option (Rank Metric) → Option (Rank Metric) → Bool → Bool
  rank_option_lt none none rest = rest
  rank_option_lt none (some b) rest = false
  rank_option_lt (some a) none rest = true
  rank_option_lt (some a) (some b) rest = rank_lt a b rest

  abbrev pub candidate_lt : CandidateResult Metric → CandidateResult Metric → Bool
  candidate_lt a b =
      then_by (number_if (not a.eligible)) (number_if (not b.eligible))
        (rank_option_lt a.rank b.rank (text_lt a.plan.plan_id b.plan.plan_id))

  unfoldable pub rank : List (CandidateResult Metric) → List (CandidateResult Metric)
  unfolding sorted_by text_lt
  rank candidates = sorted_by candidate_lt (map ranked candidates)

  -- {p.id: p for p in profiles}
  unfoldable pub profiles_by_id : List InferenceProfile → Dict InferenceProfile
  unfolding index_by
  profiles_by_id profiles = index_by (λ p. p.id) profiles []

  abbrev pub required : Option InferenceProfile → Result InferenceProfile
  required none = err key_error
  required (some profile) = ok profile

  unfoldable pub evaluate_all :
      Scheduler
      → MissionRequirements
      → Dict InferenceProfile
      → List ExecutionPlan
      → Result (List (CandidateResult Metric))
  unfolding evaluate get
  evaluate_all s m profiles [] = ok []
  evaluate_all s m profiles (plan ∷ plans) = do
    profile ← required (get profiles plan.inference_profile_id)
    result ← evaluate given records s m plan profile
    results ← evaluate_all s m profiles plans
    ok (result ∷ results)

  abbrev pub is_choice : CandidateResult Metric → Bool
  is_choice c = c.eligible

  abbrev pub chosen : Option (CandidateResult Metric) → Result (CandidateResult Metric)
  chosen none = err value_error
  chosen (some c) = ok c

  unfoldable pub candidates :
      Scheduler
      → MissionRequirements
      → List InferenceProfile
      → Result (List (CandidateResult Metric))
  unfolding profiles_by_id generate evaluate_all
  candidates s m profiles =
      let by_profile = profiles_by_id profiles in
      evaluate_all s m by_profile (generate s (values by_profile))

  unfoldable pub select_plan :
      Scheduler → MissionRequirements → List InferenceProfile → Result (CandidateResult Metric)
  unfolding candidates rank
  select_plan s m profiles = do
    found ← candidates s m profiles
    chosen (first_where is_choice (rank found))
