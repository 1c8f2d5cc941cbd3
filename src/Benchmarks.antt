-- ===== src/Benchmarks.antt =====
-- The benchmark records of src/long_haul/benchmarks/store.py, and what makes one comparable.
-- Metrics are of a parameter type. The current time of evidence_is_fresh is an argument.
use long_haul.Prelude.{
  ℕ, Bool, true, false, ◌&&◌, Option, none, some, List, leb, nat_eq, is_none, select, all, contains,
  Text, ◌==◌,
}
use long_haul.Prelude.Dict.{Dict}
use long_haul.Fleet.Lease.{Datetime}
use long_haul.Fleet.Models.{ExecutionMode, local, pool, pipeline, compose}
use long_haul.Runtime.{RuntimeIdentity, same_runtime, same_texts}

pub data Provenance : Type 0 where
  measured imported simulated estimated : Provenance

pub record Workload : Type 0 where
  pub name : Text
  pub prompt_tokens : ℕ
  pub output_tokens : ℕ
  pub cold : Bool

-- float | str
pub data NetworkValue (Metric : Type 0) : Type 0 where
  number : Metric → NetworkValue Metric
  word : Text → NetworkValue Metric

-- profile_id is profile.id, and profile_identity is profile.identity
pub record BenchmarkObservation (Metric : Type 0) : Type 0 where
  pub id : Text
  pub timestamp : Datetime
  pub profile_id : Text
  pub profile_identity : Text
  pub plan_mode : ExecutionMode
  pub resources : List Text
  pub workload : Workload
  pub provenance : Provenance
  pub load_seconds : Option Metric
  pub ttft_seconds : Option Metric
  pub prefill_tps : Option Metric
  pub decode_tps : Option Metric
  pub residency_mib : Dict Metric
  pub utilization : Dict Metric
  pub network : Dict (NetworkValue Metric)
  pub power_watts : Option Metric
  pub error : Option Text
  pub runtime : Option RuntimeIdentity

unfoldable pub evidence_is_fresh : ℕ → Datetime → Datetime → Bool
evidence_is_fresh now timestamp not_before =
    timestamp.is_aware
    && not_before.is_aware
    && leb not_before.instant timestamp.instant
    && leb timestamp.instant now

abbrev pub is_measured : Provenance → Bool
is_measured measured = true
is_measured _ = false

abbrev pub same_execution_mode : ExecutionMode → ExecutionMode → Bool
same_execution_mode local local = true
same_execution_mode pool pool = true
same_execution_mode pipeline pipeline = true
same_execution_mode compose compose = true
same_execution_mode _ _ = false

abbrev same_flag : Bool → Bool → Bool
same_flag true b = b
same_flag false true = false
same_flag false false = true

unfoldable pub same_workload : Workload → Workload → Bool
unfolding ◌==◌
same_workload a b =
    a.name == b.name
    && nat_eq a.prompt_tokens b.prompt_tokens
    && nat_eq a.output_tokens b.output_tokens
    && same_flag a.cold b.cold

abbrev pub ran_on : RuntimeIdentity → Option RuntimeIdentity → Bool
ran_on runtime none = false
ran_on runtime (some r) = same_runtime r runtime

abbrev in_mode : Option ExecutionMode → ExecutionMode → Bool
in_mode none mode = true
in_mode (some wanted) mode = same_execution_mode mode wanted

abbrev of_profile : Option Text → Text → Bool
of_profile none profile_id = true
of_profile (some wanted) profile_id = profile_id == wanted

abbrev on_resources : Option (List Text) → List Text → Bool
on_resources none resources = true
on_resources (some wanted) resources = all (λ r. contains r resources) wanted

module _ {Metric : Type 0} where
  -- BenchmarkStore.query on the records of the file
  unfoldable pub query :
      Option Text
      → Option ExecutionMode
      → Option (List Text)
      → List (BenchmarkObservation Metric)
      → List (BenchmarkObservation Metric)
  unfolding ◌==◌ contains
  query profile_id mode resources values =
      select
        (λ x.
          of_profile profile_id x.profile_id
          && in_mode mode x.plan_mode
          && on_resources resources x.resources)
        values

  -- BenchmarkStore.query_compatible
  unfoldable pub query_compatible :
      Text
      → List Text
      → RuntimeIdentity
      → Workload
      → Datetime
      → Option ExecutionMode
      → ℕ
      → List (BenchmarkObservation Metric)
      → List (BenchmarkObservation Metric)
  unfolding query same_runtime same_workload evidence_is_fresh ◌==◌
  query_compatible identity participating runtime workload not_before mode now values =
      select
        (λ x.
          x.profile_identity == identity
          && ran_on runtime x.runtime
          && same_workload x.workload workload
          && same_texts x.resources participating
          && is_measured x.provenance
          && is_none x.error
          && evidence_is_fresh now x.timestamp not_before)
        (query none mode none values)
