-- ===== src/Scheduler/Selected.antt =====
-- A plan is chosen among those of one profile, two of whose modes the mission allows.
use long_haul.Prelude.{
  ℕ, ◌≡◌, ◌≤◌, refl, true, false, none, some, List, [], ◌∷◌, All, any, ltb, codes,
}
use long_haul.Prelude.Results.{ok, is_ok}
use long_haul.Fleet.Models.{
  local, pool, memory, CapacityUnit, ResourceKind, Resource, Vessel, VesselClass,
}
use long_haul.Fleet.Lease.{VesselLifecycle}
use long_haul.Runtime.{supported, ValidationDepth, RuntimeIdentity, ProfileValidation, fingerprint}
use long_haul.Benchmarks.{Workload, BenchmarkObservation, measured, query_compatible}
use long_haul.Scheduler.{
  MissionRequirements, PreemptionPolicy, InferenceProfile, ExecutionPlan, Scheduler,
}
use long_haul.Scheduler.Selection.{Given, Records, CandidateResult}
use long_haul.Scheduler.Selection.Ranks.{candidates, profiles_by_id, is_choice, select_plan}
use long_haul.Scheduler.Choice.{IsAdmissible, place}
use long_haul.Scheduler.Outcome.{select_plan-IsAdmissible, select_plan-le, is_ok-select_plan}

-- Metrics are numbers.
abbrev given : Given ℕ
given = record {
  dump_validation = λ v. v.rationale;
  dump_observation = λ b. b.id;
  identity = λ p. p.id;
  is_valid = λ n. true;
  is_less = ltb;
  zero_metric = 0;
  utc_now = 50;
}

abbrev runtime : RuntimeIdentity
runtime = record {
  runtime_id = codes "rt";
  version = some (codes "1");
  build_id = none;
  binary_path = none;
  backends = codes "cpu" ∷ codes "amx" ∷ [];
  capabilities = [];
}

abbrev workload : Workload
workload = record { name = codes "w"; prompt_tokens = 4; output_tokens = 0; cold = true }

abbrev validated : ProfileValidation
validated = record {
  runtime = runtime;
  profile_id = codes "p";
  artifact_key = codes "a";
  resources = codes "r" ∷ [];
  strategy = codes "s";
  options = codes "{}";
  state = supported;
  depth = ValidationDepth.execution;
  rationale = codes "ran";
}

abbrev observation : BenchmarkObservation ℕ
observation = record {
  id = codes "o";
  timestamp = record { instant = 20; is_aware = true };
  profile_id = codes "p";
  profile_identity = codes "p";
  plan_mode = local;
  resources = codes "r" ∷ [];
  workload = workload;
  provenance = measured;
  load_seconds = none;
  ttft_seconds = none;
  prefill_tps = some 30;
  decode_tps = none;
  residency_mib = [];
  utilization = [];
  network = [];
  power_watts = none;
  error = none;
  runtime = some runtime;
}

abbrev records : Records ℕ
records = record {
  benchmarks = observation ∷ [];
  validations = validated ∷ [];
  current_runtimes = runtime ∷ runtime ∷ [];
}

abbrev resource : Resource
resource = record {
  id = codes "r";
  kind = ResourceKind.gpu;
  capacities = record { kind = memory; amount = 2; unit = CapacityUnit.bytes } ∷ [];
  memory_mb = none;
}

abbrev vessel : Vessel
vessel = record {
  id = codes "v";
  name = codes "v";
  class_name = VesselClass.ship;
  resources = resource ∷ [];
  links = [];
  lifecycle = VesselLifecycle.persistent;
  lease = none;
}

abbrev scheduler : Scheduler
scheduler = record {
  vessels = vessel ∷ [];
  links = [];
  now = record { instant = 5; is_aware = true };
  vessels_by_id = (codes "v", vessel) ∷ [];
  resources = (codes "r", resource) ∷ [];
}

abbrev mission : MissionRequirements
mission = record {
  id = codes "m";
  required_resources = codes "r" ∷ [];
  requires_synchronous_cross_node = true;
  allow_modes = local ∷ pool ∷ [];
  safety_ok = true;
  cooperation_ok = true;
  minimum_memory = 1;
  restartable = false;
  preemption_policy = PreemptionPolicy.forbid;
  workload = some workload;
  evidence_not_before = some (record { instant = 10; is_aware = true });
  allow_unknown_runtime = false;
}

abbrev profile : InferenceProfile
profile = record {
  id = codes "p";
  runtime_id = codes "rt";
  strategy = codes "s";
  artifact_key = codes "a";
  options = codes "{}";
  participating_resources = codes "r" ∷ [];
  requirements = [];
}

abbrev plan : ExecutionPlan
plan = record {
  plan_id = codes "local:p";
  mode = local;
  vessels = codes "v" ∷ [];
  resources = codes "r" ∷ [];
  inference_profile_id = codes "p";
}

abbrev best : CandidateResult ℕ
best = record {
  plan = plan;
  eligible = true;
  reasons = [];
  evidence = some observation;
  preemption_preference = 0;
  rank =
      some
        (record { unmeasured = 0; preemption_preference = 0; discontinuity = 0; throughput = 30 });
}

chosen-best : select_plan given records scheduler mission (profile ∷ []) ≡ ok best
unfolding select_plan
chosen-best = refl

evaluated :
    (found : List (CandidateResult ℕ)) × (candidates given records scheduler mission (profile ∷ [])
      ≡ ok found)
unfolding candidates
evaluated = (_, refl)

fingerprint-runtime : fingerprint runtime ≡ codes "rt|1|unknown|amx,cpu"
unfolding fingerprint
fingerprint-runtime = refl

queried :
    query_compatible
      (codes "p")
      (codes "r" ∷ [])
      runtime
      workload
      (record { instant = 10; is_aware = true })
      (some local)
      50
      (observation ∷ observation ∷ [])
    ≡ observation ∷ observation ∷ []
unfolding query_compatible
queried = refl

select_plan-IsAdmissible_example :
    IsAdmissible given records scheduler mission (profiles_by_id given records (profile ∷ [])) plan
select_plan-IsAdmissible_example =
    select_plan-IsAdmissible given records scheduler mission (profile ∷ []) best chosen-best

select_plan-le_example :
    All
      (λ d. place given records scheduler mission best ≤ place given records scheduler mission d)
      evaluated.0
select_plan-le_example =
    select_plan-le given records scheduler mission (profile ∷ []) best evaluated.0 chosen-best
      evaluated.1

is_ok-select_plan_example :
    is_ok (select_plan given records scheduler mission (profile ∷ []))
    ≡ any (is_choice given records) evaluated.0
is_ok-select_plan_example =
    is_ok-select_plan given records scheduler mission (profile ∷ []) evaluated.0 evaluated.1
