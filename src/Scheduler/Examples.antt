-- ===== src/Scheduler/Examples.antt =====
-- Tests of placement on one vessel, and the theorem at such an input.
use long_haul.Prelude.{
  ℕ, ◌≡◌, refl, true, false, not, ◌&&◌, ◌||◌, none, some, List, [], ◌∷◌, take, select, any, all,
  codes, ◌==◌,
}
use long_haul.Prelude.Results.{ok}
use long_haul.Prelude.Dict.{get}
use long_haul.Fleet.Lease.{VesselLifecycle}
use long_haul.Fleet.Models.{
  local, pool, CapacityUnit, ResourceKind, memory, Resource, Vessel, VesselClass,
}
use long_haul.Scheduler.{
  MissionRequirements, PreemptionPolicy, InferenceProfile, ExecutionPlan, Scheduler, create,
  generate, lease_inactive, memory_exceeded, placement_reasons, is_subset, same_mode,
  same_resources, known_capacities, required_sizes, needs_link, joins, is_acceptable,
}
use long_haul.Scheduler.Placement.{serves, fits, placement_reasons-nil}

abbrev resource : Resource
resource = record {
  id = codes "r";
  kind = ResourceKind.gpu;
  capacities = record { kind = memory; amount = 2; unit = CapacityUnit.bytes } ∷ [];
  memory_mb = none;
}

abbrev vessel : Vessel
vessel = record {
  id = codes "v";
  name = codes "v";
  class_name = VesselClass.ship;
  resources = resource ∷ [];
  links = [];
  lifecycle = VesselLifecycle.ephemeral;
  lease = some (record {
    id = codes "l";
    acquired_at = record { instant = 1; is_aware = true };
    expires_at = some (record { instant = 9; is_aware = true });
    preemptible = false;
    renewable = true;
    trust_domain = codes "t";
    durable_state = false;
  });
}

abbrev scheduler : ℕ → Scheduler
scheduler now = record {
  vessels = vessel ∷ [];
  links = [];
  now = record { instant = now; is_aware = true };
  vessels_by_id = (codes "v", vessel) ∷ [];
  resources = (codes "r", resource) ∷ [];
}

abbrev mission : ℕ → MissionRequirements
mission minimum = record {
  id = codes "m";
  required_resources = codes "r" ∷ [];
  requires_synchronous_cross_node = true;
  allow_modes = local ∷ pool ∷ [];
  safety_ok = true;
  cooperation_ok = true;
  minimum_memory = minimum;
  restartable = false;
  preemption_policy = PreemptionPolicy.forbid;
  workload = none;
  evidence_not_before = none;
  allow_unknown_runtime = false;
}

abbrev profile : InferenceProfile
profile = record {
  id = codes "p";
  runtime_id = codes "rt";
  strategy = codes "s";
  artifact_key = codes "a";
  options = codes "{}";
  participating_resources = codes "r" ∷ [];
  requirements = record { kind = memory; amount = 2; unit = CapacityUnit.bytes } ∷ [];
}

abbrev plan : ExecutionPlan
plan = record {
  plan_id = codes "local:p";
  mode = local;
  vessels = codes "v" ∷ [];
  resources = codes "r" ∷ [];
  inference_profile_id = codes "p";
}

created : create (vessel ∷ []) [] (record { instant = 5; is_aware = true }) ≡ ok (scheduler 5)
unfolding create
created = refl

generated : take 1 (generate (scheduler 5) (profile ∷ [])) ≡ plan ∷ []
unfolding generate ◌==◌
generated = refl

-- After the lease has run out, with a minimum that is larger than the one capacity.
refused :
    placement_reasons (scheduler 9) (mission 3) plan profile
    ≡ ok (lease_inactive (codes "v") ∷ memory_exceeded ∷ [])
unfolding placement_reasons
refused = refl

placed : placement_reasons (scheduler 5) (mission 1) plan profile ≡ ok []
unfolding placement_reasons
placed = refl

placement_reasons-nil_example :
    ((true
        && true
        && any (same_mode local) (local ∷ pool ∷ [])
        && is_subset (codes "r" ∷ []) (codes "r" ∷ [])
        && same_resources profile plan)
      ≡ true)
    × (all
          (λ id. serves (mission 1) (scheduler 5) (get (scheduler 5).vessels_by_id id))
          (codes "v" ∷ [])
        ≡ true)
    × ((known : List ℕ) × (sizes : List ℕ) × (known_capacities (scheduler 5) (codes "r" ∷ [])
          ≡ ok known)
        × (required_sizes profile.requirements ≡ ok sizes)
        × (all (fits known) (1 ∷ sizes) ≡ true))
    × ((not (needs_link (mission 1) plan) || any is_acceptable (select (joins (codes "v" ∷ [])) []))
        ≡ true)
placement_reasons-nil_example = placement_reasons-nil (scheduler 5) (mission 1) plan profile placed
