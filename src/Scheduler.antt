-- ===== src/Scheduler.antt =====
-- The hard constraints of plan selection (src/long_haul/scheduler/core.py): the requirements of a
-- mission, the plans that are generated, and the reasons against a plan's placement.
-- Memory amounts are in bytes, as in Fleet.Models. Fields that the scheduler does not read are left
-- out. Scheduler.Selection has the evidence for a plan, and the choice.
pub mod Placement
pub mod Selection
pub mod Choice
pub mod Ranking
pub mod Least
pub mod Outcome
mod Examples
mod Selected
use long_haul.Prelude.{
  ℕ, zero, suc, ◌+◌, ◌-◌, ◌*◌, ◌/◌, ◌%◌, ◌≤◌, ◌<◌, min, max, ◌≡◌, refl, sym, ap, ◌∙◌, ◌≢◌, ◌↔◌, ◌⊎◌,
  inl, inr, Bool, true, false, not, ◌&&◌, ◌||◌, Option, none, some, List, [], ◌∷◌, ◌++◌, map, arith,
  ltb, leb, nat_eq, if◌then◌else◌, nat_eq_iff, Bool-cases, Option-cases, is_some, is_none, length,
  take, drop, last_items, drop-append, drop-drop, drop-nil, last_items-window, All, select, any,
  all, length-append, length-drop, length-take-le, length-last_items-le, length-select-le,
  any-append, all-append, Text, codes, ◌==◌, ==_refl, eq_of_==, eq_iff, contains, is_distinct,
  contains-append,
}
use long_haul.Prelude.Results.{
  Fault, Result, ok, err, value_error, key_error, type_error, runtime_error, lease_error,
  verification_error, lifecycle_error, service_error, ◌>>=◌, ◌>>◌, raise_if, >>=-eq-ok,
  raise_if-eq-ok, Result-cases, is_ok, passed,
}
use long_haul.Prelude.Dict.{
  Dict, get, put, pop, values, get-put, get-pop, keys, contains-keys-put, get-absent,
}
use long_haul.Prelude.Strings.{sorted, to_set}
use long_haul.Fleet.Lease.{Datetime, ResourceLease, covers}
use long_haul.Benchmarks.{Workload}
use long_haul.Fleet.Models.{
  ExecutionMode, local, pool, pipeline, compose, Capacity, CapacityKind, memory, same_kind, as_mib,
  capacity_mib, Resource, Link, LinkKind, tailscale, Vessel,
}

pub data PreemptionPolicy : Type 0 where
  allow prefer forbid : PreemptionPolicy

pub record MissionRequirements : Type 0 where
  pub id : Text
  pub required_resources : List Text
  pub requires_synchronous_cross_node : Bool
  pub allow_modes : List ExecutionMode
  pub safety_ok : Bool
  pub cooperation_ok : Bool
  pub minimum_memory : ℕ
  pub restartable : Bool
  pub preemption_policy : PreemptionPolicy
  pub workload : Option Workload
  pub evidence_not_before : Option Datetime
  pub allow_unknown_runtime : Bool

abbrev is_prefer : PreemptionPolicy → Bool
is_prefer prefer = true
is_prefer _ = false

abbrev pub is_forbid : PreemptionPolicy → Bool
is_forbid forbid = true
is_forbid _ = false

-- MissionRequirements.__post_init__; a natural number is finite, and the policy has its type
unfoldable pub build_requirements : MissionRequirements → Result MissionRequirements
build_requirements m = do
  raise_if (is_prefer m.preemption_policy && not m.restartable) value_error
  ok m

-- artifact_key is artifact.key, and options is the JSON text of the options, by which alone they are
-- compared.
pub record InferenceProfile : Type 0 where
  pub id : Text
  pub runtime_id : Text
  pub strategy : Text
  pub artifact_key : Text
  pub options : Text
  pub participating_resources : List Text
  pub requirements : List Capacity

pub record ExecutionPlan : Type 0 where
  pub plan_id : Text
  pub mode : ExecutionMode
  pub vessels : List Text
  pub resources : List Text
  pub inference_profile_id : Text

pub record Scheduler : Type 0 where
  pub vessels : List Vessel
  pub links : List Link
  pub now : Datetime
  pub vessels_by_id : Dict Vessel
  pub resources : Dict Resource

-- {v.id: v for v in vessels}
unfoldable pub index_vessels : List Vessel → Dict Vessel → Dict Vessel
unfolding put
index_vessels [] d = d
index_vessels (v ∷ vs) d = index_vessels vs (put d v.id v)

unfoldable pub index_resources : List Resource → Dict Resource → Dict Resource
unfolding put
index_resources [] d = d
index_resources (r ∷ rs) d = index_resources rs (put d r.id r)

-- {r.id: r for v in vessels for r in v.resources}
unfoldable pub index_all : List Vessel → Dict Resource → Dict Resource
unfolding index_resources
index_all [] d = d
index_all (v ∷ vs) d = index_all vs (index_resources v.resources d)

-- Scheduler.__init__ with an explicit time
unfoldable pub create : List Vessel → List Link → Datetime → Result Scheduler
unfolding index_vessels index_all
create vessels links now = do
  raise_if (not now.is_aware) value_error
  ok (record {
    vessels = vessels;
    links = links;
    now = now;
    vessels_by_id = index_vessels vessels [];
    resources = index_all vessels [];
  })

-- mode.value.lower()
abbrev pub mode_text : ExecutionMode → Text
mode_text local = codes "local"
mode_text pool = codes "pool"
mode_text pipeline = codes "pipeline"
mode_text compose = codes "compose"

unfoldable pub vessels_with : List Text → List Vessel → List Text
unfolding contains
vessels_with resources [] = []
vessels_with resources (v ∷ vs) =
    let rest = vessels_with resources vs in
    if any (λ r. contains r.id resources) v.resources then v.id ∷ rest else rest

abbrev plan_for : Scheduler → InferenceProfile → ExecutionMode → ExecutionPlan
plan_for s profile mode = record {
  plan_id = mode_text mode ++ codes ":" ++ profile.id;
  mode = mode;
  vessels = sorted (to_set (vessels_with profile.participating_resources s.vessels));
  resources = profile.participating_resources;
  inference_profile_id = profile.id;
}

-- Scheduler.generate
unfoldable pub generate : Scheduler → List InferenceProfile → List ExecutionPlan
unfolding sorted to_set vessels_with
generate s [] = []
generate s (profile ∷ profiles) =
    map (plan_for s profile) (local ∷ pool ∷ pipeline ∷ compose ∷ []) ++ generate s profiles

pub data Reason : Type 0 where
  unsafe uncooperative mode_outside missing_resource unpaired_resources : Reason
  vessel_unavailable memory_unknown memory_exceeded no_direct_path : Reason
  lease_inactive preemptible_forbidden : Text → Reason

abbrev pub reason_if : Bool → Reason → List Reason
reason_if true r = r ∷ []
reason_if false r = []

abbrev pub same_mode : ExecutionMode → ExecutionMode → Bool
same_mode a b = mode_text a == mode_text b

-- a <= b for two sets
abbrev pub is_subset : List Text → List Text → Bool
is_subset a b = all (λ x. contains x b) a

abbrev pub lease_reasons_of :
    MissionRequirements → Datetime → Text → Option ResourceLease → List Reason
lease_reasons_of m now vessel_id none = []
lease_reasons_of m now vessel_id (some l) =
    reason_if (not (covers l now)) (lease_inactive vessel_id)
    ++ reason_if (is_forbid m.preemption_policy && l.preemptible) (preemptible_forbidden vessel_id)

abbrev pub vessel_reasons : MissionRequirements → Datetime → Text → Option Vessel → List Reason
vessel_reasons m now vessel_id none = []
vessel_reasons m now vessel_id (some v) = lease_reasons_of m now vessel_id v.lease

-- The loop of _lease_reasons.
unfoldable pub all_vessel_reasons : Scheduler → MissionRequirements → List Text → List Reason
unfolding get covers
all_vessel_reasons s m [] = []
all_vessel_reasons s m (vessel_id ∷ ids) =
    vessel_reasons m s.now vessel_id (get s.vessels_by_id vessel_id) ++ all_vessel_reasons s m ids

-- _lease_reasons
unfoldable pub lease_reasons : Scheduler → MissionRequirements → ExecutionPlan → List Reason
unfolding get all_vessel_reasons
lease_reasons s m plan =
    reason_if (any (λ id. is_none (get s.vessels_by_id id)) plan.vessels) vessel_unavailable
    ++ all_vessel_reasons s m plan.vessels

-- {link.source, link.target} == set(vessels)
abbrev pub joins : List Text → Link → Bool
joins vessels link =
    is_subset (link.source ∷ link.target ∷ []) vessels
    && is_subset vessels (link.source ∷ link.target ∷ [])

abbrev is_tailscale : LinkKind → Bool
is_tailscale tailscale = true
is_tailscale _ = false

abbrev is_true : Option Bool → Bool
is_true (some true) = true
is_true _ = false

abbrev is_direct_path : Option Text → Bool
is_direct_path none = false
is_direct_path (some path) = path == codes "direct"

abbrev pub is_acceptable : Link → Bool
is_acceptable link = is_tailscale link.kind && is_true link.direct && is_direct_path link.path

abbrev is_pipeline : ExecutionMode → Bool
is_pipeline pipeline = true
is_pipeline _ = false

abbrev pub needs_link : MissionRequirements → ExecutionPlan → Bool
needs_link m plan =
    is_pipeline plan.mode && ltb 1 (length plan.vessels) && m.requires_synchronous_cross_node

-- _unacceptable_pipeline_link
unfoldable pub unacceptable_pipeline_link : Scheduler → MissionRequirements → ExecutionPlan → Bool
unfolding contains
unacceptable_pipeline_link s m plan =
    needs_link m plan && not (any is_acceptable (select (joins plan.vessels) s.links))

abbrev known_of : Option ℕ → List ℕ → List ℕ
known_of none known = known
known_of (some size) known = size ∷ known

abbrev capacity_at : Option Resource → Result (Option ℕ)
capacity_at none = ok none
capacity_at (some r) = capacity_mib memory r.capacities

-- The known memory capacities of the plan's resources that the scheduler knows.
unfoldable pub known_capacities : Scheduler → List Text → Result (List ℕ)
unfolding get capacity_mib
known_capacities s [] = ok []
known_capacities s (id ∷ ids) = do
  size ← capacity_at (get s.resources id)
  known ← known_capacities s ids
  ok (known_of size known)

-- max of a list and a last item
unfoldable pub max_of : List ℕ → ℕ → ℕ
max_of [] last = last
max_of (n ∷ ns) last = max n (max_of ns last)

-- [c.as_mib() for c in requirements if c.kind == "memory"]
unfoldable pub required_sizes : List Capacity → Result (List ℕ)
unfolding as_mib
required_sizes [] = ok []
required_sizes (c ∷ cs) =
    let rest = required_sizes cs in
    if same_kind c.kind memory then (do size ← as_mib c; sizes ← rest; ok (size ∷ sizes)) else rest

abbrev pub memory_reason : List ℕ → ℕ → List Reason
memory_reason known zero = []
memory_reason [] (suc required) = memory_unknown ∷ []
memory_reason (k ∷ known) (suc required) =
    reason_if (ltb (max_of known k) (suc required)) memory_exceeded

-- _memory_issue
unfoldable pub memory_issue :
    Scheduler → MissionRequirements → ExecutionPlan → InferenceProfile → Result (List Reason)
unfolding known_capacities required_sizes max_of
memory_issue s m plan profile = do
  known ← known_capacities s plan.resources
  sizes ← required_sizes profile.requirements
  ok (memory_reason known (max_of sizes m.minimum_memory))

abbrev pub same_resources : InferenceProfile → ExecutionPlan → Bool
same_resources profile plan =
    is_subset profile.participating_resources plan.resources
    && is_subset plan.resources profile.participating_resources

-- _placement_reasons
unfoldable pub placement_reasons :
    Scheduler → MissionRequirements → ExecutionPlan → InferenceProfile → Result (List Reason)
unfolding contains ◌==◌ lease_reasons memory_issue unacceptable_pipeline_link
placement_reasons s m plan profile = do
  memory_reasons ← memory_issue s m plan profile
  ok (
      reason_if (not m.safety_ok) unsafe
      ++ reason_if (not m.cooperation_ok) uncooperative
      ++ reason_if (not (any (same_mode plan.mode) m.allow_modes)) mode_outside
      ++ reason_if (not (is_subset m.required_resources plan.resources)) missing_resource
      ++ reason_if (not (same_resources profile plan)) unpaired_resources
      ++ lease_reasons s m plan
      ++ memory_reasons
      ++ reason_if (unacceptable_pipeline_link s m plan) no_direct_path)
