-- ===== src/Fleet/Models.antt =====
-- The domain models that leases and plans refer to (src/long_haul/models.py).
-- Amounts are whole numbers of their unit, and convert to bytes where the source converts to MiB, so
-- that comparisons are the source's but for the rounding of floats. Fields that no modelled
-- function reads (notes, metadata, measured link rates) are left out.
pub mod Laws
mod Examples
use long_haul.Prelude.{
  ℕ, zero, suc, ◌+◌, ◌-◌, ◌*◌, ◌/◌, ◌%◌, ◌≤◌, ◌<◌, min, max, ◌≡◌, refl, sym, ap, ◌∙◌, ◌≢◌, ◌↔◌, ◌⊎◌,
  inl, inr, Bool, true, false, not, ◌&&◌, ◌||◌, Option, none, some, List, [], ◌∷◌, ◌++◌, map, arith,
  ltb, leb, nat_eq, if◌then◌else◌, nat_eq_iff, Bool-cases, Option-cases, is_some, is_none, length,
  take, drop, last_items, All, select, any, all, length-append, length-drop, length-take-le,
  length-last_items-le, length-select-le, any-append, all-append, Text, codes, ◌==◌, ==_refl,
  eq_of_==, eq_iff, contains, is_distinct,
}
use long_haul.Prelude.Results.{
  Fault, Result, ok, err, value_error, key_error, type_error, runtime_error, lease_error,
  verification_error, lifecycle_error, service_error, ◌>>=◌, ◌>>◌, raise_if, >>=-eq-ok,
  raise_if-eq-ok, Result-cases, is_ok,
}
use long_haul.Fleet.Lease.{
  ResourceLease, VesselLifecycle, persistent, ephemeral, external, validate_lease,
}

pub data ExecutionMode : Type 0 where
  local pool pipeline compose : ExecutionMode

pub data ResourceKind : Type 0 where
  cpu gpu npu memory storage sensor other : ResourceKind

pub data CapacityKind : Type 0 where
  memory storage compute power : CapacityKind

pub data CapacityUnit : Type 0 where
  mebibytes gibibytes bytes tops watts : CapacityUnit

pub record Capacity : Type 0 where
  pub kind : CapacityKind
  pub amount : ℕ
  pub unit : CapacityUnit

abbrev pub is_size : CapacityUnit → Bool
is_size mebibytes = true
is_size gibibytes = true
is_size bytes = true
is_size _ = false

-- self.unit in units[self.kind]
unfoldable pub unit_fits : CapacityKind → CapacityUnit → Bool
unit_fits compute tops = true
unit_fits compute _ = false
unit_fits power watts = true
unit_fits power _ = false
unit_fits _ unit = is_size unit

-- Capacity.compatible_unit; a natural number has a finite conversion
unfoldable pub compatible_unit : Capacity → Result Capacity
unfolding unit_fits
compatible_unit c = do raise_if (not (unit_fits c.kind c.unit)) value_error; ok c

abbrev pub same_kind : CapacityKind → CapacityKind → Bool
same_kind memory memory = true
same_kind storage storage = true
same_kind compute compute = true
same_kind power power = true
same_kind _ _ = false

abbrev pub converts : CapacityKind → Bool
converts memory = true
converts storage = true
converts _ = false

abbrev pub unit_bytes : CapacityUnit → ℕ
unit_bytes mebibytes = 1048576
unit_bytes gibibytes = 1073741824
unit_bytes _ = 1

-- Capacity.as_mib, in bytes; a unit without a factor is a missing key
unfoldable pub as_mib : Capacity → Result ℕ
as_mib c = do
  raise_if (not (converts c.kind)) value_error
  raise_if (not (is_size c.unit)) key_error
  ok (c.amount * unit_bytes c.unit)

pub record Resource : Type 0 where
  pub id : Text
  pub kind : ResourceKind
  pub capacities : List Capacity
  pub memory_mb : Option ℕ

abbrev pub has_kind : CapacityKind → List Capacity → Bool
has_kind k cs = any (λ c. same_kind c.kind k) cs

abbrev legacy_memory : Option ℕ → List Capacity → List Capacity
legacy_memory none cs = cs
legacy_memory (some mb) cs =
    if has_kind memory cs
    then cs
    else cs ++ record { kind = memory; amount = mb; unit = mebibytes } ∷ []

-- len({c.kind for c in cs}) == len(cs)
unfoldable pub kinds_distinct : List Capacity → Bool
kinds_distinct [] = true
kinds_distinct (c ∷ cs) = not (has_kind c.kind cs) && kinds_distinct cs

-- Resource.migrate_memory_mb
unfoldable pub migrate_memory_mb : Resource → Result Resource
unfolding kinds_distinct
migrate_memory_mb r = do
  let capacities = legacy_memory r.memory_mb r.capacities
  raise_if (not (kinds_distinct capacities)) value_error
  ok (record r { capacities = capacities })

-- Resource.capacity_mib
unfoldable pub capacity_mib : CapacityKind → List Capacity → Result (Option ℕ)
unfolding as_mib
capacity_mib k [] = ok none
capacity_mib k (c ∷ cs) =
    if same_kind c.kind k then (do size ← as_mib c; ok (some size)) else capacity_mib k cs

pub data LinkKind : Type 0 where
  pcie memory_link tailscale ethernet storage_bus other_link : LinkKind

pub record Link : Type 0 where
  pub source : Text
  pub target : Text
  pub kind : LinkKind
  pub direct : Option Bool
  pub path : Option Text

pub data VesselClass : Type 0 where
  station ship light_craft : VesselClass

pub record Vessel : Type 0 where
  pub id : Text
  pub name : Text
  pub class_name : VesselClass
  pub resources : List Resource
  pub links : List Link
  pub lifecycle : VesselLifecycle
  pub lease : Option ResourceLease

-- The lifecycle demands a lease exactly if the vessel is not persistent.
abbrev pub lease_fits : VesselLifecycle → Option ResourceLease → Bool
lease_fits persistent none = true
lease_fits persistent (some l) = false
lease_fits _ none = false
lease_fits _ (some l) = true

abbrev pub resource_ids : List Resource → List Text
resource_ids rs = map (λ r. r.id) rs

-- Vessel.resource_references_exist
unfoldable pub resource_references_exist : Vessel → Result Vessel
unfolding is_distinct contains
resource_references_exist v = do
  let ids = resource_ids v.resources
  raise_if (not (is_distinct ids)) value_error
  raise_if (not (all (λ link. contains link.source ids && contains link.target ids) v.links))
      value_error
  raise_if (not (lease_fits v.lifecycle v.lease)) value_error
  ok v

-- A list of nested models, each validated in turn.
unfoldable pub validate_capacities : List Capacity → Result (List Capacity)
unfolding compatible_unit
validate_capacities [] = ok []
validate_capacities (c ∷ cs) = do
  c' ← compatible_unit c
  cs' ← validate_capacities cs
  ok (c' ∷ cs')

unfoldable pub validate_resources : List Resource → Result (List Resource)
unfolding validate_capacities migrate_memory_mb
validate_resources [] = ok []
validate_resources (r ∷ rs) = do
  capacities ← validate_capacities r.capacities
  r' ← migrate_memory_mb (record r { capacities = capacities })
  rs' ← validate_resources rs
  ok (r' ∷ rs')

abbrev validate_optional_lease : Option ResourceLease → Result (Option ResourceLease)
validate_optional_lease none = ok none
validate_optional_lease (some l) = do l' ← validate_lease l; ok (some l')

-- Vessel.model_validate: the nested models, then the vessel's own validator
unfoldable pub validate_vessel : Vessel → Result Vessel
unfolding validate_resources validate_lease resource_references_exist
validate_vessel v = do
  resources ← validate_resources v.resources
  lease ← validate_optional_lease v.lease
  resource_references_exist (record v { resources = resources; lease = lease })
