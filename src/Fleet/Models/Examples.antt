-- ===== src/Fleet/Models/Examples.antt =====
-- The theorems about models at concrete inputs.
use long_haul.Prelude.{◌≡◌, refl, some, [], ◌∷◌, codes}
use long_haul.Prelude.Results.{ok}
use long_haul.Fleet.Models.{
  Capacity, memory, gibibytes, mebibytes, compatible_unit, Resource, ResourceKind,
  migrate_memory_mb,
}

abbrev two_gib : Capacity
two_gib = record { kind = memory; amount = 2; unit = gibibytes }

abbrev legacy : Resource
legacy = record { id = codes "r"; kind = ResourceKind.gpu; capacities = []; memory_mb = some 512 }

abbrev migrated : Resource
migrated = record legacy {
  capacities = record { kind = memory; amount = 512; unit = mebibytes } ∷ [];
}

migrates : migrate_memory_mb legacy ≡ ok migrated
unfolding migrate_memory_mb
migrates = refl

two_gib_compatible : compatible_unit two_gib ≡ ok two_gib
unfolding compatible_unit
two_gib_compatible = refl
