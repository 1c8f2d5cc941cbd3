-- ===== src/Fleet/Models/Laws.antt =====
-- Capacities, resources and vessels after validation.
use long_haul.Prelude.{
  ℕ, ◌≡◌, refl, ◌∙◌, inl, inr, true, not, ◌||◌, Option, none, some, List, ◌++◌, arith, Bool-cases,
  is_some, any-append,
}
use long_haul.Prelude.Results.{ok, is_ok}
use long_haul.Fleet.Models.{
  Capacity, CapacityKind, memory, Resource, converts, same_kind, has_kind, kinds_distinct,
  legacy_memory, compatible_unit, unit_fits, as_mib, migrate_memory_mb,
}

-- A capacity that passes validation converts without an error exactly if its kind converts.
pub as_mib-compatible :
    (c : Capacity) → compatible_unit c ≡ ok c → is_ok (as_mib c) ≡ converts c.kind
unfolding compatible_unit as_mib unit_fits
as_mib-compatible c h = ground arith

has_kind-append :
    (k : CapacityKind) (cs ds : List Capacity)
    → has_kind k (cs ++ ds) ≡ (has_kind k cs || has_kind k ds)
has_kind-append k cs ds = any-append (λ c. same_kind c.kind k) cs ds

legacy_memory-has_kind :
    (mb : ℕ) (cs : List Capacity) → has_kind memory (legacy_memory (some mb) cs) ≡ true
legacy_memory-has_kind mb cs = elim (Bool-cases (has_kind memory cs)) [
  | inl e ↦ rw e e
  | inr e ↦ rw e (has_kind-append memory cs _ ∙ rw e refl)
]

legacy_memory_idem :
    (mb : Option ℕ) (cs : List Capacity)
    → legacy_memory mb (legacy_memory mb cs) ≡ legacy_memory mb cs
legacy_memory_idem none cs = refl
legacy_memory_idem (some mb) cs = rw (legacy_memory-has_kind mb cs) refl

legacy_memory-covers :
    (mb : Option ℕ) (cs : List Capacity)
    → (not (is_some mb) || has_kind memory (legacy_memory mb cs)) ≡ true
legacy_memory-covers none cs = refl
legacy_memory-covers (some mb) cs = rw (legacy_memory-has_kind mb cs) refl

migrated :
    (r r' : Resource)
    → migrate_memory_mb r ≡ ok r'
    → (r' ≡ record r { capacities = legacy_memory r.memory_mb r.capacities })
      × (kinds_distinct (legacy_memory r.memory_mb r.capacities) ≡ true)
unfolding migrate_memory_mb
migrated r r' h = elim (Bool-cases (kinds_distinct (legacy_memory r.memory_mb r.capacities))) [
  | inl e ↦ (cc (rw e at h), e)
  | inr e ↦ absurd (cc (rw e at h))
]

-- A resource that its validator returns has capacities of distinct kinds, has a memory capacity if
-- it names a legacy memory size, and passes the validator again unchanged.
pub migrate_memory_mb_idem :
    (r r' : Resource)
    → migrate_memory_mb r ≡ ok r'
    → (migrate_memory_mb r' ≡ ok r')
      × (kinds_distinct r'.capacities ≡ true)
      × ((not (is_some r'.memory_mb) || has_kind memory r'.capacities) ≡ true)
unfolding migrate_memory_mb
migrate_memory_mb_idem r r' h =
    let (e, distinct) = migrated r r' h in
    rw e (
      rw (legacy_memory_idem r.memory_mb r.capacities, distinct) refl,
      distinct,
      legacy_memory-covers r.memory_mb r.capacities,
    )
