-- ===== src/Scheduler/Placement.antt =====
-- What a plan without reasons against it is known to satisfy.
use long_haul.Prelude.{
  ℕ, zero, suc, max, ◌≡◌, refl, ◌∙◌, inl, inr, Bool, true, false, not, ◌&&◌, ◌||◌, Option, none,
  some, List, [], ◌∷◌, ◌++◌, arith, leb, nat_eq, nat_eq_iff, Option-cases, is_none, select, any,
  all, Text,
}
use long_haul.Prelude.Results.{ok, >>=-eq-ok}
use long_haul.Prelude.Dict.{get}
use long_haul.Fleet.Lease.{ResourceLease, covers}
use long_haul.Fleet.Models.{Vessel}
use long_haul.Scheduler.{
  MissionRequirements, InferenceProfile, ExecutionPlan, Scheduler, Reason, reason_if, same_mode,
  is_subset, is_forbid, vessel_reasons, all_vessel_reasons, lease_reasons,
  unacceptable_pipeline_link, needs_link, joins, is_acceptable, known_capacities, max_of,
  required_sizes, memory_reason, memory_issue, same_resources, placement_reasons,
}

-- The lists of reasons that are all empty when their concatenation is.
append-nil_iff : (xs ys : List Reason) → xs ++ ys ≡ [] → (xs ≡ []) × (ys ≡ [])
append-nil_iff [] ys h = (refl, h)
append-nil_iff (x ∷ xs) ys h = absurd (ground arith)

ok_inj : (xs ys : List Reason) → ok xs ≡ ok ys → xs ≡ ys
ok_inj xs ys h = ground arith

reason_if-nil : (b : Bool) (r : Reason) → reason_if b r ≡ [] → b ≡ false
reason_if-nil true r h = absurd (ground arith)
reason_if-nil false r h = refl

-- A vessel that the plan may use: it has no lease, or one that covers the time and that the mission
-- accepts.
abbrev pub lease_serves : MissionRequirements → Scheduler → Option ResourceLease → Bool
lease_serves m s none = true
lease_serves m s (some l) = covers l s.now && not (is_forbid m.preemption_policy && l.preemptible)

abbrev pub serves : MissionRequirements → Scheduler → Option Vessel → Bool
serves m s none = false
serves m s (some v) = lease_serves m s v.lease

vessel_reasons-nil :
    (m : MissionRequirements) (s : Scheduler) (id : Text) (o : Option Vessel)
    → is_none o ≡ false
    → vessel_reasons m s.now id o ≡ []
    → serves m s o ≡ true
vessel_reasons-nil m s id none known h = absurd (ground arith)
vessel_reasons-nil m s id (some v) known h = elim (Option-cases v.lease) [
  | inl bare ↦ rw bare refl
  | inr (l, leased) ↦ ground arith
]

all_vessel_reasons-nil :
    (m : MissionRequirements) (s : Scheduler) (ids : List Text)
    → any (λ id. is_none (get s.vessels_by_id id)) ids ≡ false
    → all_vessel_reasons s m ids ≡ []
    → all (λ id. serves m s (get s.vessels_by_id id)) ids ≡ true
unfolding all_vessel_reasons
all_vessel_reasons-nil m s [] known h = refl
all_vessel_reasons-nil m s (id ∷ ids) known h =
    let (first, rest) = append-nil_iff (vessel_reasons m s.now id (get s.vessels_by_id id)) _ h in
    ground
      (arith, vessel_reasons-nil m s id (get s.vessels_by_id id), all_vessel_reasons-nil m s ids)

-- A number of the list, or the last item, is at least n.
max_of-any : (ns : List ℕ) (last n : ℕ) → leb n (max_of ns last) ≡ (any (leb n) ns || leb n last)
unfolding max_of
max_of-any [] last n = refl
max_of-any (k ∷ ns) last n = ground (arith, max_of-any ns last n)

memory_reason-nil :
    (known : List ℕ) (required : ℕ)
    → memory_reason known required ≡ []
    → (nat_eq required 0 || any (leb required) known) ≡ true
memory_reason-nil known zero h = refl
memory_reason-nil [] (suc n) h = absurd (ground arith)
memory_reason-nil (k ∷ known) (suc n) h = ground (arith, max_of-any known k (suc n))

-- A requirement of n is met: it is nothing, or one known capacity is as large.
abbrev pub fits : List ℕ → ℕ → Bool
fits known n = nat_eq n 0 || any (leb n) known

any-leb :
    (known : List ℕ) (a b : ℕ)
    → leb a b ≡ true
    → any (leb b) known ≡ true
    → any (leb a) known ≡ true
any-leb [] a b small h = absurd (ground arith)
any-leb (k ∷ known) a b small h = ground (arith, any-leb known a b small)

fits-smaller :
    (known : List ℕ) (a b : ℕ) → leb a b ≡ true → fits known b ≡ true → fits known a ≡ true
fits-smaller known a b small h =
    ground (arith, any-leb known a b small, nat_eq_iff a 0, nat_eq_iff b 0)

fits-max_of :
    (known ns : List ℕ) (last : ℕ)
    → fits known (max_of ns last) ≡ true
    → all (fits known) (last ∷ ns) ≡ true
unfolding max_of
fits-max_of known [] last h = ground arith
fits-max_of known (n ∷ ns) last h =
    let here = fits-smaller known n (max n (max_of ns last)) (ground arith) h in
    let rest = fits-smaller known (max_of ns last) (max n (max_of ns last)) (ground arith) h in
    ground (arith, fits-max_of known ns last rest)

-- If nothing speaks against a plan's placement, then the mission is safe and cooperative and allows
-- the mode; the plan has the required resources, and exactly the profile's; every planned vessel is
-- known, with a lease, if it has one, that covers the scheduler's time and that the mission accepts;
-- each memory requirement of the profile, and the mission's minimum, is nothing or no larger than
-- one known capacity of the plan's resources; and a synchronous pipeline over several vessels has
-- an acceptable link that joins them.
pub placement_reasons-nil :
    (s : Scheduler) (m : MissionRequirements) (plan : ExecutionPlan) (profile : InferenceProfile)
    → placement_reasons s m plan profile ≡ ok []
    → ((m.safety_ok
          && m.cooperation_ok
          && any (same_mode plan.mode) m.allow_modes
          && is_subset m.required_resources plan.resources
          && same_resources profile plan)
        ≡ true)
      × (all (λ id. serves m s (get s.vessels_by_id id)) plan.vessels ≡ true)
      × ((known : List ℕ) × (sizes : List ℕ) × (known_capacities s plan.resources ≡ ok known)
          × (required_sizes profile.requirements ≡ ok sizes)
          × (all (fits known) (m.minimum_memory ∷ sizes) ≡ true))
      × ((not (needs_link m plan) || any is_acceptable (select (joins plan.vessels) s.links))
          ≡ true)
unfolding placement_reasons lease_reasons memory_issue unacceptable_pipeline_link
placement_reasons-nil s m plan profile h =
    let (reasons, issue, h1) = >>=-eq-ok (memory_issue s m plan profile) _ h in
    let (known, capacities, h2) = >>=-eq-ok (known_capacities s plan.resources) _ issue in
    let (sizes, required, h3) = >>=-eq-ok (required_sizes profile.requirements) _ h2 in
    let (before_link, link) = append-nil_iff _ _ (ok_inj _ _ h1) in
    let (before_memory, none_memory) = append-nil_iff _ reasons before_link in
    let (before_lease, leases) = append-nil_iff _ (lease_reasons s m plan) before_memory in
    let (before_pairing, pairing) = append-nil_iff _ _ before_lease in
    let (before_required, resources) = append-nil_iff _ _ before_pairing in
    let (before_mode, mode) = append-nil_iff _ _ before_required in
    let (safety, cooperation) = append-nil_iff _ _ before_mode in
    let (missing, each) = append-nil_iff _ (all_vessel_reasons s m plan.vessels) leases in
    let unavailable =
      reason_if-nil (any (λ id. is_none (get s.vessels_by_id id)) plan.vessels) _ missing in
    let paths =
      reason_if-nil
        (needs_link m plan && not (any is_acceptable (select (joins plan.vessels) s.links))) _
        link in
    let enough =
      memory_reason-nil known (max_of sizes m.minimum_memory) (ok_inj _ _ h3 ∙ none_memory) in
    (
      ground (
        arith,
        reason_if-nil (not m.safety_ok) _ safety,
        reason_if-nil (not m.cooperation_ok) _ cooperation,
        reason_if-nil (not (any (same_mode plan.mode) m.allow_modes)) _ mode,
        reason_if-nil (not (is_subset m.required_resources plan.resources)) _ resources,
        reason_if-nil (not (same_resources profile plan)) _ pairing,
      ),
      all_vessel_reasons-nil m s plan.vessels unavailable each,
      (known, sizes, capacities, required, fits-max_of known sizes m.minimum_memory enough),
      ground arith,
    )
