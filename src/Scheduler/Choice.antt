-- ===== src/Scheduler/Choice.antt =====
-- Which plan is chosen: one that is admissible, and the first by the ranking.
use long_haul.Prelude.{
  ℕ, ◌+◌, ◌*◌, ◌≤◌, ◌≡◌, refl, ap, ◌∙◌, inl, inr, Bool, true, false, not, Option, none, some, List,
  [], ◌∷◌, ◌++◌, map, arith, if◌then◌else◌, ◌&&◌, Bool-cases, Option-cases, Text, all, any, All,
}
use long_haul.Prelude.Results.{ok, >>=-eq-ok}
use long_haul.Prelude.Dict.{Dict, get}
use mathlib.Core.Path.{subst}
use long_haul.Runtime.{ValidationState, supported, unsupported, unknown, ProfileValidation}
use long_haul.Fleet.Models.{Vessel}
use long_haul.Scheduler.{
  PreemptionPolicy, prefer, MissionRequirements, InferenceProfile, ExecutionPlan, Scheduler, Reason,
  placement_reasons,
}
use long_haul.Scheduler.Selection.{
  Given, Records, Finding, placement, CandidateResult, validation, evaluate, validation_findings,
  state_findings, is_eligible, number_if, is_pipeline, is_preemptible, is_prefer,
}
use long_haul.Scheduler.Selection.Ranks.{evaluate_all, is_measured_evidence, required}

abbrev pub tolerates : MissionRequirements → ValidationState → Bool
tolerates m supported = true
tolerates m unsupported = false
tolerates m unknown = m.allow_unknown_runtime

abbrev pub is_validated : MissionRequirements → Option ProfileValidation → Bool
is_validated m none = false
is_validated m (some v) = tolerates m v.state

-- What the findings of an eligible candidate leave open: nothing but the evidence.
placed-eligible :
    (against : List Reason) (rest : List Finding)
    → is_eligible (map placement against ++ rest) ≡ true
    → against ≡ []
placed-eligible [] rest h = refl
placed-eligible (r ∷ rs) rest h = absurd (ground arith)

state-eligible :
    (m : MissionRequirements) (state : ValidationState) (rest : List Finding)
    → is_eligible (state_findings m state ++ rest) ≡ true
    → (tolerates m state ≡ true) × (is_eligible rest ≡ true)
state-eligible m supported rest h = (refl, h)
state-eligible m unsupported rest h = absurd (ground arith)
state-eligible m unknown rest h = elim (Bool-cases m.allow_unknown_runtime) [
  | inl allowed ↦ (allowed, rw allowed at h)
  | inr refused ↦ absurd (ground arith)
]

validated-eligible :
    (m : MissionRequirements) (o : Option ProfileValidation) (rest : List Finding)
    → is_eligible (validation_findings m o ++ rest) ≡ true
    → (is_validated m o ≡ true) × (is_eligible rest ≡ true)
validated-eligible m none rest h = absurd (ground arith)
validated-eligible m (some v) rest h = state-eligible m v.state rest h

pub number_if-le : (b : Bool) → number_if b ≤ 1
number_if-le true = omega arith
number_if-le false = omega arith

-- No preemptible lease: the vessel is unknown, has no lease, or one that is not preemptible.
abbrev pub is_kept : Option Vessel → Bool
is_kept none = true
is_kept (some v) = elim v.lease [ none ↦ true | some l ↦ not l.preemptible ]

-- A mission with the policy `prefer` wants preemptible resources: a plan without any goes later.
abbrev pub disfavours : PreemptionPolicy → List (Option Vessel) → ℕ
disfavours prefer vessels = if all is_kept vessels then 1 else 0
disfavours _ vessels = 0

abbrev pub disfavour : Scheduler → MissionRequirements → ExecutionPlan → ℕ
disfavour s m plan = disfavours m.preemption_policy (map (get s.vessels_by_id) plan.vessels)

is_preemptible-is_kept : (o : Option Vessel) → is_preemptible o ≡ not (is_kept o)
is_preemptible-is_kept none = refl
is_preemptible-is_kept (some v) = elim (Option-cases v.lease) [
  | inl absent ↦ rw absent refl
  | inr (l, leased) ↦ rw leased (ground (arith))
]

any-is_preemptible :
    (s : Scheduler) (ids : List Text)
    → any (λ id. is_preemptible (get s.vessels_by_id id)) ids
      ≡ not (all is_kept (map (get s.vessels_by_id) ids))
any-is_preemptible s [] = refl
any-is_preemptible s (id ∷ ids) =
    ground (arith, is_preemptible-is_kept (get s.vessels_by_id id), any-is_preemptible s ids)

not-not : (b : Bool) → not (not b) ≡ b
not-not true = refl
not-not false = refl

disfavours-number :
    (policy : PreemptionPolicy) (vessels : List (Option Vessel))
    → number_if (is_prefer policy && all is_kept vessels) ≡ disfavours policy vessels
disfavours-number prefer vessels = elim (Bool-cases (all is_kept vessels)) [
  | inl kept ↦ rw kept refl
  | inr other ↦ rw other refl
]
disfavours-number PreemptionPolicy.allow vessels = refl
disfavours-number PreemptionPolicy.forbid vessels = refl

module _ {Metric : Type 0} (given : Given Metric) (records : Records Metric) where
  -- The rank's number of a candidate, from the preference that it carries.
  abbrev pub priority : CandidateResult Metric → ℕ
  priority c =
      if c.eligible
      then 4 * number_if (not (is_measured_evidence given records c.evidence))
        + 2 * c.preemption_preference
        + number_if (is_pipeline c.plan.mode)
      else 8

module _ {Metric : Type 0} (given : Given Metric) (records : Records Metric) (s : Scheduler)
    (m : MissionRequirements) where
  -- The place of a candidate: an eligible one first, then one with measured evidence, then, when the
  -- mission prefers preemptible resources, one that uses some, then a mode without a pipeline.
  abbrev pub place : CandidateResult Metric → ℕ
  place c =
      if c.eligible
      then 4 * number_if (not (is_measured_evidence given records c.evidence))
        + 2 * disfavour s m c.plan
        + number_if (is_pipeline c.plan.mode)
      else 8

  -- The plan is for a known profile, whose one validation on the current runtime the mission
  -- tolerates, and nothing speaks against its placement.
  pub record IsAdmissible (profiles : Dict InferenceProfile) (plan : ExecutionPlan) : Type 0 where
    pub profile : InferenceProfile
    pub known : get profiles plan.inference_profile_id ≡ some profile
    pub validated : is_validated m (validation given records profile) ≡ true
    pub placed : placement_reasons s m plan profile ≡ ok []

  -- The candidates that select_plan looks at, before they are ranked.
  pub record Evaluated (profiles : Dict InferenceProfile) (c : CandidateResult Metric)
      : Type 0 where
    pub sound : c.eligible ≡ true → IsAdmissible profiles c.plan
    pub unranked : c.rank ≡ none
    pub preferred : c.preemption_preference ≤ 1
    pub disfavoured : c.preemption_preference ≡ disfavour s m c.plan

  pub ok-eq : {A : Type 0} (a b : A) → ok a ≡ ok b → a ≡ b
  ok-eq a b h = cc

  required-ok :
      (o : Option InferenceProfile) (profile : InferenceProfile)
      → required given records o ≡ ok profile
      → o ≡ some profile
  required-ok none profile h = cc
  required-ok (some p) profile h = ap some (ok-eq p profile h)

  evaluate-Evaluated :
      (profiles : Dict InferenceProfile) (plan : ExecutionPlan) (profile : InferenceProfile)
      (c : CandidateResult Metric)
      → get profiles plan.inference_profile_id ≡ some profile
      → evaluate given records s m plan profile ≡ ok c
      → Evaluated profiles c
  unfolding evaluate
  evaluate-Evaluated profiles plan profile c known h =
      let (against, placed, made) = >>=-eq-ok (placement_reasons s m plan profile) _ h in
      subst (Evaluated profiles) (ok-eq _ c made) (record {
        sound = λ eligible.
            let first = validated-eligible m (validation given records profile) _ eligible in
            record {
              profile = profile;
              known = known;
              validated = first.0;
              placed = placed ∙ ap ok (placed-eligible against _ first.1);
            };
        unranked = refl;
        preferred = number_if-le _;
        disfavoured = rw (any-is_preemptible s plan.vessels) (
            rw (not-not (all is_kept (map (get s.vessels_by_id) plan.vessels)))
              (disfavours-number m.preemption_policy (map (get s.vessels_by_id) plan.vessels)));
      })

  pub evaluate_all-Evaluated :
      (profiles : Dict InferenceProfile) (plans : List ExecutionPlan)
      (found : List (CandidateResult Metric))
      → evaluate_all given records s m profiles plans ≡ ok found
      → All (Evaluated profiles) found
  unfolding evaluate_all
  evaluate_all-Evaluated profiles [] found h =
      subst (All (Evaluated profiles)) (ok-eq [] found h) tt
  evaluate_all-Evaluated profiles (plan ∷ plans) found h =
      let (profile, known, h1) =
        >>=-eq-ok (required given records (get profiles plan.inference_profile_id)) _ h in
      let (c, one, h2) = >>=-eq-ok (evaluate given records s m plan profile) _ h1 in
      let (cs, rest, h3) = >>=-eq-ok (evaluate_all given records s m profiles plans) _ h2 in
      subst (All (Evaluated profiles)) (ok-eq (c ∷ cs) found h3) (
        evaluate-Evaluated profiles plan profile c (required-ok _ profile known) one,
        evaluate_all-Evaluated profiles plans cs rest,
      )
