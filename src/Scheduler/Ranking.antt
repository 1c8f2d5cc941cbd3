-- ===== src/Scheduler/Ranking.antt =====
-- The ranking puts the candidates in the order of their priorities.
use long_haul.Prelude.{
  ℕ, ◌+◌, ◌*◌, ◌≤◌, ◌≡◌, refl, sym, ap, ◌∙◌, Bool, true, false, not, Option, none, some, List, [],
  ◌∷◌, map, arith, if◌then◌else◌, nat_eq_iff, All,
}
use long_haul.Prelude.Dict.{Dict}
use long_haul.Prelude.Strings.{text_lt}
use long_haul.Prelude.Sorting.{sorted_by-Ascending, Ascending}
use long_haul.Scheduler.{MissionRequirements, InferenceProfile, Scheduler}
use long_haul.Scheduler.Selection.{
  Given, Records, Rank, CandidateResult, number_if, is_pipeline, then_by,
}
use long_haul.Scheduler.Selection.Ranks.{
  is_measured_evidence, rank_of, ranked, rank_option_lt, candidate_lt, rank,
}
use long_haul.Scheduler.Choice.{number_if-le, priority, Evaluated}

lex-below :
    (u p d u' p' d' : ℕ) (rest : Bool)
    → u ≤ 1
    → p ≤ 1
    → d ≤ 1
    → u' ≤ 1
    → p' ≤ 1
    → d' ≤ 1
    → then_by u u' (then_by p p' (then_by d d' rest)) ≡ true
    → 4 * u + 2 * p + d ≤ 4 * u' + 2 * p' + d'
lex-below u p d u' p' d' rest a b c a' b' c' h =
    ground (arith, nat_eq_iff u u', nat_eq_iff p p', nat_eq_iff d d')

lex-above :
    (u p d u' p' d' : ℕ) (rest : Bool)
    → u ≤ 1
    → p ≤ 1
    → d ≤ 1
    → u' ≤ 1
    → p' ≤ 1
    → d' ≤ 1
    → then_by u u' (then_by p p' (then_by d d' rest)) ≡ false
    → 4 * u' + 2 * p' + d' ≤ 4 * u + 2 * p + d
lex-above u p d u' p' d' rest a b c a' b' c' h =
    ground (arith, nat_eq_iff u u', nat_eq_iff p p', nat_eq_iff d d')

module _ {Metric : Type 0} (given : Given Metric) (records : Records Metric) where
  abbrev pub code_of : Rank Metric → ℕ
  code_of r = 4 * r.unmeasured + 2 * r.preemption_preference + r.discontinuity

  pub record IsBounded (r : Rank Metric) : Type 0 where
    unmeasured_le : r.unmeasured ≤ 1
    preference_le : r.preemption_preference ≤ 1
    discontinuity_le : r.discontinuity ≤ 1

  -- candidate_lt and the priority on the parts of two ranked candidates
  abbrev pub lt_on : Bool → Bool → Option (Rank Metric) → Option (Rank Metric) → Bool → Bool
  lt_on e e' o o' rest =
      then_by (number_if (not e)) (number_if (not e')) (rank_option_lt given records o o' rest)

  abbrev pub rank_if : Bool → Rank Metric → Option (Rank Metric)
  rank_if e r = if e then some r else none

  abbrev pub priority_on : Bool → Rank Metric → ℕ
  priority_on e r = if e then code_of r else 8

  pub on-below :
      (e e' : Bool) (r r' : Rank Metric) (rest : Bool)
      → IsBounded r
      → IsBounded r'
      → lt_on e e' (rank_if e r) (rank_if e' r') rest ≡ true
      → priority_on e r ≤ priority_on e' r'
  on-below true true r r' rest b b' h =
      lex-below r.unmeasured r.preemption_preference r.discontinuity r'.unmeasured
        r'.preemption_preference r'.discontinuity _ b.unmeasured_le b.preference_le
        b.discontinuity_le b'.unmeasured_le b'.preference_le b'.discontinuity_le h
  on-below true false r r' rest b b' h =
      omega (arith, b.unmeasured_le, b.preference_le, b.discontinuity_le)
  on-below false true r r' rest b b' h = absurd (ground arith)
  on-below false false r r' rest b b' h = omega arith

  on-above :
      (e e' : Bool) (r r' : Rank Metric) (rest : Bool)
      → IsBounded r
      → IsBounded r'
      → lt_on e e' (rank_if e r) (rank_if e' r') rest ≡ false
      → priority_on e' r' ≤ priority_on e r
  on-above true true r r' rest b b' h =
      lex-above r.unmeasured r.preemption_preference r.discontinuity r'.unmeasured
        r'.preemption_preference r'.discontinuity _ b.unmeasured_le b.preference_le
        b.discontinuity_le b'.unmeasured_le b'.preference_le b'.discontinuity_le h
  on-above true false r r' rest b b' h = absurd (ground arith)
  on-above false true r r' rest b b' h =
      omega (arith, b'.unmeasured_le, b'.preference_le, b'.discontinuity_le)
  on-above false false r r' rest b b' h = omega arith

  -- A candidate as `rank` leaves it.
  pub record IsRanked (c : CandidateResult Metric) : Type 0 where
    ranked_by : c.rank ≡ rank_if c.eligible (rank_of given records c)
    preferred : c.preemption_preference ≤ 1

  pub bounded : (c : CandidateResult Metric) → IsRanked c → IsBounded (rank_of given records c)
  bounded c q = record {
    unmeasured_le = number_if-le (not (is_measured_evidence given records c.evidence));
    preference_le = q.preferred;
    discontinuity_le = number_if-le (is_pipeline c.plan.mode);
  }

  lt_ranked :
      (x y : CandidateResult Metric) (b : Bool)
      → IsRanked x
      → IsRanked y
      → candidate_lt given records x y ≡ b
      → lt_on x.eligible y.eligible
          (rank_if x.eligible (rank_of given records x))
          (rank_if y.eligible (rank_of given records y))
          (text_lt x.plan.plan_id y.plan.plan_id)
        ≡ b
  lt_ranked x y b qx qy h =
      ap
        (λ o.
          lt_on x.eligible y.eligible o (rank_if y.eligible (rank_of given records y))
            (text_lt x.plan.plan_id y.plan.plan_id))
        (sym qx.ranked_by)
      ∙ ap (λ o. lt_on x.eligible y.eligible x.rank o (text_lt x.plan.plan_id y.plan.plan_id))
          (sym qy.ranked_by)
      ∙ h

  if-IsRanked :
      (b : Bool) (c : CandidateResult Metric)
      → c.eligible ≡ b
      → c.rank ≡ none
      → c.preemption_preference ≤ 1
      → IsRanked (if b then record c { rank = some (rank_of given records c) } else c)
  if-IsRanked true c e unranked preferred = record { ranked_by = rw e refl; preferred = preferred }
  if-IsRanked false c e unranked preferred = record {
    ranked_by = rw e unranked;
    preferred = preferred;
  }

  pub priority-if :
      (b : Bool) (c : CandidateResult Metric)
      → priority given records (if b then record c { rank = some (rank_of given records c) } else c)
        ≡ priority given records c
  priority-if true c = refl
  priority-if false c = refl

  -- What ranking does not look at is kept by it.
  pub ranked-All :
      (P : CandidateResult Metric → Type 0)
      → ((c : CandidateResult Metric) → P c → P (ranked given records c))
      → (found : List (CandidateResult Metric)) → All P found
      → All P (map (ranked given records) found)
  ranked-All P keeps [] all = tt
  ranked-All P keeps (c ∷ cs) all = (keeps c all.0, ranked-All P keeps cs all.1)

  pub ranked-IsRanked :
      (s : Scheduler) (m : MissionRequirements) (profiles : Dict InferenceProfile)
      (found : List (CandidateResult Metric))
      → All (Evaluated given records s m profiles) found
      → All IsRanked (map (ranked given records) found)
  ranked-IsRanked s m profiles [] all = tt
  ranked-IsRanked s m profiles (c ∷ cs) all = (
    if-IsRanked c.eligible c refl all.0.unranked all.0.preferred,
    ranked-IsRanked s m profiles cs all.1,
  )

  pub rank-Ascending :
      (found : List (CandidateResult Metric))
      → All IsRanked (map (ranked given records) found)
      → Ascending (candidate_lt given records) (priority given records) (rank given records found)
  unfolding rank
  rank-Ascending found all =
      sorted_by-Ascending (candidate_lt given records) (priority given records) IsRanked
        (λ x y qx qy h.
          on-below x.eligible y.eligible (rank_of given records x) (rank_of given records y) _
            (bounded x qx) (bounded y qy) (lt_ranked x y true qx qy h))
        (λ x y qx qy h.
          on-above x.eligible y.eligible (rank_of given records x) (rank_of given records y) _
            (bounded x qx) (bounded y qy) (lt_ranked x y false qx qy h))
        (map (ranked given records) found) all
