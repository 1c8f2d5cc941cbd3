-- ===== src/Scheduler/Outcome.antt =====
-- What select_plan returns, and when it does.
use long_haul.Prelude.{
  ℕ, ◌≤◌, ◌≡◌, refl, sym, ◌∙◌, Bool, true, false, Option, none, some, List, [], ◌∷◌, map, arith,
  if◌then◌else◌, All, any, is_some,
}
use long_haul.Prelude.Results.{ok, is_ok, >>=-eq-ok}
use long_haul.Prelude.Dict.{values}
use long_haul.Prelude.Sorting.{
  first_where, All-sorted_by, All-of_sorted_by, any-sorted_by, is_some-first_where, first_where-All,
}
use mathlib.Core.Path.{subst}
use long_haul.Scheduler.{MissionRequirements, InferenceProfile, Scheduler, generate}
use long_haul.Scheduler.Selection.{Given, Records, CandidateResult}
use long_haul.Scheduler.Selection.Ranks.{
  rank_of, ranked, candidate_lt, rank, profiles_by_id, is_choice, chosen, candidates, select_plan,
}
use long_haul.Scheduler.Choice.{
  priority, place, disfavour, Evaluated, evaluate_all-Evaluated, IsAdmissible, ok-eq,
}
use long_haul.Scheduler.Least.{first-least}
use long_haul.Scheduler.Ranking.{IsRanked, ranked-IsRanked, rank-Ascending, priority-if, ranked-All}

module _ {Metric : Type 0} (given : Given Metric) (records : Records Metric) where
  chosen-ok :
      (o : Option (CandidateResult Metric)) (c : CandidateResult Metric)
      → chosen given records o ≡ ok c
      → o ≡ some c
  chosen-ok none c h = cc
  chosen-ok (some d) c h = cc

  is_ok-chosen : (o : Option (CandidateResult Metric)) → is_ok (chosen given records o) ≡ is_some o
  is_ok-chosen none = refl
  is_ok-chosen (some c) = refl

  eligible-if :
      (b : Bool) (c : CandidateResult Metric)
      → (if b then record c { rank = some (rank_of given records c) } else c).eligible ≡ c.eligible
  eligible-if true c = refl
  eligible-if false c = refl

  any-ranked :
      (found : List (CandidateResult Metric))
      → any (is_choice given records) (map (ranked given records) found)
        ≡ any (is_choice given records) found
  any-ranked [] = refl
  any-ranked (c ∷ cs) = ground (arith, eligible-if c.eligible c, any-ranked cs)

  unranked-All :
      (n : ℕ) (found : List (CandidateResult Metric))
      → All (λ d. n ≤ priority given records d) (map (ranked given records) found)
      → All (λ d. n ≤ priority given records d) found
  unranked-All n [] all = tt
  unranked-All n (d ∷ ds) all = (
    subst (λ (k : ℕ). n ≤ k) (priority-if given records d.eligible d) all.0,
    unranked-All n ds all.1,
  )

  module _ (s : Scheduler) (m : MissionRequirements) (profiles : List InferenceProfile) where
    evaluated :
        (found : List (CandidateResult Metric))
        → candidates given records s m profiles ≡ ok found
        → All (Evaluated given records s m (profiles_by_id given records profiles)) found
    unfolding candidates
    evaluated found h =
        evaluate_all-Evaluated given records s m (profiles_by_id given records profiles)
          (generate s (values (profiles_by_id given records profiles))) found h

    abbrev Sound : CandidateResult Metric → Type 0
    Sound d =
        d.eligible ≡ true
        → IsAdmissible given records s m (profiles_by_id given records profiles) d.plan

    All-Sound :
        (found : List (CandidateResult Metric))
        → All (Evaluated given records s m (profiles_by_id given records profiles)) found
        → All Sound found
    All-Sound [] all = tt
    All-Sound (d ∷ ds) all = (all.0.sound, All-Sound ds all.1)

    if-Sound :
        (b : Bool) (d : CandidateResult Metric)
        → Sound d
        → Sound (if b then record d { rank = some (rank_of given records d) } else d)
    if-Sound true d sound = sound
    if-Sound false d sound = sound

    -- The plan that is chosen is for one of the profiles, whose one validation on the current
    -- runtime supports it (or is unknown, where the mission allows that), and no constraint of
    -- placement speaks against it.
    pub select_plan-IsAdmissible :
        (c : CandidateResult Metric)
        → select_plan given records s m profiles ≡ ok c
        → IsAdmissible given records s m (profiles_by_id given records profiles) c.plan
    unfolding select_plan rank
    select_plan-IsAdmissible c h =
        let (found, made, h1) = >>=-eq-ok (candidates given records s m profiles) _ h in
        let all =
          All-sorted_by (candidate_lt given records) Sound (map (ranked given records) found) (
            ranked-All given records Sound (λ d sound. if-Sound d.eligible d sound) found
              (All-Sound found (evaluated found made))) in
        let (eligible, sound) =
          first_where-All (is_choice given records) Sound (rank given records found) c
            (chosen-ok _ c h1) all in
        sound eligible

    priority-least :
        (c : CandidateResult Metric) (found : List (CandidateResult Metric))
        → select_plan given records s m profiles ≡ ok c
        → candidates given records s m profiles ≡ ok found
        → All (λ d. priority given records c ≤ priority given records d) found
    unfolding select_plan rank
    priority-least c found h made =
        let (found', made', h1) = >>=-eq-ok (candidates given records s m profiles) _ h in
        let same : found' ≡ found = ok-eq given records s m found' found (sym made' ∙ made) in
        let first =
          subst
            (λ (ds : List (CandidateResult Metric)).
              first_where (is_choice given records) (rank given records ds) ≡ some c)
            same (chosen-ok _ c h1) in
        let prepared =
          ranked-IsRanked given records s m (profiles_by_id given records profiles) found
            (evaluated found made) in
        unranked-All (priority given records c) found (
          All-of_sorted_by (candidate_lt given records)
            (λ d. priority given records c ≤ priority given records d)
            (map (ranked given records) found)
            (first-least given records (rank given records found) c
              (rank-Ascending given records found prepared)
              (All-sorted_by (candidate_lt given records) (IsRanked given records)
                (map (ranked given records) found) prepared)
              first))

    abbrev Disfavoured : CandidateResult Metric → Type 0
    Disfavoured d = d.preemption_preference ≡ disfavour s m d.plan

    All-Disfavoured :
        (found : List (CandidateResult Metric))
        → All (Evaluated given records s m (profiles_by_id given records profiles)) found
        → All Disfavoured found
    All-Disfavoured [] all = tt
    All-Disfavoured (d ∷ ds) all = (all.0.disfavoured, All-Disfavoured ds all.1)

    if-Disfavoured :
        (b : Bool) (d : CandidateResult Metric)
        → Disfavoured d
        → Disfavoured (if b then record d { rank = some (rank_of given records d) } else d)
    if-Disfavoured true d own = own
    if-Disfavoured false d own = own

    chosen-Disfavoured :
        (c : CandidateResult Metric) → select_plan given records s m profiles ≡ ok c → Disfavoured c
    unfolding select_plan rank
    chosen-Disfavoured c h =
        let (found, made, h1) = >>=-eq-ok (candidates given records s m profiles) _ h in
        let all =
          All-sorted_by (candidate_lt given records) Disfavoured (map (ranked given records) found)
            (ranked-All given records Disfavoured (λ d own. if-Disfavoured d.eligible d own) found
              (All-Disfavoured found (evaluated found made))) in
        (first_where-All (is_choice given records) Disfavoured (rank given records found) c
          (chosen-ok _ c h1) all).1

    place-priority :
        (d : CandidateResult Metric)
        → Disfavoured d
        → priority given records d ≡ place given records s m d
    place-priority d own = rw own refl

    All-place :
        (n : ℕ) (found : List (CandidateResult Metric))
        → All Disfavoured found
        → All (λ d. n ≤ priority given records d) found
        → All (λ d. n ≤ place given records s m d) found
    All-place n [] own all = tt
    All-place n (d ∷ ds) own all =
        (subst (λ (k : ℕ). n ≤ k) (place-priority d own.0) all.0, All-place n ds own.1 all.1)

    -- The plan that is chosen has the first place of all evaluated candidates: before everything
    -- else an eligible one goes first, then one with measured evidence, then, when the mission
    -- prefers preemptible resources, one that uses a vessel with a preemptible lease, then one
    -- without a pipeline.
    pub select_plan-le :
        (c : CandidateResult Metric) (found : List (CandidateResult Metric))
        → select_plan given records s m profiles ≡ ok c
        → candidates given records s m profiles ≡ ok found
        → All (λ d. place given records s m c ≤ place given records s m d) found
    select_plan-le c found h made =
        subst (λ (n : ℕ). All (λ d. n ≤ place given records s m d) found)
          (place-priority c (chosen-Disfavoured c h))
          (All-place (priority given records c) found (All-Disfavoured found (evaluated found made))
            (priority-least c found h made))

    -- When every plan can be evaluated, a plan is chosen exactly if one of them is eligible.
    pub is_ok-select_plan :
        (found : List (CandidateResult Metric))
        → candidates given records s m profiles ≡ ok found
        → is_ok (select_plan given records s m profiles) ≡ any (is_choice given records) found
    unfolding select_plan rank
    is_ok-select_plan found made = rw made (
        is_ok-chosen (first_where (is_choice given records) (rank given records found))
        ∙ is_some-first_where (is_choice given records) (rank given records found)
        ∙ any-sorted_by (candidate_lt given records) (is_choice given records)
            (map (ranked given records) found)
        ∙ any-ranked found)
