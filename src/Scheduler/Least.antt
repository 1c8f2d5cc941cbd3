-- ===== src/Scheduler/Least.antt =====
-- The first eligible candidate of a ranked list has the least priority (src/long_haul/scheduler/core.py).
use long_haul.Prelude.{
  ℕ, ◌≤◌, ◌≡◌, refl, sym, inl, inr, Bool, true, false, none, some, List, [], ◌∷◌, arith, Bool-cases,
  All,
}
use long_haul.Prelude.Sorting.{first_where, first_where-All, Ascending}
use mathlib.Core.Path.{subst}
use long_haul.Scheduler.Selection.{Given, Records, CandidateResult}
use long_haul.Scheduler.Selection.Ranks.{rank_of, candidate_lt, is_choice}
use long_haul.Scheduler.Choice.{priority}
use long_haul.Scheduler.Ranking.{IsRanked, bounded, on-below, lt_on, rank_if}

module _ {Metric : Type 0} (given : Given Metric) (records : Records Metric) where
  -- No priority is after that of a candidate that is not eligible.
  priority_bound :
      (c : CandidateResult Metric) → IsRanked given records c → priority given records c ≤ 8
  priority_bound c q =
      let b = bounded given records c q in
      on-below given records c.eligible false (rank_of given records c) (rank_of given records c)
        true b b (last_place c.eligible)
    where
      last_place :
          (e : Bool)
          → lt_on given records e false
              (rank_if given records e (rank_of given records c))
              none
              true
            ≡ true
      last_place true = refl
      last_place false = refl

  -- The first eligible candidate of an ascending list has the least priority.
  pub first-least :
      (cs : List (CandidateResult Metric)) (c : CandidateResult Metric)
      → Ascending (candidate_lt given records) (priority given records) cs
      → All (IsRanked given records) cs
      → first_where (is_choice given records) cs ≡ some c
      → All (λ d. priority given records c ≤ priority given records d) cs
  first-least [] c up all h = absurd (ground arith)
  first-least (x ∷ xs) c up all h = elim (Bool-cases x.eligible) [
    | inl eligible ↦
        subst (λ z. All (λ d. priority given records z ≤ priority given records d) (x ∷ xs))
          (first-some eligible h) (omega arith, up.0)
    | inr other ↦
        let later = first-other other h in
        (
          subst (λ (n : ℕ). priority given records c ≤ n) (sym (priority-other other))
              (priority_bound c
                (first_where-All (is_choice given records) (IsRanked given records) xs c later
                  all.1).1),
          first-least xs c up.1 all.1 later,
        )
  ]
    where
      first-some :
          x.eligible ≡ true → first_where (is_choice given records) (x ∷ xs) ≡ some c → x ≡ c
      first-some e k = ground (arith, e, k)

      first-other :
          x.eligible ≡ false
          → first_where (is_choice given records) (x ∷ xs) ≡ some c
          → first_where (is_choice given records) xs ≡ some c
      first-other e k = ground (arith, e, k)

      priority-other : x.eligible ≡ false → priority given records x ≡ 8
      priority-other e = ground (arith, e)
