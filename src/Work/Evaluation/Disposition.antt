-- ===== src/Work/Evaluation/Disposition.antt =====
-- The disposition of evaluate_work against a specification that searches the evidence.
use long_haul.Prelude.{
  ◌≡◌, refl, ◌↔◌, Bool, true, false, not, none, List, [], ◌∷◌, arith, if◌then◌else◌, any, all, Text,
  is_distinct,
}
use long_haul.Prelude.Results.{ok}
use long_haul.Prelude.Dict.{get}
use long_haul.Prelude.Strings.{to_set}
use long_haul.Work.Contracts.{
  pass, fail, WorkDisposition, accepted, rejected, incomplete, WorkContract, AcceptancePredicate,
  predicate_ids,
}
use long_haul.Work.Evaluation.{
  PredicateEvidence, Reason, evidence_ids, by_id, is_failed, is_missing, dispose, failed, missing,
  evaluate_work, evaluation,
}
use long_haul.Work.Evaluation.Lookup.{recorded, failed-get, missing-get, any-to_set, select-nil_iff}

-- Some evidence fails a predicate: rejected. Else every predicate has passing evidence: accepted.
abbrev pub specified : List AcceptancePredicate → List PredicateEvidence → WorkDisposition
specified ps evidence =
    if any (λ p. recorded fail p.predicate_id evidence) ps
    then rejected
    else if all (λ p. recorded pass p.predicate_id evidence) ps
    then accepted
    else incomplete

dispose_lem :
    (fs ms : List Text) (f a : Bool)
    → ((fs ≡ []) ↔ (f ≡ false))
    → (f ≡ false → (ms ≡ []) ↔ (a ≡ true))
    → (dispose fs ms).0 ≡ (if f then rejected else if a then accepted else incomplete)
unfolding dispose
dispose_lem [] [] true a hf hm = absurd (cc (hf.0 refl))
dispose_lem [] [] false true hf hm = refl
dispose_lem [] [] false false hf hm = cc ((hm refl).0 refl)
dispose_lem [] (m ∷ ms) true a hf hm = cc (hf.0 refl)
dispose_lem [] (m ∷ ms) false true hf hm = cc ((hm refl).1 refl)
dispose_lem [] (m ∷ ms) false false hf hm = refl
dispose_lem (f ∷ fs) ms true a hf hm = refl
dispose_lem (f ∷ fs) ms false a hf hm = cc (hf.1 refl)

module _ (evidence : List PredicateEvidence)
    (distinct : is_distinct (evidence_ids evidence) ≡ true) where
  any-failed :
      (ps : List AcceptancePredicate)
      → any (λ pid. is_failed (get (by_id evidence) pid)) (predicate_ids ps)
        ≡ any (λ p. recorded fail p.predicate_id evidence) ps
  any-failed [] = refl
  any-failed (p ∷ ps) = ground (arith, any-failed ps, failed-get evidence p.predicate_id distinct)

  any-missing :
      (ps : List AcceptancePredicate)
      → any (λ p. recorded fail p.predicate_id evidence) ps ≡ false
      → any (λ pid. is_missing (get (by_id evidence) pid)) (predicate_ids ps)
        ≡ not (all (λ p. recorded pass p.predicate_id evidence) ps)
  any-missing [] h = refl
  any-missing (p ∷ ps) h =
      ground (arith, any-missing ps, missing-get evidence p.predicate_id distinct)

  failed-nil_iff :
      (c : WorkContract)
      → (failed c evidence ≡ [])
        ↔ (any (λ p. recorded fail p.predicate_id evidence) c.success_predicates ≡ false)
  unfolding failed
  failed-nil_iff c =
      let test = λ (pid : Text). is_failed (get (by_id evidence) pid) in
      rw (← any-failed c.success_predicates)
        (rw (← any-to_set test (predicate_ids c.success_predicates)) (select-nil_iff test _))

  missing-nil_iff :
      (c : WorkContract)
      → any (λ p. recorded fail p.predicate_id evidence) c.success_predicates ≡ false
      → (missing c evidence ≡ [])
        ↔ (all (λ p. recorded pass p.predicate_id evidence) c.success_predicates ≡ true)
  unfolding missing
  missing-nil_iff c h =
      let test = λ (pid : Text). is_missing (get (by_id evidence) pid) in
      let nil_iff = select-nil_iff test (to_set (predicate_ids c.success_predicates)) in
      let found = any-to_set test (predicate_ids c.success_predicates) in
      ground (arith, nil_iff, found, any-missing c.success_predicates h)

-- Evidence with distinct predicate ids and no triggered failure gives an evaluation whose
-- disposition is the specified one: rejected if some evidence fails a success predicate, else
-- accepted if every success predicate has passing evidence, else incomplete. The evaluation
-- carries the contract's id and the evidence.
pub evaluate_work-specified :
    (c : WorkContract) (evidence : List PredicateEvidence)
    → is_distinct (evidence_ids evidence) ≡ true
    → (reasons : List Reason) × (evaluate_work c evidence none
        ≡ ok (evaluation c evidence (specified c.success_predicates evidence, reasons)))
unfolding evaluate_work
evaluate_work-specified c evidence distinct =
    let outcome = dispose (failed c evidence) (missing c evidence) in
    let lemma =
      dispose_lem (failed c evidence) (missing c evidence) _ _ (failed-nil_iff evidence distinct c)
        (missing-nil_iff evidence distinct c) in
    (outcome.1, rw distinct (rw lemma refl))
