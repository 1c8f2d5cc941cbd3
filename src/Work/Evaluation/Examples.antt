-- ===== src/Work/Evaluation/Examples.antt =====
-- Tests of evaluate_work on a contract with two predicates, and the theorems at such inputs.
use long_haul.Prelude.{
  ◌≡◌, refl, true, none, List, [], ◌∷◌, Text, codes, ◌==◌, contains, is_distinct,
}
use long_haul.Prelude.Results.{ok}
use long_haul.Work.Contracts.{
  EvidenceState, pass, accepted, incomplete, WorkContract, AcceptancePredicate, PredicateKind,
}
use long_haul.Work.Evaluation.{PredicateEvidence, Reason, evaluation, evaluate_work, evidence_ids}
use long_haul.Work.Evaluation.Disposition.{specified, evaluate_work-specified}

abbrev predicate : Text → AcceptancePredicate
predicate name = record {
  predicate_id = name;
  kind = PredicateKind.test;
  description = name;
  command = codes "make" ∷ [];
  artifact_path = none;
}

abbrev contract : WorkContract
contract = record {
  contract_id = codes "c";
  mission_id = codes "m";
  objective = codes "o";
  context = [];
  execution_plan_id = none;
  allowed_paths = codes "src" ∷ [];
  forbidden_paths = [];
  capabilities = [];
  authority_scopes = [];
  budget = record {
    wall_seconds = 100;
    max_attempts = 2;
    max_tokens_per_attempt = none;
    max_no_progress_steps = none;
  };
  success_predicates = predicate (codes "unit") ∷ predicate (codes "lint") ∷ [];
  failure_predicates = [];
  flash_execution = none;
}

abbrev observed : Text → EvidenceState → PredicateEvidence
observed name state = record {
  predicate_id = name;
  state = state;
  source = codes "ci";
  detail = [];
  artifact_fingerprint = none;
}

abbrev both_pass : List PredicateEvidence
both_pass = observed (codes "lint") pass ∷ observed (codes "unit") pass ∷ []

abbrev one_missing : List PredicateEvidence
one_missing = observed (codes "lint") pass ∷ []

distinct_pass : is_distinct (evidence_ids both_pass) ≡ true
unfolding is_distinct contains ◌==◌
distinct_pass = refl

accepted_test :
    evaluate_work contract both_pass none ≡ ok (evaluation contract both_pass (accepted, []))
unfolding evaluate_work contains ◌==◌
accepted_test = refl

incomplete_test :
    evaluate_work contract one_missing none
    ≡ ok (
        evaluation contract one_missing
          (incomplete, Reason.unverified_predicates (codes "unit" ∷ []) ∷ []))
unfolding evaluate_work contains ◌==◌
incomplete_test = refl

evaluate_work-specified_example :
    (reasons : List Reason) × (evaluate_work contract both_pass none
      ≡ ok (
          evaluation contract both_pass (specified contract.success_predicates both_pass, reasons)))
evaluate_work-specified_example = evaluate_work-specified contract both_pass distinct_pass
