-- ===== src/Work/Evaluator/Examples.antt =====
-- Tests of the evaluator on one candidate, and the theorems at such inputs.
use long_haul.Prelude.{◌≡◌, refl, true, none, some, List, [], ◌∷◌, Text, codes, ◌==◌, contains}
use long_haul.Prelude.Results.{ok}
use long_haul.Work.Contracts.{
  EvidenceState, pass, fail, unknown, accepted, rejected, WorkContract, AcceptancePredicate,
  PredicateKind,
}
use long_haul.Work.Evaluation.{evaluation}
use long_haul.Work.Evaluation.Disposition.{specified}
use long_haul.Work.Evaluator.{
  CheckRecord, EvidencePacket, EvaluatorIdentity, Target, inspectable, evaluate_packet, evaluate,
  predicate_evidence, packet_for, reopen_regressions,
}
use long_haul.Work.Evaluator.Answers.{AreChecks}
use long_haul.Work.Evaluator.Packets.{evaluate_packet-accepted}
use long_haul.Work.Evaluator.Runner.{evaluate-verdict, verdict, ids_in, contains-reopen_regressions}

abbrev predicate : Text → List Text → AcceptancePredicate
predicate name command = record {
  predicate_id = name;
  kind = PredicateKind.test;
  description = name;
  command = command;
  artifact_path = some (codes "out");
}

abbrev contract : WorkContract
contract = record {
  contract_id = codes "c";
  mission_id = codes "m";
  objective = codes "o";
  context = [];
  execution_plan_id = none;
  allowed_paths = [];
  forbidden_paths = [];
  capabilities = [];
  authority_scopes = [];
  budget = record {
    wall_seconds = 100;
    max_attempts = 2;
    max_tokens_per_attempt = none;
    max_no_progress_steps = none;
  };
  success_predicates =
      predicate (codes "unit") (codes "make" ∷ []) ∷ predicate (codes "file") [] ∷ [];
  failure_predicates = [];
  flash_execution = none;
}

-- A target whose artifacts are all there, and whose commands answer the state.
abbrev target : EvidenceState → Target
target state = record {
  fingerprint = codes "f";
  inspect = λ path. inspectable;
  run_check = λ command. ok (state, []);
}

abbrev evaluator : EvaluatorIdentity
evaluator = record { evaluator_id = codes "e"; version = codes "1"; runtime = codes "r" }

abbrev check : Text → List Text → EvidenceState → Text → CheckRecord
check name command state detail = record {
  predicate_id = name;
  command = command;
  state = state;
  detail = detail;
}

abbrev checks : EvidenceState → List CheckRecord
checks state =
    check (codes "unit") (codes "make" ∷ []) state []
    ∷ check (codes "file") [] pass (codes "artifact present and inspectable")
    ∷ []

abbrev packet : EvidenceState → EvidencePacket
packet state =
    packet_for (target state) evaluator contract (codes "a") (codes "p") (codes "ref")
      (checks state)

accepted_run :
    evaluate (target pass) evaluator contract (codes "a") (codes "p") (codes "ref")
    ≡ ok (packet pass, evaluation contract (predicate_evidence (packet pass)) (accepted, []))
unfolding evaluate ◌==◌
accepted_run = refl

rejected_verdict : verdict (checks fail) ≡ rejected
unfolding verdict
rejected_verdict = refl

second_run :
    evaluate_packet contract (packet pass) (codes "f")
    ≡ ok (evaluation contract (predicate_evidence (packet pass)) (accepted, []))
unfolding evaluate_packet ◌==◌
second_run = refl

evaluate_packet-accepted_example :
    (codes "c" ≡ codes "c")
    × (codes "f" ≡ codes "f")
    × (specified contract.success_predicates (predicate_evidence (packet pass)) ≡ accepted)
evaluate_packet-accepted_example =
    evaluate_packet-accepted contract (packet pass) (codes "f") _ second_run refl

evaluate-verdict_example :
    AreChecks (target pass) contract.success_predicates (checks pass)
    × (accepted ≡ verdict (checks pass))
    × ((packet pass).verified ≡ ids_in pass (checks pass))
    × ((packet pass).unresolved ≡ ids_in unknown (checks pass))
    × ((packet pass).candidate.fingerprint ≡ codes "f")
evaluate-verdict_example =
    evaluate-verdict (target pass) evaluator contract (codes "a") (codes "p") (codes "ref")
      (packet pass) _ accepted_run

contains-reopen_regressions_example :
    (contains (codes "unit") (reopen_regressions (packet pass) (packet fail)).regressions ≡ true)
    × (record (reopen_regressions (packet pass) (packet fail)) { regressions = [] } ≡ packet fail)
unfolding contains ◌==◌
contains-reopen_regressions_example =
    contains-reopen_regressions (packet pass) (packet fail) (codes "unit")
