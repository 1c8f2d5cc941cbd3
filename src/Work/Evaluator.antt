-- ===== src/Work/Evaluator.antt =====
-- Evidence packets and the read-only evaluation runner (src/long_haul/work/evaluator.py).
-- The inspected target is a parameter: what it answers to one question.
pub mod Packets
pub mod Answers
pub mod Runner
mod Examples
use long_haul.Prelude.{
  ℕ, zero, suc, ◌+◌, ◌-◌, ◌*◌, ◌/◌, ◌%◌, ◌≤◌, ◌<◌, min, max, ◌≡◌, refl, sym, ap, ◌∙◌, ◌≢◌, ◌↔◌, ◌⊎◌,
  inl, inr, Bool, true, false, not, ◌&&◌, ◌||◌, Option, none, some, List, [], ◌∷◌, ◌++◌, map, arith,
  ltb, leb, nat_eq, if◌then◌else◌, nat_eq_iff, Bool-cases, Option-cases, is_some, is_none, length,
  take, drop, last_items, All, select, any, all, length-append, length-drop, length-take-le,
  length-last_items-le, length-select-le, any-append, all-append, Text, codes, ◌==◌, ==_refl,
  eq_of_==, eq_iff, contains, is_distinct, contains-append,
}
use long_haul.Prelude.Results.{
  Fault, Result, ok, err, value_error, key_error, type_error, runtime_error, lease_error,
  verification_error, lifecycle_error, service_error, ◌>>=◌, ◌>>◌, raise_if, >>=-eq-ok,
  raise_if-eq-ok, Result-cases, is_ok, passed,
}
use long_haul.Prelude.Strings.{sorted, to_set}
use long_haul.Work.Contracts.{
  EvidenceState, pass, fail, unknown, AcceptancePredicate, WorkContract, WorkDisposition,
  incomplete,
}
use long_haul.Work.Evaluation.{
  PredicateEvidence, WorkEvaluation, Reason, stale_evidence, evaluate_work, evaluation,
}

pub record CandidateArtifact : Type 0 where
  pub fingerprint : Text
  pub reference : Text

pub record EvaluatorIdentity : Type 0 where
  pub evaluator_id : Text
  pub version : Text
  pub runtime : Text

pub record CheckRecord : Type 0 where
  pub predicate_id : Text
  pub command : List Text
  pub state : EvidenceState
  pub detail : Text

pub record EvidencePacket : Type 0 where
  pub packet_id : Text
  pub contract_id : Text
  pub attempt_id : Text
  pub candidate : CandidateArtifact
  pub evaluator : EvaluatorIdentity
  pub checks : List CheckRecord
  pub verified : List Text
  pub unresolved : List Text
  pub regressions : List Text

abbrev pub check_ids : List CheckRecord → List Text
check_ids checks = map (λ c. c.predicate_id) checks

-- EvidencePacket.unique_checks
unfoldable pub unique_checks : EvidencePacket → Result (Unit {0})
unfolding is_distinct
unique_checks p = raise_if (not (is_distinct (check_ids p.checks))) value_error

abbrev pub is_empty : Text → Bool
is_empty [] = true
is_empty (c ∷ cs) = false

-- The constructor: the fields that must not be empty, then the validator.
unfoldable pub build_packet : EvidencePacket → Result EvidencePacket
unfolding unique_checks
build_packet p = do
  raise_if (is_empty p.packet_id) value_error
  raise_if (is_empty p.contract_id) value_error
  raise_if (is_empty p.attempt_id) value_error
  raise_if (is_empty p.candidate.fingerprint) value_error
  raise_if (is_empty p.candidate.reference) value_error
  unique_checks p
  ok p

abbrev pub evidence_of : EvidencePacket → CheckRecord → PredicateEvidence
evidence_of p c = record {
  predicate_id = c.predicate_id;
  state = c.state;
  source = codes "evidence:" ++ p.packet_id;
  detail = c.detail;
  artifact_fingerprint = some p.candidate.fingerprint;
}

-- EvidencePacket.predicate_evidence
unfoldable pub predicate_evidence : EvidencePacket → List PredicateEvidence
predicate_evidence p = map (evidence_of p) p.checks

-- inspect: it returns, it raises FileNotFoundError or PermissionError, or something else
pub data Inspection : Type 0 where
  inspectable : Inspection
  absent : Text → Inspection
  raises : Fault → Inspection

-- ReadOnlyEvaluationTarget
pub record Target : Type 0 where
  pub fingerprint : Text
  pub inspect : Text → Inspection
  pub run_check : List Text → Result (EvidenceState × Text)

abbrev pub judge_inspection : Inspection → Result (EvidenceState × Text)
judge_inspection inspectable = ok (pass, codes "artifact present and inspectable")
judge_inspection (absent detail) = ok (fail, detail)
judge_inspection (raises e) = err e

abbrev pub check_path : Target → Option Text → Result (EvidenceState × Text)
check_path t none = ok (unknown, codes "predicate has no evaluator action")
check_path t (some []) = ok (unknown, codes "predicate has no evaluator action")
check_path t (some (c ∷ cs)) = judge_inspection (t.inspect (c ∷ cs))

abbrev pub check_command : Target → List Text → Option Text → Result (EvidenceState × Text)
check_command t [] path = check_path t path
check_command t (w ∷ ws) path = t.run_check (w ∷ ws)

-- The body of the loop over the success predicates.
unfoldable pub check_predicate : Target → AcceptancePredicate → Result CheckRecord
check_predicate t p = do
  answer ← check_command t p.command p.artifact_path
  ok (record {
    predicate_id = p.predicate_id;
    command = p.command;
    state = answer.0;
    detail = answer.1;
  })

unfoldable pub check_all : Target → List AcceptancePredicate → Result (List CheckRecord)
unfolding check_predicate
check_all t [] = ok []
check_all t (p ∷ ps) = do c ← check_predicate t p; cs ← check_all t ps; ok (c ∷ cs)

abbrev pub is_pass : EvidenceState → Bool
is_pass pass = true
is_pass _ = false

abbrev pub is_fail : EvidenceState → Bool
is_fail fail = true
is_fail _ = false

abbrev pub is_unknown : EvidenceState → Bool
is_unknown unknown = true
is_unknown _ = false

abbrev pub ids_where : (EvidenceState → Bool) → List CheckRecord → List Text
ids_where p checks = check_ids (select (λ c. p c.state) checks)

abbrev fresh_evaluation : Bool → WorkContract → EvidencePacket → Result WorkEvaluation
fresh_evaluation true c p = evaluate_work c (predicate_evidence p) none
fresh_evaluation false c p =
    ok (evaluation c (predicate_evidence p) (incomplete, stale_evidence ∷ []))

unfoldable pub evaluate_packet : WorkContract → EvidencePacket → Text → Result WorkEvaluation
unfolding unique_checks predicate_evidence evaluate_work
evaluate_packet c p candidate_fingerprint = do
  unique_checks p
  raise_if (not (p.contract_id == c.contract_id)) value_error
  fresh_evaluation (p.candidate.fingerprint == candidate_fingerprint) c p

abbrev pub packet_for :
    Target
    → EvaluatorIdentity
    → WorkContract
    → Text
    → Text
    → Text
    → List CheckRecord
    → EvidencePacket
packet_for t evaluator c attempt_id packet_id reference checks = record {
  packet_id = packet_id;
  contract_id = c.contract_id;
  attempt_id = attempt_id;
  candidate = record { fingerprint = t.fingerprint; reference = reference };
  evaluator = evaluator;
  checks = checks;
  verified = ids_where is_pass checks;
  unresolved = ids_where is_unknown checks;
  regressions = [];
}

-- EvaluationRunner.evaluate
unfoldable pub evaluate :
    Target
    → EvaluatorIdentity
    → WorkContract
    → Text
    → Text
    → Text
    → Result (EvidencePacket × WorkEvaluation)
unfolding check_all build_packet evaluate_packet
evaluate t evaluator c attempt_id packet_id reference = do
  checks ← check_all t c.success_predicates
  packet ← build_packet (packet_for t evaluator c attempt_id packet_id reference checks)
  result ← evaluate_packet c packet t.fingerprint
  ok (packet, result)

-- reopen_regressions: the set intersection, sorted
unfoldable pub reopen_regressions : EvidencePacket → EvidencePacket → EvidencePacket
unfolding sorted to_set contains
reopen_regressions previous current =
    let previous_pass = to_set (ids_where is_pass previous.checks) in
    let current_fail = to_set (ids_where is_fail current.checks) in
    record current { regressions = sorted (select (λ a. contains a current_fail) previous_pass) }
