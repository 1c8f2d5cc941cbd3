-- ===== src/Work/Evaluation.antt =====
-- evaluate_work: external evidence against a contract (src/long_haul/work/contracts.py).
pub mod Lookup
pub mod Disposition
mod Examples
use long_haul.Prelude.{
  ℕ, ◌≡◌, Bool, true, false, not, ◌&&◌, ◌||◌, Option, none, some, List, [], ◌∷◌, map, Text,
  is_distinct, if◌then◌else◌, select,
}
use long_haul.Prelude.Strings.{sorted, to_set}
use long_haul.Prelude.Dict.{Dict, get, put}
use long_haul.Prelude.Results.{Result, ok, err, value_error, ◌>>=◌, ◌>>◌, raise_if}
use long_haul.Work.Contracts.{
  EvidenceState, pass, fail, unknown, WorkDisposition, accepted, rejected, incomplete, FailureKind,
  WorkContract, predicate_ids,
}

pub record PredicateEvidence : Type 0 where
  pub predicate_id : Text
  pub state : EvidenceState
  pub source : Text
  pub detail : Text
  pub artifact_fingerprint : Option Text

-- The reasons as data; the source renders each as one line of text.
pub data Reason : Type 0 where
  failure_triggered : FailureKind → Reason
  failed_predicates unverified_predicates : List Text → Reason
  stale_evidence : Reason

pub record WorkEvaluation : Type 0 where
  pub contract_id : Text
  pub disposition : WorkDisposition
  pub evidence : List PredicateEvidence
  pub reasons : List Reason

abbrev pub evidence_ids : List PredicateEvidence → List Text
evidence_ids evidence = map (λ e. e.predicate_id) evidence

-- {item.predicate_id: item for item in evidence}, continued from d
unfoldable pub index : Dict PredicateEvidence → List PredicateEvidence → Dict PredicateEvidence
index d [] = d
index d (e ∷ evidence) = index (put d e.predicate_id e) evidence

abbrev pub by_id : List PredicateEvidence → Dict PredicateEvidence
by_id evidence = index [] evidence

-- pid in by_id and by_id[pid].state is FAIL
abbrev pub is_failed : Option PredicateEvidence → Bool
is_failed none = false
is_failed (some e) = elim e.state [ fail ↦ true | _ ↦ false ]

-- pid not in by_id or by_id[pid].state is UNKNOWN
abbrev pub is_missing : Option PredicateEvidence → Bool
is_missing none = true
is_missing (some e) = elim e.state [ unknown ↦ true | _ ↦ false ]

-- The three-way branch on the failed and the missing predicates.
unfoldable pub dispose : List Text → List Text → WorkDisposition × List Reason
unfolding sorted
dispose (f ∷ fs) missing = (rejected, failed_predicates (sorted (f ∷ fs)) ∷ [])
dispose [] (m ∷ ms) = (incomplete, unverified_predicates (sorted (m ∷ ms)) ∷ [])
dispose [] [] = (accepted, [])

unfoldable pub failed : WorkContract → List PredicateEvidence → List Text
unfolding to_set get index put
failed c evidence =
    select (λ pid. is_failed (get (by_id evidence) pid))
      (to_set (predicate_ids c.success_predicates))

unfoldable pub missing : WorkContract → List PredicateEvidence → List Text
unfolding to_set get index put
missing c evidence =
    select (λ pid. is_missing (get (by_id evidence) pid))
      (to_set (predicate_ids c.success_predicates))

abbrev pub evaluation :
    WorkContract → List PredicateEvidence → WorkDisposition × List Reason → WorkEvaluation
evaluation c evidence (disposition, reasons) = record {
  contract_id = c.contract_id;
  disposition = disposition;
  evidence = evidence;
  reasons = reasons;
}

abbrev pub judge : WorkContract → List PredicateEvidence → Option FailureKind → WorkEvaluation
judge c evidence (some failure) = evaluation c evidence (rejected, failure_triggered failure ∷ [])
judge c evidence none = evaluation c evidence (dispose (failed c evidence) (missing c evidence))

unfoldable pub evaluate_work :
    WorkContract → List PredicateEvidence → Option FailureKind → Result WorkEvaluation
unfolding is_distinct failed missing dispose
evaluate_work c evidence failure = do
  raise_if (not (is_distinct (evidence_ids evidence))) value_error
  ok (judge c evidence failure)
