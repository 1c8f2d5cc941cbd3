-- ===== src/Work/Evaluator/Packets.antt =====
-- What an evaluation of a packet can conclude, and what the runner's evaluation rests on.
use long_haul.Prelude.{
  ◌≡◌, refl, ap, ◌∙◌, inl, inr, Bool, true, false, not, List, [], ◌∷◌, map, arith, Bool-cases, Text,
  ◌==◌, eq_of_==, eq_iff, contains, is_distinct,
}
use long_haul.Prelude.Results.{ok, value_error, >>=-eq-ok, passed}
use long_haul.Work.Contracts.{
  EvidenceState, AcceptancePredicate, WorkContract, incomplete, accepted, predicate_ids,
}
use long_haul.Work.Evaluation.{WorkEvaluation, stale_evidence, evaluation, evidence_ids}
use long_haul.Work.Evaluation.Lookup.{recorded, same_state}
use long_haul.Work.Evaluation.Disposition.{specified, evaluate_work-specified}
use long_haul.Work.Evaluator.{
  EvidencePacket, CheckRecord, check_ids, evidence_of, predicate_evidence, Target, check_predicate,
  check_command, check_all, evaluate_packet,
}

pub ids-evidence :
    (p : EvidencePacket) (checks : List CheckRecord)
    → evidence_ids (map (evidence_of p) checks) ≡ check_ids checks
ids-evidence p [] = refl
ids-evidence p (c ∷ cs) = ap (λ xs. c.predicate_id ∷ xs) (ids-evidence p cs)

-- Evidence for another artifact than the candidate never accepts or rejects the work: a packet of
-- this contract with distinct predicate ids but another fingerprint gives INCOMPLETE with the
-- stale-evidence reason.
pub evaluate_packet-stale :
    (c : WorkContract) (p : EvidencePacket) (fingerprint : Text)
    → is_distinct (check_ids p.checks) ≡ true
    → (p.contract_id == c.contract_id) ≡ true
    → (p.candidate.fingerprint == fingerprint) ≡ false
    → evaluate_packet c p fingerprint
      ≡ ok (evaluation c (predicate_evidence p) (incomplete, stale_evidence ∷ []))
unfolding evaluate_packet
evaluate_packet-stale c p fingerprint distinct same stale = rw distinct (rw same (rw stale refl))

-- An accepting evaluation of a packet means that the packet belongs to the contract, that its
-- evidence is about that very artifact, and that every success predicate has a passing check and
-- none a failing one.
pub evaluate_packet-accepted :
    (c : WorkContract) (p : EvidencePacket) (fingerprint : Text) (w : WorkEvaluation)
    → evaluate_packet c p fingerprint ≡ ok w
    → w.disposition ≡ accepted
    → (p.contract_id ≡ c.contract_id)
      × (p.candidate.fingerprint ≡ fingerprint)
      × (specified c.success_predicates (predicate_evidence p) ≡ accepted)
unfolding evaluate_packet
evaluate_packet-accepted c p fingerprint w h is_accepted =
    let (distinct, h1) = passed (not (is_distinct (check_ids p.checks))) value_error _ h in
    let (same, h2) = passed (not (p.contract_id == c.contract_id)) value_error _ h1 in
    let ids : is_distinct (evidence_ids (predicate_evidence p)) ≡ true =
      unfold predicate_evidence in rw (ids-evidence p p.checks) (ground arith) in
    let (reasons, judged) = evaluate_work-specified c (predicate_evidence p) ids in
    elim (Bool-cases (p.candidate.fingerprint == fingerprint)) [
      | inl fresh ↦ (
        ground (arith, eq_iff p.contract_id c.contract_id),
        eq_of_== p.candidate.fingerprint fingerprint fresh,
        ground arith,
      )
      | inr stale ↦ absurd (ground arith)
    ]

id-check_predicate :
    (t : Target) (p : AcceptancePredicate) (c : CheckRecord)
    → check_predicate t p ≡ ok c
    → c.predicate_id ≡ p.predicate_id
unfolding check_predicate
id-check_predicate t p c h =
    let (answer, found, h1) = >>=-eq-ok (check_command t p.command p.artifact_path) _ h in
    ground arith

pub ids-check_all :
    (t : Target) (ps : List AcceptancePredicate) (checks : List CheckRecord)
    → check_all t ps ≡ ok checks
    → check_ids checks ≡ predicate_ids ps
unfolding check_all
ids-check_all t [] checks h = ground arith
ids-check_all t (p ∷ ps) checks h =
    let (c, first, h1) = >>=-eq-ok (check_predicate t p) _ h in
    let (cs, rest, h2) = >>=-eq-ok (check_all t ps) _ h1 in
    ground (arith, id-check_predicate t p c first, ids-check_all t ps cs rest)

-- In evidence with distinct ids a predicate's record is that of its own check.
module _ (packet : EvidencePacket) (s : EvidenceState) where
  abbrev pub recorded_by : List CheckRecord → Text → Bool
  recorded_by checks pid = recorded s pid (map (evidence_of packet) checks)

  abbrev pub states : List CheckRecord → List Bool
  states checks = map (λ c. same_state c.state s) checks

  abbrev pub records : List CheckRecord → List AcceptancePredicate → List Bool
  records checks ps = map (λ p. recorded_by checks p.predicate_id) ps

  recorded_by-absent :
      (checks : List CheckRecord) (pid : Text)
      → contains pid (check_ids checks) ≡ false
      → recorded_by checks pid ≡ false
  unfolding contains
  recorded_by-absent [] pid h = refl
  recorded_by-absent (c ∷ cs) pid h = ground (arith, recorded_by-absent cs pid)

  records-tail :
      (c : CheckRecord) (checks : List CheckRecord) (ps : List AcceptancePredicate)
      → contains c.predicate_id (predicate_ids ps) ≡ false
      → records (c ∷ checks) ps ≡ records checks ps
  unfolding contains
  records-tail c checks [] h = refl
  records-tail c checks (p ∷ ps) h =
      let other : (c.predicate_id == p.predicate_id) ≡ false =
        ground
          (arith, eq_iff c.predicate_id p.predicate_id, eq_iff p.predicate_id c.predicate_id) in
      rw other (
        ap (λ bs. recorded_by checks p.predicate_id ∷ bs) (records-tail c checks ps (ground arith)))

  pub records-states :
      (checks : List CheckRecord) (ps : List AcceptancePredicate)
      → check_ids checks ≡ predicate_ids ps
      → is_distinct (check_ids checks) ≡ true
      → records checks ps ≡ states checks
  unfolding is_distinct
  records-states [] [] same distinct = refl
  records-states [] (p ∷ ps) same distinct = absurd (ground arith)
  records-states (c ∷ cs) [] same distinct = absurd (ground arith)
  records-states (c ∷ cs) (p ∷ ps) same distinct =
      let here : c.predicate_id ≡ p.predicate_id = ground arith in
      let ids : check_ids cs ≡ predicate_ids ps = ground arith in
      let absent : contains c.predicate_id (check_ids cs) ≡ false = ground arith in
      let absent' : contains c.predicate_id (predicate_ids ps) ≡ false = rw (← ids) absent in
      let own : recorded_by (c ∷ cs) p.predicate_id ≡ same_state c.state s =
        ground (
          arith,
          eq_iff c.predicate_id p.predicate_id,
          recorded_by-absent cs p.predicate_id,
          here,
        ) in
      rw own (
        ap (λ bs. same_state c.state s ∷ bs)
          (records-tail c cs ps absent' ∙ records-states cs ps ids (ground arith)))
