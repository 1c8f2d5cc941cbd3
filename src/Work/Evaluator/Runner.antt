-- ===== src/Work/Evaluator/Runner.antt =====
-- The runner's evaluation and the reopening of regressions, against the checks themselves.
use long_haul.Prelude.{
  ◌≡◌, refl, sym, ap, ◌∙◌, Bool, true, not, ◌&&◌, ◌||◌, List, [], ◌∷◌, map, arith, if◌then◌else◌,
  select, any, all, Text, ◌==◌, ==_refl, eq_iff, contains, is_distinct,
}
use long_haul.Prelude.Results.{ok, value_error, >>=-eq-ok, passed}
use long_haul.Prelude.Strings.{sorted, to_set, insert_sorted}
use long_haul.Work.Contracts.{
  EvidenceState, pass, fail, unknown, AcceptancePredicate, WorkContract, WorkDisposition,
  incomplete, accepted, rejected, predicate_ids,
}
use long_haul.Work.Evaluation.{WorkEvaluation, evidence_ids}
use long_haul.Work.Evaluation.Lookup.{recorded, same_state}
use long_haul.Work.Evaluation.Disposition.{specified, evaluate_work-specified}
use long_haul.Work.Evaluator.{
  EvidencePacket, CheckRecord, EvaluatorIdentity, check_ids, build_packet, evidence_of,
  predicate_evidence, Target, check_all, evaluate_packet, evaluate, packet_for, reopen_regressions,
  ids_where, is_pass, is_fail, is_unknown, is_empty,
}
use long_haul.Work.Evaluator.Answers.{AreChecks, check_all-AreChecks}
use long_haul.Work.Evaluator.Packets.{ids-evidence, ids-check_all, records-states}

-- What the checks say by themselves.
abbrev pub verdict : List CheckRecord → WorkDisposition
verdict checks =
    if any (λ c. same_state c.state fail) checks
    then rejected
    else if all (λ c. same_state c.state pass) checks
    then accepted
    else incomplete

-- The ids of the checks in a state.
abbrev pub ids_in : EvidenceState → List CheckRecord → List Text
ids_in s checks = check_ids (select (λ c. same_state c.state s) checks)

is_pass-same : (s : EvidenceState) → is_pass s ≡ same_state s pass
is_pass-same pass = refl
is_pass-same fail = refl
is_pass-same unknown = refl

is_unknown-same : (s : EvidenceState) → is_unknown s ≡ same_state s unknown
is_unknown-same pass = refl
is_unknown-same fail = refl
is_unknown-same unknown = refl

is_fail-same : (s : EvidenceState) → is_fail s ≡ same_state s fail
is_fail-same pass = refl
is_fail-same fail = refl
is_fail-same unknown = refl

ids_where-ids_in :
    (p : EvidenceState → Bool) (s : EvidenceState) (cs : List CheckRecord)
    → ((x : EvidenceState) → p x ≡ same_state x s)
    → ids_where p cs ≡ ids_in s cs
ids_where-ids_in p s [] same = refl
ids_where-ids_in p s (c ∷ cs) same = ground (arith, same c.state, ids_where-ids_in p s cs same)

any-map {ℓ} : {A : Type ℓ} (f : A → Bool) (xs : List A) → any (λ b. b) (map f xs) ≡ any f xs
any-map f [] = refl
any-map f (x ∷ xs) = ground (arith, any-map f xs)

all-map {ℓ} : {A : Type ℓ} (f : A → Bool) (xs : List A) → all (λ b. b) (map f xs) ≡ all f xs
all-map f [] = refl
all-map f (x ∷ xs) = ground (arith, all-map f xs)

specified-verdict :
    (packet : EvidencePacket) (ps : List AcceptancePredicate)
    → check_ids packet.checks ≡ predicate_ids ps
    → is_distinct (check_ids packet.checks) ≡ true
    → specified ps (predicate_evidence packet) ≡ verdict packet.checks
unfolding predicate_evidence
specified-verdict packet ps same distinct =
    let cs = packet.checks in
    let fails = ap (any (λ b. b)) (records-states packet fail cs ps same distinct) in
    let passes = ap (all (λ b. b)) (records-states packet pass cs ps same distinct) in
    let recorded_in = λ (s : EvidenceState) (p : AcceptancePredicate).
      recorded s p.predicate_id (map (evidence_of packet) cs) in
    rw
      (sym (any-map (recorded_in fail) ps)
        ∙ fails
        ∙ any-map (λ (c : CheckRecord). same_state c.state fail) cs)
      (rw
        (sym (all-map (recorded_in pass) ps)
          ∙ passes
          ∙ all-map (λ (c : CheckRecord). same_state c.state pass) cs)
        refl)

build_packet-ok :
    (p p' : EvidencePacket)
    → build_packet p ≡ ok p'
    → (p' ≡ p) × (is_distinct (check_ids p.checks) ≡ true)
unfolding build_packet
build_packet-ok p p' h =
    let (a, h1) = passed (is_empty p.packet_id) value_error _ h in
    let (b, h2) = passed (is_empty p.contract_id) value_error _ h1 in
    let (c, h3) = passed (is_empty p.attempt_id) value_error _ h2 in
    let (d, h4) = passed (is_empty p.candidate.fingerprint) value_error _ h3 in
    let (e, h5) = passed (is_empty p.candidate.reference) value_error _ h4 in
    let (f, h6) = passed (not (is_distinct (check_ids p.checks))) value_error _ h5 in
    (cc h6, ground arith)

evaluate_packet-fresh :
    (c : WorkContract) (p : EvidencePacket) (w : WorkEvaluation)
    → is_distinct (check_ids p.checks) ≡ true
    → evaluate_packet c p p.candidate.fingerprint ≡ ok w
    → w.disposition ≡ specified c.success_predicates (predicate_evidence p)
unfolding evaluate_packet
evaluate_packet-fresh c p w distinct h =
    let (one, h1) = passed (not (is_distinct (check_ids p.checks))) value_error _ h in
    let (two, h2) = passed (not (p.contract_id == c.contract_id)) value_error _ h1 in
    let ids : is_distinct (evidence_ids (predicate_evidence p)) ≡ true =
      unfold predicate_evidence in rw (ids-evidence p p.checks) distinct in
    let (reasons, judged) = evaluate_work-specified c (predicate_evidence p) ids in
    ground (arith, ==_refl p.candidate.fingerprint)

-- A run of the evaluator that returns has one check for each success predicate of the contract, in
-- the contract's order, whose state and detail are the target's answer: to the predicate's command,
-- or without one to the inspection of its artifact path, or unknown without either. It lists as
-- verified the ids that passed and as unresolved the unknown ones, and its disposition is what the
-- checks say: rejected if one failed, accepted if all passed, else incomplete.
pub evaluate-verdict :
    (t : Target) (evaluator : EvaluatorIdentity) (c : WorkContract)
    (attempt_id packet_id reference : Text) (packet : EvidencePacket) (w : WorkEvaluation)
    → evaluate t evaluator c attempt_id packet_id reference ≡ ok (packet, w)
    → AreChecks t c.success_predicates packet.checks
      × (w.disposition ≡ verdict packet.checks)
      × (packet.verified ≡ ids_in pass packet.checks)
      × (packet.unresolved ≡ ids_in unknown packet.checks)
      × (packet.candidate.fingerprint ≡ t.fingerprint)
unfolding evaluate evaluate_packet
evaluate-verdict t evaluator c attempt_id packet_id reference packet w h =
    let (checks, ran, h1) = >>=-eq-ok (check_all t c.success_predicates) _ h in
    let drafted = packet_for t evaluator c attempt_id packet_id reference checks in
    let (built, made, h2) = >>=-eq-ok (build_packet drafted) _ h1 in
    let (result, judged, h3) = >>=-eq-ok (evaluate_packet c built t.fingerprint) _ h2 in
    let (same, distinct) = build_packet-ok drafted built made in
    let order = ids-check_all t c.success_predicates checks ran in
    let own : packet ≡ drafted = cc (h3, same) in
    let judged' : evaluate_packet c drafted t.fingerprint ≡ ok w = cc (h3, same, judged) in
    let verdict_is =
      evaluate_packet-fresh c drafted w distinct judged'
      ∙ specified-verdict drafted c.success_predicates order distinct in
    rw own (
      check_all-AreChecks t c.success_predicates checks ran,
      verdict_is,
      ids_where-ids_in is_pass pass checks is_pass-same,
      ids_where-ids_in is_unknown unknown checks is_unknown-same,
      refl,
    )

contains-insert_sorted :
    (a b : Text) (xs : List Text) → contains a (insert_sorted b xs) ≡ ((b == a) || contains a xs)
unfolding insert_sorted contains
contains-insert_sorted a b [] = refl
contains-insert_sorted a b (x ∷ xs) = ground (arith, contains-insert_sorted a b xs)

contains-sorted : (a : Text) (xs : List Text) → contains a (sorted xs) ≡ contains a xs
unfolding sorted contains
contains-sorted a [] = refl
contains-sorted a (x ∷ xs) =
    contains-insert_sorted a x (sorted xs) ∙ ground (arith, contains-sorted a xs)

contains-to_set : (a : Text) (xs : List Text) → contains a (to_set xs) ≡ contains a xs
unfolding to_set contains
contains-to_set a [] = refl
contains-to_set a (x ∷ xs) = ground (arith, eq_iff x a, contains-to_set a xs)

contains-select :
    (p : Text → Bool) (a : Text) (xs : List Text)
    → contains a (select p xs) ≡ (contains a xs && p a)
unfolding contains
contains-select p a [] = refl
contains-select p a (x ∷ xs) = ground (arith, eq_iff x a, contains-select p a xs)

-- A predicate is reopened exactly if the previous packet has a passing check of it and the current
-- packet a failing one; every other field of the current packet is kept.
pub contains-reopen_regressions :
    (previous current : EvidencePacket) (a : Text)
    → (contains a (reopen_regressions previous current).regressions
        ≡ (contains a (ids_in pass previous.checks) && contains a (ids_in fail current.checks)))
      × (record (reopen_regressions previous current) { regressions = current.regressions }
          ≡ current)
unfolding reopen_regressions
contains-reopen_regressions previous current a =
    let passing = ids_where is_pass previous.checks in
    let failing = ids_where is_fail current.checks in
    (
      contains-sorted a _
          ∙ contains-select (λ x. contains x (to_set failing)) a (to_set passing)
          ∙ rw (contains-to_set a passing) (
              rw (contains-to_set a failing) (
                rw (ids_where-ids_in is_pass pass previous.checks is_pass-same)
                  (rw (ids_where-ids_in is_fail fail current.checks is_fail-same) refl))),
      refl,
    )
