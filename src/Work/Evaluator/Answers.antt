-- ===== src/Work/Evaluator/Answers.antt =====
-- What a check record says about its predicate, told from the target alone
-- (src/long_haul/work/evaluator.py).
use long_haul.Prelude.{◌≡◌, refl, Bool, true, false, Option, none, some, List, [], ◌∷◌, Text}
use long_haul.Prelude.Results.{ok, >>=-eq-ok}
use long_haul.Work.Contracts.{EvidenceState, pass, fail, unknown, AcceptancePredicate}
use long_haul.Work.Evaluator.{
  CheckRecord, Inspection, inspectable, absent, raises, Target, check_path, check_command,
  check_predicate, check_all, judge_inspection,
}
use mathlib.Core.Path.{subst}

abbrev pub has_path : Option Text → Bool
has_path none = false
has_path (some []) = false
has_path (some (c ∷ cs)) = true

-- A predicate with a command has the target's answer to that command; one with an artifact path
-- and no command passes if the target can inspect the artifact, and fails with the target's message
-- if the artifact is missing or forbidden; one with neither is unknown.
pub data IsAnswered (t : Target) (p : AcceptancePredicate) (state : EvidenceState) (detail : Text)
    : Type 0 where
  commanded :
      (w : Text) (ws : List Text)
      → p.command ≡ w ∷ ws
      → t.run_check (w ∷ ws) ≡ ok (state, detail)
      → IsAnswered t p state detail
  inspected :
      (path : Text)
      → p.command ≡ []
      → p.artifact_path ≡ some path
      → t.inspect path ≡ inspectable
      → state ≡ pass
      → IsAnswered t p state detail
  not_found :
      (path : Text)
      → p.command ≡ []
      → p.artifact_path ≡ some path
      → t.inspect path ≡ absent detail
      → state ≡ fail
      → IsAnswered t p state detail
  no_action :
      p.command ≡ []
      → has_path p.artifact_path ≡ false
      → state ≡ unknown
      → IsAnswered t p state detail

pub record IsCheck (t : Target) (p : AcceptancePredicate) (c : CheckRecord) : Type 0 where
  pub same_id : c.predicate_id ≡ p.predicate_id
  pub same_command : c.command ≡ p.command
  pub answered : IsAnswered t p c.state c.detail

-- One check for each predicate, in the same order.
pub data AreChecks (t : Target) : List AcceptancePredicate → List CheckRecord → Type 0 where
  no_checks : AreChecks t [] []
  one_check :
      {p : AcceptancePredicate} {c : CheckRecord} {ps : List AcceptancePredicate}
      {cs : List CheckRecord}
      → IsCheck t p c
      → AreChecks t ps cs
      → AreChecks t (p ∷ ps) (c ∷ cs)

inspection-IsAnswered :
    (t : Target) (p : AcceptancePredicate) (path : Text) (found : Inspection)
    (state : EvidenceState) (detail : Text)
    → p.command ≡ []
    → p.artifact_path ≡ some path
    → t.inspect path ≡ found
    → judge_inspection found ≡ ok (state, detail)
    → IsAnswered t p state detail
inspection-IsAnswered t p path inspectable state detail bare own seen h =
    inspected path bare own seen (cc h)
inspection-IsAnswered t p path (absent said) state detail bare own seen h =
    not_found path bare own (cc (seen, h)) (cc h)
inspection-IsAnswered t p path (raises e) state detail bare own seen h = absurd (cc h)

path-IsAnswered :
    (t : Target) (p : AcceptancePredicate) (o : Option Text) (state : EvidenceState) (detail : Text)
    → p.command ≡ []
    → p.artifact_path ≡ o
    → check_path t o ≡ ok (state, detail)
    → IsAnswered t p state detail
path-IsAnswered t p none state detail bare own h = no_action bare (rw own refl) (cc h)
path-IsAnswered t p (some []) state detail bare own h = no_action bare (rw own refl) (cc h)
path-IsAnswered t p (some (c ∷ cs)) state detail bare own h =
    inspection-IsAnswered t p (c ∷ cs) (t.inspect (c ∷ cs)) state detail bare own refl h

command-IsAnswered :
    (t : Target) (p : AcceptancePredicate) (command : List Text) (state : EvidenceState)
    (detail : Text)
    → p.command ≡ command
    → check_command t command p.artifact_path ≡ ok (state, detail)
    → IsAnswered t p state detail
command-IsAnswered t p [] state detail own h =
    path-IsAnswered t p p.artifact_path state detail own refl h
command-IsAnswered t p (w ∷ ws) state detail own h = commanded w ws own h

check_predicate-IsCheck :
    (t : Target) (p : AcceptancePredicate) (c : CheckRecord)
    → check_predicate t p ≡ ok c
    → IsCheck t p c
unfolding check_predicate
check_predicate-IsCheck t p c h =
    let (answer, found, h1) = >>=-eq-ok (check_command t p.command p.artifact_path) _ h in
    let made : record {
      predicate_id = p.predicate_id;
      command = p.command;
      state = answer.0;
      detail = answer.1;
    }
        ≡ c =
      cc h1 in
    subst (IsCheck t p) made (record {
      same_id = refl;
      same_command = refl;
      answered = command-IsAnswered t p p.command answer.0 answer.1 refl found;
    })

ok-list : (a b : List CheckRecord) → ok a ≡ ok b → a ≡ b
ok-list a b h = cc

pub check_all-AreChecks :
    (t : Target) (ps : List AcceptancePredicate) (checks : List CheckRecord)
    → check_all t ps ≡ ok checks
    → AreChecks t ps checks
unfolding check_all
check_all-AreChecks t [] checks h = subst (AreChecks t []) (ok-list [] checks h) no_checks
check_all-AreChecks t (p ∷ ps) checks h =
    let (c, first, h1) = >>=-eq-ok (check_predicate t p) _ h in
    let (cs, rest, h2) = >>=-eq-ok (check_all t ps) _ h1 in
    subst (AreChecks t (p ∷ ps)) (ok-list (c ∷ cs) checks h2)
      (one_check (check_predicate-IsCheck t p c first) (check_all-AreChecks t ps cs rest))
