-- ===== src/Flash/Fixture/Examples.antt =====
-- A fixture with a ticking clock, and the theorems at its calls.
use long_haul.Prelude.{
  ℕ, ◌+◌, ◌≤◌, ◌<◌, ◌≡◌, refl, true, false, none, some, List, [], ◌∷◌, ◌++◌, arith, is_some, Text,
  codes, ◌==◌,
}
use long_haul.Prelude.Results.{ok, err, lease_error, is_ok}
use long_haul.Work.Contracts.{WorkContract}
use long_haul.Flash.Fixture.{
  Delivery, Injected, Fixture, deadline, create, claim, renew, abandon, complete,
}
use long_haul.Flash.Fixture.Leases.{EndsBy, may_claim, claim-granted}
use long_haul.Flash.Fixture.Completion.{Holds, KeepsOnError, complete-commits, error-SameJob}
use long_haul.Flash.Fixture.History.{
  Call, claiming, abandoning, perform_all, grants, grants-le-max_attempts, completed_forever,
  stale_lease, IsRetired,
}

-- JSON values are numbers, encoded as one code; an identifier is its label.
abbrev given : Injected ℕ
given = record {
  clock = λ n. n;
  id_factory = λ label. label;
  verifier = λ contract result. ok true;
  dumps = λ result. some (result ∷ []);
  loads = λ json. 7;
  decimal = λ n. n ∷ [];
}

abbrev contract : WorkContract
contract = record {
  contract_id = codes "c";
  mission_id = codes "m";
  objective = codes "o";
  context = [];
  execution_plan_id = none;
  allowed_paths = codes "src" ∷ [];
  forbidden_paths = [];
  capabilities = [];
  authority_scopes = [];
  budget = record {
    wall_seconds = 100;
    max_attempts = 2;
    max_tokens_per_attempt = none;
    max_no_progress_steps = none;
  };
  success_predicates = [];
  failure_predicates = [];
  flash_execution = none;
}

abbrev fresh : Fixture
fresh = record {
  job_id = codes "job";
  contract = contract;
  lease_seconds = 10;
  started_at = 0;
  attempt_number = 0;
  current = none;
  accepted_result_json = none;
  completed = false;
  reads = 1;
}

abbrev lease : Delivery
lease = record {
  job_id = codes "job";
  contract_id = codes "c";
  attempt_id = codes "attempt-" ++ 1 ∷ [];
  lease_id = codes "lease-" ++ 1 ∷ [];
  lease_expires_at = 12;
}

abbrev claimed : Fixture
claimed = record fresh { attempt_number = 1; current = some lease; reads = 3 }

claims : claim given fresh ≡ (some lease, claimed)
unfolding claim
claims = refl

creates : create given (codes "job") contract 10 ≡ ok fresh
unfolding create
creates = refl

completes : (complete given lease.lease_id 5 claimed).0 ≡ ok (some 7)
unfolding complete ◌==◌
completes = refl

claim-granted_example : is_some (claim given fresh).0 ≡ may_claim given.clock fresh
claim-granted_example = claim-granted given fresh

complete-commits_example :
    (json : Text) × (d : Delivery) × (given.dumps 5 ≡ some json)
    × Holds given.clock lease.lease_id claimed d
    × (given.clock (claimed.reads + 1) < d.lease_expires_at)
    × (given.verifier claimed.contract (given.loads json) ≡ ok true)
    × (some 7 ≡ some (given.loads json))
    × ((complete given lease.lease_id 5 claimed).1.completed ≡ true)
    × ((complete given lease.lease_id 5 claimed).1.accepted_result_json ≡ some json)
    × ((complete given lease.lease_id 5 claimed).1.current ≡ some d)
complete-commits_example = complete-commits given lease.lease_id 5 claimed (some 7) refl completes

error-SameJob_example :
    KeepsOnError claimed (renew given (codes "x") claimed)
    × KeepsOnError claimed (abandon given (codes "x") claimed)
    × KeepsOnError claimed (complete given (codes "x") 5 claimed)
error-SameJob_example = error-SameJob given (codes "x") 5 claimed

abbrev script : List (Call ℕ)
script = claiming ∷ abandoning lease.lease_id ∷ claiming ∷ claiming ∷ []

grants-le-max_attempts_example :
    (grants given script fresh ≤ 2)
    × EndsBy (deadline (perform_all given script fresh)) (perform_all given script fresh).current
grants-le-max_attempts_example =
    grants-le-max_attempts given (codes "job") contract 10 fresh script creates

abbrev accepted : Fixture
accepted = record claimed { accepted_result_json = some (5 ∷ []); completed = true }

completed_forever_example :
    ((perform_all given script accepted).accepted_result_json ≡ some (5 ∷ []))
    × ((perform_all given script accepted).completed ≡ true)
    × (grants given script accepted ≡ 0)
completed_forever_example = completed_forever given script accepted refl

-- A label of the first attempt is none of a later one.
retired : IsRetired given (codes "lease-" ++ 1 ∷ []) (record claimed { current = none })
unfolding ◌==◌
retired k later = ground arith

stale_lease_example :
    ((renew given lease.lease_id (perform_all given script (record claimed { current = none }))).0
      ≡ err lease_error)
    × ((abandon given lease.lease_id
          (perform_all given script (record claimed { current = none }))).0
        ≡ err lease_error)
    × (is_ok
          (complete given lease.lease_id 5
            (perform_all given script (record claimed { current = none }))).0
        ≡ false)
stale_lease_example =
    stale_lease given lease.lease_id script (record claimed { current = none }) 5 retired refl
