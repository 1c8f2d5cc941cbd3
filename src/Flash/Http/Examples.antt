-- ===== src/Flash/Http/Examples.antt =====
-- Requests to an adapter, and the theorems at them. JSON values are texts of three shapes.
use long_haul.Prelude.{
  ◌+◌, ◌≤◌, ◌≡◌, refl, true, false, none, some, [], ◌∷◌, take, Text, codes, ◌==◌, if◌then◌else◌,
  Option, nat_eq,
}
use long_haul.Prelude.Results.{ok, err, value_error, Result}
use long_haul.Prelude.Dict.{Dict}
use long_haul.Work.Contracts.{WorkContract}
use long_haul.Flash.Fixture.{Injected, Fixture, deadline, create}
use long_haul.Flash.Fixture.Leases.{EndsBy}
use long_haul.Flash.Http.{Decoder, Environ, Payload, error, claimed, renewed, FlashHttpAdapter}
use long_haul.Flash.Http.Serving.{call}
use long_haul.Flash.Http.Sessions.{serve, claims, claims-le-max_attempts}

abbrev given : Injected Text
given = record {
  clock = λ n. n;
  id_factory = λ label. label;
  verifier = λ contract result. ok true;
  dumps = λ result. some result;
  loads = λ json. json;
  decimal = λ n. (48 + n) ∷ [];
}

-- "{}", and "{" with a lease id
abbrev object_of : Text → Option (Dict Text)
object_of [] = none
object_of (brace ∷ rest) =
    if rest == codes "}" then some [] else some ((codes "lease_id", rest) ∷ [])

-- json.dumps refuses an infinite expiry; it stands here as the number 99.
abbrev encode : Payload Text → Result Text
encode (claimed d) = if nat_eq d.lease_expires_at 99 then err value_error else ok []
encode _ = ok []

abbrev json : Decoder Text
json = record {
  parse = λ bytes. ok bytes;
  as_object = object_of;
  as_string = λ text. some text;
  encode = encode;
}

abbrev contract : WorkContract
contract = record {
  contract_id = codes "c";
  mission_id = codes "m";
  objective = codes "o";
  context = [];
  execution_plan_id = none;
  allowed_paths = codes "src" ∷ [];
  forbidden_paths = [];
  capabilities = [];
  authority_scopes = [];
  budget = record {
    wall_seconds = 100;
    max_attempts = 2;
    max_tokens_per_attempt = none;
    max_no_progress_steps = none;
  };
  success_predicates = [];
  failure_predicates = [];
  flash_execution = none;
}

abbrev fresh : Fixture
fresh = record {
  job_id = codes "job";
  contract = contract;
  lease_seconds = 10;
  started_at = 0;
  attempt_number = 0;
  current = none;
  accepted_result_json = none;
  completed = false;
  reads = 1;
}

abbrev adapter : FlashHttpAdapter
adapter = record { max_body_bytes = 20; admitted = true }

abbrev request : Text → Text → Text → Environ
request path size text = record {
  request_method = some (codes "POST");
  path_info = some path;
  content_type = some (codes "Application/JSON ; charset=utf-8");
  content_length = some size;
  input = some (λ n. ok (take n text));
}

abbrev claim : Environ
claim = request (codes "/v1/jobs/claim") (codes "2") (codes "{}")

abbrev renew : Environ
renew = request (codes "/v1/jobs/job/renew") (codes "8") (codes "{lease-1")

abbrev stale : Environ
stale = request (codes "/v1/jobs/job/abandon") (codes "8") (codes "{lease-9")

abbrev short : Environ
short = request (codes "/v1/jobs/claim") (codes "3") (codes "{}")

abbrev large : Environ
large = request (codes "/v1/jobs/claim") (codes "21") (codes "{}")

creates : create given (codes "job") contract 10 ≡ ok fresh
unfolding create
creates = refl

claims-lease :
    (call given json adapter claim fresh).0.payload
    ≡ claimed (record {
      job_id = codes "job";
      contract_id = codes "c";
      attempt_id = codes "attempt-1";
      lease_id = codes "lease-1";
      lease_expires_at = 12;
    })
unfolding call
claims-lease = refl

renews :
    (call given json adapter renew (call given json adapter claim fresh).1).0.payload
    ≡ renewed (codes "lease-1") 14
unfolding call
renews = refl

conflicts :
    (call given json adapter stale (call given json adapter claim fresh).1).0.status
    ≡ codes "409 Conflict"
unfolding call
conflicts = refl

refuses-short : (call given json adapter short fresh).0.status ≡ codes "400 Bad Request"
unfolding call
refuses-short = refl

refuses-large : (call given json adapter large fresh).0.status ≡ codes "413 Payload Too Large"
unfolding call
refuses-large = refl

refused : (call given json adapter stale fresh).0.payload ≡ error (codes "lease_conflict")
unfolding call
refused = refl

claims-le-max_attempts_example :
    (claims given json adapter (claim ∷ stale ∷ claim ∷ renew ∷ []) fresh ≤ 2)
    × EndsBy
        (deadline (serve given json adapter (claim ∷ stale ∷ claim ∷ renew ∷ []) fresh))
        (serve given json adapter (claim ∷ stale ∷ claim ∷ renew ∷ []) fresh).current
claims-le-max_attempts_example =
    claims-le-max_attempts given json adapter (claim ∷ stale ∷ claim ∷ renew ∷ []) (codes "job")
      contract 10 fresh creates
