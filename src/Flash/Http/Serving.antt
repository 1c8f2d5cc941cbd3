-- ===== src/Flash/Http/Serving.antt =====
-- The routes of FlashHTTPAdapter (src/long_haul/work/flash_http.py), from the request to the answer.
use long_haul.Prelude.{
  ℕ, not, Option, none, some, List, [], ◌∷◌, if◌then◌else◌, all, Text, codes, ◌==◌, contains,
}
use long_haul.Prelude.Results.{Result, ok, err, value_error, ◌>>=◌, ◌>>◌, raise_if}
use long_haul.Prelude.Dict.{Dict, get, keys}
use long_haul.Flash.Clock.{Exec}
use long_haul.Flash.Fixture.{Delivery, Injected, Fixture, claim, renew, abandon, complete}
use long_haul.Flash.Http.{
  Decoder, Environ, Payload, error, claimed, renewed, completed, Response, FlashHttpAdapter,
  or_empty, is_json, Body, too_large, body, read_body, operation_from_path, fault_response,
  declined, no_work, abandoned,
}

module _ {Json : Type 0} (given : Injected Json) (json : Decoder Json) where
  abbrev pub respond : Text → Payload Json → Response Json
  respond status payload = record { status = status; payload = payload; allow = none }

  -- _response encodes the payload by json.dumps, which can refuse a value; the other payloads are
  -- fixed objects of texts.
  abbrev pub encoded : Response Json → Result (Response Json)
  encoded response = do text ← json.encode response.payload; ok response

  abbrev pub not_found : Response Json
  not_found = respond (codes "404 Not Found") (error (codes "not_found"))

  abbrev pub object_of : Option (Dict Json) → Result (Dict Json)
  object_of none = err value_error
  object_of (some fields) = ok fields

  -- _decode
  unfoldable pub decode : List ℕ → Result (Dict Json)
  decode [] = err value_error
  decode (c ∷ cs) = do value ← json.parse (c ∷ cs); object_of (json.as_object value)

  -- extra="forbid"
  abbrev pub only : List Text → Dict Json → Result (Unit {0})
  only allowed fields = raise_if (not (all (λ key. contains key allowed) (keys fields))) value_error

  abbrev pub string_of : Option Json → Result Text
  string_of none = err value_error
  string_of (some value) = elim (json.as_string value) [
    | none ↦ err value_error
    | some text ↦ ok text
  ]

  abbrev pub required : Option Json → Result Json
  required none = err value_error
  required (some value) = ok value

  -- _LeaseRequest.model_validate
  unfoldable pub lease_request : Dict Json → Result Text
  unfolding get contains
  lease_request fields = do
    only (codes "lease_id" ∷ []) fields
    string_of (get fields (codes "lease_id"))

  -- _CompleteRequest.model_validate
  unfoldable pub complete_request : Dict Json → Result (Text × Json)
  unfolding get contains
  complete_request fields = do
    only (codes "lease_id" ∷ codes "result" ∷ []) fields
    lease_id ← string_of (get fields (codes "lease_id"))
    result ← required (get fields (codes "result"))
    ok (lease_id, result)

  -- _ClaimRequest.model_validate
  unfoldable pub claim_request : Dict Json → Result (Unit {0})
  unfolding contains
  claim_request fields = only [] fields

  abbrev pub claim_response : Option Delivery × Fixture → Result (Response Json) × Fixture
  claim_response (none, s) = (ok (respond (codes "200 OK") no_work), s)
  claim_response (some delivery, s) = (encoded (respond (codes "200 OK") (claimed delivery)), s)

  abbrev pub claim_requested : FlashHttpAdapter → Result (Unit {0}) → Exec Fixture (Response Json)
  claim_requested adapter (err e) s = (err e, s)
  claim_requested adapter (ok checked) s =
      if adapter.admitted
      then claim_response (claim given s)
      else (ok (respond (codes "200 OK") declined), s)

  -- _claim
  unfoldable pub claim_route : FlashHttpAdapter → List ℕ → Exec Fixture (Response Json)
  unfolding decode claim_request claim
  claim_route adapter bytes = claim_requested adapter (decode bytes >>= claim_request)

  -- What a method of the fixture returned is encoded and answered; what it raised goes on.
  abbrev pub answer :
      {A : Type 0} → (A → Payload Json) → Result A × Fixture → Result (Response Json) × Fixture
  answer payload (err e, s) = (err e, s)
  answer payload (ok a, s) = (encoded (respond (codes "200 OK") (payload a)), s)

  abbrev pub complete_requested : Result (Text × Json) → Exec Fixture (Response Json)
  complete_requested (err e) s = (err e, s)
  complete_requested (ok (lease_id, result)) s = answer completed (complete given lease_id result s)

  abbrev pub renewed_payload : Delivery → Payload Json
  renewed_payload delivery = renewed delivery.lease_id delivery.lease_expires_at

  abbrev pub lease_requested : Text → Result Text → Exec Fixture (Response Json)
  lease_requested operation (err e) s = (err e, s)
  lease_requested operation (ok lease_id) s =
      if operation == codes "renew"
      then answer renewed_payload (renew given lease_id s)
      else if operation == codes "abandon"
      then answer (λ _. abandoned) (abandon given lease_id s)
      else (ok not_found, s)

  abbrev pub operate_on : Text → Result (Dict Json) → Exec Fixture (Response Json)
  operate_on operation (err e) s = (err e, s)
  operate_on operation (ok fields) s =
      if operation == codes "complete"
      then complete_requested (complete_request fields) s
      else lease_requested operation (lease_request fields) s

  -- _operate
  unfoldable pub operate : Text → List ℕ → Exec Fixture (Response Json)
  unfolding decode complete_request lease_request complete renew abandon ◌==◌
  operate operation bytes = operate_on operation (decode bytes)

  abbrev pub operate_at : Option Text → List ℕ → Exec Fixture (Response Json)
  operate_at none bytes s = (ok not_found, s)
  operate_at (some operation) bytes s = operate operation bytes s

  abbrev pub route : FlashHttpAdapter → Text → Result Body → Exec Fixture (Response Json)
  route adapter path (err e) s = (err e, s)
  route adapter path (ok too_large) s =
      (ok (respond (codes "413 Payload Too Large") (error (codes "body_too_large"))), s)
  route adapter path (ok (body bytes)) s =
      if path == codes "/v1/jobs/claim"
      then claim_route adapter bytes s
      else operate_at (operation_from_path s.job_id path) bytes s

  abbrev pub recovered : Result (Response Json) × Fixture → Response Json × Fixture
  recovered (ok response, s) = (response, s)
  recovered (err e, s) = (fault_response e, s)

  abbrev pub not_allowed : Response Json
  not_allowed = record {
    status = codes "405 Method Not Allowed";
    payload = error (codes "method_not_allowed");
    allow = some (codes "POST");
  }

  -- __call__
  unfoldable pub call : FlashHttpAdapter → Environ → Fixture → Response Json × Fixture
  unfolding is_json read_body operation_from_path claim_route operate ◌==◌
  call adapter environ s =
      if or_empty environ.request_method == codes "POST"
      then recovered (
          route adapter (or_empty environ.path_info)
            (raise_if (not (is_json (or_empty environ.content_type))) value_error
              >> read_body adapter environ)
            s)
      else (not_allowed, s)
