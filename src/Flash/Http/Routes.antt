-- ===== src/Flash/Http/Routes.antt =====
-- What a request does to the fixture: one call of it, or nothing.
use long_haul.Prelude.{
  not, ℕ, ◌+◌, ◌≡◌, ◌≤◌, ◌⊎◌, refl, sym, inl, inr, Bool, true, false, Option, none, some, List, [],
  ◌∷◌, arith, if◌then◌else◌, Text, codes, ◌==◌, Bool-cases,
}
use long_haul.Prelude.Results.{
  Fault, Result, ok, err, Result-cases, value_error, key_error, type_error, runtime_error,
  lease_error, verification_error, lifecycle_error, service_error, ◌>>=◌, ◌>>◌, raise_if,
}
use long_haul.Prelude.Dict.{Dict}
use long_haul.Flash.Fixture.{
  Delivery, Injected, Fixture, claim, claim_unleased, grant, renew, abandon, complete,
}
use long_haul.Flash.Fixture.Completion.{SameJob, KeepsOnError, error-SameJob}
use long_haul.Flash.Fixture.History.{
  Call, claiming, renewing, abandoning, completing, perform, perform_all, grants,
}
use long_haul.Flash.Http.{
  Decoder, Environ, Payload, abandoned, claimed, renewed, completed, Response, FlashHttpAdapter,
  Body, too_large, body, fault_response, operation_from_path, or_empty, is_json, read_body,
}
use long_haul.Flash.Http.Serving.{
  decode, claim_request, claim_response, claim_requested, claim_route, answer, complete_request,
  complete_requested, renewed_payload, lease_request, lease_requested, operate_on, operate,
  operate_at, route, recovered, call,
}

abbrev pub is_claimed : {Json : Type 0} → Payload Json → Bool
is_claimed (claimed delivery) = true
is_claimed _ = false

-- The answers that report a change of the job.
abbrev pub reports_change : {Json : Type 0} → Payload Json → Bool
reports_change (claimed delivery) = true
reports_change (renewed lease_id expiry) = true
reports_change (completed result) = true
reports_change abandoned = true
reports_change _ = false

SameJob-refl : (s : Fixture) → SameJob s s
SameJob-refl s = ground arith

fault-unclaimed :
    (Json : Type 0) (e : Fault) → is_claimed (fault_response {Json = Json} e).payload ≡ false
fault-unclaimed Json value_error = refl
fault-unclaimed Json key_error = refl
fault-unclaimed Json type_error = refl
fault-unclaimed Json runtime_error = refl
fault-unclaimed Json lease_error = refl
fault-unclaimed Json verification_error = refl
fault-unclaimed Json lifecycle_error = refl
fault-unclaimed Json (service_error n) = refl

module _ {Json : Type 0} (given : Injected Json) (json : Decoder Json) where
  -- The payload is the error of an answer that reports a change and that json.dumps refused.
  pub record IsUnencoded (payload : Payload Json) : Type 0 where
    pub answered : Payload Json
    pub fault : Fault
    pub reports : reports_change answered ≡ true
    pub refused : json.encode answered ≡ err fault
    pub payload_is : payload ≡ (fault_response {Json = Json} fault).payload

  -- The answer to a request whose whole effect on the fixture is at most one call of it.
  pub record Served (adapter : FlashHttpAdapter) (s : Fixture) (payload : Payload Json)
      (t : Fixture) : Type 0 where
    pub calls : List (Call Json)
    pub after : t ≡ perform_all given calls s
    pub granted : (if is_claimed payload then 1 else 0) ≤ grants given calls s
    pub admitted : is_claimed payload ≡ true → adapter.admitted ≡ true
    pub same : reports_change payload ≡ false → SameJob t s ⊎ IsUnencoded payload

  -- What a method of the adapter returns or raises.
  abbrev Handled : FlashHttpAdapter → Fixture → Result (Response Json) × Fixture → Type 0
  Handled adapter s (ok response, t) = Served adapter s response.payload t
  Handled adapter s (err e, t) = Served adapter s (fault_response e).payload t

  untouched :
      (adapter : FlashHttpAdapter) (s : Fixture) (payload : Payload Json)
      → is_claimed payload ≡ false
      → Served adapter s payload s
  unfolding perform_all grants
  untouched adapter s payload unclaimed = record {
    calls = [];
    after = refl;
    granted = ground arith;
    admitted = λ h. absurd (ground arith);
    same = λ h. inl (SameJob-refl s);
  }

  -- The answer to calls of the fixture could not be encoded.
  refused-Served :
      (adapter : FlashHttpAdapter) (s : Fixture) (cs : List (Call Json)) (t : Fixture)
      (answered : Payload Json) (e : Fault)
      → t ≡ perform_all given cs s
      → reports_change answered ≡ true
      → json.encode answered ≡ err e
      → Served adapter s (fault_response {Json = Json} e).payload t
  refused-Served adapter s cs t answered e after reports refused = record {
    calls = cs;
    after = after;
    granted = ground (arith, fault-unclaimed Json e);
    admitted = λ h. absurd (ground (arith, fault-unclaimed Json e));
    same = λ h. inr (record {
      answered = answered;
      reports = reports;
      fault = e;
      refused = refused;
      payload_is = refl;
    });
  }

  -- A claim that grants nothing leaves the job.
  claim_unleased-SameJob :
      (s : Fixture) (o : Option Delivery)
      → (claim_unleased given s o).0 ≡ none
      → SameJob (claim_unleased given s o).1 s
  unfolding claim_unleased grant
  claim_unleased-SameJob s none h = absurd (ground arith)
  claim_unleased-SameJob s (some d) h = ground arith

  claim-SameJob : (s : Fixture) → (claim given s).0 ≡ none → SameJob (claim given s).1 s
  unfolding claim
  claim-SameJob s h =
      ground (arith, claim_unleased-SameJob (record s { reads = s.reads + 1 }) s.current)

  claim_answer :
      (adapter : FlashHttpAdapter) (s : Fixture) (o : Option Delivery) (t : Fixture)
      → adapter.admitted ≡ true
      → (claim given s).0 ≡ o
      → (claim given s).1 ≡ t
      → Handled adapter s (claim_response given json (o, t))
  unfolding perform_all perform grants
  claim_answer adapter s none t admitted came after = record {
    calls = claiming ∷ [];
    after = sym after;
    granted = omega arith;
    admitted = λ h. admitted;
    same = λ h. inl (rw⁻¹ after (claim-SameJob s came));
  }
  claim_answer adapter s (some d) t admitted came after =
      elim (Result-cases (json.encode (claimed d))) [
        | inl (text, e) ↦ rw e (record {
          calls = claiming ∷ [];
          after = sym after;
          granted = ground (arith, came);
          admitted = λ h. admitted;
          same = λ h. absurd (ground arith);
        })
        | inr (f, e) ↦
            rw e (refused-Served adapter s (claiming ∷ []) t (claimed d) f (sym after) refl e)
      ]

  if-Handled :
      (adapter : FlashHttpAdapter) (s : Fixture) (b : Bool) (x y : Result (Response Json) × Fixture)
      → (b ≡ true → Handled adapter s x)
      → Handled adapter s y
      → Handled adapter s (if b then x else y)
  if-Handled adapter s true x y taken other = taken refl
  if-Handled adapter s false x y taken other = other

  claim-Handled :
      (adapter : FlashHttpAdapter) (s : Fixture) (checked : Result (Unit {0}))
      → Handled adapter s (claim_requested given json adapter checked s)
  claim-Handled adapter s (err e) = untouched adapter s _ (fault-unclaimed Json e)
  claim-Handled adapter s (ok checked) =
      if-Handled adapter s adapter.admitted _ _
        (λ admitted. claim_answer adapter s (claim given s).0 (claim given s).1 admitted refl refl)
        (untouched adapter s _ refl)

  -- The answer to a call that is not a claim.
  answer-Handled :
      {A : Type 0} (adapter : FlashHttpAdapter) (s : Fixture) (payload : A → Payload Json)
      (c : Call Json) (x : Result A × Fixture)
      → x.1 ≡ perform given c s
      → ((a : A) → is_claimed (payload a) ≡ false)
      → ((a : A) → reports_change (payload a) ≡ true)
      → KeepsOnError s x
      → Handled adapter s (answer given json payload x)
  unfolding perform_all
  answer-Handled adapter s payload c (err e, t) after plain reports keeps = record {
    calls = c ∷ [];
    after = after;
    granted = ground (arith, fault-unclaimed Json e);
    admitted = λ h. absurd (ground (arith, fault-unclaimed Json e));
    same = λ h. inl keeps;
  }
  answer-Handled adapter s payload c (ok a, t) after plain reports keeps =
      elim (Result-cases (json.encode (payload a))) [
        | inl (text, e) ↦ rw e (record {
          calls = c ∷ [];
          after = after;
          granted = ground (arith, plain a);
          admitted = λ h. absurd (ground (arith, plain a));
          same = λ h. absurd (ground (arith, reports a));
        })
        | inr (f, e) ↦ rw e (refused-Served adapter s (c ∷ []) t (payload a) f after (reports a) e)
      ]

  complete-Handled :
      (adapter : FlashHttpAdapter) (s : Fixture) (request : Result (Text × Json))
      → Handled adapter s (complete_requested given json request s)
  unfolding perform grants
  complete-Handled adapter s (err e) = untouched adapter s _ (fault-unclaimed Json e)
  complete-Handled adapter s (ok (lease_id, result)) =
      answer-Handled adapter s completed (completing lease_id result)
        (complete given lease_id result s) refl (λ a. refl) (λ a. refl)
        (error-SameJob given lease_id result s).2

  lease-Handled :
      (adapter : FlashHttpAdapter) (s : Fixture) (operation : Text) (request : Result Text)
      → Handled adapter s (lease_requested given json operation request s)
  unfolding perform grants
  lease-Handled adapter s operation (err e) = untouched adapter s _ (fault-unclaimed Json e)
  lease-Handled adapter s operation (ok lease_id) =
      if-Handled adapter s (operation == codes "renew") _ _
        (λ _.
          answer-Handled adapter s (renewed_payload given json) (renewing lease_id)
            (renew given lease_id s) refl (λ a. refl) (λ a. refl)
            (error-SameJob given lease_id (given.loads []) s).0)
        (if-Handled adapter s (operation == codes "abandon") _ _
          (λ _.
            answer-Handled adapter s (λ _. abandoned) (abandoning lease_id)
              (abandon given lease_id s) refl (λ a. refl) (λ a. refl)
              (error-SameJob given lease_id (given.loads []) s).1)
          (untouched adapter s _ refl))

  operate-Handled :
      (adapter : FlashHttpAdapter) (s : Fixture) (operation : Text) (fields : Result (Dict Json))
      → Handled adapter s (operate_on given json operation fields s)
  operate-Handled adapter s operation (err e) = untouched adapter s _ (fault-unclaimed Json e)
  operate-Handled adapter s operation (ok fields) =
      if-Handled adapter s (operation == codes "complete") _ _
        (λ _. complete-Handled adapter s (complete_request given json fields))
        (lease-Handled adapter s operation (lease_request given json fields))

  operate_at-Handled :
      (adapter : FlashHttpAdapter) (s : Fixture) (operation : Option Text) (bytes : List ℕ)
      → Handled adapter s (operate_at given json operation bytes s)
  unfolding operate
  operate_at-Handled adapter s none bytes = untouched adapter s _ refl
  operate_at-Handled adapter s (some operation) bytes =
      operate-Handled adapter s operation (decode given json bytes)

  route-Handled :
      (adapter : FlashHttpAdapter) (s : Fixture) (path : Text) (read : Result Body)
      → Handled adapter s (route given json adapter path read s)
  unfolding claim_route
  route-Handled adapter s path (err e) = untouched adapter s _ (fault-unclaimed Json e)
  route-Handled adapter s path (ok too_large) = untouched adapter s _ refl
  route-Handled adapter s path (ok (body bytes)) =
      if-Handled adapter s (path == codes "/v1/jobs/claim") _ _
        (λ _. claim-Handled adapter s (decode given json bytes >>= claim_request given json))
        (operate_at-Handled adapter s (operation_from_path s.job_id path) bytes)

  recovered-Served :
      (adapter : FlashHttpAdapter) (s : Fixture) (x : Result (Response Json) × Fixture)
      → Handled adapter s x
      → Served adapter s (recovered given json x).0.payload (recovered given json x).1
  recovered-Served adapter s (ok response, t) h = h
  recovered-Served adapter s (err e, t) h = h

  pub served :
      (adapter : FlashHttpAdapter) (environ : Environ) (s : Fixture)
      → Served adapter s
          (call given json adapter environ s).0.payload
          (call given json adapter environ s).1
  unfolding call
  served adapter environ s = elim (Bool-cases (or_empty environ.request_method == codes "POST")) [
    | inl post ↦ rw post (
        recovered-Served adapter s _ (
          route-Handled adapter s (or_empty environ.path_info) (
            raise_if (not (is_json (or_empty environ.content_type))) value_error
            >> read_body adapter environ)))
    | inr other ↦ rw other (untouched adapter s _ refl)
  ]
