-- ===== src/Flash/Storage/Holding.antt =====
-- A claim that is held: _require_claim, _current, renew and abandon.
use long_haul.Prelude.{
  ℕ, ◌+◌, ◌-◌, min, max, Bool, false, not, ◌&&◌, Option, none, some, [], ◌∷◌, leb, nat_eq, is_none,
  Text, ◌==◌,
}
use long_haul.Prelude.Results.{Result, ok, err, lease_error, runtime_error}
use long_haul.Prelude.Dict.{get, put, pop}
use long_haul.Work.Contracts.{WorkContract}
use long_haul.Flash.Fixture.{Delivery}
use long_haul.Flash.Exec.{pure, lift, gets, modify, raise_when, ◌>>=◌, ◌>>◌}
use long_haul.Flash.Storage.{FlashStorageOptions, JobState, Services, ClaimContext, call}
use long_haul.Flash.Storage.Blobs.{M, read, write}

abbrev pub holds_hash : Option Text → Text → Bool
holds_hash none a = false
holds_hash (some b) a = b == a

-- lease_expires_at or 0
abbrev pub expiry_or_zero : Option ℕ → ℕ
expiry_or_zero none = 0
expiry_or_zero (some t) = t

-- The claim is that of the state's generation, and the job is open.
abbrev pub is_current : {Handle : Type 0} → ClaimContext Handle → JobState → Text → Bool
is_current context state claim_hash =
    nat_eq state.generation context.generation
    && holds_hash state.lease_id claim_hash
    && is_none state.accepted_result_json
    && is_none state.terminal_reason

abbrev pub lease_end : JobState → WorkContract → ℕ
lease_end state contract =
    min (expiry_or_zero state.lease_expires_at) (state.started_at + contract.budget.wall_seconds)

abbrev pub released : JobState → JobState
released state = record state { lease_id = none; lease_expires_at = none }

abbrev pub extended : JobState → ℕ → JobState
extended state expiry = record state { lease_expires_at = some expiry }

abbrev pub renewed_delivery : {Handle : Type 0} → ClaimContext Handle → Text → ℕ → Delivery
renewed_delivery context token expiry = record {
  job_id = context.delivery.job_id;
  contract_id = context.delivery.contract_id;
  attempt_id = context.delivery.attempt_id;
  lease_id = token;
  lease_expires_at = expiry;
}

module _ {World Etag Handle Json : Type 0} (given : Services World Etag Handle Json)
    (options : FlashStorageOptions) where
  -- _require_claim
  unfoldable pub require_claim : ClaimContext Handle → JobState → M given (Unit {0})
  require_claim context state = do
    raise_when (not (is_current context state (given.token_hash context.token))) lease_error
    now ← call given.clock
    contract ← lift (given.validate_contract state.contract)
    raise_when (leb (lease_end state contract) now) lease_error

  abbrev pub known : Option (ClaimContext Handle) → Result (ClaimContext Handle)
  known none = err lease_error
  known (some context) = ok context

  -- _current; the second part is what _read returned
  unfoldable pub current : Text → M given (ClaimContext Handle × (JobState × Etag))
  unfolding read require_claim get
  current token = do
    claims ← gets (λ s. s.claims)
    context ← lift (known (get claims token))
    found ← read given context.job_id
    require_claim context found.0
    pure (context, found)

  abbrev pub require_receipt : Option Text → Result Text
  require_receipt none = err runtime_error
  require_receipt (some []) = err runtime_error
  require_receipt (some (c ∷ cs)) = ok (c ∷ cs)

  unfoldable pub set_claim : Text → ClaimContext Handle → M given (Unit {0})
  unfolding put
  set_claim token context = modify (λ s. record s { claims = put s.claims token context })

  unfoldable pub drop_claim : Text → M given (Unit {0})
  unfolding pop
  drop_claim token = modify (λ s. record s { claims = pop s.claims token })

  -- renew from the rotation of the receipt on
  unfoldable pub renew_state : Text → ClaimContext Handle → ℕ → M given Delivery
  unfolding read require_claim write set_claim
  renew_state token context deadline = do
    renewed_at ← call given.clock
    found ← read given context.job_id
    require_claim context found.0
    let expiry = min (renewed_at + options.lease_seconds) deadline
    raise_when (leb expiry renewed_at) lease_error
    write given (extended found.0 expiry) found.1
    let delivery = renewed_delivery context token expiry
    set_claim token (record context { delivery = delivery })
    pure delivery

  unfoldable pub renew : Text → M given Delivery
  unfolding current renew_state
  renew token = do
    held ← current token
    contract ← lift (given.validate_contract held.1.0.contract)
    let deadline = held.1.0.started_at + contract.budget.wall_seconds
    now ← call given.clock
    let expiry = min (now + options.lease_seconds) deadline
    before ← call given.clock
    raise_when (leb held.0.delivery.lease_expires_at before) lease_error
    again ← call given.clock
    raise_when (leb expiry again) lease_error
    last ← call given.clock
    updated ←
        call (given.update_message held.0.queue_message held.0.pop_receipt (max 1 (expiry - last)))
    receipt ← lift (require_receipt updated)
    let rotated = record held.0 { pop_receipt = receipt }
    set_claim token rotated
    renew_state token rotated deadline

  unfoldable pub abandon : Text → M given (Unit {0})
  unfolding current write drop_claim
  abandon token = do
    held ← current token
    write given (released held.1.0) held.1.1
    call (given.update_message held.0.queue_message held.0.pop_receipt 0)
    drop_claim token
