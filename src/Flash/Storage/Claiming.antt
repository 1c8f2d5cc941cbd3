-- ===== src/Flash/Storage/Claiming.antt =====
-- enqueue, and claim with the claims of this process.
use long_haul.Prelude.{
  ℕ, zero, suc, ◌+◌, min, Bool, true, false, not, ◌||◌, Option, none, some, [], ◌∷◌, ◌++◌, ltb, leb,
  nat_eq, if◌then◌else◌, is_some, length, select, Text, codes, ◌==◌,
}
use long_haul.Prelude.Results.{Result, ok, err, value_error, runtime_error, type_error}
use long_haul.Prelude.Dict.{Dict, get, put}
use long_haul.Work.Contracts.{WorkContract}
use long_haul.Flash.Fixture.{Delivery}
use long_haul.Flash.Exec.{pure, lift, raise, gets, modify, catch, choose, raise_when, ◌>>=◌, ◌>>◌}
use long_haul.Flash.Storage.{
  FlashStorageOptions, JobState, new_state, job, Services, ClaimContext, Message, Body, reference,
  other_json, no_text, call, state_version, status_in,
}
use long_haul.Flash.Storage.Blobs.{M, blob_name, read, write, unless_lease_error}
use long_haul.Flash.Storage.Notices.{recover_notifications}

pub data Outcome : Type 0 where
  settled_reference nothing : Outcome
  granted : Delivery → Text → Outcome

-- The claims whose delivery has not expired.
abbrev pub live_claims :
    {Handle : Type 0} → ℕ → Dict (ClaimContext Handle) → Dict (ClaimContext Handle)
live_claims now claims = select (λ c. not (leb c.1.delivery.lease_expires_at now)) claims

abbrev pub is_leased : Option ℕ → ℕ → ℕ → Bool
is_leased none deadline now = false
is_leased (some expiry) deadline now = ltb now (min expiry deadline)

abbrev pub exhausted : JobState → WorkContract → JobState
exhausted state contract = record state {
  terminal_reason = some (
      if leb contract.budget.max_attempts state.attempt_number
      then codes "attempt_budget_exhausted"
      else codes "wall_budget_expired");
}

abbrev pub claimed : JobState → Text → ℕ → JobState
claimed state claim_hash expires = record state {
  generation = state.generation + 1;
  attempt_number = state.attempt_number + 1;
  lease_id = some claim_hash;
  lease_expires_at = some expires;
}

abbrev pub delivery_of : JobState → WorkContract → Text → Text → ℕ → Delivery
delivery_of state contract attempt_id token expires = record {
  job_id = state.job_id;
  contract_id = contract.contract_id;
  attempt_id = attempt_id;
  lease_id = token;
  lease_expires_at = expires;
}

abbrev pub is_settled : Outcome → Bool
is_settled settled_reference = true
is_settled _ = false

module _ {World Etag Handle Json : Type 0} (given : Services World Etag Handle Json)
    (options : FlashStorageOptions) where
  -- A job that is there already: a retry is idempotent, unless the contract differs.
  unfoldable pub check_existing : Text → Text → M given Bool
  unfolding read
  check_existing job_id contract = do
    existing ← read given job_id
    raise_when (not (existing.0.contract == contract)) value_error
    pure (is_some existing.0.accepted_result_json)

  unfoldable pub enqueue : Text → WorkContract → M given (Unit {0})
  unfolding blob_name check_existing status_in
  enqueue job_id contract = do
    started_at ← call given.clock
    name ← lift (blob_name job_id)
    let dump = given.dump_contract contract
    accepted ←
        catch (call (given.upload_new name (job (new_state job_id dump started_at))) >> pure false)
          (λ e. choose (status_in (409 ∷ 412 ∷ []) e) (check_existing job_id dump) (raise e))
    choose accepted (pure tt) (call (given.send_message (reference state_version job_id)))

  -- _message
  unfoldable pub message_job : Body → Result Text
  unfolding blob_name
  message_job no_text = err type_error
  message_job other_json = err value_error
  message_job (reference v job_id) =
      if nat_eq v 1
      then elim (blob_name job_id) [ ok name ↦ ok job_id | err e ↦ err e ]
      else err value_error

  abbrev pub delete_with : Message Handle → Option Text → M given (Unit {0})
  delete_with message none = pure tt
  delete_with message (some []) = pure tt
  delete_with message (some (c ∷ cs)) = call (given.delete_message message (c ∷ cs))

  -- _delete
  unfoldable pub delete : Message Handle → M given (Unit {0})
  delete message = delete_with message message.pop_receipt

  -- _unique_token
  unfoldable pub unique_token : M given Text
  unfolding get
  unique_token = do
    token ← call given.token_factory
    claims ← gets (λ s. s.claims)
    raise_when (ltb (length token) 32 || is_some (get claims token)) runtime_error
    pure token

  abbrev pub require_receipt : Option Text → Result Text
  require_receipt none = err runtime_error
  require_receipt (some []) = err runtime_error
  require_receipt (some (c ∷ cs)) = ok (c ∷ cs)

  -- The record of an exhausted job, and then the settlement of its message.
  unfoldable pub exhaust : Message Handle → JobState → Etag → WorkContract → M given Outcome
  unfolding write delete unless_lease_error
  exhaust message state etag contract = do
    written ←
        unless_lease_error given (write given (exhausted state contract) etag >> pure true) false
    choose written (delete message >> pure nothing) (pure nothing)

  -- After the claim was written: the claim is kept in this process.
  unfoldable pub keep_claim : Message Handle → JobState → WorkContract → Text → ℕ → M given Outcome
  unfolding put
  keep_claim message state contract token expires = do
    let attempt_id = state.job_id ++ (codes "-attempt-" ++ given.decimal (state.attempt_number + 1))
    let delivery = delivery_of state contract attempt_id token expires
    receipt ← lift (require_receipt message.pop_receipt)
    modify (λ s. record s {
      claims = put s.claims token (record {
        token = token;
        job_id = state.job_id;
        attempt_id = attempt_id;
        generation = state.generation + 1;
        queue_message = message;
        pop_receipt = receipt;
        delivery = delivery;
      });
    })
    pure (granted delivery token)

  unfoldable pub grant : Message Handle → JobState → Etag → WorkContract → ℕ → M given Outcome
  unfolding unique_token write keep_claim unless_lease_error
  grant message state etag contract now = do
    token ← unique_token
    let expires =
        min (now + options.lease_seconds) (state.started_at + contract.budget.wall_seconds)
    written ←
        unless_lease_error given
          (write given (claimed state (given.token_hash token) expires) etag >> pure true) false
    choose written (keep_claim message state contract token expires) (pure nothing)

  -- _claim_message from the reading of the clock on
  unfoldable pub claim_open : Message Handle → JobState → Etag → M given Outcome
  unfolding exhaust grant
  claim_open message state etag = do
    now ← call given.clock
    contract ← lift (given.validate_contract state.contract)
    let deadline = state.started_at + contract.budget.wall_seconds
    choose (is_leased state.lease_expires_at deadline now) (pure nothing) (
        choose (leb contract.budget.max_attempts state.attempt_number || leb deadline now)
          (exhaust message state etag contract) (grant message state etag contract now))

  -- _claim_message
  unfoldable pub claim_message : Message Handle → M given Outcome
  unfolding message_job read delete claim_open
  claim_message message = do
    job_id ← lift (message_job message.body)
    found ← read given job_id
    choose (is_some found.0.accepted_result_json) (delete message >> pure settled_reference) (
        choose (is_some found.0.terminal_reason) (delete message >> pure nothing)
          (claim_open message found.0 found.1))

  -- A message that only referred to a settled job is followed by the next one.
  abbrev pub drain_message : M given Outcome → Option (Message Handle) → M given Outcome
  drain_message again none = pure nothing
  drain_message again (some message) =
      claim_message message >>= λ result. choose (is_settled result) again (pure result)

  -- The loop of claim over the triggers; after the limit nothing is claimed.
  unfoldable pub drain : ℕ → M given Outcome
  unfolding claim_message
  drain zero = pure nothing
  drain (suc left) =
      let again = drain left in
      call (given.receive_message options.lease_seconds) >>= λ message. drain_message again message

  -- _prune_claims
  unfoldable pub prune_claims : M given (Unit {0})
  prune_claims = do
    now ← call given.clock
    modify (λ s. record s { claims = live_claims now s.claims })

  unfoldable pub claim : M given Outcome
  unfolding prune_claims recover_notifications drain
  claim = do
    prune_claims
    claims ← gets (λ s. s.claims)
    choose (leb options.max_local_claims (length claims)) (pure nothing)
        (recover_notifications given options >> drain options.accepted_trigger_drain_limit)
