-- ===== src/Flash/Storage/Completing.antt =====
-- complete: the acceptance of one verified result, and completed_result.
use long_haul.Prelude.{
  ℕ, ◌+◌, Bool, true, false, not, ◌&&◌, Option, none, some, [], ◌∷◌, nat_eq, is_some, Text,
}
use long_haul.Prelude.Results.{Result, ok, err, lease_error, verification_error}
use long_haul.Prelude.Dict.{get}
use long_haul.Work.Contracts.{WorkContract}
use long_haul.Flash.Exec.{pure, lift, raise, gets, catch, choose, raise_when, ◌>>=◌, ◌>>◌}
use long_haul.Flash.Storage.{
  FlashStorageOptions, JobState, Services, ClaimContext, call, state_version, status_in,
}
use long_haul.Flash.Storage.Blobs.{M, read, write, write_claim_index, find_accepted_claim}
use long_haul.Flash.Storage.Notices.{recover_notifications}
use long_haul.Flash.Storage.Holding.{require_claim, holds_hash, drop_claim}

abbrev pub holds_number : Option ℕ → ℕ → Bool
holds_number none n = false
holds_number (some m) n = nat_eq m n

abbrev pub accepted_under : JobState → ℕ → Text → Text → Bool
accepted_under state generation claim_hash result_json =
    holds_number state.accepted_generation generation
    && holds_hash state.accepted_claim_hash claim_hash
    && holds_hash state.accepted_result_json result_json

abbrev pub accepting : {Handle : Type 0} → ClaimContext Handle → Text → Text → JobState → JobState
accepting context claim_hash result_json state = record state {
  accepted_generation = some context.generation;
  accepted_attempt_id = some context.attempt_id;
  accepted_claim_hash = some claim_hash;
  accepted_result_json = some result_json;
  notification_pending = true;
  notification_sent = false;
}

abbrev pub has_result : Option JobState → Text → Bool
has_result none result_json = false
has_result (some state) result_json = holds_hash state.accepted_result_json result_json

module _ {World Etag Handle Json : Type 0} (given : Services World Etag Handle Json)
    (options : FlashStorageOptions) where
  -- _canonical_result
  unfoldable pub canonical_result : Json → Result Text
  canonical_result result = elim (given.dumps result) [
    | none ↦ err verification_error
    | some text ↦ ok text
  ]

  -- _settle
  unfoldable pub settle : ClaimContext Handle → M given (Unit {0})
  unfolding status_in drop_claim
  settle context = do
    catch (call (given.delete_message context.queue_message context.pop_receipt))
        (λ e. choose (status_in (404 ∷ 400 ∷ 412 ∷ []) e) (pure tt) (raise e))
    drop_claim given options context.token

  -- complete without a claim in this process
  unfoldable pub complete_unknown : Text → Text → M given Json
  unfolding find_accepted_claim recover_notifications
  complete_unknown token result_json = do
    found ← find_accepted_claim given token
    raise_when (not (has_result found result_json)) lease_error
    recover_notifications given options
    pure (given.loads result_json)

  -- complete on a job that is accepted already
  unfoldable pub complete_accepted : ClaimContext Handle → Text → JobState → Text → M given Json
  unfolding settle recover_notifications
  complete_accepted context token state result_json =
      choose (accepted_under state context.generation (given.token_hash token) result_json)
        (do settle context; recover_notifications given options; pure (given.loads result_json))
        (raise lease_error)

  -- The acceptance: the index, the conditional write, the settlement and the notifications.
  unfoldable pub accept : ClaimContext Handle → Text → WorkContract → Text → M given Json
  unfolding read require_claim write_claim_index write settle recover_notifications
  accept context token contract result_json = do
    found ← read given context.job_id
    require_claim given options context found.0
    let claim_hash = given.token_hash token
    write_claim_index given (record {
      schema_version = state_version;
      job_id = context.job_id;
      generation = context.generation;
      attempt_id = context.attempt_id;
      claim_hash = claim_hash;
      expires_at = found.0.started_at + contract.budget.wall_seconds;
    })
    fresh ← read given context.job_id
    require_claim given options context fresh.0
    write given (accepting context claim_hash result_json fresh.0) fresh.1
    settle context
    recover_notifications given options
    pure (given.loads result_json)

  -- complete on an open job
  unfoldable pub complete_open : ClaimContext Handle → Text → JobState → Text → M given Json
  unfolding require_claim accept
  complete_open context token state result_json = do
    require_claim given options context state
    contract ← lift (given.validate_contract state.contract)
    verified ← call (given.verifier contract (given.loads result_json))
    raise_when (not verified) verification_error
    accept context token contract result_json

  abbrev pub complete_with : Text → Text → Option (ClaimContext Handle) → M given Json
  complete_with token result_json none = complete_unknown token result_json
  complete_with token result_json (some context) = do
    found ← read given context.job_id
    choose (is_some found.0.accepted_result_json)
        (complete_accepted context token found.0 result_json)
        (complete_open context token found.0 result_json)

  unfoldable pub complete : Text → Json → M given Json
  unfolding canonical_result get complete_unknown read complete_accepted complete_open
  complete token result = do
    claims ← gets (λ s. s.claims)
    result_json ← lift (canonical_result result)
    complete_with token result_json (get claims token)

  abbrev pub loaded : Option Text → Option Json
  loaded none = none
  loaded (some text) = some (given.loads text)

  unfoldable pub completed_result : Text → M given (Option Json)
  unfolding read
  completed_result job_id = do found ← read given job_id; pure (loaded found.0.accepted_result_json)
