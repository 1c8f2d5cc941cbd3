-- ===== src/Flash/Storage/Protocol/Claims.antt =====
-- claim follows the protocol.
use long_haul.Prelude.{
  ℕ, zero, suc, ◌+◌, min, ◌≡◌, refl, true, false, ◌||◌, Option, none, some, [], ◌∷◌, arith, leb,
  Text,
}
use long_haul.Prelude.Results.{ok}
use long_haul.Work.Contracts.{WorkContract}
use long_haul.Flash.Exec.{pure, ◌>>◌}
use long_haul.Flash.Exec.Rules
use long_haul.Flash.Exec.Rules.{IsPreorder, Holds}
use long_haul.Flash.Storage.{JobState, job, Services, Adapter}
use long_haul.Flash.Storage.Blobs.{M, job_name, write, unless_lease_error}
use long_haul.Flash.Storage.Protocol.{JobStep, claims, ends, View, IsDocumented}
use long_haul.Flash.Storage.{FlashStorageOptions, Message}
use long_haul.Flash.Storage.Claiming.{
  Outcome, settled_reference, nothing, is_leased, is_settled, claimed, exhausted, delete,
  delete_with, unique_token, exhaust, keep_claim, grant, claim_open, claim_message, drain_message,
  drain, prune_claims, claim,
}
use long_haul.Flash.Storage.Protocol.{is_open}
use long_haul.Flash.Storage.Protocol.Notices.{recover_notifications-Kept}
use long_haul.Flash.Storage.Protocol.Keyed.{put-IsKeyed, live_claims-IsKeyed}
use long_haul.Flash.Storage.Protocol.Rules.{
  Later-IsPreorder, modify-Later, call_bind, unless_lease_error-Holds, Kept, bind-Kept, forget,
  call-Kept, pure-Kept,
}
use long_haul.Flash.Storage.Protocol.ReadWrite.{HasRead, read-Holds, write-Holds}

module _ {World Etag Handle Json : Type 0} (given : Services World Etag Handle Json)
    (view : View World Etag) (documented : IsDocumented given view)
    (options : FlashStorageOptions) where
  delete_with-Kept :
      (s : Adapter World Handle) (message : Message Handle) (receipt : Option Text)
      → Kept given view documented (delete_with given options message receipt) s
  delete_with-Kept s message none = pure-Kept given view documented s tt
  delete_with-Kept s message (some []) = pure-Kept given view documented s tt
  delete_with-Kept s message (some (c ∷ cs)) =
      call-Kept given view documented s _ (documented.delete_quiet _ _)

  delete-Kept :
      (s : Adapter World Handle) (message : Message Handle)
      → Kept given view documented (delete given options message) s
  unfolding delete
  delete-Kept s message = delete_with-Kept s message message.pop_receipt

  unique_token-Kept :
      (s : Adapter World Handle) → Kept given view documented (unique_token given options) s
  unfolding unique_token
  unique_token-Kept s =
      call_bind given view documented s given.token_factory documented.token_quiet
        λ token t later came.
          Rules.gets_bind (Later-IsPreorder given view documented) t _
            (λ (x : Adapter World Handle). x.claims)
            (Rules.guard_bind (Later-IsPreorder given view documented) t _ _
              λ fresh. pure-Kept given view documented t token)

  -- A write that is skipped when another process was first.
  attempt-Kept :
      (s : Adapter World Handle) (job_id : Text) (st st' : JobState) (e : Etag)
      → view.version (job_name job_id) e ≡ job st
      → st.job_id ≡ job_id
      → JobStep given.validate_contract st st'
      → st'.job_id ≡ st.job_id
      → Kept given view documented
          (unless_lease_error given (write given st' e >> pure true) false)
          s
  attempt-Kept s job_id st st' e version own step same =
      unless_lease_error-Holds given view documented s _ false
        (bind-Kept given view documented s
          (forget given view documented s
            (write-Holds given view documented s job_id st st' e version own step same))
          λ _ t later. pure-Kept given view documented t true)
        (λ t. tt)

  exhaust-Kept :
      (s : Adapter World Handle) (message : Message Handle) (job_id : Text) (st : JobState)
      (e : Etag) (contract : WorkContract)
      → view.version (job_name job_id) e ≡ job st
      → st.job_id ≡ job_id
      → is_open st ≡ true
      → Kept given view documented (exhaust given options message st e contract) s
  unfolding exhaust
  exhaust-Kept s message job_id st e contract version own fresh =
      bind-Kept given view documented s
        (attempt-Kept s job_id st (exhausted st contract) e version own (ends _ fresh) refl)
        λ written t later.
          Rules.choose-Holds (Later-IsPreorder given view documented) t written _ (pure nothing)
            (λ _.
              bind-Kept given view documented t (delete-Kept t message)
                λ _ u after. pure-Kept given view documented u nothing)
            (λ _. pure-Kept given view documented t nothing)

  keep_claim-Kept :
      (s : Adapter World Handle) (message : Message Handle) (st : JobState)
      (contract : WorkContract) (token : Text) (expires : ℕ)
      → Kept given view documented (keep_claim given options message st contract token expires) s
  unfolding keep_claim
  keep_claim-Kept s message st contract token expires =
      Rules.lift_bind (Later-IsPreorder given view documented) s _ λ receipt given_receipt.
        Rules.modify_bind (Later-IsPreorder given view documented) s _
          (modify-Later given view documented s _ (put-IsKeyed s.claims token _ refl))
          (pure-Kept given view documented _ _)

  grant-Kept :
      (s : Adapter World Handle) (message : Message Handle) (job_id : Text) (st : JobState)
      (e : Etag) (contract : WorkContract) (now : ℕ)
      → view.version (job_name job_id) e ≡ job st
      → st.job_id ≡ job_id
      → is_open st ≡ true
      → given.validate_contract st.contract ≡ ok contract
      → is_leased st.lease_expires_at (st.started_at + contract.budget.wall_seconds) now ≡ false
      → (leb contract.budget.max_attempts st.attempt_number
          || leb (st.started_at + contract.budget.wall_seconds) now)
        ≡ false
      → Kept given view documented (grant given options message st e contract now) s
  unfolding grant
  grant-Kept s message job_id st e contract now version own fresh valid unleased left =
      let expires =
        min (now + options.lease_seconds) (st.started_at + contract.budget.wall_seconds) in
      bind-Kept given view documented s (unique_token-Kept s) λ token t later.
        bind-Kept given view documented t
          (attempt-Kept t job_id st (claimed st (given.token_hash token) expires) e version own
            (claims (given.token_hash token) contract now expires valid fresh unleased
              (ground arith) (ground arith) (omega arith))
            refl)
          λ written u after.
            Rules.choose-Holds (Later-IsPreorder given view documented) u written _ (pure nothing)
              (λ _. keep_claim-Kept u message st contract token expires)
              (λ _. pure-Kept given view documented u nothing)

  claim_open-Kept :
      (s : Adapter World Handle) (message : Message Handle) (job_id : Text) (st : JobState)
      (e : Etag)
      → view.version (job_name job_id) e ≡ job st
      → st.job_id ≡ job_id
      → is_open st ≡ true
      → Kept given view documented (claim_open given options message st e) s
  unfolding claim_open
  claim_open-Kept s message job_id st e version own fresh =
      call_bind given view documented s given.clock documented.clock_quiet λ now t later came.
        Rules.lift_bind (Later-IsPreorder given view documented) t _ λ contract valid.
          Rules.choose-Holds (Later-IsPreorder given view documented) t _ (pure nothing) _
            (λ _. pure-Kept given view documented t nothing)
            λ unleased.
              Rules.choose-Holds (Later-IsPreorder given view documented) t _
                (exhaust given options message st e contract)
                (grant given options message st e contract now)
                (λ _. exhaust-Kept t message job_id st e contract version own fresh)
                (λ left.
                  grant-Kept t message job_id st e contract now version own fresh valid unleased
                    left)

  claim_message-Kept :
      (s : Adapter World Handle) (message : Message Handle)
      → Kept given view documented (claim_message given options message) s
  unfolding claim_message
  claim_message-Kept s message =
      Rules.lift_bind (Later-IsPreorder given view documented) s _ λ job_id named.
        Rules.bind-Holds (Later-IsPreorder given view documented)
          {P = HasRead given view documented job_id} s (read-Holds given view documented s job_id)
          λ found t later has.
            Rules.choose-Holds (Later-IsPreorder given view documented) t _ _ _
              (λ _.
                bind-Kept given view documented t (delete-Kept t message)
                  λ _ u after. pure-Kept given view documented u settled_reference)
              λ unaccepted.
                Rules.choose-Holds (Later-IsPreorder given view documented) t _ _
                  (claim_open given options message found.0 found.1)
                  (λ _.
                    bind-Kept given view documented t (delete-Kept t message)
                      λ _ u after. pure-Kept given view documented u nothing)
                  λ unended.
                    claim_open-Kept t message job_id found.0 found.1 has.version has.own
                      (ground arith)

  drain_message-Kept :
      (s : Adapter World Handle) (again : M given Outcome) (message : Option (Message Handle))
      → ((t : Adapter World Handle) → Kept given view documented again t)
      → Kept given view documented (drain_message given options again message) s
  drain_message-Kept s again none kept = pure-Kept given view documented s nothing
  drain_message-Kept s again (some message) kept =
      bind-Kept given view documented s (claim_message-Kept s message) λ result u after.
        Rules.choose-Holds (Later-IsPreorder given view documented) u (is_settled result) again
          (pure result) (λ _. kept u) (λ _. pure-Kept given view documented u result)

  drain-Kept :
      (n : ℕ) (s : Adapter World Handle) → Kept given view documented (drain given options n) s
  unfolding drain
  drain-Kept zero s = pure-Kept given view documented s nothing
  drain-Kept (suc left) s =
      call_bind given view documented s _ (documented.receive_quiet _) λ message t later came.
        drain_message-Kept t (drain given options left) message (drain-Kept left)

  pub claim-Kept : (s : Adapter World Handle) → Kept given view documented (claim given options) s
  unfolding claim prune_claims
  claim-Kept s =
      bind-Kept given view documented s
        (call_bind given view documented s given.clock documented.clock_quiet λ now t later came.
          Rules.weaken-Holds (Later-IsPreorder given view documented) t
            (Rules.modify-Holds (Later-IsPreorder given view documented) t _
              (modify-Later given view documented t _ (live_claims-IsKeyed now t.claims)))
            (λ _ _ _ _. tt))
        λ _ t later.
          Rules.gets_bind (Later-IsPreorder given view documented) t _
            (λ (x : Adapter World Handle). x.claims)
            (Rules.choose-Holds (Later-IsPreorder given view documented) t _ (pure nothing) _
              (λ _. pure-Kept given view documented t nothing)
              λ _.
                bind-Kept given view documented t
                  (recover_notifications-Kept given view documented options t)
                  λ _ u after. drain-Kept options.accepted_trigger_drain_limit u)
