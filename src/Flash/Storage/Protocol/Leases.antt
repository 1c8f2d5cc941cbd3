-- ===== src/Flash/Storage/Protocol/Leases.antt =====
-- renew and abandon follow the protocol.
use long_haul.Prelude.{ℕ, ◌+◌, ◌<◌, min, ◌≡◌, refl, true, Option, none, some, arith, Text}
use long_haul.Prelude.Results.{ok}
use long_haul.Work.Contracts.{WorkContract}
use long_haul.Flash.Exec.Rules
use long_haul.Flash.Exec.Rules.{IsPreorder, Holds}
use long_haul.Flash.Storage.{JobState, Services, Adapter}
use long_haul.Flash.Storage.Blobs.{job_name}
use long_haul.Flash.Storage.Protocol.{renews, releases, Evolves-trans, View, IsDocumented}
use long_haul.Flash.Storage.{FlashStorageOptions, ClaimContext}
use long_haul.Prelude.Dict.{get}
use long_haul.Flash.Storage.Holding.{
  known, is_current, lease_end, released, extended, require_claim, current, set_claim, drop_claim,
  renew_state, renew, abandon,
}
use long_haul.Flash.Storage.Protocol.{is_open}
use long_haul.Flash.Storage.Protocol.Keyed.{IsKeyed, get-IsKeyed, put-IsKeyed, pop-IsKeyed}
use long_haul.Flash.Storage.Protocol.Rules.{
  Later, Later-IsPreorder, modify-Later, call_bind, Kept, bind-Kept, forget, pure-Kept,
}
use long_haul.Flash.Storage.Protocol.ReadWrite.{HasRead, read-Holds, write-Holds}

module _ {World Etag Handle Json : Type 0} (given : Services World Etag Handle Json)
    (view : View World Etag) (documented : IsDocumented given view)
    (options : FlashStorageOptions) where
  -- What _require_claim has tested: the claim is the current one, and a reading of the clock is
  -- before its end.
  pub record IsHeld (context : ClaimContext Handle) (state : JobState) : Type 0 where
    pub contract : WorkContract
    pub now : ℕ
    pub valid : given.validate_contract state.contract ≡ ok contract
    pub own : is_current context state (given.token_hash context.token) ≡ true
    pub alive : now < lease_end state contract

  pub require_claim-Holds :
      (s : Adapter World Handle) (context : ClaimContext Handle) (state : JobState)
      → Holds
          (Later given view documented)
          (require_claim given options context state)
          s
          (λ _ _. IsHeld context state)
  unfolding require_claim
  require_claim-Holds s context state =
      Rules.guard_bind (Later-IsPreorder given view documented) s _ _ λ own.
        call_bind given view documented s given.clock documented.clock_quiet λ now t later came.
          Rules.lift_bind (Later-IsPreorder given view documented) t
            (given.validate_contract state.contract)
            λ contract valid.
              Rules.weaken-Holds (Later-IsPreorder given view documented) t
                (Rules.raise_when-Holds (Later-IsPreorder given view documented) t _ _)
                λ _ u after passed. record {
                  contract = contract;
                  now = now;
                  valid = valid;
                  own = ground arith;
                  alive = ground (arith, passed.0);
                }

  known-own :
      (s : Adapter World Handle) (token : Text) (context : ClaimContext Handle)
      → IsKeyed s.claims
      → known given options (get s.claims token) ≡ ok context
      → context.token ≡ token
  known-own s token context keyed h =
      get-IsKeyed s.claims token context keyed (found (get s.claims token) h)
    where
      found :
          (o : Option (ClaimContext Handle)) → known given options o ≡ ok context → o ≡ some context
      found none e = absurd (ground arith)
      found (some c) e = ground arith

  pub current-Holds :
      (s : Adapter World Handle) (token : Text)
      → IsKeyed s.claims
      → Holds (Later given view documented) (current given options token) s (λ held t.
        HasRead given view documented held.0.job_id held.1 t
        × (held.0.token ≡ token)
        × IsHeld held.0 held.1.0)
  unfolding current
  current-Holds s token keyed =
      Rules.gets_bind (Later-IsPreorder given view documented) s _
        (λ (x : Adapter World Handle). x.claims)
        (Rules.lift_bind (Later-IsPreorder given view documented) s _ λ context known.
          Rules.bind-Holds (Later-IsPreorder given view documented)
            {P = HasRead given view documented context.job_id} s
            (read-Holds given view documented s context.job_id)
            λ found t later has.
              Rules.bind-Holds (Later-IsPreorder given view documented)
                {P = λ _ _. IsHeld context found.0} t (require_claim-Holds t context found.0)
                λ _ u after held. Rules.pure-Holds (Later-IsPreorder given view documented) u _ (
                  HasRead-later context.job_id found t u after has,
                  known-own s token context keyed known,
                  held,
                ))
    where
      HasRead-later :
          (id : Text) (found : JobState × Etag) (t u : Adapter World Handle)
          → Later given view documented t u
          → HasRead given view documented id found t
          → HasRead given view documented id found u
      HasRead-later id found t u after has = record {
        version = has.version;
        own = has.own;
        since = Evolves-trans given.validate_contract has.since (after.world.job (job_name id));
      }

  open_of_current :
      (context : ClaimContext Handle) (state : JobState)
      → IsHeld context state
      → is_open state ≡ true
  open_of_current context state held = ground (arith, held.own)

  renew_state-Kept :
      (s : Adapter World Handle) (token : Text) (context : ClaimContext Handle) (deadline : ℕ)
      → context.token ≡ token
      → Kept given view documented (renew_state given options token context deadline) s
  unfolding renew_state set_claim
  renew_state-Kept s token context deadline own =
      call_bind given view documented s given.clock documented.clock_quiet
        λ renewed_at t later came.
          Rules.bind-Holds (Later-IsPreorder given view documented)
            {P = HasRead given view documented context.job_id} t
            (read-Holds given view documented t context.job_id)
            λ found u after has.
              Rules.bind-Holds (Later-IsPreorder given view documented)
                {P = λ _ _. IsHeld context found.0} u (require_claim-Holds u context found.0)
                λ _ v next held.
                  Rules.guard_bind (Later-IsPreorder given view documented) v _ _ λ fits.
                    bind-Kept given view documented v
                      (forget given view documented v (
                        write-Holds given view documented v context.job_id found.0
                          (extended found.0 (min (renewed_at + options.lease_seconds) deadline))
                          found.1 has.version has.own
                          (renews held.contract held.now
                            (min (renewed_at + options.lease_seconds) deadline) held.valid
                            (open_of_current context found.0 held) held.alive)
                          refl))
                      λ _ x written.
                        Rules.modify_bind (Later-IsPreorder given view documented) x _
                          (modify-Later given view documented x _
                            (put-IsKeyed x.claims token _ own))
                          (pure-Kept given view documented _ _)

  pub renew-Kept :
      (s : Adapter World Handle) (token : Text)
      → IsKeyed s.claims
      → Kept given view documented (renew given options token) s
  unfolding renew set_claim
  renew-Kept s token keyed =
      Rules.bind-Holds (Later-IsPreorder given view documented)
        {P = λ held t.
          HasRead given view documented held.0.job_id held.1 t
          × (held.0.token ≡ token)
          × IsHeld held.0 held.1.0}
        s (current-Holds s token keyed)
        λ held t later has.
          Rules.lift_bind (Later-IsPreorder given view documented) t _ λ contract valid.
            call_bind given view documented t given.clock documented.clock_quiet λ now t1 l1 c1.
              call_bind given view documented t1 given.clock documented.clock_quiet
                λ before t2 l2 c2.
                  Rules.guard_bind (Later-IsPreorder given view documented) t2 _ _ λ alive.
                    call_bind given view documented t2 given.clock documented.clock_quiet
                      λ again t3 l3 c3.
                        Rules.guard_bind (Later-IsPreorder given view documented) t3 _ _ λ fits.
                          call_bind given view documented t3 given.clock documented.clock_quiet
                            λ last t4 l4 c4.
                              call_bind given view documented t4 _ (documented.update_quiet _ _ _)
                                λ updated t5 l5 c5.
                                  Rules.lift_bind (Later-IsPreorder given view documented) t5 _
                                    λ receipt rotated.
                                      Rules.modify_bind (Later-IsPreorder given view documented) t5
                                        _
                                        (modify-Later given view documented t5 _
                                          (put-IsKeyed t5.claims token _ has.1))
                                        (renew_state-Kept _ token
                                          (record held.0 { pop_receipt = receipt })
                                          (held.1.0.started_at + contract.budget.wall_seconds)
                                          has.1)

  pub abandon-Kept :
      (s : Adapter World Handle) (token : Text)
      → IsKeyed s.claims
      → Kept given view documented (abandon given options token) s
  unfolding abandon drop_claim
  abandon-Kept s token keyed =
      Rules.bind-Holds (Later-IsPreorder given view documented)
        {P = λ held t.
          HasRead given view documented held.0.job_id held.1 t
          × (held.0.token ≡ token)
          × IsHeld held.0 held.1.0}
        s (current-Holds s token keyed)
        λ held t later has.
          bind-Kept given view documented t
            (forget given view documented t (
              write-Holds given view documented t held.0.job_id held.1.0 (released held.1.0)
                held.1.1 has.0.version has.0.own (releases (open_of_current held.0 held.1.0 has.2))
                refl))
            λ _ u written.
              call_bind given view documented u _ (documented.update_quiet _ _ _) λ updated v l c.
                Rules.weaken-Holds (Later-IsPreorder given view documented) v
                  (Rules.modify-Holds (Later-IsPreorder given view documented) v _
                    (modify-Later given view documented v _ (pop-IsKeyed v.claims token)))
                  (λ _ _ _ _. tt)
